-- ===== src/Expose/Run/Tests.antt =====
-- A client that `loophole expose` starts, at a concrete server.
use loophole.Base.{some, refl, true, false, none, [], ◌∷◌, ok, ◌≡◌, List, is_some, arith}
use loophole.Text.{codes}
use loophole.Map
use loophole.Server.Registry
use loophole.Server.Config.Defs.{Config, default_limits}
use loophole.Server.Acme.Client.{Order, nothing}
use loophole.Server.Tls.Defs.{Pem}
use loophole.Server.Router.Defs.{ServerState}
use loophole.Text.{◌==◌}
use mathlib.Core.List.Memᴰ.{head, tail}
use loophole.Console.{Console}
use loophole.Proto.{ServerMessage}
use loophole.Proto.Sample.{codec, codec-IsCodec}
use loophole.Server.Config.Defs.{validate_token}
use loophole.Server.Handler.Defs.{tunnel_url, negotiate}
use loophole.Expose.Client.Defs.{TunnelClient, connect}
use loophole.Expose.Client.Handshake.{sent_as, first_of}
use loophole.Expose.Reconnect as Reconnect
use loophole.Expose.Run.Defs.{run}
use loophole.Expose.Run.Command.{Draw, expose}
use loophole.Expose.Run.Connects.{expose-connects}
use loophole.Cli.Credentials.{absent, credentials}

abbrev config : Config
config = record {
  version = 1;
  server = record { domain = codes "ex.com"; http_port = 80; https_port = 443 };
  tokens = (codes "tk_b", record { admin = true }) ∷ [];
  limits = default_limits;
  https = none;
}

abbrev state : ServerState
state = record { config = config; registry = Registry.new; cert_manager = none }

abbrev pem : Pem
pem = record { certs = λ _. []; private_key = λ _. ok none; any_supported_type = λ _. none }

abbrev order : Order
order = record {
  created = false;
  authorizations = none;
  key_authorization = λ t. t;
  csr_made = false;
  key_pem = [];
  finalized = false;
  download = nothing;
  polls = [];
  saved = false;
}

abbrev draw : Draw
draw = record { adj = codes "eager"; noun = codes "fox"; num = 42 }

abbrev console : Console
console = record {
  stdin = [];
  secrets = [];
  printed = [];
  files = [];
  ran = [];
  may_write = λ _. true;
  may_create = λ _. true;
}

token_known : is_some (validate_token config (codes "tk_b")) ≡ true
unfolding validate_token Map.get ◌==◌
token_known = refl

given :
    credentials (λ _. none) absent (some (codes "http://ex.com")) (some (codes "tk_b"))
    ≡ ok (codes "http://ex.com", codes "tk_b")
unfolding credentials
given = refl

expose-connects_example :
    (client : TunnelClient) × ((expose
        (λ _. none)
        absent
        (λ s. some s)
        draw
        (some (codes "http://ex.com"))
        (some (codes "tk_b"))
        none
        (codes "localhost")
        3_000
        3
        []
        console).1
      ≡ ok (client, run 3 Reconnect.new []))
    × (client.server ≡ codes "http://ex.com")
    × (hello : ServerMessage) × (rest : List ServerMessage) × ((negotiate codec pem state
          (first_of codec client)
          true
          order).sent
        ≡ hello ∷ rest)
    × (connect codec client true true (sent_as codec hello)
        ≡ ok (client.subdomain, tunnel_url state.config client.subdomain))
expose-connects_example =
    expose-connects (λ _. none) absent (λ s. some s) draw (some (codes "http://ex.com"))
      (some (codes "tk_b")) (codes "localhost") 3_000 3 [] codec pem state order
      (codes "http://ex.com") (codes "tk_b") _ console codec-IsCodec given refl
      (tail (tail (tail (head refl)))) (head refl) (omega arith) token_known
