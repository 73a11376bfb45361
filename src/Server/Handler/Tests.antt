-- ===== src/Server/Handler/Tests.antt =====
-- The theorems of the connection handler at concrete connections.
use loophole.Base.{
  ◌≡◌, refl, inl, true, false, not, ◌&&◌, none, some, List, [], ◌∷◌, ok, if◌then◌else◌,
}
use loophole.Text.{Text, codes, ◌==◌, mem, len, starts_with, ends_with}
use loophole.Socket.{Polled, message, text, ended}
use loophole.Proto.{register, registered, pong, Codec}
use loophole.Server.Tunnel
use loophole.Server.Registry
use loophole.Server.Registry.Validation.{IsLabel, validate_subdomain_iff}
use loophole.Server.Config.Defs.{Config, default_limits, validate_token}
use loophole.Map
use loophole.Server.Acme.Client.{Order, nothing}
use loophole.Server.Tls.Defs.{Pem}
use loophole.Server.Router.Defs.{ServerState}
use loophole.Server.Handler.Defs.{
  Event, stream_request, inbound_stream, handle_websocket, serve, provide_certificate, full_domain,
  tunnel_url,
}
use loophole.Server.Handler.Registration.{Registers}
use loophole.Server.Handler.Lifetime.{handle_websocket-Registers, handle_websocket-taken}

abbrev config : Config
config = record {
  version = 1;
  server = record { domain = codes "ex.com"; http_port = 8080; https_port = 443 };
  tokens = (codes "tk_b", record { admin = true }) ∷ [];
  limits = default_limits;
  https = none;
}

abbrev state : ServerState
state = record { config = config; registry = Registry.new; cert_manager = none }

-- The subdomain is the whole text.
abbrev codec : Codec
codec = record {
  client_to_json = λ _. [];
  client_from_json = λ t. some (register (codes "tk_b") t);
  server_to_json = λ _. [];
  server_from_json = λ _. some pong;
}

abbrev pem : Pem
pem = record { certs = λ _. []; private_key = λ _. ok none; any_supported_type = λ _. none }

abbrev order : Order
order = record {
  created = false;
  authorizations = none;
  key_authorization = λ t. t;
  csr_made = false;
  key_pem = [];
  finalized = false;
  download = nothing;
  polls = [];
  saved = false;
}

abbrev first : Polled
first = some (message (text (codes "my-app")))

abbrev reserved_first : Polled
reserved_first = some (message (text (codes "admin")))

abbrev events : List Event
events = stream_request true ∷ inbound_stream ∷ stream_request false ∷ []

my-app-IsLabel : IsLabel (codes "my-app")
unfolding Registry.validate_subdomain len starts_with ends_with
my-app-IsLabel = (validate_subdomain_iff (codes "my-app")).0 refl

admin-IsLabel : IsLabel (codes "admin")
unfolding Registry.validate_subdomain len starts_with ends_with
admin-IsLabel = (validate_subdomain_iff (codes "admin")).0 refl

first-Registers : Registers codec config first (codes "tk_b") (codes "my-app")
unfolding validate_token Map.get ◌==◌
first-Registers = record {
  json = codes "my-app";
  came = refl;
  parsed = refl;
  known = refl;
  label = my-app-IsLabel;
}

reserved-Registers : Registers codec config reserved_first (codes "tk_b") (codes "admin")
unfolding validate_token Map.get ◌==◌
reserved-Registers = record {
  json = codes "admin";
  came = refl;
  parsed = refl;
  known = refl;
  label = admin-IsLabel;
}

ended-not : (token s : Text) → ¬ Registers codec config (some ended) token s
ended-not token s v = absurd (cc (v.came))

handle_websocket-Registers_example :
    Registry.get
      (handle_websocket codec pem state first true order 0 9 events).state.registry
      (codes "my-app")
    ≡ (if not (serve events).1 && codes "my-app" == codes "my-app"
        then some (Tunnel.new (codes "my-app") (codes "tk_b") 0 9)
        else Registry.get Registry.new (codes "my-app"))
handle_websocket-Registers_example =
    handle_websocket-Registers codec pem state first order 0 9 events (codes "tk_b")
      (codes "my-app") (codes "my-app") first-Registers (unfold provide_certificate in refl)
      (unfold Registry.new mem ◌==◌ in refl) (unfold Registry.new Registry.get Map.get in refl)

handle_websocket-taken_example :
    ((handle_websocket codec pem state reserved_first true order 0 9 events).sent
      ≡ registered (codes "admin") (tunnel_url config (codes "admin"))
        ∷ (provide_certificate pem state (full_domain config (codes "admin")) order).sent)
    × (Registry.get
          (handle_websocket codec pem state reserved_first true order 0 9 events).state.registry
          (codes "admin")
        ≡ Registry.get Registry.new (codes "admin"))
handle_websocket-taken_example =
    handle_websocket-taken codec pem state reserved_first order 0 9 events (codes "tk_b")
      (codes "admin") (codes "admin") reserved-Registers (unfold provide_certificate in refl)
      (inl (unfold Registry.new mem ◌==◌ in refl))
