-- ===== src/Journey/Tests.antt =====
-- The way from `loophole init` to a login at concrete texts, with a writer of the client's file that
-- keeps the length of the server's URL.
use loophole.Base.{
  ◌≡◌, ◌≢◌, refl, true, false, Option, none, some, [], ◌∷◌, ◌++◌, ok, length, take, drop, arith,
  take-append_left, drop-append_left,
}
use loophole.Text.{Text, codes, ◌==◌}
use loophole.Text.Laws.{eq_iff}
use loophole.Text.Utf8.{Bytes}
use loophole.Map
use loophole.Console.{Console}
use loophole.Proto.Sample.{codec, codec-IsCodec}
use loophole.Server.Registry
use loophole.Server.Config.Defs.{validate_admin_token}
use loophole.Server.Config.Toml.{Toml}
use loophole.Server.Acme.Client.{Order, nothing}
use loophole.Server.Tls.Defs.{Pem}
use loophole.Server.Router.Defs.{ServerState}
use loophole.Setup.Token.{generate_token}
use loophole.Setup.Template.{service_path, default_config_path}
use loophole.Setup.Defs.{System}
use loophole.Setup.Run.{run}
use loophole.Setup.Written.{run-writes}
use loophole.Setup.Document.{tables, document}
use loophole.Setup.Loaded.{generated_config, load-generated}
use loophole.Cli.Credentials.{ClientConfig, credentials, normalized}
use loophole.Cli.Test
use loophole.Cli.Login.{login, config_path, file_at}
use loophole.Journey.{check_against, login-after_init}

abbrev random : Bytes
random = 1 ∷ 255 ∷ []

abbrev domain : Text
domain = codes "ex.com"

abbrev email : Text
email = codes "a@b.c"

abbrev token : Text
token = generate_token (codes "tk") random

abbrev toml : Text → Option Toml
toml _ = some (tables (document domain token email))

abbrev to_toml : ClientConfig → Text
to_toml c = c.version ∷ length c.server ∷ (c.server ++ c.token)

abbrev client_toml : Text → Option ClientConfig
client_toml (v ∷ n ∷ s) = some (record { version = v; server = take n s; token = drop n s })
client_toml s = none

client_toml-to_toml : (c : ClientConfig) → client_toml (to_toml c) ≡ some c
client_toml-to_toml c =
    rw (take-append_left c.server c.token, drop-append_left c.server c.token) refl

abbrev pem : Pem
pem = record { certs = λ _. []; private_key = λ _. ok none; any_supported_type = λ _. none }

abbrev order : Order
order = record {
  created = false;
  authorizations = none;
  key_authorization = λ t. t;
  csr_made = false;
  key_pem = [];
  finalized = false;
  download = nothing;
  polls = [];
  saved = false;
}

abbrev system : System
system = record {
  current_exe = some (codes "/usr/bin/loophole");
  systemctl = λ _. some true;
  is_active = some (codes "active");
}

abbrev console : Console
console = record {
  stdin = [];
  secrets = [];
  printed = [];
  files = [];
  ran = [];
  may_write = λ _. true;
  may_create = λ _. true;
}

abbrev state : ServerState
state = record {
  config = generated_config domain token email;
  registry = Registry.new;
  cert_manager = none;
}

paths_differ : service_path ≢ default_config_path
unfolding ◌==◌
paths_differ h = let same : false ≡ true = (eq_iff service_path default_config_path).1 h in cc

login-after_init_example :
    let after =
      login none to_toml
        (λ _. true)
        (check_against codec pem state order 17)
        (some domain)
        (some token)
        console in
    (after.1 ≡ ok tt)
    × (credentials client_toml (file_at after.0 (config_path none)) none none
        ≡ ok (normalized domain, token))
    × ((Test.run client_toml
          (file_at after.0 (config_path none))
          (check_against codec pem state order 17)
          none
          none
          after.0).1
        ≡ ok tt)
    × (validate_admin_token state.config token ≡ true)
unfolding Map.get
login-after_init_example =
    login-after_init toml client_toml to_toml codec pem system random domain email none none false
      (λ _. true) console console state order 17 (λ _. refl) client_toml-to_toml codec-IsCodec
      (omega arith) (omega arith, (omega arith, tt)) refl refl refl refl (λ dir _. ground arith)
      paths_differ
      (load-generated toml
        (Map.get (run system random (some domain) (some email) none false console).0.files)
        default_config_path domain email random (λ _. refl) (omega arith, (omega arith, tt)) refl
        refl
        (run-writes system random domain email none false console refl refl (λ dir _. ground arith)
          paths_differ))
      refl refl refl
