-- ===== src/Server/Start/Defs.antt =====
-- `run`: the values that it puts together, and the events that end it.
use loophole.Base.{
  ℕ, Bool, true, false, Option, none, some, List, [], ◌∷◌, Result, ok, err, if◌then◌else◌, is_some,
}
use loophole.Text.{Text, codes}
use loophole.Map
use loophole.Console.{Action, pure, raise, or_raise, ◌>>=◌}
use loophole.Server.Registry
use loophole.Server.Config.Defs.{Config, HttpsConfig}
use loophole.Server.Config.Env.{ConfigError, load_or_from_env}
use loophole.Server.Acme.Store
use loophole.Server.Acme.Client.{Order}
use loophole.Server.Acme.Account.{Accounts, new_with_roots, root_store}
use loophole.Server.Tls.Defs as Tls
use loophole.Server.Tls.Defs.{Pem, DirEntry, CertManager, has_cert, request_cert}
use loophole.Server.Router.Defs.{ServerState}
use loophole.Server.Router.Routes.{Route, Handler, create_router, create_acme_router}

abbrev pub staging_directory : Text
staging_directory = codes "https://acme-staging-v02.api.letsencrypt.org/directory"

unfoldable pub directory_url : HttpsConfig → Text
directory_url https = if https.staging then staging_directory else https.directory

-- What is outside: the parser of TOML, whether a path is there, the variables, the roots of trust
-- (those built in, those that a store takes, the reader of a PEM file), the certificates in a
-- directory (`none` where it cannot be made or read), and the accounts.
pub record Outside (Account Credentials : Type 0) : Type 0 where
  pub toml : Text → Option Config
  pub env : Text → Option Text
  pub built_in : List Text
  pub takes : Text → Bool
  pub read_certs : Text → List (Option Text)
  pub pem : Pem
  pub entries : Text → Option (List DirEntry)
  pub accounts : Accounts Account Credentials

-- What `run` has started: the state that the handlers share, the account, the limit of the cleanup
-- task in seconds, the HTTP server (its port, its routes and what answers all else) and the HTTPS
-- server.
pub record Started (Account : Type 0) : Type 0 where
  pub state : ServerState
  pub account : Option Account
  pub idle_timeout : ℕ
  pub http : ℕ × (List Route × Handler)
  pub https : Option (ℕ × List Route)

-- The text of an error of the configuration is not modelled further.
abbrev pub loaded : Result ConfigError Config → Action Config
loaded (ok config) = pure config
loaded (err e) = raise (codes "Failed to load configuration")

module _ {Account Credentials : Type 0} (out : Outside Account Credentials) where
  -- The file of a CA that is added to the roots.
  unfoldable pub roots : Option Text → Action (List Text)
  roots none = pure (root_store out.takes out.built_in [])
  roots (some ca_file) = λ c. elim (Map.get c.files ca_file) [
    | none ↦ raise (codes "Failed to read CA file") c
    | some pem_data ↦ pure (root_store out.takes out.built_in (out.read_certs pem_data)) c
  ]

  -- The ACME client and the certificates, where HTTPS is configured.
  unfoldable pub setup_https : Config → Option HttpsConfig → Action (Option (Account × CertManager))
  setup_https config none = pure none
  setup_https config (some https) = do
    trusted ← roots https.ca_file
    account ← new_with_roots out.accounts https.email (directory_url https) https.certs_dir trusted
    entries ← or_raise (out.entries https.certs_dir) (codes "Failed to read certs directory")
    pure (some (account, Tls.new out.pem entries true Store.new config.server.domain))

  abbrev account_of : Option (Account × CertManager) → Option Account
  account_of none = none
  account_of (some (a, m)) = some a

  abbrev manager_of : Option (Account × CertManager) → Option CertManager
  manager_of none = none
  manager_of (some (a, m)) = some m

  -- The servers and tasks for a configuration.
  unfoldable pub serve : Config → Option (Account × CertManager) → Started Account
  serve config certs = record {
    state = record { config = config; registry = Registry.new; cert_manager = manager_of certs };
    account = account_of certs;
    idle_timeout = config.limits.idle_tunnel_timeout_secs;
    http = (config.server.http_port, create_acme_router (is_some (manager_of certs)));
    https = elim certs [ none ↦ none | some _ ↦ some (config.server.https_port, create_router) ];
  }

  unfoldable pub start : Text → Action (Started Account)
  start config_path = do
    config ← (λ c.
        loaded
          (load_or_from_env (Map.get c.files) out.toml (Map.contains_key c.files) out.env
            (some config_path))
          c)
    certs ← setup_https config config.https
    pure (serve config certs)

-- The task that asks for the certificate of the base domain once the HTTP server runs.
unfoldable pub request_base_cert :
    Pem → CertManager → Text → Order → CertManager × Option (Result Text (Unit {0}))
request_base_cert pem m base_domain order =
    if has_cert m base_domain then (m, some (ok tt)) else request_cert pem m base_domain order

-- What ends `run`: the end of a server, with its error if it has one, or a signal.
pub data Event : Type 0 where
  http_ended https_ended : Option Text → Event
  ctrl_c terminate : Event

-- The result of `run` after what happens, and whether the shutdown was sent to the tasks; `none`
-- while it runs. Without HTTPS there is no HTTPS server to end.
unfoldable pub wait : Bool → List Event → Option (Result Text (Unit {0}) × Bool)
wait has_https [] = none
wait has_https (http_ended e ∷ es) = some (ok tt, false)
wait has_https (https_ended e ∷ es) = elim has_https [
  | true ↦ some (ok tt, false)
  | false ↦ wait has_https es
]
wait has_https (ctrl_c ∷ es) = some (ok tt, true)
wait has_https (terminate ∷ es) = some (ok tt, true)
