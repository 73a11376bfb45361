-- ===== src/Server/Config/Defs.antt =====
-- The configuration records with their defaults.
use loophole.Base.{ℕ, Bool, false, Option, ◌*◌, unwrap_or}
use loophole.Text.{Text, codes}
use loophole.Map
use loophole.Map.{Map}
use mathlib.Core.Option

pub record TokenConfig : Type 0 where
  pub admin : Bool

pub record ServerConfig : Type 0 where
  pub domain : Text
  pub http_port : ℕ
  pub https_port : ℕ

pub record HttpsConfig : Type 0 where
  pub email : Text
  pub directory : Text
  pub certs_dir : Text
  pub staging : Bool
  pub ca_file : Option Text

pub record LimitsConfig : Type 0 where
  pub request_timeout_secs : ℕ
  pub max_request_body_bytes : ℕ
  pub idle_tunnel_timeout_secs : ℕ

pub record Config : Type 0 where
  pub version : ℕ
  pub server : ServerConfig
  pub tokens : Map TokenConfig
  pub limits : LimitsConfig
  pub https : Option HttpsConfig

abbrev pub config_version : ℕ
config_version = 1

abbrev pub control_path : Text
control_path = codes "/_tunnel/connect"

abbrev pub default_http_port : ℕ
default_http_port = 80

abbrev pub default_https_port : ℕ
default_https_port = 443

abbrev pub default_request_timeout : ℕ
default_request_timeout = 30

abbrev pub default_max_body : ℕ
default_max_body = 10 * 1024 * 1024

abbrev pub default_idle_timeout : ℕ
default_idle_timeout = 3600

abbrev pub default_acme_directory : Text
default_acme_directory = codes "https://acme-v02.api.letsencrypt.org/directory"

abbrev pub default_certs_dir : Text
default_certs_dir = codes "/var/lib/loophole/certs"

-- `impl Default for LimitsConfig`.
abbrev pub default_limits : LimitsConfig
default_limits = record {
  request_timeout_secs = default_request_timeout;
  max_request_body_bytes = default_max_body;
  idle_tunnel_timeout_secs = default_idle_timeout;
}

unfoldable pub validate_token : Config → Text → Option TokenConfig
validate_token config token = Map.get config.tokens token

unfoldable pub validate_admin_token : Config → Text → Bool
validate_admin_token config token =
    unwrap_or (Option.map (λ t. t.admin) (Map.get config.tokens token)) false
