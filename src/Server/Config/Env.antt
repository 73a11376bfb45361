-- ===== src/Server/Config/Env.antt =====
-- The sources of a configuration: a TOML file or environment variables. Reading a file and parsing
-- TOML are the arguments `file` and `toml`; the environment is the argument `env`.
use mathlib.Core.Option
use loophole.Base.{
  ℕ, Bool, true, false, ◌||◌, Option, none, some, List, [], ◌∷◌, map, Result, ok, err, eqb,
  if◌then◌else◌, is_empty, unwrap_or, is_some,
}
use loophole.Base.Results.{◌>>=◌}
use loophole.Text.{Text, codes, ◌==◌, trim, split, eq_ignore_ascii_case}
use loophole.Text.Numbers.{parse_uint}
use loophole.Map
use loophole.Map.{Map}
use loophole.Server.Config.Defs.{
  TokenConfig, HttpsConfig, Config, config_version, default_http_port, default_https_port,
  default_request_timeout, default_max_body, default_idle_timeout, default_acme_directory,
  default_certs_dir,
}

pub data ConfigError : Type 0 where
  missing_variable : Text → ConfigError
  no_tokens : ConfigError
  unreadable_file malformed_file : ConfigError
  unsupported_version : ℕ → ConfigError
  file_not_found : Text → ConfigError
  no_configuration : ConfigError

-- The names of `mod env`.
abbrev pub domain_var : Text
domain_var = codes "LOOPHOLE_DOMAIN"

abbrev pub http_port_var : Text
http_port_var = codes "LOOPHOLE_HTTP_PORT"

abbrev pub https_port_var : Text
https_port_var = codes "LOOPHOLE_HTTPS_PORT"

abbrev pub tokens_var : Text
tokens_var = codes "LOOPHOLE_TOKENS"

abbrev pub admin_tokens_var : Text
admin_tokens_var = codes "LOOPHOLE_ADMIN_TOKENS"

abbrev pub acme_email_var : Text
acme_email_var = codes "LOOPHOLE_ACME_EMAIL"

abbrev pub acme_staging_var : Text
acme_staging_var = codes "LOOPHOLE_ACME_STAGING"

abbrev pub acme_directory_var : Text
acme_directory_var = codes "LOOPHOLE_ACME_DIRECTORY"

abbrev pub certs_dir_var : Text
certs_dir_var = codes "LOOPHOLE_CERTS_DIR"

abbrev pub request_timeout_var : Text
request_timeout_var = codes "LOOPHOLE_REQUEST_TIMEOUT_SECS"

abbrev pub max_body_var : Text
max_body_var = codes "LOOPHOLE_MAX_REQUEST_BODY_BYTES"

abbrev pub idle_timeout_var : Text
idle_timeout_var = codes "LOOPHOLE_IDLE_TUNNEL_TIMEOUT_SECS"

-- `env::var(name).ok().and_then(|s| s.parse().ok()).unwrap_or_else(default)`.
unfoldable pub number_or : ℕ → Option Text → ℕ → ℕ
number_or bits none default = default
number_or bits (some s) default = unwrap_or (parse_uint bits s) default

-- The non-empty names of a comma-separated list, trimmed.
unfoldable pub non_empty : List Text → List Text
non_empty [] = []
non_empty (t ∷ ts) = let rest = non_empty ts in if is_empty t then rest else t ∷ rest

unfoldable pub token_names : Text → List Text
unfolding non_empty
token_names s = non_empty (map trim (split b',' s))

unfoldable pub add_tokens : Bool → Map TokenConfig → List Text → Map TokenConfig
add_tokens admin m [] = m
add_tokens admin m (t ∷ ts) = add_tokens admin (Map.insert m t (record { admin = admin })) ts

-- The tokens, with the admin tokens added last.
unfoldable pub all_tokens : Text → Option Text → Map TokenConfig
unfolding add_tokens
all_tokens tokens_str none = add_tokens false [] (token_names tokens_str)
all_tokens tokens_str (some admin_str) =
    add_tokens true (add_tokens false [] (token_names tokens_str)) (token_names admin_str)

is_true : Text → Bool
is_true s = eq_ignore_ascii_case s (codes "true") || s == codes "1"

https_from_env : (Text → Option Text) → Text → HttpsConfig
unfolding is_true
https_from_env env email = record {
  email = email;
  directory = unwrap_or (env acme_directory_var) default_acme_directory;
  certs_dir = unwrap_or (env certs_dir_var) default_certs_dir;
  staging = unwrap_or (Option.map is_true (env acme_staging_var)) false;
  ca_file = none;
}

abbrev required : (Text → Option Text) → Text → Result ConfigError Text
required env name = elim (env name) [ none ↦ err (missing_variable name) | some s ↦ ok s ]

-- `Config::from_env`. A `usize` has 64 bits.
unfoldable pub from_env : (Text → Option Text) → Result ConfigError Config
unfolding number_or https_from_env
from_env env = do
  domain ← required env domain_var
  tokens_str ← required env tokens_var
  let tokens = all_tokens tokens_str (env admin_tokens_var)
  if is_empty tokens
      then err no_tokens
      else ok (record {
        version = config_version;
        server = record {
          domain = domain;
          http_port = number_or 16 (env http_port_var) default_http_port;
          https_port = number_or 16 (env https_port_var) default_https_port;
        };
        tokens = tokens;
        limits = record {
          request_timeout_secs = number_or 64 (env request_timeout_var) default_request_timeout;
          max_request_body_bytes = number_or 64 (env max_body_var) default_max_body;
          idle_tunnel_timeout_secs = number_or 64 (env idle_timeout_var) default_idle_timeout;
        };
        https = Option.map (https_from_env env) (env acme_email_var);
      })

module _ (file : Text → Option Text) (toml : Text → Option Config) where
  -- `Config::load`: the file is read, parsed, and its version checked.
  unfoldable pub load : Text → Result ConfigError Config
  load path = elim (file path) [
    | none ↦ err unreadable_file
    | some content ↦ elim (toml content) [
      | none ↦ err malformed_file
      | some config ↦
          if eqb config.version config_version
          then ok config
          else err (unsupported_version config.version)
    ]
  ]

  -- `Config::load_or_from_env`: the file if it exists, else the environment if it names a domain.
  unfoldable pub load_or_from_env :
      (Text → Bool) → (Text → Option Text) → Option Text → Result ConfigError Config
  load_or_from_env present env none =
      if is_some (env domain_var) then from_env env else err no_configuration
  load_or_from_env present env (some path) =
      if present path
      then load path
      else if is_some (env domain_var)
      then from_env env
      else err (file_not_found path)
