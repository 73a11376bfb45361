-- ===== src/Server/Config/Toml.antt =====
-- server/config.rs: what `serde` makes of a TOML document by the attributes of the configuration. The
-- document is what the `toml` crate has read: every table by its path, the root and those that a
-- longer path implies included. A value of another kind, such as a float or an array, is `other`.
use mathlib.Core.Option
use loophole.Base.{
  ℕ, ◌^◌, Bool, true, false, Option, none, some, List, [], ◌∷◌, ltb, if◌then◌else◌, ◌>>=◌, is_some,
  is_empty, ◌&&◌,
}
use loophole.Text.{Text, codes, ◌==◌}
use loophole.Map
use loophole.Map.{Map}
use loophole.Server.Config.Defs.{
  TokenConfig, ServerConfig, HttpsConfig, LimitsConfig, Config, config_version, default_http_port,
  default_https_port, default_request_timeout, default_max_body, default_idle_timeout,
  default_acme_directory, default_certs_dir, default_limits,
}

pub data Value : Type 0 where
  string : Text → Value
  integer : ℕ → Value
  boolean : Bool → Value
  other : Value

abbrev pub Table : Type 0
Table = Map Value

abbrev pub Toml : Type 0
Toml = List (List Text × Table)

-- The types of the fields: a text, a number of so many bits, a truth value.
abbrev as_text : Value → Option Text
as_text (string s) = some s
as_text _ = none

abbrev as_uint : ℕ → Value → Option ℕ
as_uint bits (integer n) = if ltb n (2 ^ bits) then some n else none
as_uint bits _ = none

abbrev as_bool : Value → Option Bool
as_bool (boolean b) = some b
as_bool _ = none

-- A field with a default, one that must be there, and one that may be missing.
abbrev field_or : {A : Type 0} → (Value → Option A) → Table → Text → A → Option A
field_or read t name default = elim (Map.get t name) [ none ↦ some default | some v ↦ read v ]

abbrev required : {A : Type 0} → (Value → Option A) → Table → Text → Option A
required read t name = elim (Map.get t name) [ none ↦ none | some v ↦ read v ]

abbrev optional : {A : Type 0} → (Value → Option A) → Table → Text → Option (Option A)
optional read t name = elim (Map.get t name) [
  | none ↦ some none
  | some v ↦ Option.map some (read v)
]

abbrev same_path : List Text → List Text → Bool
same_path [] [] = true
same_path [] (q ∷ qs) = false
same_path (p ∷ ps) [] = false
same_path (p ∷ ps) (q ∷ qs) = p == q && same_path ps qs

-- The table with a path.
unfoldable pub table_at : Toml → List Text → Option Table
table_at [] path = none
table_at ((p, t) ∷ ts) path = if same_path p path then some t else table_at ts path

unfoldable pub server_config : Table → Option ServerConfig
server_config t = do
  domain ← required as_text t (codes "domain")
  http_port ← field_or (as_uint 16) t (codes "http_port") default_http_port
  https_port ← field_or (as_uint 16) t (codes "https_port") default_https_port
  some (record { domain = domain; http_port = http_port; https_port = https_port })

unfoldable pub https_config : Table → Option HttpsConfig
https_config t = do
  email ← required as_text t (codes "email")
  directory ← field_or as_text t (codes "directory") default_acme_directory
  certs_dir ← field_or as_text t (codes "certs_dir") default_certs_dir
  staging ← field_or as_bool t (codes "staging") false
  ca_file ← optional as_text t (codes "ca_file")
  some (record {
    email = email;
    directory = directory;
    certs_dir = certs_dir;
    staging = staging;
    ca_file = ca_file;
  })

unfoldable pub limits_config : Table → Option LimitsConfig
limits_config t = do
  request_timeout ← field_or (as_uint 64) t (codes "request_timeout_secs") default_request_timeout
  max_body ← field_or (as_uint 64) t (codes "max_request_body_bytes") default_max_body
  idle_timeout ← field_or (as_uint 64) t (codes "idle_tunnel_timeout_secs") default_idle_timeout
  some (record {
    request_timeout_secs = request_timeout;
    max_request_body_bytes = max_body;
    idle_tunnel_timeout_secs = idle_timeout;
  })

unfoldable pub token_config : Table → Option TokenConfig
token_config t = do
  admin ← field_or as_bool t (codes "admin") false
  some (record { admin = admin })

-- The tables below `tokens`.
unfoldable pub token_configs : Toml → Option (Map TokenConfig)
token_configs [] = some []
token_configs (((section ∷ name ∷ []), t) ∷ ts) =
    if section == codes "tokens"
    then (do config ← token_config t; rest ← token_configs ts; some ((name, config) ∷ rest))
    else token_configs ts
token_configs (_ ∷ ts) = token_configs ts

-- A table that may be missing, with what is made of it.
abbrev table_or : {A : Type 0} → (Table → Option A) → Option Table → A → Option A
table_or make none default = some default
table_or make (some t) default = make t

-- `https`, or `acme` by its alias, but not both.
abbrev https_table : Toml → Option (Option Table)
https_table doc = elim (table_at doc (codes "https" ∷ [])) [
  | none ↦ some (table_at doc (codes "acme" ∷ []))
  | some t ↦ if is_some (table_at doc (codes "acme" ∷ [])) then none else some (some t)
]

-- `tokens` must be there and hold nothing but tables.
abbrev has_tokens : Toml → Bool
has_tokens doc = elim (table_at doc (codes "tokens" ∷ [])) [ none ↦ false | some t ↦ is_empty t ]

abbrev https_of : Option Table → Option (Option HttpsConfig)
https_of none = some none
https_of (some t) = Option.map some (https_config t)

-- `Config`, as `Deserialize` is derived for it.
unfoldable pub deserialize : Toml → Option Config
unfolding server_config https_config limits_config token_configs token_config table_at
deserialize doc = do
  version ← elim (table_at doc []) [
    | none ↦ some config_version
    | some root ↦ field_or (as_uint 32) root (codes "version") config_version
  ]
  server_table ← table_at doc (codes "server" ∷ [])
  server ← server_config server_table
  tokens ← token_configs doc
  limits ← table_or limits_config (table_at doc (codes "limits" ∷ [])) default_limits
  https_section ← https_table doc
  https ← https_of https_section
  if has_tokens doc
      then some (record {
        version = version;
        server = server;
        tokens = tokens;
        limits = limits;
        https = https;
      })
      else none
