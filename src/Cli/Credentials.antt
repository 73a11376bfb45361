-- ===== src/Cli/Credentials.antt =====
-- client_config.rs, and how the commands choose the server and the token. The TOML text of a
-- configuration is the work of the `toml` crate, an argument; the file is its content, if it exists.
use loophole.Base.{
  ℕ, ◌≡◌, Bool, Option, none, some, ◌++◌, Result, ok, err, eqb, unwrap_or, if◌then◌else◌, arith,
  ◌||◌,
}
use loophole.Text.{Text, codes, starts_with}

abbrev pub client_version : ℕ
client_version = 1

pub record ClientConfig : Type 0 where
  pub version : ℕ
  pub server : Text
  pub token : Text

unfoldable pub saved_config : Text → Text → ClientConfig
saved_config server token = record { version = client_version; server = server; token = token }

-- What is on the disk: no file, one that cannot be read, or a content.
pub data File : Type 0 where
  absent unreadable : File
  content : Text → File

unfoldable pub load : (Text → Option ClientConfig) → File → Result Text (Option ClientConfig)
load toml absent = ok none
load toml unreadable = err (codes "Failed to read config")
load toml (content s) = elim (toml s) [
  | none ↦ err (codes "Failed to parse config")
  | some config ↦
      if eqb config.version client_version
      then ok (some config)
      else err (codes "Config file version is not supported")
]

-- The file after a save that succeeds.
unfoldable pub save : (ClientConfig → Text) → ClientConfig → File
save to_toml config = content (to_toml config)

-- The server and the token of `expose` and `test`: those given, else those of the file.
unfoldable pub credentials :
    (Text → Option ClientConfig) → File → Option Text → Option Text → Result Text (Text × Text)
credentials toml file (some server) (some token) = ok (server, token)
credentials toml file server token = elim (load toml file) [
  | err e ↦ err e
  | ok none ↦ err (codes "Not logged in")
  | ok (some config) ↦ ok (unwrap_or server config.server, unwrap_or token config.token)
]

abbrev has_scheme : Text → Bool
has_scheme server = starts_with server (codes "http://") || starts_with server (codes "https://")

-- The URL that `login` keeps.
unfoldable pub normalized : Text → Text
normalized server = if has_scheme server then server else codes "https://" ++ server

-- After a login every later command that is given nothing uses the same server and token.
pub credentials-save :
    (toml : Text → Option ClientConfig) (to_toml : ClientConfig → Text) (server token : Text)
    → ((c : ClientConfig) → toml (to_toml c) ≡ some c)
    → credentials toml (save to_toml (saved_config (normalized server) token)) none none
      ≡ ok (normalized server, token)
unfolding credentials save load saved_config
credentials-save toml to_toml server token h =
    ground (arith, h (saved_config (normalized server) token))
