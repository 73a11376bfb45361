-- ===== src/Setup/Loaded.antt =====
-- init.rs and server/config.rs: the configuration that the server loads from the generated file.
use loophole.Base.{◌<◌, ◌≡◌, refl, true, false, Option, none, some, [], ◌∷◌, map, ok, All, ◌>>=◌}
use loophole.Text.{Text, codes, ◌==◌}
use loophole.Text.Numbers.{to_string, digits_from}
use loophole.Text.Laws.{eq_refl}
use loophole.Text.Utf8.{Bytes}
use loophole.Map
use loophole.Map.{Map}
use loophole.Server.Config.Defs.{Config, default_limits, default_acme_directory}
use loophole.Server.Config.Env.{load}
use loophole.Server.Config.Toml.{Toml, deserialize}
use loophole.Setup.Token.{generate_token}
use loophole.Setup.Template.{config_lines, unlines, config_text}
use loophole.Setup.Run.{certs_dir}
use loophole.Setup.Plain.{generate_token-is_key, document-is_plain}
use loophole.Setup.Document.{Reads, document, render, tables, tables_from, is_plain}

-- The file is the text of the document.
config_text-render : (d t e : Text) → config_text d t e ≡ unlines (map render (document d t e))
unfolding config_text config_lines to_string digits_from
config_text-render d t e = refl

-- What the server is given to work with.
abbrev pub generated_config : Text → Text → Text → Config
generated_config domain token email = record {
  version = 1;
  server = record { domain = domain; http_port = 80; https_port = 443 };
  tokens = (token, record { admin = true }) ∷ [];
  limits = default_limits;
  https = some (record {
    email = email;
    directory = default_acme_directory;
    certs_dir = certs_dir;
    staging = false;
    ca_file = none;
  });
}

deserialize-document :
    (d t e : Text) → deserialize (tables (document d t e)) ≡ some (generated_config d t e)
unfolding deserialize tables tables_from Map.insert Map.get ◌==◌
deserialize-document d t e = rw (eq_refl t) refl

module _ (toml : Text → Option Toml) (files : Text → Option Text) (path d e : Text)
    (random : Bytes) where
  -- The server loads the file that is written for a plain domain and a plain email, if the reader of
  -- TOML reads its document: the domain and the email, the ports 80 and 443, the default limits,
  -- certificates from the production directory, and one token, with admin rights.
  pub load-generated :
      Reads toml (document d (generate_token (codes "tk") random) e)
      → All (λ b. b < 256) random
      → is_plain d ≡ true
      → is_plain e ≡ true
      → files path ≡ some (config_text d (generate_token (codes "tk") random) e)
      → load files (λ s. toml s >>= deserialize) path
        ≡ ok (generated_config d (generate_token (codes "tk") random) e)
  unfolding load
  load-generated reads bytes plain_d plain_e found =
      let t = generate_token (codes "tk") random in
      let read : toml (config_text d t e) ≡ some (tables (document d t e)) =
        rw (config_text-render d t e)
          (reads (document-is_plain d t e plain_d (generate_token-is_key random bytes) plain_e)) in
      rw (found, load, read, deserialize-document d t e) refl
