-- ===== src/Cli/Login.antt =====
-- login.rs: `run`, with the saving of client_config.rs. Whether a URL can be parsed, what the check of
-- the connection reports, the directory of the `dirs` crate and the writer of TOML are arguments.
use loophole.Base.{
  ◌≡◌, refl, sym, subst, ◌∙◌, ap, Bool, true, Option, none, some, [], ◌∷◌, ◌++◌, arith, Result, ok,
  err, unwrap_or, if◌then◌else◌,
}
use loophole.Text.{Text, codes}
use loophole.Map
use loophole.Map.{Map, get-insert_self}
use loophole.Console.{
  Console, Action, pure, raise, branch, ◌>>=◌, ◌>>◌, say, say_all, prompt, prompt_secret, given_or,
  write_file, bind-eq,
}
use loophole.Cli.Credentials.{ClientConfig, File, absent, content, saved_config, normalized, save}

abbrev pub config_dir : Option Text → Text
config_dir home = unwrap_or home (codes "~/.config") ++ codes "/loophole"

abbrev pub config_path : Option Text → Text
config_path home = config_dir home ++ codes "/config.toml"

-- The file of a path, as `load` finds it.
abbrev pub file_at : Console → Text → File
file_at c path = elim (Map.get c.files path) [ none ↦ absent | some s ↦ content s ]

file_at_lem :
    (c : Console) (path s : Text) → Map.get c.files path ≡ some s → file_at c path ≡ content s
file_at_lem c path s e = rw (e, file_at) refl

abbrev make_config_dir : Text → Action (Unit {0})
make_config_dir dir c =
    if c.may_create dir
    then (c, ok tt)
    else (c, err (codes "Failed to create config directory " ++ dir))

module _ (home : Option Text) (to_toml : ClientConfig → Text) (can_parse : Text → Bool)
    (check_connection : Text → Text → Result Text (Unit {0})) where
  -- `ClientConfig::save`.
  unfoldable pub save_config : ClientConfig → Action Text
  save_config config = do
    make_config_dir (config_dir home)
    write_file (config_path home) (to_toml config)
        (codes "Failed to write config to " ++ config_path home)
    pure (config_path home)

  -- What follows the check of the connection.
  unfoldable pub conclude : Text → Text → Result Text (Unit {0}) → Action (Unit {0})
  conclude server token (err e) = raise (codes "Login failed: " ++ e)
  conclude server token (ok _) = do
    path ← save_config (saved_config server token)
    say_all (
        (codes "✓ Logged in to " ++ server)
        ∷ (codes "✓ Credentials saved to " ++ path)
        ∷ codes ""
        ∷ codes "You can now expose local services:"
        ∷ codes "  loophole expose --subdomain myapp --port 3000"
        ∷ [])

  unfoldable pub login : Option Text → Option Text → Action (Unit {0})
  login server token = do
    given ←
        given_or server (prompt (codes "Server URL (e.g., https://tunnel.example.com)"))
          (codes "Server URL is required")
    let server = normalized given
    branch (can_parse server) (pure tt) (raise (codes "Invalid server URL: " ++ server))
    token ← given_or token (prompt_secret (codes "Token")) (codes "Token is required")
    say (codes "→ Validating credentials...")
    conclude server token (check_connection server token)

  save_config-get :
      (config : ClientConfig) (c : Console)
      → c.may_create (config_dir home) ≡ true
      → c.may_write (config_path home) ≡ true
      → save_config config c ≡ (
        record c { files = Map.insert c.files (config_path home) (to_toml config) },
        ok (config_path home),
      )
  unfolding save_config
  save_config-get config c made allowed =
      let dir : make_config_dir (config_dir home) c ≡ (c, ok tt) = ground arith in
      let file : write_file (config_path home) (to_toml config)
            (codes "Failed to write config to " ++ config_path home) c
          ≡ (record c { files = Map.insert c.files (config_path home) (to_toml config) }, ok tt) =
        ground arith in
      bind-eq _ _ dir ∙ bind-eq _ _ file

  -- With a server that can be parsed and a file that can be written, a login that the check accepts
  -- succeeds, and leaves the configuration with the server, by its scheme, and the token.
  pub login-saves :
      (server token : Text) (c : Console)
      → can_parse (normalized server) ≡ true
      → check_connection (normalized server) token ≡ ok tt
      → c.may_create (config_dir home) ≡ true
      → c.may_write (config_path home) ≡ true
      → ((login (some server) (some token) c).1 ≡ ok tt)
        × (file_at (login (some server) (some token) c).0 (config_path home)
            ≡ save to_toml (saved_config (normalized server) token))
  unfolding login given_or conclude save
  login-saves server token c parsed checked made allowed =
      let url = normalized server in
      let config = saved_config url token in
      let waiting : Console = record c {
        printed = c.printed ++ (codes "→ Validating credentials..." ∷ []);
      } in
      let parses : branch (can_parse url) (pure tt) (raise (codes "Invalid server URL: " ++ url)) c
          ≡ (c, ok tt) =
        rw parsed refl in
      let before_save : login (some server) (some token) c
          ≡ conclude url token (check_connection url token) waiting =
        bind-eq _ _ refl ∙ bind-eq _ _ parses ∙ bind-eq _ _ refl ∙ bind-eq _ _ refl in
      let saving = save_config-get config waiting made allowed in
      let done =
        before_save ∙ ap (λ r. conclude url token r waiting) checked ∙ bind-eq _ _ saving in
      let found : Map.get (login (some server) (some token) c).0.files (config_path home)
          ≡ some (to_toml config) =
        subst
          (λ (s : Console × Result Text (Unit {0})).
            Map.get s.0.files (config_path home) ≡ some (to_toml config))
          (sym done) (get-insert_self c.files (config_path home) (to_toml config)) in
      (
        ap (λ s. s.1) done,
        file_at_lem (login (some server) (some token) c).0 (config_path home) (to_toml config)
            found,
      )
