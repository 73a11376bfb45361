-- ===== src/Setup/Run.antt =====
-- init.rs: `run`. The random bytes of the token are an argument.
use loophole.Base.{Bool, true, false, Option, [], ◌∷◌, ◌++◌, if◌then◌else◌, unwrap_or}
use loophole.Text.{Text, codes}
use loophole.Text.Utf8.{Bytes}
use loophole.Map
use loophole.Console.{
  Action, pure, branch, ◌>>=◌, ◌>>◌, say, say_all, prompt, prompt_yes_no, given_or, write_file,
}
use loophole.Setup.Token.{generate_token}
use loophole.Setup.Template.{default_config_path, config_text}
use loophole.Setup.Steps.{next_steps}
use loophole.Setup.Defs.{System, validate_config_path, install_systemd_service}

abbrev pub certs_dir : Text
certs_dir = codes "/var/lib/loophole/certs"

unfoldable pub ask_domain : Option Text → Action Text
ask_domain domain =
    given_or domain (prompt (codes "Domain for tunnels (e.g., tunnel.example.com)"))
      (codes "Domain is required")

unfoldable pub ask_email : Option Text → Action Text
ask_email email =
    given_or email (prompt (codes "Email for Let's Encrypt")) (codes "Email is required")

-- Whether the configuration is written: a file that exists is overwritten only on request.
unfoldable pub confirm_overwrite : Text → Action Bool
confirm_overwrite path c =
    if Map.contains_key c.files path
    then prompt_yes_no (codes "Config file already exists at " ++ (path ++ codes ". Overwrite?"))
        false c
    else pure true c

unfoldable pub create_certs_dir : Action (Unit {0})
create_certs_dir c =
    if c.may_create certs_dir
    then pure tt c
    else say_all
        ((codes "! Could not create certs directory " ++ certs_dir)
          ∷ codes "  You may need to create it manually with appropriate permissions."
          ∷ [])
        c

unfoldable pub write_config : Text → Text → Action (Unit {0})
write_config path config = write_file path config (codes "Failed to write config to " ++ path)

unfoldable pub should_install : Bool → Action Bool
should_install install =
    branch install (pure true)
      (prompt_yes_no (codes "Install systemd service to run in the background?") true)

-- What follows once the configuration is written.
unfoldable pub finish : System → Text → Text → Text → Bool → Action (Unit {0})
finish system path domain token install = do
  create_certs_dir
  say_all (
      (codes "✓ Created " ++ path)
      ∷ (codes "✓ Generated token: " ++ (token ++ codes " (admin)"))
      ∷ codes ""
      ∷ [])
  installing ← should_install install
  branch installing (do install_systemd_service system path; say (codes "")) (pure tt)
  say_all (next_steps domain token path installing)

unfoldable pub run :
    System → Bytes → Option Text → Option Text → Option Text → Bool → Action (Unit {0})
run system random domain email output install = do
  let path = unwrap_or output default_config_path
  validate_config_path path
  domain ← ask_domain domain
  email ← ask_email email
  let token = generate_token (codes "tk") random
  let config = config_text domain token email
  confirmed ← confirm_overwrite path
  branch confirmed (do write_config path config; finish system path domain token install)
      (say (codes "Aborted."))
