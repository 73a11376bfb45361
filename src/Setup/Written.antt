-- ===== src/Setup/Written.antt =====
-- init.rs: the configuration that `run` leaves on the disk.
use loophole.Base.{
  ◌≡◌, ◌≢◌, refl, sym, subst, ◌∙◌, Result, inl, inr, Bool, true, false, Option, none, some, List,
  arith, ok, unwrap_or, List-cases,
}
use loophole.Text.{Text, codes}
use loophole.Text.Laws.{eq_iff}
use loophole.Text.Utf8.{Bytes}
use loophole.Map
use loophole.Map.{Map, get-insert, get-insert_self}
use loophole.Console.{
  Console, ◌>>=◌, say, say_all, prompt_yes_no, given_or, write_file, Keeps, bind-eq, Keeps-bind,
  keeps_rules,
}
use loophole.Setup.Token.{generate_token}
use loophole.Setup.Template.{default_config_path, service_path, config_text}
use loophole.Setup.Defs.{System, systemctl, install_systemd_service}
use loophole.Setup.Run.{
  ask_domain, ask_email, confirm_overwrite, create_certs_dir, write_config, should_install, finish,
  run,
}
use loophole.Setup.Laws.{HasParent, validate_config_path-ok}

module _ (path content : Text) where
  -- The file of the path has this content.
  abbrev Holds : Console → Type 0
  Holds c = Map.get c.files path ≡ some content

  say-Keeps : (line : Text) → Keeps Holds (say line)
  say-Keeps line = record { at = λ c h. h }

  say_all-Keeps : (lines : List Text) → Keeps Holds (say_all lines)
  say_all-Keeps lines = record { at = λ c h. h }

  write_file-Keeps :
      (other text failure : Text) → other ≢ path → Keeps Holds (write_file other text failure)
  write_file-Keeps other text failure n = record {
    at = λ c h. ground (arith, get-insert c.files other path text, eq_iff other path);
  }

  systemctl-Keeps :
      (system : System) (args : List Text) (unable failed : Text)
      → Keeps Holds (systemctl system args unable failed)
  unfolding systemctl
  systemctl-Keeps system args unable failed =
      Keeps-bind (record { at = λ c h. h }) (λ _. search keeps_rules)

  create_certs_dir-Keeps : Keeps Holds create_certs_dir
  unfolding create_certs_dir
  create_certs_dir-Keeps = record { at = λ c h. ground arith }

  should_install-Keeps : (install : Bool) → Keeps Holds (should_install install)
  unfolding should_install prompt_yes_no ◌>>=◌
  should_install-Keeps true = record { at = λ c h. h }
  should_install-Keeps false = record {
    at = λ c h. elim (List-cases c.stdin) [
      | inl e ↦ ground arith
      | inr (line, lines, e) ↦ ground arith
    ];
  }

  install_systemd_service-Keeps :
      (system : System) → service_path ≢ path → Keeps Holds (install_systemd_service system path)
  unfolding install_systemd_service
  install_systemd_service-Keeps system n =
      search (keeps_rules, say-Keeps, say_all-Keeps, systemctl-Keeps, write_file-Keeps, n) depth 30

  finish-Keeps :
      (system : System) (domain token : Text) (install : Bool)
      → service_path ≢ path
      → Keeps Holds (finish system path domain token install)
  unfolding finish
  finish-Keeps system domain token install n =
      search
        (
          keeps_rules, say-Keeps, say_all-Keeps, create_certs_dir-Keeps, should_install-Keeps,
          install_systemd_service-Keeps, n,
        )
        depth 30

-- With a path that may be written and has no file yet, and is not that of the service, a domain and
-- an email that are given are written with the token, however the installation of the service ends.
pub run-writes :
    (system : System) (random : Bytes) (d e : Text) (output : Option Text) (install : Bool)
    (c : Console)
    → Map.get c.files (unwrap_or output default_config_path) ≡ none
    → c.may_write (unwrap_or output default_config_path) ≡ true
    → HasParent c (unwrap_or output default_config_path)
    → service_path ≢ unwrap_or output default_config_path
    → Map.get
        (run system random (some d) (some e) output install c).0.files
        (unwrap_or output default_config_path)
      ≡ some (config_text d (generate_token (codes "tk") random) e)
unfolding run ask_domain ask_email given_or
run-writes system random d e output install c fresh allowed parented other =
    let path = unwrap_or output default_config_path in
    let token = generate_token (codes "tk") random in
    let content = config_text d token e in
    let checked = validate_config_path-ok path c allowed parented in
    let confirmed : confirm_overwrite path c ≡ (c, ok true) =
      unfold confirm_overwrite Map.contains_key in rw (fresh, confirm_overwrite) refl in
    let written : write_config path content c
        ≡ (record c { files = Map.insert c.files path content }, ok tt) =
      unfold write_config in rw (allowed, write_config) refl in
    let steps : run system random (some d) (some e) output install c
        ≡ finish system path d token install
            (record c { files = Map.insert c.files path content }) =
      bind-eq _ _ checked
      ∙ bind-eq _ _ refl
      ∙ bind-eq _ _ refl
      ∙ bind-eq _ _ confirmed
      ∙ bind-eq _ _ written in
    subst (λ (s : Console × Result Text (Unit {0})). Map.get s.0.files path ≡ some content)
      (sym steps)
      ((finish-Keeps path content system d token install other).at
        (record c { files = Map.insert c.files path content })
        (get-insert_self c.files path content))
