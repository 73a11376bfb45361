-- ===== src/Setup/Tests.antt =====
-- The setup at concrete inputs: the directory of a path, and a configuration that is there.
use loophole.Base.{◌≡◌, refl, true, none, some, [], ◌∷◌}
use loophole.Text.{codes, trim, trim_start, ◌==◌, Text}
use loophole.Text.Lines.{to_lowercase}
use loophole.Map
use loophole.Console.{Console, is_yes}
use loophole.Setup.Token.{generate_token, hex}
use loophole.Setup.Template.{default_config_path}
use loophole.Setup.Defs.{System, parent}
use loophole.Setup.Run.{run}
use loophole.Setup.Laws.{run-keeps_files}

parents :
    (parent (codes "/etc/loophole/server.toml") ≡ some (codes "/etc/loophole"))
    × (parent (codes "/server.toml") ≡ some (codes "/"))
    × (parent (codes "server.toml") ≡ some [])
    × (parent (codes "/") ≡ none)
unfolding parent
parents = (refl, refl, refl, refl)

token_runs : generate_token (codes "tk") (1 ∷ 255 ∷ []) ≡ codes "tk_01ff"
unfolding generate_token hex
token_runs = refl

abbrev system : System
system = record { current_exe = none; systemctl = λ _. none; is_active = none }

abbrev files : Map.Map Text
files = (default_config_path, codes "version = 1") ∷ []

abbrev console : Console
console = record {
  stdin = codes "ex.com" ∷ codes "a@b.c" ∷ codes "no" ∷ [];
  secrets = [];
  printed = [];
  files = files;
  ran = [];
  may_write = λ _. true;
  may_create = λ _. true;
}

run-keeps_files_example : (run system (1 ∷ []) none none none true console).0.files ≡ files
unfolding Map.contains_key Map.get is_yes trim trim_start to_lowercase ◌==◌
run-keeps_files_example =
    run-keeps_files files system (1 ∷ []) none none none true console refl
      (refl, (refl, (refl, (refl, tt))))
