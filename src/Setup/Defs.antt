-- ===== src/Setup/Defs.antt =====
-- init.rs: `run`, with the checks of the path before it and the service after it. What the system
-- answers to the programs that are run is an argument.
use loophole.Base.{
  ok, ◌||◌, Bool, true, false, Option, none, some, List, [], ◌∷◌, ◌++◌, if◌then◌else◌, eqb, reverse,
  is_empty,
}
use loophole.Text.{Text, codes, trim, ◌==◌}
use loophole.Map
use loophole.Console.{
  Action, pure, raise, branch, or_raise, ◌>>=◌, ◌>>◌, say, say_all, create_file, remove_file,
  write_file,
}
use loophole.Setup.Template.{service_path, service_text}

-- What the system answers: the path of the program, whether a call of systemctl succeeds (`none`
-- where it cannot be run), and the output of `is-active`.
pub record System : Type 0 where
  pub current_exe : Option Text
  pub systemctl : List Text → Option Bool
  pub is_active : Option Text

abbrev drop_slashes : Text → Text
drop_slashes [] = []
drop_slashes (c ∷ s) = if eqb c b'/' then drop_slashes s else c ∷ s

-- From the last slash, in the reversed text.
abbrev from_slash : Text → Text
from_slash [] = []
from_slash (c ∷ s) = if eqb c b'/' then c ∷ s else from_slash s

abbrev parent_of : Text → Option Text
parent_of [] = none
parent_of (c ∷ s) = elim (from_slash (c ∷ s)) [
  | [] ↦ some []
  | d ∷ t ↦ elim (drop_slashes (d ∷ t)) [ [] ↦ some (b'/' ∷ []) | e ∷ u ↦ some (reverse (e ∷ u)) ]
]

-- `Path::parent`, of a path with no `.` components.
unfoldable pub parent : Text → Option Text
parent path = parent_of (drop_slashes (reverse path))

-- `create_dir_all` of the parent.
unfoldable pub make_parent : Text → Action (Unit {0})
make_parent path c = elim (parent path) [
  | none ↦ pure tt c
  | some dir ↦
      if is_empty dir || c.may_create dir
      then pure tt c
      else raise (codes "Failed to create directory " ++ (dir ++ codes ". Try running with sudo."))
          c
]

unfoldable pub can_write : Text → Action Bool
can_write path c =
    if Map.contains_key c.files path
    then pure (c.may_write path) c
    else (do made ← create_file path; branch made (do remove_file path; pure true) (pure false)) c

unfoldable pub validate_config_path : Text → Action (Unit {0})
validate_config_path path = do
  make_parent path
  writable ← can_write path
  branch writable (pure tt)
      (raise (codes "Cannot write to " ++ (path ++ codes ". Try running with sudo.")))

abbrev ran : List Text → Action (Unit {0})
ran args c = (record c { ran = c.ran ++ (args ∷ []) }, ok tt)

-- One call of systemctl.
unfoldable pub systemctl : System → List Text → Text → Text → Action (Unit {0})
systemctl system args unable failed = do
  ran args
  success ← or_raise (system.systemctl args) unable
  branch success (pure tt) (raise failed)

unfoldable pub install_systemd_service : System → Text → Action (Unit {0})
install_systemd_service system config_path = do
  binary_path ← or_raise system.current_exe (codes "Failed to determine loophole binary path")
  write_file service_path (service_text binary_path config_path) (
      codes "Failed to write systemd service to "
      ++ (service_path ++ codes ". Try running with sudo."))
  say (codes "✓ Created " ++ service_path)
  systemctl system (codes "daemon-reload" ∷ []) (codes "Failed to run systemctl daemon-reload")
      (codes "systemctl daemon-reload failed")
  say (codes "✓ Reloaded systemd")
  systemctl system (codes "enable" ∷ codes "--now" ∷ codes "loophole" ∷ [])
      (codes "Failed to run systemctl enable --now loophole")
      (codes "systemctl enable --now loophole failed")
  say (codes "✓ Enabled and started loophole service")
  ran (codes "is-active" ∷ codes "loophole" ∷ [])
  status ← or_raise system.is_active (codes "Failed to check service status")
  branch (trim status == codes "active") (say (codes "✓ Service is running")) (
      say_all (
        codes "! Service may not have started correctly"
        ∷ codes "  Check logs with: sudo journalctl -u loophole -f"
        ∷ []))
