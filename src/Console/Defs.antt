-- ===== src/Console/Defs.antt =====
-- The state of a command, and its steps: the lines of the terminal, what is printed, the files by their
-- paths, and the runs of other programs. Colours are left out, and standard output and standard error
-- are one list. A directory is only what a file may be created in.
use loophole.Base.{
  Bool, true, false, Option, none, some, List, [], ◌∷◌, ◌++◌, Result, ok, err, if◌then◌else◌,
  is_empty, ◌||◌,
}
use loophole.Text.{Text, codes, trim, ◌==◌}
use loophole.Text.Lines.{to_lowercase}
use loophole.Map
use loophole.Map.{Map}

pub record Console : Type 0 where
  pub stdin : List Text
  pub secrets : List Text
  pub printed : List Text
  pub files : Map Text
  pub ran : List (List Text)
  -- What the permissions and the disk allow.
  pub may_write : Text → Bool
  pub may_create : Text → Bool

-- A step: the console comes back after an error too.
abbrev pub Action : Type 0 → Type 0
Action A = Console → Console × Result Text A

module _ {A : Type 0} where
  abbrev pub pure : A → Action A
  pure a c = (c, ok a)

  abbrev pub raise : Text → Action A
  raise e c = (c, err e)

  -- `.context(e)?` on an option.
  abbrev pub or_raise : Option A → Text → Action A
  or_raise none e = raise e
  or_raise (some a) e = pure a

  -- `?` on a result.
  abbrev pub or_error : Result Text A → Action A
  or_error (ok a) = pure a
  or_error (err e) = raise e

infixl 5 ◌>>=◌ ◌>>◌
unfoldable pub ◌>>=◌ : {A B : Type 0} → Action A → (A → Action B) → Action B
◌>>=◌ m k c = let (c', r) = m c in elim r [ ok a ↦ k a c' | err e ↦ (c', err e) ]

abbrev pub ◌>>◌ : {B : Type 0} → Action (Unit {0}) → Action B → Action B
m >> k = m >>= λ _. k

abbrev pub say : Text → Action (Unit {0})
say line c = (record c { printed = c.printed ++ (line ∷ []) }, ok tt)

abbrev pub say_all : List Text → Action (Unit {0})
say_all lines c = (record c { printed = c.printed ++ lines }, ok tt)

-- `if`, as a step.
abbrev pub branch : {A : Type 0} → Bool → Action A → Action A → Action A
branch b m n c = if b then m c else n c

-- `read_line`, which gives an empty line at the end of the input.
abbrev pub read_line : Action Text
read_line c = elim c.stdin [
  | [] ↦ (c, ok [])
  | line ∷ lines ↦ (record c { stdin = lines }, ok line)
]

abbrev pub read_password : Action Text
read_password c = elim c.secrets [
  | [] ↦ (c, err (codes "Failed to read password"))
  | line ∷ lines ↦ (record c { secrets = lines }, ok line)
]

unfoldable pub prompt : Text → Action Text
prompt message = do say (message ++ codes ": "); input ← read_line; pure (trim input)

unfoldable pub prompt_secret : Text → Action Text
prompt_secret message = do say (message ++ codes ": "); input ← read_password; pure (trim input)

-- What an answer means.
unfoldable pub is_yes : Bool → Text → Bool
is_yes default line =
    let input = to_lowercase (trim line) in
    if is_empty input then default else input == codes "y" || input == codes "yes"

unfoldable pub prompt_yes_no : Text → Bool → Action Bool
prompt_yes_no message default = do
  say (message ++ (codes " " ++ ((if default then codes "[Y/n]" else codes "[y/N]") ++ codes ": ")))
  input ← read_line
  pure (is_yes default input)

-- A value that was given, or else asked for; an empty answer is an error.
unfoldable pub given_or : Option Text → Action Text → Text → Action Text
given_or none ask missing = do input ← ask; branch (is_empty input) (raise missing) (pure input)
given_or (some value) ask missing = pure value

-- `File::create`, which empties a file that exists, and whether it succeeds.
abbrev pub create_file : Text → Action Bool
create_file path c =
    if c.may_write path
    then (record c { files = Map.insert c.files path [] }, ok true)
    else (c, ok false)

abbrev pub remove_file : Text → Action (Unit {0})
remove_file path c = (record c { files = Map.remove c.files path }, ok tt)

abbrev pub write_file : Text → Text → Text → Action (Unit {0})
write_file path content failure c =
    if c.may_write path
    then (record c { files = Map.insert c.files path content }, ok tt)
    else (c, err failure)
