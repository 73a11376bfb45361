-- ===== src/Cli/Test.antt =====
-- test.rs: `run`, with the check of the connection as an argument.
use loophole.Base.{◌≡◌, Result-cases, inl, inr, arith, Option, [], ◌∷◌, ◌++◌, Result, ok, err}
use loophole.Text.{Text, codes}
use loophole.Console.{Console, Action, raise, or_error, ◌>>=◌, ◌>>◌, say, say_all}
use loophole.Cli.Credentials.{ClientConfig, File, credentials}

module _ (client_toml : Text → Option ClientConfig) (file : File)
    (check_connection : Text → Text → Result Text (Unit {0})) where
  -- What is printed of the check.
  unfoldable pub tell : Result Text (Unit {0}) → Action (Unit {0})
  tell (ok _) = say_all (
      codes "✓ Connection successful!"
      ∷ codes "✓ Token is valid"
      ∷ codes "✓ Server is accepting connections"
      ∷ [])
  tell (err e) = do say (codes "✗ Connection failed: " ++ e); raise e

  unfoldable pub run : Option Text → Option Text → Action (Unit {0})
  run server token = do
    given ← or_error (credentials client_toml file server token)
    say (codes "→ Testing connection to " ++ (given.0 ++ codes "..."))
    tell (check_connection given.0 given.1)

  -- The command succeeds exactly as the check of the credentials that it finds does.
  pub run-result :
      (server token : Option Text) (url t : Text) (c : Console)
      → credentials client_toml file server token ≡ ok (url, t)
      → (run server token c).1 ≡ check_connection url t
  unfolding run tell ◌>>=◌
  run-result server token url t c found = elim (Result-cases (check_connection url t)) [
    | inl (u, accepted) ↦ ground (arith, found, accepted)
    | inr (e, refused) ↦ ground (arith, found, refused)
  ]
