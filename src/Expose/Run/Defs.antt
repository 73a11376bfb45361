-- ===== src/Expose/Run/Defs.antt =====
-- The loop of `run`. Each round's attempt to connect, and the clock of the wait that follows it, are
-- arguments. `str::contains` is written out.
use loophole.Base.{
  ℕ, Bool, ◌&&◌, ◌||◌, none, some, List, [], ◌∷◌, ◌++◌, Result, ok, err, ltb, leb, if◌then◌else◌,
}
use loophole.Text.{Text, codes, starts_with}
use loophole.Text.Numbers.{to_string}
use loophole.Expose.Reconnect.{ReconnectStrategy, next_delay, reset}

-- `str::contains`.
unfoldable pub contains_text : Text → Text → Bool
contains_text [] pattern_text = starts_with [] pattern_text
contains_text (c ∷ s) pattern_text =
    let later = contains_text s pattern_text in starts_with (c ∷ s) pattern_text || later

unfoldable pub is_fatal : Text → Bool
is_fatal msg =
    contains_text msg (codes "Invalid token")
    || contains_text msg (codes "Invalid subdomain")
    || contains_text msg (codes "Subdomain already taken")

-- A round: what `connect` returns (and the tunnel then runs until it ends), and the nanoseconds of
-- the clock at the wait.
pub record Round : Type 0 where
  pub connection : Result Text (Unit {0})
  pub nanos : ℕ

-- How the loop ends, or that it goes on.
pub data Outcome : Type 0 where
  retries_exceeded panicked : Outcome
  fatal : Text → Outcome
  running : ReconnectStrategy → Outcome

unfoldable pub exceeded : ℕ → ReconnectStrategy → Bool
exceeded max_retries r = ltb 0 max_retries && leb max_retries r.attempts

-- The strategy after the attempt, or the error that ends the loop.
unfoldable pub attempt : ReconnectStrategy → Result Text (Unit {0}) → Result Text ReconnectStrategy
attempt r (ok _) = ok (reset r)
attempt r (err msg) = if is_fatal msg then err msg else ok r

unfoldable pub run : ℕ → ReconnectStrategy → List Round → Outcome
run max_retries r [] = if exceeded max_retries r then retries_exceeded else running r
run max_retries r (round ∷ rounds) =
    if exceeded max_retries r then retries_exceeded else elim (attempt r round.connection) [
      | err msg ↦ fatal msg
      | ok tried ↦ elim (next_delay tried round.nanos) [
        | none ↦ panicked
        | some (waited, delay) ↦ run max_retries waited rounds
      ]
    ]

abbrev pub adjectives : List Text
adjectives =
    codes "quick"
    ∷ codes "bright"
    ∷ codes "calm"
    ∷ codes "eager"
    ∷ codes "fancy"
    ∷ codes "gentle"
    ∷ codes "happy"
    ∷ codes "jolly"
    ∷ codes "kind"
    ∷ codes "lively"
    ∷ []

abbrev pub nouns : List Text
nouns =
    codes "fox"
    ∷ codes "owl"
    ∷ codes "bear"
    ∷ codes "wolf"
    ∷ codes "deer"
    ∷ codes "hawk"
    ∷ codes "lynx"
    ∷ codes "seal"
    ∷ codes "duck"
    ∷ codes "frog"
    ∷ []

-- The name of a draw: an adjective, a noun and a number.
unfoldable pub generate_subdomain : Text → Text → ℕ → Text
generate_subdomain adj noun num = adj ++ (codes "-" ++ (noun ++ (codes "-" ++ to_string num)))
