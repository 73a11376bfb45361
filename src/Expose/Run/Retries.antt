-- ===== src/Expose/Run/Retries.antt =====
-- When the client stops trying.
use loophole.Base.{
  ℕ, ◌+◌, ◌≡◌, ◌≤◌, ◌<◌, ◌⊎◌, refl, inl, inr, true, false, List, [], ◌∷◌, Result, ok, err, arith,
  length, leb, Bool-cases, All,
}
use loophole.Text.{Text}
use loophole.Expose.Reconnect.{ReconnectStrategy, new, reset, next_delay_lem, next_delay-panics_iff}
use loophole.Expose.Run.Defs.{Round, retries_exceeded, panicked, is_fatal, exceeded, attempt, run}

-- A round whose attempt fails with an error that is not fatal.
abbrev pub IsFailure : Result Text (Unit {0}) → Type 0
IsFailure (ok _) = ⊥
IsFailure (err msg) = is_fatal msg ≡ false

abbrev pub AllFail : List Round → Type 0
AllFail = All (λ round. IsFailure round.connection)

attempt-IsFailure :
    (r : ReconnectStrategy) (c : Result Text (Unit {0})) → IsFailure c → attempt r c ≡ ok r
unfolding attempt
attempt-IsFailure r (ok u) h = absurd h
attempt-IsFailure r (err msg) h = ground (arith, h)

module _ (max_retries : ℕ) where
  gives_up_from :
      (a : ℕ) (rounds : List Round)
      → AllFail rounds
      → 0 < max_retries
      → a ≤ max_retries
      → max_retries ≤ 64
      → max_retries ≤ a + length rounds
      → run max_retries (record { attempts = a }) rounds ≡ retries_exceeded
  unfolding run exceeded
  gives_up_from a [] h p q s t = ground arith
  gives_up_from a (round ∷ rounds) (h, hs) p q s t = elim (Bool-cases (leb max_retries a)) [
    | inl full ↦ ground arith
    | inr more ↦
        let failed = attempt-IsFailure (record { attempts = a }) round.connection h in
        let (d, e, _, _, _) = next_delay_lem (record { attempts = a }) round.nanos (ground arith) in
        let later = gives_up_from (a + 1) rounds hs p (ground arith) s (ground arith) in
        ground (arith, failed, e, later)
  ]

  -- With a limit of 1 to 64 retries, failures that are not fatal end the loop once there have been
  -- as many as the limit.
  pub run-gives_up :
      (rounds : List Round)
      → AllFail rounds
      → 0 < max_retries
      → max_retries ≤ 64
      → max_retries ≤ length rounds
      → run max_retries new rounds ≡ retries_exceeded
  run-gives_up rounds h p s t =
      unfold new in gives_up_from 0 rounds h p (omega arith) s (omega arith)

  panics_from :
      (a : ℕ) (rounds : List Round)
      → AllFail rounds
      → a ≤ 64
      → (max_retries ≡ 0) ⊎ (64 < max_retries)
      → 64 < a + length rounds
      → run max_retries (record { attempts = a }) rounds ≡ panicked
  unfolding run exceeded
  panics_from a [] h p q t = absurd (omega arith)
  panics_from a (round ∷ rounds) (h, hs) p q t =
      let failed = attempt-IsFailure (record { attempts = a }) round.connection h in
      elim (Bool-cases (leb 64 a)) [
        | inl full ↦
            let stop =
              (next_delay-panics_iff (record { attempts = a }) round.nanos).1 (ground arith) in
            ground (arith, failed, stop)
        | inr more ↦
            let (d, e, _, _, _) =
              next_delay_lem (record { attempts = a }) round.nanos (ground arith) in
            let later = panics_from (a + 1) rounds hs (ground arith) q (ground arith) in
            ground (arith, failed, e, later)
      ]

  -- With no limit, or one above 64, the client does not go on for ever: the wait after the 65th failure
  -- in a row panics.
  pub run-panics :
      (rounds : List Round)
      → AllFail rounds
      → (max_retries ≡ 0) ⊎ (64 < max_retries)
      → 64 < length rounds
      → run max_retries new rounds ≡ panicked
  run-panics rounds h q t = unfold new in panics_from 0 rounds h (omega arith) q (omega arith)

run-exceeded :
    (max_retries : ℕ) (r : ReconnectStrategy) (rounds : List Round)
    → exceeded max_retries r ≡ true
    → run max_retries r rounds ≡ retries_exceeded
unfolding run
run-exceeded max_retries r [] h = ground arith
run-exceeded max_retries r (round ∷ rounds) h = ground arith

-- With a limit of one retry, a tunnel that has been up and is lost is never connected again.
pub run-lost_once :
    (round : Round) (rounds : List Round)
    → round.connection ≡ ok tt
    → run 1 new (round ∷ rounds) ≡ retries_exceeded
unfolding run exceeded attempt reset new
run-lost_once round rounds h =
    let (d, e, _, _, _) = next_delay_lem new round.nanos (unfold new in omega arith) in
    let ends = run-exceeded 1 (record { attempts = 1 }) rounds refl in ground (arith, e, ends)
