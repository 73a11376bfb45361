-- ===== src/Console/Rules.antt =====
-- What the steps of a command leave alone: one rule for each way to build a step.
use loophole.Base.{
  Result-cases, inl, inr, arith, ◌≡◌, refl, ◌∙◌, sym, ap, Bool, true, false, Option, none, some,
  Result, ok, err,
}
use loophole.Text.{Text}
use loophole.Console.Defs.{Console, Action, pure, raise, branch, or_raise, ◌>>=◌}

module _ {A B : Type 0} (m : Action A) (k : A → Action B) (c : Console) where
  -- The steps after one that returns.
  pub bind-ok : (a : A) → (m c).1 ≡ ok a → (m >>= k) c ≡ k a (m c).0
  unfolding ◌>>=◌
  bind-ok a e = rw (e, ◌>>=◌) refl

-- To run a block step by step.
pub bind-eq :
    {A B : Type 0} (m : Action A) (k : A → Action B) {c d : Console} {a : A}
    → m c ≡ (d, ok a)
    → (m >>= k) c ≡ k a d
bind-eq m k {c} {a} e = bind-ok m k c a (ap (λ s. s.1) e) ∙ ap (λ s. k a s.0) e

-- The parts of a block that returns.
pub >>=-eq-ok :
    {A B : Type 0} (m : Action A) (k : A → Action B) (c : Console) {d : Console} {b : B}
    → (m >>= k) c ≡ (d, ok b)
    → (c' : Console) × (a : A) × (m c ≡ (c', ok a)) × (k a c' ≡ (d, ok b))
unfolding ◌>>=◌
>>=-eq-ok m k c {d} {b} h = elim (Result-cases (m c).1) [
  | inl (a, e) ↦ ((m c).0, a, ap (λ r. ((m c).0, r)) e, sym (bind-ok m k c a e) ∙ h)
  | inr (why, e) ↦ absurd (ground arith)
]

-- From `P`, `m` leads to `Q`, whether it returns or fails.
pub record Leads {ℓ} {A : Type 0} (P Q : Console → Type ℓ) (m : Action A) : Type ℓ where
  pub at : (c : Console) → P c → Q (m c).0

abbrev pub Keeps {ℓ} : {A : Type 0} → (Console → Type ℓ) → Action A → Type ℓ
Keeps P = Leads P P

module _ {ℓ} {P : Console → Type ℓ} where
  pub Keeps-pure : {A : Type 0} (a : A) → Keeps P (pure a)
  Keeps-pure a = record { at = λ c h. h }

  pub Keeps-raise : {A : Type 0} (e : Text) → Keeps P (raise {A = A} e)
  Keeps-raise e = record { at = λ c h. h }

  pub Keeps-or_raise : {A : Type 0} (o : Option A) (e : Text) → Keeps P (or_raise o e)
  Keeps-or_raise none e = record { at = λ c h. h }
  Keeps-or_raise (some a) e = record { at = λ c h. h }

  pub Keeps-branch :
      {A : Type 0} (b : Bool) (m n : Action A) → Keeps P m → Keeps P n → Keeps P (branch b m n)
  Keeps-branch true m n km kn = record { at = km.at }
  Keeps-branch false m n km kn = record { at = kn.at }

module _ {ℓ} {P Q : Console → Type ℓ} where
  -- A step that keeps `P` comes first; where it fails, `P` is enough.
  pub Leads-bind :
      {A B : Type 0} {m : Action A} {k : A → Action B}
      → Keeps P m
      → ((c : Console) → P c → Q c)
      → ((a : A) → Leads P Q (k a))
      → Leads P Q (m >>= k)
  unfolding ◌>>=◌
  Leads-bind {A} {B} {m} {k} km weaken kk = record { at = λ c h. after (m c) (km.at c h) }
    where
      after :
          (s : Console × Result Text A)
          → P s.0
          → Q
              (elim s.1 as (λ _. Console × Result Text B) [
                | ok a ↦ k a s.0
                | err e ↦ (s.0, err e)
              ]).0
      after (c', ok a) h = (kk a).at c' h
      after (c', err e) h = weaken c' h

module _ {ℓ} {P : Console → Type ℓ} where
  pub Keeps-bind :
      {A B : Type 0} {m : Action A} {k : A → Action B}
      → Keeps P m
      → ((a : A) → Keeps P (k a))
      → Keeps P (m >>= k)
  Keeps-bind km kk = Leads-bind km (λ c h. h) kk

pub ruleset keeps_rules = (Keeps-pure, Keeps-raise, Keeps-or_raise, Keeps-branch, Keeps-bind)
