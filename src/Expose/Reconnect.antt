-- ===== src/Expose/Reconnect.antt =====
-- expose/reconnect.rs: `ReconnectStrategy`. Its fields for the base, the maximum and the multiplier never
-- change and are constants here. Durations are in units of 100 microseconds: with a base of
-- one second, a multiplier of two and a jitter of whole thousandths of a fifth, every product of
-- `mul_f64` below its overflow is a whole number of them, up to the rounding of the floats, which is
-- not modelled.
use native.Mathlib.Nat.{pow-le-pow_right, mul_assoc, mul-le-mul_left}
use loophole.Base.{
  ℕ, ◌+◌, ◌*◌, ◌/◌, ◌^◌, ◌%◌, ◌≡◌, ap, ◌∙◌, ◌≤◌, ◌<◌, ◌↔◌, inl, inr, Option, none, some, arith, ltb,
  min, if◌then◌else◌, Bool-cases, ◌>>=◌,
}

pub record ReconnectStrategy : Type 0 where
  pub attempts : ℕ

unfoldable pub new : ReconnectStrategy
new = record { attempts = 0 }

unfoldable pub reset : ReconnectStrategy → ReconnectStrategy
reset r = record { attempts = 0 }

abbrev pub second : ℕ
second = 10_000

abbrev pub max_delay : ℕ
max_delay = 60 * second

-- `Duration::mul_f64` panics where the result has 2 ^ 64 seconds or more.
unfoldable pub mul : ℕ → ℕ → ℕ → Option ℕ
mul d numerator denominator =
    let product = d * numerator / denominator in
    if ltb product (2 ^ 64 * second) then some product else none

-- The strategy after the call and the delay, for a clock whose nanoseconds end in `nanos`; `none`
-- where the call panics.
unfoldable pub next_delay : ReconnectStrategy → ℕ → Option (ReconnectStrategy × ℕ)
unfolding mul
next_delay r nanos = do
  delay ← mul second (2 ^ r.attempts) 1
  delay_with_jitter ← mul delay (9_000 + 2 * (nanos % 1000)) 10_000
  some (record { attempts = r.attempts + 1 }, min delay_with_jitter max_delay)

pow_le : (a b : ℕ) → a ≤ b → 2 ^ a ≤ 2 ^ b
pow_le a b h = pow-le-pow_right (omega arith) h

jittered : (p j : ℕ) → second * p / 1 * j / 10_000 ≡ p * j
jittered p j = omega (arith, eq)
  where
    eq : second * p / 1 * j ≡ 10_000 * (p * j)
    eq = ap (λ x. x * j) (omega arith) ∙ mul_assoc second p j

-- After fewer than 64 attempts since the last success the delay before another is 2 to the power of
-- their number, in seconds, less 10% to plus 10%, or a minute, whichever is less.
pub next_delay_lem :
    (r : ReconnectStrategy) (nanos : ℕ)
    → r.attempts < 64
    → (delay : ℕ) × (next_delay r nanos ≡ some (record { attempts = r.attempts + 1 }, delay))
      × (delay ≤ max_delay)
      × (min (9_000 * 2 ^ r.attempts) max_delay ≤ delay)
      × (delay ≤ 11_000 * 2 ^ r.attempts)
unfolding next_delay mul
next_delay_lem r nanos h =
    let p : ℕ = 2 ^ r.attempts in
    let j : ℕ = 9_000 + 2 * (nanos % 1000) in
    let exact = jittered p j in
    let fits : p ≤ 2 ^ 63 = pow_le r.attempts 63 (omega arith) in
    let low : p * 9_000 ≤ p * j = mul-le-mul_left p (omega arith) in
    let high : p * j ≤ p * 11_000 = mul-le-mul_left p (omega arith) in
    (min (p * j) max_delay, ground (arith, exact), omega arith, omega arith, omega arith)

-- After 64 failures in a row the call panics, and not before.
pub next_delay-panics_iff :
    (r : ReconnectStrategy) (nanos : ℕ) → (next_delay r nanos ≡ none) ↔ (64 ≤ r.attempts)
next_delay-panics_iff r nanos = (
  λ h. elim (Bool-cases (ltb r.attempts 64)) [
    | inl few ↦ let (d, e, _, _, _) = next_delay_lem r nanos (ground arith) in absurd (ground arith)
    | inr many ↦ ground arith
  ],
  λ h.
      let large : 2 ^ 64 ≤ 2 ^ r.attempts = pow_le 64 r.attempts h in
      unfold next_delay mul in ground arith,
)
