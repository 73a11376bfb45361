-- ===== src/Text/Digits.antt =====
-- The characters of a number that is printed: how many there are, and which.
use native.Mathlib.Nat.{pow-succ'}
use loophole.Base.{
  ℕ, zero, suc, ◌+◌, ◌/◌, ◌%◌, ◌^◌, ◌≤◌, ◌<◌, arith, [], ◌∷◌, length, ltb, Bool-cases, inl, inr,
  All,
}
use loophole.Text.Defs.{Text}
use loophole.Text.Numbers.{digits_from, to_string}

abbrev pub IsDigit : ℕ → Type 0
IsDigit c = (b'0' ≤ c) × (c ≤ b'9')

digits_from-All : (f n : ℕ) (acc : Text) → All IsDigit acc → All IsDigit (digits_from f n acc)
unfolding digits_from
digits_from-All zero n acc h = h
digits_from-All (suc f) n acc h =
    let digit : IsDigit (b'0' + n % 10) = (omega arith, omega arith) in
    elim (Bool-cases (ltb n 10)) [
      | inl small ↦ rw small (digit, h)
      | inr large ↦ rw large (digits_from-All f (n / 10) ((b'0' + n % 10) ∷ acc) (digit, h))
    ]

pub to_string-All : (n : ℕ) → All IsDigit (to_string n)
unfolding to_string
to_string-All n = digits_from-All (suc n) n [] tt

digits_from-length_ge : (f n : ℕ) (acc : Text) → length acc ≤ length (digits_from f n acc)
unfolding digits_from
digits_from-length_ge zero n acc = omega arith
digits_from-length_ge (suc f) n acc =
    ground (arith, digits_from-length_ge f (n / 10) ((b'0' + n % 10) ∷ acc))

digits_from-length_le :
    (k f n : ℕ) (acc : Text) → n < 10 ^ suc k → length (digits_from f n acc) ≤ length acc + suc k
unfolding digits_from
digits_from-length_le k zero n acc h = omega arith
digits_from-length_le zero (suc f) n acc h = ground arith
digits_from-length_le (suc k) (suc f) n acc h =
    let small : n / 10 < 10 ^ suc k = omega (arith, pow-succ' 10 (suc k)) in
    ground (arith, digits_from-length_le k f (n / 10) ((b'0' + n % 10) ∷ acc) small)

-- A number below a power of ten has at least one digit and at most as many as the exponent.
pub to_string-length :
    (k n : ℕ) → n < 10 ^ suc k → (1 ≤ length (to_string n)) × (length (to_string n) ≤ suc k)
unfolding to_string digits_from
to_string-length k n h = (
  ground (arith, digits_from-length_ge n (n / 10) ((b'0' + n % 10) ∷ [])),
  omega (arith, digits_from-length_le k (suc n) n [] h),
)
