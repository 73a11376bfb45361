-- ===== src/Server/Registry/Numbered.antt =====
-- server/registry.rs: the names that end in a number, as the client and `check` make them up.
use loophole.Base.{
  ℕ, ◌+◌, ◌≤◌, ◌≡◌, ◌≢◌, refl, ap, ◌∙◌, inl, [], ◌∷◌, ◌++◌, arith, length, length-append, All,
  All-append,
}
use loophole.Text.{Text}
use loophole.Text.Digits.{IsDigit}
use loophole.Server.Registry.Validation.{IsLabel, IsLabelChar}

last : Text → ℕ
last [] = 0
last (c ∷ []) = c
last (c ∷ d ∷ s) = last (d ∷ s)

last-append : (r : Text) (x : ℕ) (d : Text) → last (r ++ x ∷ d) ≡ last (x ∷ d)
unfolding last
last-append [] x d = refl
last-append (c ∷ []) x d = refl
last-append (c ∷ e ∷ r) x d = last-append (e ∷ r) x d

last-IsDigit : (x : ℕ) (d : Text) → All IsDigit (x ∷ d) → IsDigit (last (x ∷ d))
unfolding last
last-IsDigit x [] (h, _) = h
last-IsDigit x (y ∷ d) (_, h) = last-IsDigit y d h

digits-IsLabelChar : (d : Text) → All IsDigit d → All IsLabelChar d
digits-IsLabelChar [] h = tt
digits-IsLabelChar (c ∷ d) (h, hs) = (inl h, digits-IsLabelChar d hs)

-- Letters, digits and hyphens that begin with no hyphen, then digits: a label, if the length fits.
pub append_digits-IsLabel :
    (c : ℕ) (s d : Text)
    → All IsLabelChar (c ∷ s)
    → c ≢ b'-'
    → All IsDigit d
    → 1 ≤ length d
    → 3 ≤ length (c ∷ s) + length d
    → length (c ∷ s) + length d ≤ 63
    → IsLabel ((c ∷ s) ++ d)
append_digits-IsLabel c s [] h n k one long short = absurd (omega arith)
append_digits-IsLabel c s (x ∷ d) h n k one long short = record {
  long = omega (arith, length-append (c ∷ s) (x ∷ d));
  short = omega (arith, length-append (c ∷ s) (x ∷ d));
  chars = All-append IsLabelChar (c ∷ s) (x ∷ d) h (digits-IsLabelChar (x ∷ d) k);
  front = λ r e. n (cc (e));
  back = λ r e.
      let ends : last ((c ∷ s) ++ x ∷ d) ≡ b'-' =
        ap last e ∙ last-append r b'-' [] ∙ (unfold last in refl) in
      let digit = last-IsDigit x d k in omega (arith, ends, last-append (c ∷ s) x d, digit);
}
