-- ===== src/Text/Laws.antt =====
-- Laws of the methods on texts.
use mathlib.Core.Option
use mathlib.Core.List.{reverse-reverse, reverse-append}
use loophole.Base.{
  ℕ, ◌≡◌, refl, sym, ap, ◌∙◌, ◌↔◌, true, false, ◌||◌, some, List, Option-cases, inl, inr, [], ◌∷◌,
  ◌++◌, reverse, arith, is_some,
}
use loophole.Text.Defs.{
  Text, ◌==◌, mem, strip_prefix, strip_suffix, starts_with, ends_with, contains_char, before,
  split_once,
}

pub eq_iff : (s t : Text) → ((s == t) ≡ true) ↔ (s ≡ t)
unfolding ◌==◌
eq_iff [] [] = ground arith
eq_iff [] (d ∷ t) = ground arith
eq_iff (c ∷ s) [] = ground arith
eq_iff (c ∷ s) (d ∷ t) = ground (arith, eq_iff s t)

pub eq_refl : (s : Text) → (s == s) ≡ true
eq_refl s = (eq_iff s s).1 refl

pub strip_prefix-append : (p r : Text) → strip_prefix (p ++ r) p ≡ some r
unfolding strip_prefix
strip_prefix-append [] r = refl
strip_prefix-append (c ∷ p) r = ground (arith, strip_prefix-append p r)

pub eq-append_of_strip_prefix : (s p r : Text) → strip_prefix s p ≡ some r → s ≡ p ++ r
unfolding strip_prefix
eq-append_of_strip_prefix s [] r h = ground arith
eq-append_of_strip_prefix [] (d ∷ p) r h = cc
eq-append_of_strip_prefix (c ∷ s) (d ∷ p) r h = ground (arith, eq-append_of_strip_prefix s p r)

pub strip_suffix-append : (r t : Text) → strip_suffix (r ++ t) t ≡ some r
unfolding strip_suffix
strip_suffix-append r t =
    rw (reverse-append r t, strip_prefix-append (reverse t) (reverse r))
      (ap some (reverse-reverse r))

pub eq-append_of_strip_suffix : (s t r : Text) → strip_suffix s t ≡ some r → s ≡ r ++ t
unfolding strip_suffix
eq-append_of_strip_suffix s t r h =
    let (q, e, f) = (Option.map-eq-some_iff _ _).0 h in
    sym (reverse-reverse s)
    ∙ ap reverse (eq-append_of_strip_prefix _ _ q e)
    ∙ reverse-append (reverse t) q
    ∙ rw (reverse-reverse t, f)

-- `ends_with` and `strip_suffix` agree.
pub ends_with-eq-is_some : (s t : Text) → ends_with s t ≡ is_some (strip_suffix s t)
unfolding ends_with
ends_with-eq-is_some s t = refl

pub starts_with-eq-is_some : (s t : Text) → starts_with s t ≡ is_some (strip_prefix s t)
unfolding starts_with
starts_with-eq-is_some s t = refl

pub contains_char-append :
    (c : ℕ) (s t : Text)
    → contains_char c s ≡ false
    → contains_char c t ≡ false
    → contains_char c (s ++ t) ≡ false
unfolding contains_char
contains_char-append c [] t h k = k
contains_char-append c (d ∷ s) t h k = ground (arith, contains_char-append c s t)

pub contains_char-append_left :
    (c : ℕ) (s t : Text) → contains_char c (s ++ t) ≡ false → contains_char c s ≡ false
unfolding contains_char
contains_char-append_left c [] t h = refl
contains_char-append_left c (d ∷ s) t h = ground (arith, contains_char-append_left c s t)

-- What is cut off behind a separator does not matter.
pub before-append : (c : ℕ) (s t : Text) → contains_char c s ≡ false → before c (s ++ c ∷ t) ≡ s
unfolding contains_char before
before-append c [] t h = ground arith
before-append c (d ∷ s) t h = ground (arith, before-append c s t)

pub before_free : (c : ℕ) (s : Text) → contains_char c s ≡ false → before c s ≡ s
unfolding contains_char before
before_free c [] h = refl
before_free c (d ∷ s) h = ground (arith, before_free c s)

pub contains_char-before : (c : ℕ) (s : Text) → contains_char c (before c s) ≡ false
unfolding contains_char before
contains_char-before c [] = refl
contains_char-before c (d ∷ s) = ground (arith, contains_char-before c s)

pub split_once-append :
    (c : ℕ) (s t : Text) → contains_char c s ≡ false → split_once c (s ++ c ∷ t) ≡ some (s, t)
unfolding contains_char split_once
split_once-append c [] t h = ground arith
split_once-append c (d ∷ s) t h = ground (arith, split_once-append c s t)

pub starts_with_iff : (s p : Text) → (starts_with s p ≡ true) ↔ ((r : Text) × (s ≡ p ++ r))
starts_with_iff s p = (to, from)
  where
    to : starts_with s p ≡ true → (r : Text) × (s ≡ p ++ r)
    to h = elim (Option-cases (strip_prefix s p)) [
      | inl e ↦ absurd (cc (h, starts_with-eq-is_some s p, ap is_some e))
      | inr (r, e) ↦ (r, eq-append_of_strip_prefix s p r e)
    ]

    from : (r : Text) × (s ≡ p ++ r) → starts_with s p ≡ true
    from (r, e) = rw (starts_with-eq-is_some s p, e, strip_prefix-append p r)

pub ends_with_iff : (s t : Text) → (ends_with s t ≡ true) ↔ ((r : Text) × (s ≡ r ++ t))
ends_with_iff s t = (to, from)
  where
    to : ends_with s t ≡ true → (r : Text) × (s ≡ r ++ t)
    to h = elim (Option-cases (strip_suffix s t)) [
      | inl e ↦ absurd (cc (h, ends_with-eq-is_some s t, ap is_some e))
      | inr (r, e) ↦ (r, eq-append_of_strip_suffix s t r e)
    ]

    from : (r : Text) × (s ≡ r ++ t) → ends_with s t ≡ true
    from (r, e) = rw (ends_with-eq-is_some s t, e, strip_suffix-append r t)

pub mem-append : (xs ys : List Text) (t : Text) → mem (xs ++ ys) t ≡ (mem xs t || mem ys t)
unfolding mem
mem-append [] ys t = refl
mem-append (x ∷ xs) ys t = ground (arith, mem-append xs ys t)
