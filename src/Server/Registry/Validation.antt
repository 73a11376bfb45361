-- ===== src/Server/Registry/Validation.antt =====
-- `validate_subdomain` against an independent description of a host label.
use loophole.Base.{
  ℕ, ◌≡◌, ◌≢◌, ◌≤◌, refl, ◌↔◌, ◌⊎◌, true, false, [], ◌∷◌, ◌++◌, ok, all, All, length, arith,
  eq-false_of_ne-true,
}
use loophole.Text.{Text, codes, len, starts_with, ends_with}
use loophole.Text.Laws.{starts_with_iff, ends_with_iff}
use loophole.Server.Registry.Defs.{is_label_char, validate_subdomain}

-- A letter, a digit or a hyphen of ASCII.
abbrev pub IsLabelChar : ℕ → Type 0
IsLabelChar c =
    ((b'0' ≤ c) × (c ≤ b'9')) ⊎ ((b'A' ≤ c) × (c ≤ b'Z')) ⊎ ((b'a' ≤ c) × (c ≤ b'z')) ⊎ (c ≡ b'-')

-- What a subdomain has to be: 3 to 63 characters, each a letter, a digit or a hyphen of ASCII, with
-- no hyphen at either end.
pub record IsLabel (s : Text) : Type 0 where
  pub long : 3 ≤ length s
  pub short : length s ≤ 63
  pub chars : All IsLabelChar s
  pub front : (r : Text) → s ≢ b'-' ∷ r
  pub back : (r : Text) → s ≢ r ++ b'-' ∷ []

pub is_label_char_iff : (c : ℕ) → (is_label_char c ≡ true) ↔ IsLabelChar c
is_label_char_iff c = (λ h. ground arith, λ h. ground arith)

pub all-is_label_char_iff : (s : Text) → (all is_label_char s ≡ true) ↔ All IsLabelChar s
all-is_label_char_iff [] = (λ _. tt, λ _. refl)
all-is_label_char_iff (c ∷ s) = (
  λ h. ground (arith, is_label_char_iff c, all-is_label_char_iff s),
  λ h. ground (arith, is_label_char_iff c, all-is_label_char_iff s),
)

-- The bytes of such a text are its characters.
pub len-eq-length : (s : Text) → All IsLabelChar s → len s ≡ length s
unfolding len
len-eq-length [] h = refl
len-eq-length (c ∷ s) h = ground (arith, len-eq-length s h.1)

-- `validate_subdomain` accepts exactly the labels: 3 to 63 letters, digits and hyphens of ASCII,
-- with no hyphen at either end.
pub validate_subdomain_iff : (s : Text) → (validate_subdomain s ≡ ok tt) ↔ IsLabel s
unfolding validate_subdomain
validate_subdomain_iff s = (to, from)
  where
    to : validate_subdomain s ≡ ok tt → IsLabel s
    to h =
        let chars : All IsLabelChar s = (all-is_label_char_iff s).0 (ground arith) in
        record {
          long = ground (arith, len-eq-length s chars);
          short = ground (arith, len-eq-length s chars);
          chars = chars;
          front = λ r e. ground (arith, (starts_with_iff s (codes "-")).1 (r, e));
          back = λ r e. ground (arith, (ends_with_iff s (codes "-")).1 (r, e));
        }

    from : IsLabel s → validate_subdomain s ≡ ok tt
    from v =
        let no_front : starts_with s (codes "-") ≡ false =
          eq-false_of_ne-true _
            (λ e. let (r, f) = (starts_with_iff s (codes "-")).0 e in v.front r f) in
        let no_back : ends_with s (codes "-") ≡ false =
          eq-false_of_ne-true _
            (λ e. let (r, f) = (ends_with_iff s (codes "-")).0 e in v.back r f) in
        ground
          (arith, len-eq-length s v.chars, (all-is_label_char_iff s).1 v.chars, no_front, no_back)
