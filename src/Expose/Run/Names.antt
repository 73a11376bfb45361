-- ===== src/Expose/Run/Names.antt =====
-- expose/mod.rs: the names that `generate_subdomain` makes up, as server/registry.rs reads them.
use mathlib.Core.List.{Memᴰ}
use mathlib.Core.List.Memᴰ.{head, tail}
use mathlib.Core.List.{append_assoc}
use loophole.Base.{
  ℕ, ok, Bool, not, ◌&&◌, ◌≤◌, ◌<◌, ◌≡◌, refl, sym, subst, inr, true, false, List, [], ◌∷◌, ◌++◌,
  arith, length, length-append, All, All-append, all, leb, eqb,
}
use loophole.Text.{Text, codes}
use loophole.Text.Numbers.{to_string}
use loophole.Text.Digits.{to_string-All, to_string-length}
use loophole.Server.Registry.Defs.{is_label_char, validate_subdomain}
use loophole.Server.Registry.Validation.{
  IsLabel, IsLabelChar, all-is_label_char_iff, validate_subdomain_iff,
}
use loophole.Server.Registry.Numbered.{append_digits-IsLabel}
use loophole.Expose.Run.Defs.{adjectives, nouns, generate_subdomain}

-- One to six letters, digits and hyphens, and no hyphen first.
abbrev is_word : Text → Bool
is_word [] = false
is_word (c ∷ s) = all is_label_char (c ∷ s) && not (eqb c b'-') && leb (length (c ∷ s)) 6

Memᴰ-all {ℓ} :
    {A : Type ℓ} (p : A → Bool) (x : A) (xs : List A) → all p xs ≡ true → Memᴰ x xs → p x ≡ true
Memᴰ-all p x [] _ m = elim m [ ]
Memᴰ-all p x (y ∷ xs) h (head e) = subst (λ z. p z ≡ true) (sym e) (ground arith)
Memᴰ-all p x (y ∷ xs) h (tail m) = Memᴰ-all p x xs (ground arith) m

words-IsLabel :
    (adj noun : Text) (num : ℕ)
    → is_word adj ≡ true
    → is_word noun ≡ true
    → num < 1000
    → IsLabel (generate_subdomain adj noun num)
unfolding generate_subdomain
words-IsLabel [] noun num v w h = ground arith
words-IsLabel (a ∷ adj) [] num v w h = ground arith
words-IsLabel (a ∷ adj) (n ∷ noun) num v w h =
    let digits : Text = to_string num in
    let tail_part : Text = adj ++ (codes "-" ++ ((n ∷ noun) ++ codes "-")) in
    let grouped : (a ∷ tail_part) ++ digits
        ≡ (a ∷ adj) ++ (codes "-" ++ ((n ∷ noun) ++ (codes "-" ++ digits))) =
      simp append_assoc in
    let hyphen : All IsLabelChar (codes "-") = (inr (inr (inr refl)), tt) in
    let chars : All IsLabelChar (a ∷ tail_part) =
      All-append IsLabelChar (a ∷ adj) (codes "-" ++ ((n ∷ noun) ++ codes "-"))
        ((all-is_label_char_iff (a ∷ adj)).0 (ground arith))
        (All-append IsLabelChar (codes "-") ((n ∷ noun) ++ codes "-") hyphen (
          All-append IsLabelChar (n ∷ noun) (codes "-")
            ((all-is_label_char_iff (n ∷ noun)).0 (ground arith)) hyphen)) in
    let (one, few) = to_string-length 2 num (omega arith) in
    let size = length-append adj (codes "-" ++ ((n ∷ noun) ++ codes "-")) in
    let inner = length-append noun (codes "-") in
    let short_adj : length (a ∷ adj) ≤ 6 = ground arith in
    let short_noun : length (n ∷ noun) ≤ 6 = ground arith in
    subst IsLabel grouped (
      append_digits-IsLabel a tail_part digits chars (ground arith) (to_string-All num) one
        (omega (arith, size, inner)) (omega (arith, size, inner, few, short_adj, short_noun)))

-- The server accepts every name that the client makes up of an adjective and a noun of its lists and
-- a number below 1000.
pub validate_subdomain-generate_subdomain :
    (adj noun : Text) (num : ℕ)
    → Memᴰ adj adjectives
    → Memᴰ noun nouns
    → num < 1000
    → validate_subdomain (generate_subdomain adj noun num) ≡ ok tt
validate_subdomain-generate_subdomain adj noun num v w h =
    (validate_subdomain_iff (generate_subdomain adj noun num)).1 (
      words-IsLabel adj noun num (Memᴰ-all is_word adj adjectives refl v)
        (Memᴰ-all is_word noun nouns refl w) h)
