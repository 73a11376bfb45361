-- ===== src/Http.antt =====
-- What the two ends of the tunnel share: the end of a block of headers (the function
-- `find_header_end` that server/proxy.rs and expose/forwarder.rs both have), and the reads from a
-- stream.
pub mod Blocks
use loophole.Base.{
  ℕ, zero, suc, ◌+◌, ◌-◌, ◌≤◌, ◌<◌, ◌≡◌, ◌≢◌, refl, sym, ap, ◌∙◌, ◌↔◌, ◌⊎◌, inl, inr, true, false,
  Option, none, some, List, [], ◌∷◌, ◌++◌, arith, length, take, drop, length-append, if◌then◌else◌,
  Bool-cases, false≢true, take-append-drop, length-take, length-drop,
}
use loophole.Text.{Text, ◌==◌}
use loophole.Text.Laws.{eq_iff, eq_refl}
use loophole.Text.Utf8.{Bytes}

abbrev pub terminator : Bytes
terminator = 13 ∷ 10 ∷ 13 ∷ 10 ∷ []

abbrev pub crlf : Bytes
crlf = 13 ∷ 10 ∷ []

-- What one `read` gives: at least one byte, the end, an error, or nothing within the time allowed.
pub data Read : Type 0 where
  chunk : ℕ → Bytes → Read
  closed failed timed_out : Read

-- The rounds left, and the position.
unfoldable pub scan : Bytes → ℕ → ℕ → Option ℕ
scan bytes zero i = none
scan bytes (suc rounds) i =
    let rest = scan bytes rounds (suc i) in
    if take 4 (drop i bytes) == terminator then some i else rest

unfoldable pub find_header_end : Bytes → Option ℕ
unfolding scan
find_header_end bytes = scan bytes (length bytes - 3) 0

-- The first place where the terminator stands.
pub record IsHeaderEnd (bytes : Bytes) (i : ℕ) : Type 0 where
  pub here : take 4 (drop i bytes) ≡ terminator
  pub first : (j : ℕ) → j < i → take 4 (drop j bytes) ≢ terminator

-- The terminator ends within the bytes.
pub terminator_fits :
    (bytes : Bytes) (i : ℕ) → take 4 (drop i bytes) ≡ terminator → i + 4 ≤ length bytes
terminator_fits bytes i h =
    omega (arith, ap length h, length-take 4 (drop i bytes), length-drop i bytes)

module _ (bytes : Bytes) where
  scan_sound :
      (rounds i k : ℕ)
      → scan bytes rounds i ≡ some k
      → (take 4 (drop k bytes) ≡ terminator)
        × ((j : ℕ) → i ≤ j → j < k → take 4 (drop j bytes) ≢ terminator)
  unfolding scan
  scan_sound zero i k h = cc
  scan_sound (suc rounds) i k h = elim (Bool-cases (take 4 (drop i bytes) == terminator)) [
    | inl hit ↦
        let same : i ≡ k = ground arith in
        (rw (← same) ((eq_iff _ _).0 hit), λ j p q. absurd (omega arith))
    | inr miss ↦
        let (here, first) = scan_sound rounds (suc i) k (ground arith) in
        (here, λ j p q e. ground (arith, first j, eq_iff (take 4 (drop i bytes)) terminator))
  ]

  scan_finds :
      (rounds i k : ℕ)
      → i ≤ k
      → k < i + rounds
      → take 4 (drop k bytes) ≡ terminator
      → ((j : ℕ) → i ≤ j → j < k → take 4 (drop j bytes) ≢ terminator)
      → scan bytes rounds i ≡ some k
  unfolding scan
  scan_finds zero i k p q here first = absurd (omega arith)
  scan_finds (suc rounds) i k p q here first =
      elim (Bool-cases (take 4 (drop i bytes) == terminator)) [
        | inl hit ↦ ground (arith, first i, eq_iff (take 4 (drop i bytes)) terminator)
        | inr miss ↦
            let later : i ≢ k = λ e. false≢true (sym miss ∙ (eq_iff _ _).1 (rw e here)) in
            rw miss (
              scan_finds rounds (suc i) k (omega arith) (omega arith) here
                (λ j p' q'. first j (omega arith) q'))
      ]

  -- The search finds exactly the first terminator.
  pub find_header_end_iff : (k : ℕ) → (find_header_end bytes ≡ some k) ↔ IsHeaderEnd bytes k
  unfolding find_header_end
  find_header_end_iff k = (
    λ h.
        let (here, first) = scan_sound (length bytes - 3) 0 k h in
        record { here = here; first = λ j q. first j (omega arith) q },
    λ v.
        scan_finds (length bytes - 3) 0 k (omega arith)
          (omega (arith, terminator_fits bytes k v.here)) v.here (λ j p q. v.first j q),
  )

-- A window of the bytes does not change when more bytes follow.
window-append :
    (i : ℕ) (xs ys : Bytes) → i + 4 ≤ length xs → take 4 (drop i (xs ++ ys)) ≡ take 4 (drop i xs)
window-append zero [] ys h = absurd (omega arith)
window-append zero (a ∷ []) ys h = absurd (omega arith)
window-append zero (a ∷ b ∷ []) ys h = absurd (omega arith)
window-append zero (a ∷ b ∷ c ∷ []) ys h = absurd (omega arith)
window-append zero (a ∷ b ∷ c ∷ d ∷ xs) ys h = refl
window-append (suc i) [] ys h = absurd (omega arith)
window-append (suc i) (x ∷ xs) ys h = window-append i xs ys (omega arith)

-- Once found, the end of the headers stays where it is when more bytes arrive.
pub find_header_end-append :
    (xs ys : Bytes) (k : ℕ) → find_header_end xs ≡ some k → find_header_end (xs ++ ys) ≡ some k
find_header_end-append xs ys k h =
    let v = (find_header_end_iff xs k).0 h in
    let fits = terminator_fits xs k v.here in
    (find_header_end_iff (xs ++ ys) k).1 (record {
      here = window-append k xs ys fits ∙ v.here;
      first = λ j q e. v.first j q (sym (window-append j xs ys (omega arith)) ∙ e);
    })

-- A terminator that stands within the first bytes is found there already.
pub find_header_end-prefix :
    (xs ys : Bytes) (k : ℕ)
    → find_header_end (xs ++ ys) ≡ some k
    → k + 4 ≤ length xs
    → find_header_end xs ≡ some k
find_header_end-prefix xs ys k h fits =
    let v = (find_header_end_iff (xs ++ ys) k).0 h in
    (find_header_end_iff xs k).1 (record {
      here = sym (window-append k xs ys fits) ∙ v.here;
      first = λ j q e. v.first j q (window-append j xs ys (omega arith) ∙ e);
    })
