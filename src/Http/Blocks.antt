-- ===== src/Http/Blocks.antt =====
-- Blocks of header lines, each ended by CRLF, and where `find_header_end` finds their end.
use mathlib.Core.Option
use mathlib.Core.List.{append_assoc}
use loophole.Base.{
  ℕ, zero, suc, ◌+◌, ◌≡◌, ◌≢◌, refl, false, some, List, [], ◌∷◌, ◌++◌, arith, length, take,
  length-append, All, eq-false_of_ne-true,
}
use loophole.Text.{◌==◌, contains_char}
use loophole.Text.Laws.{eq_iff}
use loophole.Text.Utf8.{Bytes}
use loophole.Http.{crlf, terminator, scan, find_header_end}

scan-cons : (x : ℕ) (xs : Bytes) (n i : ℕ) → scan (x ∷ xs) n (suc i) ≡ Option.map suc (scan xs n i)
unfolding scan
scan-cons x xs zero i = refl
scan-cons x xs (suc n) i = ground (arith, scan-cons x xs n (suc i))

-- The search moves on past a byte at which no terminator stands.
find_header_end-cons :
    (x : ℕ) (xs : Bytes)
    → (take 4 (x ∷ xs) == terminator) ≡ false
    → find_header_end (x ∷ xs) ≡ Option.map suc (find_header_end xs)
unfolding find_header_end scan
find_header_end-cons x [] miss = refl
find_header_end-cons x (a ∷ []) miss = refl
find_header_end-cons x (a ∷ b ∷ []) miss = refl
find_header_end-cons x (a ∷ b ∷ c ∷ xs) miss =
    ground (arith, scan-cons x (a ∷ b ∷ c ∷ xs) (length xs) 0)

window_miss : (x : ℕ) (xs : Bytes) → x ≢ 13 → (take 4 (x ∷ xs) == terminator) ≡ false
window_miss x xs h =
    eq-false_of_ne-true _ (λ e. ground (arith, eq_iff (take 4 (x ∷ xs)) terminator))

-- It moves on past a line without a carriage return.
find_header_end-append_line :
    (l rest : Bytes) (k : ℕ)
    → contains_char 13 l ≡ false
    → find_header_end rest ≡ some k
    → find_header_end (l ++ rest) ≡ some (length l + k)
unfolding contains_char
find_header_end-append_line [] rest k h e = ground arith
find_header_end-append_line (x ∷ l) rest k h e = ground (
  arith,
  find_header_end-append_line l rest k,
  find_header_end-cons x (l ++ rest),
  window_miss x (l ++ rest),
)

-- It moves on past the end of a line, if another line follows.
find_header_end-append_crlf :
    (c : ℕ) (rest : Bytes) (k : ℕ)
    → c ≢ 13
    → find_header_end (c ∷ rest) ≡ some k
    → find_header_end (crlf ++ c ∷ rest) ≡ some (2 + k)
find_header_end-append_crlf c rest k h e =
    let first : (take 4 (13 ∷ 10 ∷ c ∷ rest) == terminator) ≡ false =
      eq-false_of_ne-true _ (λ m. crlf_window c rest h ((eq_iff _ _).0 m)) in
    ground (
      arith,
      find_header_end-cons 13 (10 ∷ c ∷ rest),
      find_header_end-cons 10 (c ∷ rest),
      window_miss 10 (c ∷ rest),
      first,
    )
  where
    crlf_window : (c : ℕ) (rest : Bytes) → c ≢ 13 → take 4 (13 ∷ 10 ∷ c ∷ rest) ≢ terminator
    crlf_window c [] h m = cc
    crlf_window c (d ∷ rest) h m = ground arith

-- Lines, each with CRLF behind it.
unfoldable pub block : List Bytes → Bytes
block [] = []
block (l ∷ ls) = l ++ (crlf ++ block ls)

pub block-append : (ks ls : List Bytes) → block (ks ++ ls) ≡ block ks ++ block ls
unfolding block
block-append [] ls = refl
block-append (k ∷ ks) ls = simp (block-append ks ls, append_assoc)

-- A line of a head: not empty, and with no carriage return.
abbrev pub IsLine : Bytes → Type 0
IsLine l = (l ≢ []) × (contains_char 13 l ≡ false)

-- The head of a message ends where its block of lines does, whatever body follows.
pub find_header_end-block :
    (l : Bytes) (ls : List Bytes) (body : Bytes)
    → IsLine l
    → All IsLine ls
    → (pos : ℕ) × (find_header_end (block (l ∷ ls) ++ (crlf ++ body)) ≡ some pos)
      × (pos + 2 ≡ length (block (l ∷ ls)))
unfolding block contains_char find_header_end scan ◌==◌
find_header_end-block l [] body h hs = (
  length l,
  rw (append_assoc l crlf (crlf ++ body))
      (ground (arith, find_header_end-append_line l (crlf ++ (crlf ++ body)) 0 h.1)),
  omega (arith, length-append l crlf),
)
find_header_end-block l ([] ∷ ls) body h ((k, _), ks) = absurd (k refl)
find_header_end-block l ((c ∷ m) ∷ ls) body h (k, ks) =
    let (pos, found, size) = find_header_end-block (c ∷ m) ls body k ks in
    let rest : Bytes = block ((c ∷ m) ∷ ls) in
    (
      length l + (2 + pos),
      rw (append_assoc l (crlf ++ rest) (crlf ++ body)) (
          find_header_end-append_line l _ (2 + pos) h.1
            (find_header_end-append_crlf c _ pos (λ e. ground arith) found)),
      omega (arith, size, length-append l (crlf ++ rest)),
    )
