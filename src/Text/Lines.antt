-- ===== src/Text/Lines.antt =====
-- `str::lines` and `str::to_lowercase`.
use mathlib.Core.List.{append-nil, append_assoc}
use loophole.Base.{
  ◌≡◌, refl, ap, ◌∙◌, false, arith, All, ℕ, ◌+◌, List, [], ◌∷◌, ◌++◌, eqb, leb, ◌&&◌, if◌then◌else◌,
  is_empty, unwrap_or,
}
use loophole.Text.Defs.{Text, strip_suffix, contains_char}
use loophole.Text.Laws.{strip_suffix-append}

-- A line that a line feed ended, without the carriage return before it.
unfoldable pub without_cr : Text → Text
unfolding strip_suffix
without_cr line = unwrap_or (strip_suffix line (13 ∷ [])) line

lines_from : Text → Text → List Text
unfolding without_cr
lines_from line [] = if is_empty line then [] else line ∷ []
lines_from line (c ∷ s) =
    let next = lines_from [] s in
    let longer = lines_from (line ++ c ∷ []) s in
    if eqb c 10 then without_cr line ∷ next else longer

unfoldable pub lines : Text → List Text
unfolding lines_from
lines s = lines_from [] s

-- The characters whose lower case has an ASCII letter are those of ASCII, the Kelvin sign and the
-- dotted capital I. Others stay as they are here: the program compares the result with ASCII texts
-- alone, which no other character can match.
abbrev lower : ℕ → Text
lower c =
    if leb b'A' c && leb c b'Z'
    then (c + 32) ∷ []
    else if eqb c 0x212a
    then b'k' ∷ []
    else if eqb c 0x130
    then b'i' ∷ 0x307 ∷ []
    else c ∷ []

unfoldable pub to_lowercase : Text → Text
to_lowercase [] = []
to_lowercase (c ∷ s) = lower c ++ to_lowercase s

without_cr-append : (line : Text) → without_cr (line ++ 13 ∷ []) ≡ line
unfolding without_cr
without_cr-append line = rw (strip_suffix-append line (13 ∷ []))

-- Texts, each with CRLF behind it.
unfoldable pub joined : List Text → Text
joined [] = []
joined (l ∷ ls) = l ++ 13 ∷ 10 ∷ joined ls

lines_from-append :
    (acc l rest : Text)
    → contains_char 10 l ≡ false
    → lines_from acc (l ++ 13 ∷ 10 ∷ rest) ≡ (acc ++ l) ∷ lines_from [] rest
unfolding lines_from contains_char
lines_from-append acc [] rest h = rw (append-nil acc, without_cr-append acc) refl
lines_from-append acc (c ∷ l) rest h =
    ground (arith, lines_from-append (acc ++ c ∷ []) l rest, append_assoc acc (c ∷ []) l)

lines_from-last :
    (acc l : Text)
    → contains_char 10 l ≡ false
    → lines_from acc l ≡ (if is_empty (acc ++ l) then [] else (acc ++ l) ∷ [])
unfolding lines_from contains_char
lines_from-last acc [] h = rw (append-nil acc) refl
lines_from-last acc (c ∷ l) h =
    ground (arith, lines_from-last (acc ++ c ∷ []) l, append_assoc acc (c ∷ []) l)

-- The lines of joined texts without line feeds, and of one that may follow them, are those texts.
pub lines-joined :
    (ls : List Text) (last : Text)
    → All (λ l. contains_char 10 l ≡ false) ls
    → contains_char 10 last ≡ false
    → lines (joined ls ++ last) ≡ ls ++ (if is_empty last then [] else last ∷ [])
unfolding lines joined
lines-joined [] last h k = lines_from-last [] last k
lines-joined (l ∷ ls) last (h, hs) k = rw (append_assoc l (13 ∷ 10 ∷ joined ls) last) (
    lines_from-append [] l (joined ls ++ last) h
    ∙ ap (λ x. l ∷ x) (unfold lines in lines-joined ls last hs k))
