-- ===== src/Text/Defs.antt =====
-- Texts and the searches in them.
use Prim.Native.Char.{code}
use loophole.Base.{
  ℕ, ◌+◌, String, Bool, true, false, ◌&&◌, ◌||◌, Option, none, some, List, [], ◌∷◌, map, reverse,
  eqb, leb, ltb, if◌then◌else◌, is_some,
}
use mathlib.Core.Option

abbrev pub Text : Type 0
Text = List ℕ

-- The code points of a literal.
abbrev pub codes : String → Text
codes String.[] = []
codes (String.◌∷◌ c s) = code c ∷ codes s

infix 50 ◌==◌
unfoldable pub ◌==◌ : Text → Text → Bool
[] == [] = true
[] == (d ∷ t) = false
(c ∷ s) == [] = false
(c ∷ s) == (d ∷ t) = eqb c d && s == t

-- Membership in a list or set of texts.
unfoldable pub mem : List Text → Text → Bool
mem [] s = false
mem (r ∷ rs) s = r == s || mem rs s

-- Bytes of a code point in UTF-8, and of a text: `str::len`.
abbrev pub len_utf8 : ℕ → ℕ
len_utf8 c = if ltb c 0x80 then 1 else if ltb c 0x800 then 2 else if ltb c 0x1_0000 then 3 else 4

unfoldable pub len : Text → ℕ
len [] = 0
len (c ∷ s) = len_utf8 c + len s

-- The text and the pattern, in the order of the method call.
unfoldable pub strip_prefix : Text → Text → Option Text
strip_prefix s [] = some s
strip_prefix [] (p ∷ ps) = none
strip_prefix (c ∷ s) (p ∷ ps) = if eqb c p then strip_prefix s ps else none

unfoldable pub strip_suffix : Text → Text → Option Text
strip_suffix s t = Option.map reverse (strip_prefix (reverse s) (reverse t))

unfoldable pub starts_with : Text → Text → Bool
unfolding strip_prefix
starts_with s t = is_some (strip_prefix s t)

unfoldable pub ends_with : Text → Text → Bool
unfolding strip_suffix strip_prefix
ends_with s t = is_some (strip_suffix s t)

-- `contains` of a character.
unfoldable pub contains_char : ℕ → Text → Bool
contains_char c [] = false
contains_char c (d ∷ s) = eqb d c || contains_char c s

-- `contains` of a text.
unfoldable pub contains : Text → Text → Bool
unfolding starts_with
contains [] t = starts_with [] t
contains (c ∷ s) t = starts_with (c ∷ s) t || contains s t

-- `split(c).next()`: what stands before the first `c`, or all.
unfoldable pub before : ℕ → Text → Text
before c [] = []
before c (d ∷ s) = if eqb d c then [] else d ∷ before c s

-- `split_once(c)`.
unfoldable pub split_once : ℕ → Text → Option (Text × Text)
split_once c [] = none
split_once c (d ∷ s) =
    if eqb d c then some ([], s) else Option.map (λ p. (d ∷ p.0, p.1)) (split_once c s)

abbrev onto : ℕ → List Text → List Text
onto d [] = (d ∷ []) ∷ []
onto d (t ∷ ts) = (d ∷ t) ∷ ts

-- `split(c)`.
unfoldable pub split : ℕ → Text → List Text
split c [] = [] ∷ []
split c (d ∷ s) = let rest = split c s in if eqb d c then [] ∷ rest else onto d rest

-- `char::is_whitespace`.
abbrev pub is_whitespace : ℕ → Bool
is_whitespace c =
    leb 9 c && leb c 13
    || eqb c 32
    || eqb c 0x85
    || eqb c 0xa0
    || eqb c 0x1680
    || leb 0x2000 c && leb c 0x200a
    || eqb c 0x2028
    || eqb c 0x2029
    || eqb c 0x202f
    || eqb c 0x205f
    || eqb c 0x3000

unfoldable pub trim_start : Text → Text
trim_start [] = []
trim_start (c ∷ s) = if is_whitespace c then trim_start s else c ∷ s

unfoldable pub trim : Text → Text
unfolding trim_start
trim s = reverse (trim_start (reverse (trim_start s)))

-- `char::is_ascii_alphanumeric`.
abbrev pub is_ascii_alphanumeric : ℕ → Bool
is_ascii_alphanumeric c =
    leb b'0' c && leb c b'9' || leb b'A' c && leb c b'Z' || leb b'a' c && leb c b'z'

abbrev pub to_ascii_lower : ℕ → ℕ
to_ascii_lower c = if leb b'A' c && leb c b'Z' then c + 32 else c

unfoldable pub eq_ignore_ascii_case : Text → Text → Bool
unfolding ◌==◌
eq_ignore_ascii_case s t = map to_ascii_lower s == map to_ascii_lower t
