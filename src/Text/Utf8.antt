-- ===== src/Text/Utf8.antt =====
-- UTF-8: `as_bytes` and `str::from_utf8`.
use mathlib.Core.Option
use loophole.Base.{
  ℕ, zero, suc, ◌+◌, ◌-◌, ◌*◌, ◌/◌, ◌%◌, ◌≤◌, ◌<◌, ◌≡◌, ◌⊎◌, refl, Option, none, some, List, [],
  ◌∷◌, ◌++◌, arith, leb, ltb, eqb, ◌&&◌, if◌then◌else◌, All,
}
use loophole.Text.Defs.{Text}

abbrev pub Bytes : Type 0
Bytes = List ℕ

abbrev pub encode_char : ℕ → Bytes
encode_char c =
    if ltb c 0x80
    then c ∷ []
    else if ltb c 0x800
    then (0xc0 + c / 64) ∷ (0x80 + c % 64) ∷ []
    else if ltb c 0x1_0000
    then (0xe0 + c / 4096) ∷ (0x80 + c / 64 % 64) ∷ (0x80 + c % 64) ∷ []
    else (0xf0 + c / 262144) ∷ (0x80 + c / 4096 % 64) ∷ (0x80 + c / 64 % 64) ∷ (0x80 + c % 64) ∷ []

unfoldable pub as_bytes : Text → Bytes
as_bytes [] = []
as_bytes (c ∷ s) = encode_char c ++ as_bytes s

-- Where the decoder stands: how many bytes it still needs, the range of the next, and the bits that
-- it has read.
pub record Pending : Type 0 where
  pub need : ℕ
  pub low : ℕ
  pub high : ℕ
  pub bits : ℕ

abbrev idle : Pending
idle = record { need = 0; low = 0x80; high = 0xbf; bits = 0 }

abbrev await : ℕ → ℕ → ℕ → ℕ → Option (Pending × Text)
await need low high bits = some (record { need = need; low = low; high = high; bits = bits }, [])

first_byte : ℕ → Option (Pending × Text)
first_byte b =
    if ltb b 0x80
    then some (idle, b ∷ [])
    else if ltb b 0xc2
    then none
    else if ltb b 0xe0
    then await 1 0x80 0xbf (b - 0xc0)
    else if eqb b 0xe0
    then await 2 0xa0 0xbf 0
    else if eqb b 0xed
    then await 2 0x80 0x9f 13
    else if ltb b 0xf0
    then await 2 0x80 0xbf (b - 0xe0)
    else if eqb b 0xf0
    then await 3 0x90 0xbf 0
    else if ltb b 0xf4
    then await 3 0x80 0xbf (b - 0xf0)
    else if eqb b 0xf4
    then await 3 0x80 0x8f 4
    else none

next_byte : ℕ → Pending → ℕ → Option (Pending × Text)
next_byte zero p b = first_byte b
next_byte (suc zero) p b =
    if leb p.low b && leb b p.high then some (idle, (p.bits * 64 + (b - 0x80)) ∷ []) else none
next_byte (suc (suc n)) p b =
    if leb p.low b && leb b p.high then await (suc n) 0x80 0xbf (p.bits * 64 + (b - 0x80)) else none

decode_from : Pending → Bytes → Option Text
decode_from p [] = if eqb p.need 0 then some [] else none
decode_from p (b ∷ bs) = elim (next_byte p.need p b) [
  | none ↦ none
  | some (q, out) ↦ Option.map (λ s. out ++ s) (decode_from q bs)
]

unfoldable pub from_utf8 : Bytes → Option Text
unfolding decode_from next_byte first_byte
from_utf8 bs = decode_from idle bs

-- A Unicode scalar value: what a `char` holds.
abbrev pub IsScalar : ℕ → Type 0
IsScalar c = (c < 0xd800) ⊎ ((0xe000 ≤ c) × (c < 0x11_0000))

decode_char :
    (c : ℕ) (bs : Bytes)
    → IsScalar c
    → decode_from idle (encode_char c ++ bs) ≡ Option.map (λ s. c ∷ s) (decode_from idle bs)
unfolding decode_from next_byte first_byte
decode_char c bs h = ground arith

-- Decoding gives back what was encoded.
pub from_utf8-as_bytes : (s : Text) → All IsScalar s → from_utf8 (as_bytes s) ≡ some s
unfolding from_utf8 as_bytes
from_utf8-as_bytes [] h = refl
from_utf8-as_bytes (c ∷ s) h =
    ground (arith, decode_char c (as_bytes s) h.0, from_utf8-as_bytes s h.1)
