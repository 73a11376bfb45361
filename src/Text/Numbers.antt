-- ===== src/Text/Numbers.antt =====
-- `str::parse` to an unsigned integer, and `{}` of one.
use loophole.Base.{
  ℕ, zero, suc, ◌≡◌, refl, false, arith, ◌+◌, ◌-◌, ◌*◌, ◌/◌, ◌%◌, ◌^◌, ◌&&◌, Option, none, some, [],
  ◌∷◌, leb, ltb, if◌then◌else◌, eqb, ◌>>=◌,
}
use loophole.Text.Defs.{Text, contains_char}

-- The value of decimal digits, from the left.
unfoldable pub digits_value : ℕ → Text → Option ℕ
digits_value acc [] = some acc
digits_value acc (c ∷ s) =
    let rest = digits_value (acc * 10 + (c - b'0')) s in
    if leb b'0' c && leb c b'9' then rest else none

abbrev pub some_digits : Text → Option ℕ
some_digits [] = none
some_digits (c ∷ s) = digits_value 0 (c ∷ s)

abbrev pub without_plus : Text → Text
without_plus [] = []
without_plus (c ∷ s) = if eqb c b'+' then s else c ∷ s

-- `s.parse::<uN>().ok()`: an optional plus, digits, and a value that fits.
unfoldable pub parse_uint : ℕ → Text → Option ℕ
unfolding digits_value
parse_uint bits s = do n ← some_digits (without_plus s); if ltb n (2 ^ bits) then some n else none

-- The decimal digits of a number, with fuel: a number has at most as many digits as its value.
unfoldable pub digits_from : ℕ → ℕ → Text → Text
digits_from zero n acc = acc
digits_from (suc f) n acc =
    let digit = b'0' + n % 10 in
    let more = digits_from f (n / 10) (digit ∷ acc) in if ltb n 10 then digit ∷ acc else more

unfoldable pub to_string : ℕ → Text
unfolding digits_from
to_string n = digits_from (suc n) n []

-- Decimal digits are no slashes.
digits_from-no_slash :
    (f n : ℕ) (acc : Text)
    → contains_char b'/' acc ≡ false
    → contains_char b'/' (digits_from f n acc) ≡ false
unfolding digits_from contains_char
digits_from-no_slash zero n acc h = h
digits_from-no_slash (suc f) n acc h =
    ground (arith, digits_from-no_slash f (n / 10) ((b'0' + n % 10) ∷ acc))

pub to_string-no_slash : (n : ℕ) → contains_char b'/' (to_string n) ≡ false
unfolding to_string
to_string-no_slash n = digits_from-no_slash (suc n) n [] (unfold contains_char in refl)
