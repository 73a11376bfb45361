-- ===== src/Setup/Token.antt =====
-- init.rs: `generate_token`. The random bytes are an argument.
use loophole.Base.{ℕ, ◌+◌, ◌-◌, ◌/◌, ◌%◌, [], ◌∷◌, ◌++◌, ltb, if◌then◌else◌}
use loophole.Text.{Text, codes}
use loophole.Text.Utf8.{Bytes}

-- `{:02x}` of a byte.
abbrev pub hex_digit : ℕ → ℕ
hex_digit d = if ltb d 10 then b'0' + d else b'a' + (d - 10)

unfoldable pub hex : Bytes → Text
hex [] = []
hex (b ∷ bs) = hex_digit (b / 16) ∷ hex_digit (b % 16) ∷ hex bs

unfoldable pub generate_token : Text → Bytes → Text
generate_token prefix random = prefix ++ (codes "_" ++ hex random)
