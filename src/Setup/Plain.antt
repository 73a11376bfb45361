-- ===== src/Setup/Plain.antt =====
-- init.rs: the generated document is one of plain lines, if the domain and the email are plain.
use loophole.Base.{ℕ, ◌/◌, ◌%◌, ◌<◌, ◌≡◌, refl, true, [], ◌∷◌, arith, all, All}
use loophole.Text.{Text, codes}
use loophole.Text.Utf8.{Bytes}
use loophole.Setup.Token.{hex, hex_digit, generate_token}
use loophole.Setup.Document.{document, is_plain, is_key, is_key_char, is_plain_line}

hex_digit-is_key_char : (d : ℕ) → d < 16 → is_key_char (hex_digit d) ≡ true
hex_digit-is_key_char d h = ground arith

hex-is_key_char : (bs : Bytes) → All (λ b. b < 256) bs → all is_key_char (hex bs) ≡ true
unfolding hex
hex-is_key_char [] h = refl
hex-is_key_char (b ∷ bs) (h, hs) =
    rw
      (
        hex_digit-is_key_char (b / 16) (omega arith),
        hex_digit-is_key_char (b % 16) (omega arith),
        hex-is_key_char bs hs,
      )
      refl

-- A generated token is a bare key of TOML.
pub generate_token-is_key :
    (bs : Bytes) → All (λ b. b < 256) bs → is_key (generate_token (codes "tk") bs) ≡ true
unfolding generate_token
generate_token-is_key bs h = hex-is_key_char bs h

pub document-is_plain :
    (d t e : Text)
    → is_plain d ≡ true
    → is_key t ≡ true
    → is_plain e ≡ true
    → all is_plain_line (document d t e) ≡ true
document-is_plain d t e h k l = rw (h, k, l) refl
