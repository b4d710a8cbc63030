-- ===== src/Text/Hex.antt =====
-- `hex.EncodeToString` and `hex.DecodeString`.
use Prim.Native.Char.{Char, code}
use v2sudoku.Prelude.{
  ℕ, ◌+◌, ◌-◌, ◌*◌, ◌/◌, ◌%◌, ◌<◌, ◌≡◌, refl, ap, String, List, [], ◌∷◌, ltb, leb, if◌then◌else◌,
  Option, none, some, ◌&&◌, arith, All, AllBelow-elim,
}
use v2sudoku.Text.Decimal.{digit_char}

unfoldable pub hex_char : ℕ → Char
unfolding digit_char
hex_char n =
    if ltb n 10
    then digit_char n
    else if leb n 10
    then "a"
    else if leb n 11
    then "b"
    else if leb n 12
    then "c"
    else if leb n 13
    then "d"
    else if leb n 14
    then "e"
    else "f"

unfoldable pub hex_encode : List ℕ → String
hex_encode [] = ""
hex_encode (b ∷ bs) =
    String.◌∷◌ (hex_char (b / 16)) (String.◌∷◌ (hex_char (b % 16)) (hex_encode bs))

-- The value of a hexadecimal digit, in either case.
unfoldable pub from_hex_char : ℕ → Option ℕ
from_hex_char c =
    if leb b'0' c && leb c b'9'
    then some (c - b'0')
    else if leb b'a' c && leb c b'f'
    then some (c - b'a' + 10)
    else if leb b'A' c && leb c b'F'
    then some (c - b'A' + 10)
    else none

push_byte : Option ℕ → Option ℕ → Option (List ℕ) → Option (List ℕ)
push_byte (some h) (some l) (some bs) = some ((h * 16 + l) ∷ bs)
push_byte _ _ _ = none

-- `none` is an error: a character that is no digit, or an odd number of them.
unfoldable pub hex_decode : String → Option (List ℕ)
unfolding push_byte
hex_decode String.[] = some []
hex_decode (String.◌∷◌ c String.[]) = none
hex_decode (String.◌∷◌ c (String.◌∷◌ d s)) =
    push_byte (from_hex_char (code c)) (from_hex_char (code d)) (hex_decode s)

hex_tests : hex_decode "00fFa9" ≡ some (0 ∷ 255 ∷ 169 ∷ [])
unfolding hex_decode from_hex_char
hex_tests = refl

abbrev pub IsByte : ℕ → Type 0
IsByte b = b < 256

from_hex-hex_char : (n : ℕ) → n < 16 → from_hex_char (code (hex_char n)) ≡ some n
unfolding from_hex_char hex_char
from_hex-hex_char n h =
    AllBelow-elim (λ k. from_hex_char (code (hex_char k)) ≡ some k) 16 n (ground arith) h

-- Decoding a text that encodes bytes gives the bytes.
pub hex_decode-encode : (bs : List ℕ) → All IsByte bs → hex_decode (hex_encode bs) ≡ some bs
unfolding hex_encode hex_decode
hex_decode-encode [] h = refl
hex_decode-encode (b ∷ bs) h =
    rw
      (
        from_hex-hex_char (b / 16) (omega arith),
        from_hex-hex_char (b % 16) (omega arith),
        hex_decode-encode bs h.1,
      )
      (ap (λ (n : ℕ). some (n ∷ bs)) (omega arith))
