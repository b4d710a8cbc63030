-- ===== src/Text.antt =====
-- What the program uses of Go's `strings`, `strconv`, `encoding/hex` and `[]byte(s)`. A Go string is
-- modelled as its sequence of Unicode characters (valid UTF-8).
pub mod Trim
pub mod Decimal
pub mod Atoi
pub mod Hex
pub mod Bytes
pub mod Order
pub use Trim.{is_empty}
use Prim.Native.Char.{Char, code}
use Prim.Native.String.{◌++◌ as append}
use v2sudoku.Prelude.{
  ℕ, ◌+◌, ◌≤◌, Bool, true, false, ◌||◌, ◌&&◌, String, List, [], ◌∷◌, ltb, leb, nat_beq,
  if◌then◌else◌, ◌≡◌, refl,
}

infixr 65 ◌+s+◌
-- Go's `+` on strings.
abbrev pub ◌+s+◌ : String → String → String
a +s+ b = append a b

-- `strings.ToLower`, for one character: the ASCII letters, and the two others whose lower case is
-- an ASCII letter (U+0130 and the Kelvin sign). What it does to other characters is left out: the
-- program compares the result with ASCII words alone.
unfoldable pub lower_char : Char → Char
lower_char c =
    if nat_beq (code c) b'A'
    then "a"
    else if nat_beq (code c) b'B'
    then "b"
    else if nat_beq (code c) b'C'
    then "c"
    else if nat_beq (code c) b'D'
    then "d"
    else if nat_beq (code c) b'E'
    then "e"
    else if nat_beq (code c) b'F'
    then "f"
    else if nat_beq (code c) b'G'
    then "g"
    else if nat_beq (code c) b'H'
    then "h"
    else if nat_beq (code c) b'I'
    then "i"
    else if nat_beq (code c) b'J'
    then "j"
    else if nat_beq (code c) b'K'
    then "k"
    else if nat_beq (code c) b'L'
    then "l"
    else if nat_beq (code c) b'M'
    then "m"
    else if nat_beq (code c) b'N'
    then "n"
    else if nat_beq (code c) b'O'
    then "o"
    else if nat_beq (code c) b'P'
    then "p"
    else if nat_beq (code c) b'Q'
    then "q"
    else if nat_beq (code c) b'R'
    then "r"
    else if nat_beq (code c) b'S'
    then "s"
    else if nat_beq (code c) b'T'
    then "t"
    else if nat_beq (code c) b'U'
    then "u"
    else if nat_beq (code c) b'V'
    then "v"
    else if nat_beq (code c) b'W'
    then "w"
    else if nat_beq (code c) b'X'
    then "x"
    else if nat_beq (code c) b'Y'
    then "y"
    else if nat_beq (code c) b'Z'
    then "z"
    else if nat_beq (code c) 0x130
    then "i"
    else if nat_beq (code c) 0x212a
    then "k"
    else c

unfoldable pub to_lower : String → String
unfolding lower_char
to_lower String.[] = String.[]
to_lower (String.◌∷◌ c s) = String.◌∷◌ (lower_char c) (to_lower s)

to_lower_test : to_lower "Ab-Z é" ≡ "ab-z é"
unfolding to_lower
to_lower_test = refl
