-- ===== src/Text/Trim.antt =====
-- `strings.TrimSpace`: the characters of Unicode's White_Space go from both ends.
use Prim.Native.Char.{Char, code}
use v2sudoku.Prelude.{
  ◌≡◌, refl, Bool, true, false, ◌||◌, ◌&&◌, String, leb, nat_beq, if◌then◌else◌, arith,
}

abbrev pub is_empty : String → Bool
is_empty String.[] = true
is_empty (String.◌∷◌ c s) = false

unfoldable pub is_space : Char → Bool
is_space c =
    (leb 9 (code c) && leb (code c) 13)
    || nat_beq (code c) 32
    || nat_beq (code c) 0x85
    || nat_beq (code c) 0xa0
    || nat_beq (code c) 0x1680
    || (leb 0x2000 (code c) && leb (code c) 0x200a)
    || nat_beq (code c) 0x2028
    || nat_beq (code c) 0x2029
    || nat_beq (code c) 0x202f
    || nat_beq (code c) 0x205f
    || nat_beq (code c) 0x3000

unfoldable pub trim_left : String → String
trim_left String.[] = String.[]
trim_left (String.◌∷◌ c s) = if is_space c then trim_left s else String.◌∷◌ c s

-- Keep a character at the front, but for a space with nothing kept behind it.
abbrev push_kept : Char → String → String
push_kept c String.[] = if is_space c then String.[] else String.◌∷◌ c String.[]
push_kept c (String.◌∷◌ d s) = String.◌∷◌ c (String.◌∷◌ d s)

unfoldable pub trim_right : String → String
trim_right String.[] = String.[]
trim_right (String.◌∷◌ c s) = push_kept c (trim_right s)

unfoldable pub trim_space : String → String
unfolding is_space trim_left trim_right
trim_space s = trim_right (trim_left s)

trim_tests : trim_space " \t a b\n" ≡ "a b"
unfolding trim_space
trim_tests = refl

pub trim_space-is_empty : (s : String) → is_empty s ≡ true → is_empty (trim_space s) ≡ true
unfolding trim_space
trim_space-is_empty String.[] h = refl
trim_space-is_empty (String.◌∷◌ c s) h = absurd (ground arith)
