-- ===== src/Text/Atoi.antt =====
-- `strconv.Atoi` with its error ignored, as the program calls it: a text that is no number gives 0,
-- and a number out of range gives the nearest one in range.
use Prim.Native.Char.{Char, code}
use v2sudoku.Prelude.{
  ℕ, ◌+◌, ◌-◌, ◌*◌, ◌^◌, ◌≡◌, refl, Bool, true, false, ◌||◌, Option, none, some, String, ltb, leb,
  nat_beq, if◌then◌else◌, ℤ, pos, negsuc,
}
use v2sudoku.Text.Trim.{is_empty}

abbrev not_digit : Char → Bool
not_digit c = ltb (code c) 48 || ltb 57 (code c)

-- The loop of `ParseUint` in base 10: it stops where 64 bits overflow, before it meets what follows.
unfoldable pub parse_uint : String → ℕ → Option ℕ
parse_uint String.[] n = some n
parse_uint (String.◌∷◌ c s) n =
    let n1 = n * 10 + (code c - 48) in
    let rest = parse_uint s n1 in
    if not_digit c then none else if leb (2 ^ 64) n1 then some (2 ^ 64 - 1) else rest

abbrev clamp : Bool → ℕ → ℤ
clamp true n =
    if leb (2 ^ 63) n then negsuc (2 ^ 63 - 1) else if nat_beq n 0 then pos 0 else negsuc (n - 1)
clamp false n = if leb (2 ^ 63) n then pos (2 ^ 63 - 1) else pos n

abbrev signed : Bool → String → ℤ
signed negative s =
    if is_empty s then pos 0 else elim (parse_uint s 0) [ none ↦ pos 0 | some n ↦ clamp negative n ]

unfoldable pub atoi : String → ℤ
unfolding parse_uint
atoi String.[] = pos 0
atoi (String.◌∷◌ c s) =
    if nat_beq (code c) b'-'
    then signed true s
    else if nat_beq (code c) b'+'
    then signed false s
    else signed false (String.◌∷◌ c s)

atoi_negative : atoi "-120" ≡ negsuc 119
unfolding atoi
atoi_negative = refl

atoi_bad : atoi "12s" ≡ pos 0
unfolding atoi
atoi_bad = refl

atoi_large : atoi "99999999999999999999x" ≡ pos 9223372036854775807
unfolding atoi
atoi_large = refl
