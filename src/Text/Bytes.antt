-- ===== src/Text/Bytes.antt =====
-- `[]byte(s)`: the UTF-8 bytes of a string.
use Prim.Native.Char.{code}
use v2sudoku.Prelude.{ℕ, ◌+◌, ◌/◌, ◌%◌, ◌≡◌, refl, String, List, [], ◌∷◌, ◌++◌, ltb, if◌then◌else◌}

unfoldable pub char_bytes : ℕ → List ℕ
char_bytes c =
    if ltb c 0x80
    then c ∷ []
    else if ltb c 0x800
    then (0xc0 + c / 64) ∷ (0x80 + c % 64) ∷ []
    else if ltb c 0x10000
    then (0xe0 + c / 4096) ∷ (0x80 + c / 64 % 64) ∷ (0x80 + c % 64) ∷ []
    else (0xf0 + c / 262144) ∷ (0x80 + c / 4096 % 64) ∷ (0x80 + c / 64 % 64) ∷ (0x80 + c % 64) ∷ []

unfoldable pub bytes : String → List ℕ
unfolding char_bytes
bytes String.[] = []
bytes (String.◌∷◌ c s) = char_bytes (code c) ++ bytes s

bytes_test : bytes "aé€😀" ≡ 0x61 ∷ 0xc3 ∷ 0xa9 ∷ 0xe2 ∷ 0x82 ∷ 0xac ∷ 0xf0 ∷ 0x9f ∷ 0x98 ∷ 0x80 ∷ []
unfolding bytes
bytes_test = refl
