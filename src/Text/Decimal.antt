-- ===== src/Text/Decimal.antt =====
-- `strconv.Itoa`, and `%d` in a format.
use Prim.Native.Char.{Char}
use v2sudoku.Prelude.{ℕ, zero, suc, ◌/◌, ◌%◌, ◌≡◌, refl, String, ltb, if◌then◌else◌, ℤ, pos, negsuc}

unfoldable pub digit_char : ℕ → Char
digit_char zero = "0"
digit_char (suc zero) = "1"
digit_char (suc (suc zero)) = "2"
digit_char (suc (suc (suc zero))) = "3"
digit_char (suc (suc (suc (suc zero)))) = "4"
digit_char (suc (suc (suc (suc (suc zero))))) = "5"
digit_char (suc (suc (suc (suc (suc (suc zero)))))) = "6"
digit_char (suc (suc (suc (suc (suc (suc (suc zero))))))) = "7"
digit_char (suc (suc (suc (suc (suc (suc (suc (suc zero)))))))) = "8"
digit_char (suc (suc (suc (suc (suc (suc (suc (suc (suc n))))))))) = "9"

-- The digits of `n` before `out`. The fuel is a bound on `n`, which falls at each round.
unfoldable pub digits_fuel : ℕ → ℕ → String → String
digits_fuel zero n out = out
digits_fuel (suc f) n out =
    let more = digits_fuel f (n / 10) (String.◌∷◌ (digit_char (n % 10)) out) in
    if ltb n 10 then String.◌∷◌ (digit_char n) out else more

unfoldable pub format_nat : ℕ → String
unfolding digits_fuel digit_char
format_nat n = digits_fuel (suc n) n ""

unfoldable pub itoa : ℤ → String
unfolding format_nat
itoa (pos n) = format_nat n
itoa (negsuc n) = String.◌∷◌ "-" (format_nat (suc n))

itoa_positive : itoa (pos 18446744073709551615) ≡ "18446744073709551615"
unfolding itoa
itoa_positive = refl

itoa_negative : itoa (negsuc 119) ≡ "-120"
unfolding itoa
itoa_negative = refl
