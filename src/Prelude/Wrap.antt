-- ===== src/Prelude/Wrap.antt =====
-- Go's `int` and `int64`: integers whose arithmetic wraps at 64 bits, in two's complement.
use Prim.Native.Nat.{ℕ, ◌+◌, ◌-◌, ◌%◌, ◌^◌, ◌<◌}
use mathlib.Core.Path.{◌≡◌, refl}
use native.Mathlib.Omega.{arith}
use v2sudoku.Prelude.Tests.{ltb, if◌then◌else◌}
use v2sudoku.Prelude.Int.{ℤ, pos, negsuc, ◌+ℤ◌, ◌-ℤ◌, ◌*ℤ◌}

-- The 64 low bits of an integer, read without a sign.
abbrev pub bits64 : ℤ → ℕ
bits64 (pos n) = n % 2 ^ 64
bits64 (negsuc n) = 2 ^ 64 - 1 - n % 2 ^ 64

-- The same bits, read with a sign.
pub wrap64 : ℤ → ℤ
wrap64 a = let u = bits64 a in if ltb u (2 ^ 63) then pos u else negsuc (2 ^ 64 - 1 - u)

unfoldable pub add64 : ℤ → ℤ → ℤ
unfolding wrap64 ◌+ℤ◌
add64 a b = wrap64 (a +ℤ b)

unfoldable pub sub64 : ℤ → ℤ → ℤ
unfolding wrap64 ◌-ℤ◌
sub64 a b = wrap64 (a -ℤ b)

unfoldable pub mul64 : ℤ → ℤ → ℤ
unfolding wrap64 ◌*ℤ◌
mul64 a b = wrap64 (a *ℤ b)

-- Non-negative amounts whose sum fits are added exactly.
pub add64_exact : (a b : ℕ) → a + b < 2 ^ 63 → add64 (pos a) (pos b) ≡ pos (a + b)
unfolding add64
add64_exact a b h = ground arith

pub sub64_exact : (a b : ℕ) → a < 2 ^ 63 → b < a + 1 → sub64 (pos a) (pos b) ≡ pos (a - b)
unfolding sub64
sub64_exact a b h k = ground arith

add64_wraps : add64 (pos (2 ^ 63 - 1)) (pos 1) ≡ negsuc (2 ^ 63 - 1)
unfolding add64
add64_wraps = refl

sub64_wraps : sub64 (negsuc (2 ^ 63 - 1)) (pos 1) ≡ pos (2 ^ 63 - 1)
unfolding sub64
sub64_wraps = refl
