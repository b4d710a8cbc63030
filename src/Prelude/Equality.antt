-- ===== src/Prelude/Equality.antt =====
-- Equality tests, as instances: Go's `==` on strings and integers.
use Prim.Native.Nat.{ℕ}
use Prim.Native.String.{String}
use mathlib.Core.Path.{◌≡◌}
use mathlib.Core.Logic.{◌↔◌}
use mathlib.Core.Bool.{Bool, true}
use text.Mathlib.Text.{◌==◌ as str_eq}
use text.Mathlib.TextEquality.{eq_iff}
use v2sudoku.Prelude.Tests.{nat_beq, nat_beq_iff}
use v2sudoku.Prelude.Int.{ℤ, int_beq, int_beq_iff}

-- What Go's `==` is on the values of a type that a map may have as its keys.
pub record Comparable {κ} (K : Type κ) : Type κ where
  pub equals : K → K → Bool
  pub equals_iff : (x y : K) → (equals x y ≡ true) ↔ (x ≡ y)

module _ {κ} {K : Type κ} ⦃c : Comparable K⦄ where
  infix 50 ◌==◌
  abbrev pub ◌==◌ : K → K → Bool
  x == y = c.equals x y

instance abbrev pub int_eq : Comparable ℤ
int_eq = record { equals = int_beq; equals_iff = int_beq_iff }

instance abbrev pub string_eq : Comparable String
string_eq = record { equals = str_eq; equals_iff = eq_iff }

instance abbrev pub nat_eq : Comparable ℕ
nat_eq = record { equals = nat_beq; equals_iff = nat_beq_iff }

-- `==` at two texts, as a fact for the tactics.
pub str_eq_iff : (s t : String) → ((s == t) ≡ true) ↔ (s ≡ t)
str_eq_iff = eq_iff
