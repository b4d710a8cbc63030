-- ===== src/Runtime/KeyStore/Scalar.antt =====
-- internal/runtime/key_store.go: scalars as little-endian bytes. `big.Int` is ℕ, or ℤ where a
-- difference may be negative.
use mathlib.Core.List.{reverse, reverse-cons, reverse-reverse, append-nil, append_assoc}
use native.Mathlib.Nat.{pow-suc}
use v2sudoku.Prelude.{
  ℕ, zero, suc, ◌+◌, ◌-◌, ◌*◌, ◌/◌, ◌%◌, ◌^◌, ◌<◌, ◌≡◌, refl, ap, List, [], ◌∷◌, ◌++◌, ℤ, pos,
  negsuc, ◌-ℤ◌, nat_beq, if◌then◌else◌, arith, length, All, ◌≢◌, Bool-cases, inl, inr,
}
use v2sudoku.Text.Hex.{IsByte}

-- `big.Int.SetBytes`, from the most significant byte on.
unfoldable pub set_bytes : ℕ → List ℕ → ℕ
set_bytes acc [] = acc
set_bytes acc (b ∷ bs) = set_bytes (acc * 256 + b) bs

-- The loop of the source copies the bytes in reverse.
unfoldable pub little_endian_scalar : List ℕ → ℕ
unfolding set_bytes
little_endian_scalar bs = set_bytes 0 (reverse bs)

-- `big.Int.Bytes`: big-endian, without leading zeros. The fuel is a bound on the number.
unfoldable pub int_bytes_fuel : ℕ → ℕ → List ℕ → List ℕ
int_bytes_fuel zero v out = out
int_bytes_fuel (suc f) v out =
    let more = int_bytes_fuel f (v / 256) ((v % 256) ∷ out) in if nat_beq v 0 then out else more

unfoldable pub int_bytes : ℕ → List ℕ
unfolding int_bytes_fuel
int_bytes v = int_bytes_fuel v v []

-- The loop that fills `out`, whose remaining places hold 0: it stops at the end of the bytes or of `out`.
unfoldable pub copy_bytes : ℕ → List ℕ → List ℕ
copy_bytes zero bs = []
copy_bytes (suc n) [] = 0 ∷ copy_bytes n []
copy_bytes (suc n) (b ∷ bs) = b ∷ copy_bytes n bs

unfoldable pub scalar_little_endian : ℕ → List ℕ
unfolding int_bytes copy_bytes
scalar_little_endian v = copy_bytes 32 (reverse (int_bytes v))

abbrev pub ed25519_order : ℕ
ed25519_order = 0x1000000000000000000000000000000014def9dea2f79cd65812631a5cf5d3ed

-- `big.Int.Mod`: the remainder is never negative.
unfoldable pub euclid_mod : ℤ → ℕ → ℕ
euclid_mod (pos n) m = n % m
euclid_mod (negsuc n) m = m - 1 - n % m

-- The value of little-endian bytes, by recursion.
abbrev pub value : List ℕ → ℕ
value [] = 0
value (b ∷ bs) = b + 256 * value bs

set_bytes-append :
    (acc : ℕ) (xs ys : List ℕ) → set_bytes acc (xs ++ ys) ≡ set_bytes (set_bytes acc xs) ys
unfolding set_bytes
set_bytes-append acc [] ys = refl
set_bytes-append acc (x ∷ xs) ys = set_bytes-append (acc * 256 + x) xs ys

pub little_endian_scalar-value : (bs : List ℕ) → little_endian_scalar bs ≡ value bs
unfolding little_endian_scalar
little_endian_scalar-value [] = refl
little_endian_scalar-value (b ∷ bs) =
    rw (reverse-cons b bs, set_bytes-append 0 (reverse bs) (b ∷ []))
      (omega (arith, little_endian_scalar-value bs))

-- The digits of a number to base 256, least significant first.
digits256 : ℕ → ℕ → List ℕ
digits256 zero v = []
digits256 (suc f) v =
    let more = (v % 256) ∷ digits256 f (v / 256) in if nat_beq v 0 then [] else more

int_bytes-digits256 :
    (f v : ℕ) (out : List ℕ) → int_bytes_fuel f v out ≡ reverse (digits256 f v) ++ out
unfolding int_bytes_fuel digits256
int_bytes-digits256 zero v out = refl
int_bytes-digits256 (suc f) v out = elim (Bool-cases (nat_beq v 0)) [
  | inl done ↦ rw done
  | inr more ↦
      rw (more, reverse-cons, append_assoc) (int_bytes-digits256 f (v / 256) ((v % 256) ∷ out))
]

reverse-int_bytes : (v : ℕ) → reverse (int_bytes v) ≡ digits256 v v
unfolding int_bytes
reverse-int_bytes v =
    rw (int_bytes-digits256 v v [], append-nil (reverse (digits256 v v))) (reverse-reverse _)

value-copy_bytes_zeros : (k : ℕ) → value (copy_bytes k []) ≡ 0
unfolding copy_bytes
value-copy_bytes_zeros zero = refl
value-copy_bytes_zeros (suc k) = omega (arith, value-copy_bytes_zeros k)

length-copy_bytes : (k : ℕ) (bs : List ℕ) → length (copy_bytes k bs) ≡ k
unfolding copy_bytes
length-copy_bytes zero bs = refl
length-copy_bytes (suc k) [] = ap suc (length-copy_bytes k [])
length-copy_bytes (suc k) (b ∷ bs) = ap suc (length-copy_bytes k bs)

copy_bytes-IsByte : (k : ℕ) (bs : List ℕ) → All IsByte bs → All IsByte (copy_bytes k bs)
unfolding copy_bytes
copy_bytes-IsByte zero bs h = tt
copy_bytes-IsByte (suc k) [] h = (omega arith, copy_bytes-IsByte k [] tt)
copy_bytes-IsByte (suc k) (b ∷ bs) h = (h.0, copy_bytes-IsByte k bs h.1)

digits256-IsByte : (f v : ℕ) → All IsByte (digits256 f v)
unfolding digits256
digits256-IsByte zero v = tt
digits256-IsByte (suc f) v = ground (arith, digits256-IsByte f (v / 256))

value-copy-digits256 :
    (k f v : ℕ) → v < f + 1 → v < 256 ^ k → value (copy_bytes k (digits256 f v)) ≡ v
unfolding copy_bytes digits256
value-copy-digits256 zero f v h b = omega arith
value-copy-digits256 (suc k) zero v h b = omega (arith, value-copy_bytes_zeros k)
value-copy-digits256 (suc k) (suc f) v h b = elim (Bool-cases (nat_beq v 0)) [
  | inl done ↦ rw done (ground (arith, value-copy_bytes_zeros k))
  | inr more ↦
      let pow : 256 ^ suc k ≡ 256 ^ k * 256 = pow-suc 256 k in
      let positive : v ≢ 0 = ground arith in
      rw more (omega (arith, value-copy-digits256 k f (v / 256) (omega arith) (omega arith)))
]

-- Writing a number below 2 ^ 256 as 32 little-endian bytes and reading it back gives the number.
pub scalar-little_endian : (v : ℕ) → v < 2 ^ 256 → little_endian_scalar (scalar_little_endian v) ≡ v
unfolding scalar_little_endian
scalar-little_endian v h =
    rw (little_endian_scalar-value, reverse-int_bytes v)
      (value-copy-digits256 32 v v (omega arith) h)

pub length-scalar_little_endian : (v : ℕ) → length (scalar_little_endian v) ≡ 32
unfolding scalar_little_endian
length-scalar_little_endian v = length-copy_bytes 32 (reverse (int_bytes v))

pub scalar_little_endian-IsByte : (v : ℕ) → All IsByte (scalar_little_endian v)
unfolding scalar_little_endian
scalar_little_endian-IsByte v =
    rw (reverse-int_bytes v) (copy_bytes-IsByte 32 _ (digits256-IsByte v v))

-- A difference modulo `m` gives the minuend back when the subtrahend is added.
pub euclid_mod-sub :
    (a r : ℕ) → (r + euclid_mod (pos a -ℤ pos r) ed25519_order) % ed25519_order ≡ a % ed25519_order
unfolding euclid_mod ◌-ℤ◌
euclid_mod-sub a r = ground arith

pub euclid_mod-lt : (a : ℤ) → euclid_mod a ed25519_order < ed25519_order
unfolding euclid_mod
euclid_mod-lt a = ground arith
