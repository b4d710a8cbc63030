-- ===== src/Prelude/Lists.antt =====
-- Lists measured by native numbers, predicates on all entries, and membership, by recursion.
use Prim.Native.Nat.{ℕ, zero, suc, ◌+◌, ◌<◌}
use mathlib.Core.Path.{◌≡◌, refl, ap}
use mathlib.Core.Logic.{◌⊎◌}
use mathlib.Core.List.{List, [], ◌∷◌, ◌++◌}
use native.Mathlib.Omega.{arith}
use native.Mathlib.Decide.{ℕ_discrete}

module _ {ℓ} {A : Type ℓ} where
  abbrev pub length : List A → ℕ
  length [] = 0
  length (x ∷ xs) = suc (length xs)

  abbrev pub get_or : List A → ℕ → A → A
  get_or [] i d = d
  get_or (x ∷ xs) zero d = x
  get_or (x ∷ xs) (suc i) d = get_or xs i d

  abbrev pub take : ℕ → List A → List A
  take zero xs = []
  take (suc n) [] = []
  take (suc n) (x ∷ xs) = x ∷ take n xs

  pub append_assoc : (xs ys zs : List A) → (xs ++ ys) ++ zs ≡ xs ++ (ys ++ zs)
  append_assoc [] ys zs = refl
  append_assoc (x ∷ xs) ys zs = ap (λ r. x ∷ r) (append_assoc xs ys zs)

  pub length-append : (xs ys : List A) → length (xs ++ ys) ≡ length xs + length ys
  length-append [] ys = omega arith
  length-append (x ∷ xs) ys = omega (arith, length-append xs ys)

module _ {ℓ κ} {A : Type ℓ} (P : A → Type κ) where
  abbrev pub All : List A → Type κ
  All [] = Unit
  All (x ∷ xs) = P x × All xs

  pub All-append : (xs ys : List A) → All xs → All ys → All (xs ++ ys)
  All-append [] ys hx hy = hy
  All-append (x ∷ xs) ys hx hy = (hx.0, All-append xs ys hx.1 hy)

  pub All-parts : (xs : List A) (y : A) (zs : List A) → All (xs ++ (y ∷ zs)) → All xs × P y × All zs
  All-parts [] y zs h = (tt, h.0, h.1)
  All-parts (x ∷ xs) y zs h =
      let (before, own, after) = All-parts xs y zs h.1 in ((h.0, before), own, after)

module _ {ℓ κ} {A : Type ℓ} (P Q : A → Type κ) where
  pub All-each : ((x : A) → P x → Q x) → (xs : List A) → All P xs → All Q xs
  All-each f [] h = tt
  All-each f (x ∷ xs) h = (f x h.0, All-each f xs h.1)

-- Over a small range, a property is a table of its values.
abbrev pub AllBelow : (ℕ → Type 0) → ℕ → Type 0
AllBelow P zero = Unit
AllBelow P (suc n) = P n × AllBelow P n

pub AllBelow-elim : (P : ℕ → Type 0) (n x : ℕ) → AllBelow P n → x < n → P x
AllBelow-elim P zero x t h = absurd (omega arith)
AllBelow-elim P (suc n) x t h = elim (ℕ_discrete x n) [
  | yes e ↦ rw e t.0
  | no ne ↦ AllBelow-elim P n x t.1 (omega arith)
]

module _ {ℓ} {A : Type ℓ} (P : A → Type 0) where
  -- Some entry satisfies `P`; the witness is kept.
  abbrev pub Any : List A → Type 0
  Any [] = ⊥
  Any (x ∷ xs) = P x ⊎ Any xs
