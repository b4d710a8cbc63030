-- ===== src/Dict.antt =====
-- Go's `map[K]V`, as an association list with one entry a key. The order of the list stands for the
-- order in which one `range` over the map meets the entries, which Go leaves open.
pub mod Laws
use v2sudoku.Prelude.{
  Comparable, ◌==◌, ◌≡◌, Bool, true, false, List, [], ◌∷◌, Option, none, some, if◌then◌else◌,
}

module _ {ℓ κ} {K : Type ℓ} {V : Type κ} ⦃e : Comparable K⦄ where
  -- `v, ok := m[k]`
  unfoldable pub lookup : K → List (K × V) → Option V
  lookup key [] = none
  lookup key ((other, val) ∷ m) = if other == key then some val else lookup key m

  -- `m[k] = v`
  unfoldable pub insert : K → V → List (K × V) → List (K × V)
  insert key val [] = (key, val) ∷ []
  insert key val ((other, held) ∷ m) =
      if other == key then (key, val) ∷ m else (other, held) ∷ insert key val m

  -- `delete(m, k)`
  unfoldable pub delete : K → List (K × V) → List (K × V)
  delete key [] = []
  delete key ((other, held) ∷ m) =
      let rest = delete key m in if other == key then rest else (other, held) ∷ rest

  -- `_, ok := m[k]`
  abbrev pub has : K → List (K × V) → Bool
  has key m = elim (lookup key m) [ none ↦ false | some _ ↦ true ]

  -- No key stands twice.
  abbrev pub IsMap : List (K × V) → Type κ
  IsMap [] = Unit
  IsMap ((key, val) ∷ m) = (lookup key m ≡ none) × IsMap m
