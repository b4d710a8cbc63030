-- ===== src/Dict/Laws.antt =====
-- The laws of Go's maps.
use v2sudoku.Prelude.{
  Comparable, ◌==◌, ◌≡◌, ◌≢◌, refl, suc, true, false, List, [], ◌∷◌, none, some, arith,
  if◌then◌else◌, length,
}
use v2sudoku.Dict.{lookup, insert, delete, IsMap}

module _ {ℓ} {K : Type ℓ} ⦃e : Comparable K⦄ where
  pub eq_self : (key : K) → (key == key) ≡ true
  eq_self key = (e.equals_iff key key).1 refl

  pub eq_ne : (key other : K) → key ≢ other → (key == other) ≡ false
  eq_ne key other h = ground (arith, e.equals_iff key other)

module _ {ℓ κ} {K : Type ℓ} {V : Type κ} ⦃e : Comparable K⦄ where
  pub lookup-insert :
      (key other : K) (val : V) (m : List (K × V))
      → lookup other (insert key val m) ≡ (if key == other then some val else lookup other m)
  unfolding lookup insert
  lookup-insert key other val [] = refl
  lookup-insert key other val ((first, held) ∷ m) = ground (
    arith,
    e.equals_iff key other,
    e.equals_iff first key,
    e.equals_iff first other,
    lookup-insert key other val m,
  )

  pub lookup-delete :
      (key other : K) (m : List (K × V))
      → lookup other (delete key m) ≡ (if key == other then none else lookup other m)
  unfolding lookup delete
  lookup-delete key other [] = ground arith
  lookup-delete key other ((first, held) ∷ m) = ground (
    arith,
    e.equals_iff key other,
    e.equals_iff first key,
    e.equals_iff first other,
    lookup-delete key other m,
  )

  pub insert-IsMap : (key : K) (val : V) (m : List (K × V)) → IsMap m → IsMap (insert key val m)
  unfolding lookup insert
  insert-IsMap key val [] h = (refl, tt)
  insert-IsMap key val ((first, held) ∷ m) h = ground (
    arith,
    e.equals_iff first key,
    e.equals_iff key first,
    insert-IsMap key val m h.1,
    lookup-insert key first val m,
  )

  pub delete-IsMap : (key : K) (m : List (K × V)) → IsMap m → IsMap (delete key m)
  unfolding delete
  delete-IsMap key [] h = tt
  delete-IsMap key ((first, held) ∷ m) h =
      ground (arith, delete-IsMap key m h.1, lookup-delete key first m)

  -- Writing a key that is there keeps the number of entries, and a new one adds one.
  pub length-insert :
      (key : K) (val : V) (m : List (K × V))
      → length (insert key val m)
        ≡ (elim (lookup key m) [ none ↦ suc (length m) | some _ ↦ length m ])
  unfolding lookup insert
  length-insert key val [] = refl
  length-insert key val ((first, held) ∷ m) = ground (arith, length-insert key val m)
