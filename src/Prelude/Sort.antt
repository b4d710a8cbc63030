-- ===== src/Prelude/Sort.antt =====
-- `sort.Slice` by an integer key. Go leaves the order of equal keys open; the model keeps it.
use mathlib.Core.List.{Perm}
use mathlib.Core.List.Perm
use mathlib.Core.List.{List, [], ◌∷◌}
use mathlib.Core.Logic.{inl, inr}
use native.Mathlib.Omega.{arith}
use v2sudoku.Prelude.Tests.{if◌then◌else◌, Bool-cases}
use v2sudoku.Prelude.Int.{ℤ, ltb_ℤ, ◌≤ℤ◌}
use v2sudoku.Prelude.Lists.{All}

module _ {ℓ} {A : Type ℓ} (key : A → ℤ) where
  unfoldable pub insert_by : A → List A → List A
  insert_by a [] = a ∷ []
  insert_by a (b ∷ bs) = if ltb_ℤ (key b) (key a) then b ∷ insert_by a bs else a ∷ b ∷ bs

  unfoldable pub sort_by : List A → List A
  unfolding insert_by
  sort_by [] = []
  sort_by (a ∷ bs) = insert_by a (sort_by bs)

  -- The keys never fall along the list.
  abbrev pub IsSortedBy : List A → Type 0
  IsSortedBy [] = Unit
  IsSortedBy (a ∷ bs) = All (λ b. key a ≤ℤ key b) bs × IsSortedBy bs

  insert_by-perm : (a : A) (bs : List A) → Perm (insert_by a bs) (a ∷ bs)
  unfolding insert_by
  insert_by-perm a [] = Perm.refl _
  insert_by-perm a (b ∷ bs) = elim (Bool-cases (ltb_ℤ (key b) (key a))) [
    | inl past ↦ rw past (Perm.trans (Perm.cons b (insert_by-perm a bs)) (Perm.swap a b bs))
    | inr here ↦ rw here (Perm.refl _)
  ]

  -- Sorting loses no entry and makes none up.
  pub sort_by-perm : (bs : List A) → Perm (sort_by bs) bs
  unfolding sort_by
  sort_by-perm [] = Perm.refl []
  sort_by-perm (a ∷ bs) = Perm.trans (insert_by-perm a (sort_by bs)) (Perm.cons a (sort_by-perm bs))

  module _ {κ} (P : A → Type κ) where
    insert_by-All : (a : A) (bs : List A) → P a → All P bs → All P (insert_by a bs)
    unfolding insert_by
    insert_by-All a [] h k = (h, tt)
    insert_by-All a (b ∷ bs) h k = elim (Bool-cases (ltb_ℤ (key b) (key a))) [
      | inl past ↦ rw past (k.0, insert_by-All a bs h k.1)
      | inr here ↦ rw here (h, k)
    ]

    pub sort_by-All : (bs : List A) → All P bs → All P (sort_by bs)
    unfolding sort_by
    sort_by-All [] h = tt
    sort_by-All (a ∷ bs) h = insert_by-All a (sort_by bs) h.0 (sort_by-All bs h.1)

  All-below :
      (a b : A) (bs : List A)
      → key a ≤ℤ key b
      → All (λ c. key b ≤ℤ key c) bs
      → All (λ c. key a ≤ℤ key c) bs
  All-below a b [] h k = tt
  All-below a b (c ∷ bs) h k = (omega arith, All-below a b bs h k.1)

  insert_by-IsSortedBy : (a : A) (bs : List A) → IsSortedBy bs → IsSortedBy (insert_by a bs)
  unfolding insert_by
  insert_by-IsSortedBy a [] h = (tt, tt)
  insert_by-IsSortedBy a (b ∷ bs) h = elim (Bool-cases (ltb_ℤ (key b) (key a))) [
    | inl past ↦
        rw past (
          insert_by-All (λ c. key b ≤ℤ key c) a bs (ground arith) h.0,
          insert_by-IsSortedBy a bs h.1,
        )
    | inr here ↦
        let le : key a ≤ℤ key b = ground arith in rw here ((le, All-below a b bs le h.0), h)
  ]

  pub sort_by-IsSortedBy : (bs : List A) → IsSortedBy (sort_by bs)
  unfolding sort_by
  sort_by-IsSortedBy [] = tt
  sort_by-IsSortedBy (a ∷ bs) = insert_by-IsSortedBy a (sort_by bs) (sort_by-IsSortedBy bs)
