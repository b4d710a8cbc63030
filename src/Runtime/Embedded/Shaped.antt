-- ===== src/Runtime/Embedded/Shaped.antt =====
-- The engine of the runs is well formed.
use v2sudoku.Prelude.{
  ◌<◌, ◌≡◌, refl, ◌∙◌, pos, String, [], ◌∷◌, false, inl, inr, some, arith, subst, ◌==◌, string_eq,
  int_eq, nat_eq, str_eq_iff, Bool-cases,
}
use v2sudoku.Dict.{lookup}
use v2sudoku.Text.{is_empty}
use v2sudoku.Runtime.Samples.{ann, counters_one, embedded_one}
use v2sudoku.Runtime.Counting.{TrafficCounter}
use v2sudoku.Runtime.Counting.Laws.{IsHeap}
use v2sudoku.Runtime.Embedded.Shape.{IsShaped, HasCounter}

-- The one key of a map of one entry.
pub one_key :
    {V : Type 0} (k j : String) (v w : V) → lookup j ((k, v) ∷ []) ≡ some w → (k ≡ j) × (v ≡ w)
unfolding lookup
one_key k j v w h = elim (Bool-cases (k == j)) [
  | inl same ↦ ((str_eq_iff k j).0 same, ground (arith, same))
  | inr other ↦ absurd (ground (arith, other))
]

pub IsHeap-cell :
    (c : TrafficCounter) → c.uuid ≡ "a" → IsHeap (record counters_one { cell = λ p. c })
unfolding lookup
IsHeap-cell c named = record {
  distinct = (refl, tt);
  owns = λ uuid p found.
      let (key, cell) = one_key "a" uuid 0 p found in
      record { allocated = subst (λ q. q < 1) cell (ground arith); owner = named ∙ key };
}

pub IsHeap-counters_one : IsHeap counters_one
IsHeap-counters_one =
    IsHeap-cell (record { uid = pos 1; uuid = "a"; up = pos 500; down = pos 7 }) refl

pub has_one : HasCounter counters_one "a"
unfolding lookup
has_one h = absurd (cc)

pub IsShaped-embedded_one : IsShaped embedded_one
IsShaped-embedded_one = record {
  users = λ uuid user found.
      let (key, same) = one_key "a" uuid ann user found in
      record {
        named = subst (λ u. u.uuid ≡ uuid) same key;
        filled = subst (λ v. is_empty v ≡ false) key refl;
        counted = subst (λ v. HasCounter counters_one v) key has_one;
      };
  heap = IsHeap-counters_one;
}
