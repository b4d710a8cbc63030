-- ===== src/Runtime/Embedded/Confirm.antt =====
-- internal/runtime/embedded.go: what `ConfirmUserTraffic` does to the traffic of one user.
use v2sudoku.Prelude.{
  ℕ, ◌≡◌, ◌≢◌, refl, sym, ◌∙◌, subst, ap, ℤ, String, List, [], ◌∷◌, none, some, ◌==◌, nat_eq,
  int_eq, string_eq, str_eq_iff, arith, Option-cases, Bool-cases, inl, inr, All,
}
use v2sudoku.Dict.{lookup}
use v2sudoku.Panel.{UserTraffic}
use v2sudoku.Runtime.Counting.{TrafficCounter, settle, subtract, modify}
use v2sudoku.Runtime.Counting.Laws.{IsHeap, modify-IsHeap}
use v2sudoku.Runtime.Counting.Balance.{traffic_of-modify_ne, traffic_of-modify_self}
use v2sudoku.Runtime.Embedded.{Embedded, confirm_row, confirm_user_traffic}
use v2sudoku.Runtime.Embedded.Shape.{HasCounter}
use v2sudoku.Runtime.Embedded.Traffic.{traffic}
use v2sudoku.Runtime.Embedded.Rows.{only, IsNamed}

-- Confirming the rows of a list settles a user's traffic by the user's rows, one after another.
unfoldable pub settled : List UserTraffic → ℤ × ℤ → ℤ × ℤ
settled [] x = x
settled (t ∷ ts) x = settled ts (settle t.upload x.0, settle t.download x.1)

confirm_row_found :
    (t : UserTraffic) (e : Embedded) (p : ℕ)
    → IsNamed t
    → lookup t.uuid e.counters.table ≡ some p
    → confirm_row t e ≡ record e { counters = modify p (subtract t.upload t.download) e.counters }
unfolding confirm_row
confirm_row_found t e p named found = ground (arith, named, found)

confirm_row_missing :
    (t : UserTraffic) (e : Embedded)
    → IsNamed t
    → lookup t.uuid e.counters.table ≡ none
    → confirm_row t e ≡ e
unfolding confirm_row
confirm_row_missing t e named missing = ground (arith, named, missing)

subtract-uuid : (up down : ℤ) (c : TrafficCounter) → (subtract up down c).uuid ≡ c.uuid
unfolding subtract
subtract-uuid up down c = refl

pub confirm_row-keeps :
    (t : UserTraffic) (e : Embedded)
    → IsNamed t
    → IsHeap e.counters
    → IsHeap (confirm_row t e).counters × ((confirm_row t e).counters.table ≡ e.counters.table)
confirm_row-keeps t e named h = elim (Option-cases (lookup t.uuid e.counters.table)) [
  | inl missing ↦ rw (confirm_row_missing t e named missing) (h, refl)
  | inr (p, found) ↦ rw (confirm_row_found t e p named found) (
    modify-IsHeap p (subtract t.upload t.download) e.counters (subtract-uuid _ _ _) h,
    unfold modify in refl,
  )
]

-- A row of the user settles the user's traffic; any other leaves it.
confirm_row_self :
    (t : UserTraffic) (e : Embedded)
    → IsNamed t
    → HasCounter e.counters t.uuid
    → traffic t.uuid (confirm_row t e)
      ≡ (settle t.upload (traffic t.uuid e).0, settle t.download (traffic t.uuid e).1)
unfolding subtract
confirm_row_self t e named has_one = elim (Option-cases (lookup t.uuid e.counters.table)) [
  | inl missing ↦ absurd (has_one missing)
  | inr (p, found) ↦ rw (confirm_row_found t e p named found) (
      traffic_of-modify_self t.uuid p (subtract t.upload t.download) e.counters found
      ∙ ground (arith, found))
]

confirm_row-ne :
    (t : UserTraffic) (e : Embedded) (v : String)
    → v ≢ t.uuid
    → IsNamed t
    → IsHeap e.counters
    → traffic v (confirm_row t e) ≡ traffic v e
confirm_row-ne t e v ne named h = elim (Option-cases (lookup t.uuid e.counters.table)) [
  | inl missing ↦ rw (confirm_row_missing t e named missing)
  | inr (p, found) ↦
      rw (confirm_row_found t e p named found)
        (traffic_of-modify_ne t.uuid v p (subtract t.upload t.download) e.counters h found ne)
]

-- On well-formed counters, for a UUID that has one: confirming rows that carry UUIDs settles its
-- traffic by the rows of that UUID alone.
pub confirm-settled :
    (ts : List UserTraffic) (e : Embedded) (v : String)
    → All IsNamed ts
    → IsHeap e.counters
    → HasCounter e.counters v
    → traffic v (confirm_user_traffic ts e) ≡ settled (only v ts) (traffic v e)
unfolding confirm_user_traffic settled only
confirm-settled [] e v named h has_one = refl
confirm-settled (t ∷ ts) e v named h has_one =
    let (heap, table) = confirm_row-keeps t e named.0 h in
    let has_next : HasCounter (confirm_row t e).counters v =
      subst (λ m. lookup v m ≢ none) (sym table) has_one in
    let rest = confirm-settled ts (confirm_row t e) v named.1 heap has_next in
    elim (Bool-cases (t.uuid == v)) [
      | inl is ↦
          let name : t.uuid ≡ v = (str_eq_iff t.uuid v).0 is in
          let own : traffic v (confirm_row t e)
              ≡ (settle t.upload (traffic v e).0, settle t.download (traffic v e).1) =
            subst
              (λ x.
                HasCounter e.counters x
                → traffic x (confirm_row t e)
                  ≡ (settle t.upload (traffic x e).0, settle t.download (traffic x e).1))
              name (confirm_row_self t e named.0) has_one in
          rw is (rest ∙ ap (settled (only v ts)) own)
      | inr other ↦
          let ne : v ≢ t.uuid = λ same. absurd (ground (arith, str_eq_iff t.uuid v, other, same)) in
          rw other (rest ∙ ap (settled (only v ts)) (confirm_row-ne t e v ne named.0 h))
    ]
