-- ===== src/Runtime/Embedded/Rows.antt =====
-- internal/runtime/embedded.go: the rows of `GetUserTrafficSlice`, user by user.
use mathlib.Core.List.{append-nil}
use v2sudoku.Prelude.{
  ℕ, ◌≡◌, refl, sym, ◌∙◌, subst, ℤ, pos, String, List, [], ◌∷◌, ◌++◌, true, false, Option, none,
  some, ◌==◌, nat_eq, int_eq, string_eq, str_eq_iff, if◌then◌else◌, arith, Option-cases, Bool-cases,
  inl, inr, All, All-append, sort_by, sort_by-All, insert_by, leb_ℤ, add64,
}
use v2sudoku.Dict.{lookup, IsMap}
use v2sudoku.Text.{is_empty}
use v2sudoku.Panel.{UserTraffic}
use v2sudoku.Runtime.Embedded.{
  Embedded, traffic_row, traffic_rows, threshold_of, get_user_traffic_slice,
}
use v2sudoku.Runtime.Embedded.Shape.{IsShaped}

abbrev pub IsNamed : UserTraffic → Type 0
IsNamed t = is_empty t.uuid ≡ false

-- The rows of one user.
unfoldable pub only : String → List UserTraffic → List UserTraffic
only v [] = []
only v (t ∷ ts) = if t.uuid == v then t ∷ only v ts else only v ts

pub only-append :
    (v : String) (xs ys : List UserTraffic) → only v (xs ++ ys) ≡ only v xs ++ only v ys
unfolding only
only-append v [] ys = refl
only-append v (t ∷ xs) ys = ground (arith, only-append v xs ys)

-- A row that is no row of the user does not count, wherever it is inserted.
only-insert_ne :
    (v : String) (t : UserTraffic) (ts : List UserTraffic)
    → (t.uuid == v) ≡ false
    → only v (insert_by (λ r. r.uid) t ts) ≡ only v ts
unfolding only insert_by
only-insert_ne v t [] ne = rw ne
only-insert_ne v t (b ∷ ts) ne = ground (arith, ne, only-insert_ne v t ts ne)

only-insert_self :
    (v : String) (t : UserTraffic) (ts : List UserTraffic)
    → (t.uuid == v) ≡ true
    → only v ts ≡ []
    → only v (insert_by (λ r. r.uid) t ts) ≡ t ∷ []
unfolding only insert_by
only-insert_self v t [] is none_there = rw is
only-insert_self v t (b ∷ ts) is none_there =
    ground (arith, is, none_there, only-insert_self v t ts is)

-- At most one row of the user.
abbrev pub AtMostOne : List UserTraffic → Type 0
AtMostOne [] = Unit
AtMostOne (t ∷ []) = Unit
AtMostOne (t ∷ u ∷ ts) = ⊥

rest-empty : (t : UserTraffic) (ts : List UserTraffic) → AtMostOne (t ∷ ts) → ts ≡ []
rest-empty t [] one = refl
rest-empty t (u ∷ ts) one = absurd one

-- Sorting keeps the one row of a user.
pub only-sort :
    (v : String) (ts : List UserTraffic)
    → AtMostOne (only v ts)
    → only v (sort_by (λ r. r.uid) ts) ≡ only v ts
unfolding only sort_by
only-sort v [] one = refl
only-sort v (t ∷ ts) one = elim (Bool-cases (t.uuid == v)) [
  | inl is ↦
      let rest : only v ts ≡ [] = rest-empty t (only v ts) (rw is at one) in
      let sorted = only-sort v ts (subst AtMostOne (sym rest) tt) ∙ rest in
      rw (is, rest) (only-insert_self v t _ is sorted)
  | inr ne ↦ rw ne (only-insert_ne v t _ ne ∙ only-sort v ts (rw ne at one))
]

only-traffic_row :
    (threshold : ℤ) (e : Embedded) (v uuid : String) (p : ℕ)
    → only v (traffic_row threshold e uuid p)
      ≡ (if uuid == v then traffic_row threshold e uuid p else [])
unfolding only traffic_row
only-traffic_row threshold e v uuid p = ground arith

-- The row that the loop makes for a user, if any.
abbrev pub row_for : ℤ → Embedded → Option ℕ → String → List UserTraffic
row_for threshold e none v = []
row_for threshold e (some p) v = traffic_row threshold e v p

only-traffic_rows :
    (threshold : ℤ) (e : Embedded) (v : String) (table : List (String × ℕ))
    → IsMap table
    → only v (traffic_rows threshold e table) ≡ row_for threshold e (lookup v table) v
unfolding traffic_rows lookup
only-traffic_rows threshold e v [] h = unfold only in refl
only-traffic_rows threshold e v ((uuid, p) ∷ rest) h =
    only-append v (traffic_row threshold e uuid p) (traffic_rows threshold e rest)
    ∙ rw (only-traffic_row threshold e v uuid p, only-traffic_rows threshold e v rest h.1)
        (elim (Bool-cases (uuid == v)) [
          | inl same ↦
              let name = (str_eq_iff uuid v).0 same in
              let gone : lookup v rest ≡ none = subst (λ x. lookup x rest ≡ none) name h.0 in
              rw (same, gone, append-nil, name)
          | inr other ↦ rw other
        ])

pub traffic_row-AtMostOne :
    (threshold : ℤ) (e : Embedded) (uuid : String) (p : ℕ)
    → AtMostOne (traffic_row threshold e uuid p)
unfolding traffic_row
traffic_row-AtMostOne threshold e uuid p =
    let c = e.counters.cell p in
    elim (Bool-cases (leb_ℤ (add64 c.up c.down) threshold)) [
      | inl low ↦ rw (low, traffic_row) tt
      | inr high ↦ elim (Option-cases (lookup uuid e.users)) [
        | inl gone ↦ rw (high, traffic_row, gone) tt
        | inr (user, there) ↦ elim (Bool-cases (user.id == pos 0)) [
          | inl zero_id ↦ rw (high, traffic_row, there, zero_id) tt
          | inr id ↦ rw (high, traffic_row, there, id) tt
        ]
      ]
    ]

-- A row carries the counter of its user.
pub traffic_row-value :
    (threshold : ℤ) (e : Embedded) (uuid : String) (p : ℕ) (t : UserTraffic)
    → traffic_row threshold e uuid p ≡ t ∷ []
    → (t.upload ≡ (e.counters.cell p).up)
      × (t.download ≡ (e.counters.cell p).down)
      × (t.uuid ≡ uuid)
unfolding traffic_row
traffic_row-value threshold e uuid p t h = ground arith

-- The rows of a report carry UUIDs: those of users that the engine has.
traffic_row-IsNamed :
    (threshold : ℤ) (e : Embedded) (uuid : String) (p : ℕ)
    → IsShaped e
    → All IsNamed (traffic_row threshold e uuid p)
unfolding traffic_row
traffic_row-IsNamed threshold e uuid p h =
    let c = e.counters.cell p in
    elim (Bool-cases (leb_ℤ (add64 c.up c.down) threshold)) [
      | inl low ↦ rw (low, traffic_row) tt
      | inr high ↦ elim (Option-cases (lookup uuid e.users)) [
        | inl gone ↦ rw (high, traffic_row, gone) tt
        | inr (user, there) ↦ elim (Bool-cases (user.id == pos 0)) [
          | inl zero_id ↦ rw (high, traffic_row, there, zero_id) tt
          | inr id ↦ rw (high, traffic_row, there, id) ((h.users uuid user there).filled, tt)
        ]
      ]
    ]

traffic_rows-IsNamed :
    (threshold : ℤ) (e : Embedded) (table : List (String × ℕ))
    → IsShaped e
    → All IsNamed (traffic_rows threshold e table)
unfolding traffic_rows
traffic_rows-IsNamed threshold e [] h = tt
traffic_rows-IsNamed threshold e ((uuid, p) ∷ rest) h =
    All-append IsNamed (traffic_row threshold e uuid p) _ (traffic_row-IsNamed threshold e uuid p h)
      (traffic_rows-IsNamed threshold e rest h)

pub get_user_traffic_slice-IsNamed :
    (report_min : ℤ) (e : Embedded) → IsShaped e → All IsNamed (get_user_traffic_slice report_min e)
unfolding get_user_traffic_slice
get_user_traffic_slice-IsNamed report_min e h =
    sort_by-All (λ r. r.uid) IsNamed _
      (traffic_rows-IsNamed (threshold_of report_min) e e.counters.table h)

row_for-AtMostOne :
    (threshold : ℤ) (e : Embedded) (o : Option ℕ) (v : String) → AtMostOne (row_for threshold e o v)
row_for-AtMostOne threshold e none v = tt
row_for-AtMostOne threshold e (some p) v = traffic_row-AtMostOne threshold e v p

-- The report holds, for each UUID, the row that the user's counter asks for, once.
pub only-get_user_traffic_slice :
    (report_min : ℤ) (e : Embedded) (v : String)
    → IsShaped e
    → only v (get_user_traffic_slice report_min e)
      ≡ row_for (threshold_of report_min) e (lookup v e.counters.table) v
unfolding get_user_traffic_slice
only-get_user_traffic_slice report_min e v h =
    let rows = only-traffic_rows (threshold_of report_min) e v e.counters.table h.heap.distinct in
    only-sort v _ (
      subst AtMostOne (sym rows)
        (row_for-AtMostOne (threshold_of report_min) e (lookup v e.counters.table) v))
    ∙ rows
