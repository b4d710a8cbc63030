-- ===== src/Runtime/External/Ledger.antt =====
-- internal/runtime/external.go: the external engine as a server of the controller.
use v2sudoku.Prelude.{
  ℕ, ℤ, pos, ◌<◌, ◌^◌, ◌≡◌, refl, sym, ◌∙◌, subst, ◌⊎◌, inl, inr, String, List, [], ◌∷◌, false,
  Option, none, some, ◌==◌, string_eq, int_eq, str_eq_iff, arith, Option-cases, Bool-cases, All,
  All-append, leb_ℤ, if◌then◌else◌, sort_by-All, add64,
}
use mathlib.Core.List.{append-nil}
use v2sudoku.Dict.{lookup, IsMap}
use v2sudoku.Text.{is_empty}
use v2sudoku.Panel.{UserTraffic}
use v2sudoku.Runtime.Embedded.{threshold_of}
use v2sudoku.Runtime.Embedded.Rows.{only, only-append, only-sort, AtMostOne}
use v2sudoku.Runtime.External.{
  PendingTraffic, External, traffic_row, traffic_rows, get_user_traffic_slice,
}

abbrev pub Pending : Type 0
Pending = List (String × PendingTraffic)

-- An amount that a counter may hold.
abbrev pub IsAmount : ℤ → Type 0
IsAmount z = (n : ℕ) × (z ≡ pos n) × (n < 2 ^ 63)

-- An entry stands under its own UUID, which is not empty, and holds amounts.
pub record Entry (uuid : String) (d : PendingTraffic) : Type 0 where
  pub named : d.uuid ≡ uuid
  pub filled : is_empty uuid ≡ false
  pub upload : IsAmount d.upload
  pub download : IsAmount d.download

pub record IsPending (m : Pending) : Type 0 where
  pub distinct : IsMap m
  pub entries : (uuid : String) (d : PendingTraffic) → lookup uuid m ≡ some d → Entry uuid d

abbrev pub amounts_of : Option PendingTraffic → ℤ × ℤ
amounts_of none = (pos 0, pos 0)
amounts_of (some d) = (d.upload, d.download)

-- What the engine holds for a UUID.
abbrev pub held : String → Pending → ℤ × ℤ
held v m = amounts_of (lookup v m)

-- Of a map with a head, both parts.
IsPending-tail :
    (k : String) (d : PendingTraffic) (m : Pending) → IsPending ((k, d) ∷ m) → IsPending m
unfolding lookup
IsPending-tail k d m h = record {
  distinct = h.distinct.1;
  entries =
      λ uuid d' found. h.entries uuid d' (ground (arith, found, h.distinct.0, str_eq_iff k uuid));
}

IsPending-head :
    (k : String) (d : PendingTraffic) (m : Pending) → IsPending ((k, d) ∷ m) → Entry k d
unfolding lookup
IsPending-head k d m h = h.entries k d (ground (arith, str_eq_iff k k))

-- The row that the loop makes for an entry, if any.
abbrev row_for : ℤ → Option PendingTraffic → List UserTraffic
row_for threshold none = []
row_for threshold (some d) = traffic_row threshold d

only-traffic_row :
    (threshold : ℤ) (v : String) (d : PendingTraffic)
    → only v (traffic_row threshold d) ≡ (if d.uuid == v then traffic_row threshold d else [])
unfolding only traffic_row
only-traffic_row threshold v d = ground arith

only-traffic_rows :
    (threshold : ℤ) (v : String) (m : Pending)
    → IsPending m
    → only v (traffic_rows threshold m) ≡ row_for threshold (lookup v m)
unfolding traffic_rows lookup
only-traffic_rows threshold v [] h = unfold only in refl
only-traffic_rows threshold v ((k, d) ∷ m) h =
    let named = (IsPending-head k d m h).named in
    only-append v (traffic_row threshold d) (traffic_rows threshold m)
    ∙ rw
        (
          only-traffic_row threshold v d,
          only-traffic_rows threshold v m (IsPending-tail k d m h),
          named,
        )
        (elim (Bool-cases (k == v)) [
          | inl same ↦
              let gone : lookup v m ≡ none =
                subst (λ x. lookup x m ≡ none) ((str_eq_iff k v).0 same) h.distinct.0 in
              rw (same, gone, append-nil)
          | inr other ↦ rw other
        ])

row-AtMostOne : (threshold : ℤ) (o : Option PendingTraffic) → AtMostOne (row_for threshold o)
unfolding traffic_row
row-AtMostOne threshold none = tt
row-AtMostOne threshold (some d) = elim (Bool-cases (leb_ℤ (add64 d.upload d.download) threshold)) [
  | inl low ↦ rw low tt
  | inr high ↦ rw high tt
]

only-slice :
    (report_min : ℤ) (v : String) (e : External)
    → IsPending e.pending
    → only v (get_user_traffic_slice report_min e)
      ≡ row_for (threshold_of report_min) (lookup v e.pending)
unfolding get_user_traffic_slice
only-slice report_min v e h =
    let rows = only-traffic_rows (threshold_of report_min) v e.pending h in
    only-sort v _
      (subst AtMostOne (sym rows) (row-AtMostOne (threshold_of report_min) (lookup v e.pending)))
    ∙ rows

pub slice-cases :
    (report_min : ℤ) (e : External) (v : String)
    → IsPending e.pending
    → (only v (get_user_traffic_slice report_min e) ≡ [])
      ⊎ ((t : UserTraffic) × (only v (get_user_traffic_slice report_min e) ≡ t ∷ [])
          × (◌≡◌ {A = ℤ × ℤ} (t.upload, t.download) (held v e.pending)))
unfolding traffic_row
slice-cases report_min e v h =
    let rows = only-slice report_min v e h in
    elim (Option-cases (lookup v e.pending)) [
      | inl missing ↦ inl (rows ∙ rw missing)
      | inr (d, found) ↦
          elim (Bool-cases (leb_ℤ (add64 d.upload d.download) (threshold_of report_min))) [
            | inl low ↦ inl (rows ∙ rw (found, low))
            | inr high ↦ inr (
              record { uid = d.uid; uuid = d.uuid; upload = d.upload; download = d.download },
              rows ∙ rw (found, high),
              ground (arith, found),
            )
          ]
    ]

-- A row with a UUID, and amounts.
pub record IsRow (t : UserTraffic) : Type 0 where
  pub named : is_empty t.uuid ≡ false
  pub upload : IsAmount t.upload
  pub download : IsAmount t.download

traffic_row-IsRow :
    (threshold : ℤ) (k : String) (d : PendingTraffic)
    → Entry k d
    → All IsRow (traffic_row threshold d)
unfolding traffic_row
traffic_row-IsRow threshold k d h =
    elim (Bool-cases (leb_ℤ (add64 d.upload d.download) threshold)) [
      | inl low ↦ rw low tt
      | inr high ↦ rw high (
        record {
          named = subst (λ x. is_empty x ≡ false) (sym h.named) h.filled;
          upload = h.upload;
          download = h.download;
        },
        tt,
      )
    ]

traffic_rows-IsRow :
    (threshold : ℤ) (m : Pending) → IsPending m → All IsRow (traffic_rows threshold m)
unfolding traffic_rows
traffic_rows-IsRow threshold [] h = tt
traffic_rows-IsRow threshold ((k, d) ∷ m) h =
    All-append IsRow (traffic_row threshold d) _
      (traffic_row-IsRow threshold k d (IsPending-head k d m h))
      (traffic_rows-IsRow threshold m (IsPending-tail k d m h))

pub slice-IsRow :
    (report_min : ℤ) (e : External)
    → IsPending e.pending
    → All IsRow (get_user_traffic_slice report_min e)
unfolding get_user_traffic_slice
slice-IsRow report_min e h =
    sort_by-All (λ r. r.uid) IsRow _ (traffic_rows-IsRow (threshold_of report_min) e.pending h)
