-- ===== src/Runtime/External/Events.antt =====
-- internal/runtime/external.go: the traffic that the events of the process count.
use v2sudoku.Prelude.{
  ℤ, pos, ◌≡◌, refl, sym, ◌∙◌, ap, inl, inr, String, Bool, true, false, ◌&&◌, not, Option, none,
  some, ◌==◌, string_eq, int_eq, str_eq_iff, arith, Bool-cases, if◌then◌else◌, add64,
}
use v2sudoku.Dict.{lookup, insert}
use v2sudoku.Dict.Laws.{lookup-insert}
use v2sudoku.Text.{is_empty}
use v2sudoku.Panel.{UserInfo}
use v2sudoku.Runtime.External.{
  Event, External, PendingTraffic, apply_event, import_event, import_event_line,
}
use v2sudoku.Runtime.External.Ledger.{Pending, held, amounts_of}
use v2sudoku.Runtime.External.Confirm.{pending-held}

-- Whether an event counts traffic for a UUID: it is one of traffic, and its hash is that of a user that
-- is present under the UUID with an ID that is not 0.
abbrev pub is_counted : Option UserInfo → Bool
is_counted o = elim o [ none ↦ false | some user ↦ not (user.id == pos 0) ]

abbrev pub counts_at : Event → String → External → Option String → Bool
counts_at event v e o = elim o [
  | none ↦ false
  | some uuid ↦
      uuid == v
      && (not (is_empty uuid) && (is_counted (lookup uuid e.users) && event.kind == "traffic"))
]

abbrev pub counts : Event → String → External → Bool
counts event v e = counts_at event v e (lookup event.user_hash e.user_hash_to_uuid)

abbrev pub grown : Event → ℤ × ℤ → ℤ × ℤ
grown event x = (add64 x.0 event.upload, add64 x.1 event.download)

held-insert :
    (k v : String) (d : PendingTraffic) (m : Pending)
    → held v (insert k d m) ≡ (if k == v then (d.upload, d.download) else held v m)
held-insert k v d m = elim (Bool-cases (k == v)) [
  | inl same ↦ ap amounts_of (lookup-insert k v d m) ∙ rw same refl
  | inr other ↦ ap amounts_of (lookup-insert k v d m) ∙ rw other refl
]

held-apply_event :
    (event : Event) (uuid : String) (user : UserInfo) (now : ℤ) (e : External) (v : String)
    → held v (apply_event event uuid user now e).pending ≡ (
        if uuid == v && event.kind == "traffic"
        then grown event (held v e.pending)
        else held v e.pending)
unfolding apply_event
held-apply_event event uuid user now e v = elim (Bool-cases (event.kind == "traffic")) [
  | inl traffic ↦
      let kind = (str_eq_iff event.kind "traffic").0 traffic in
      let (up, down) = pending-held uuid e.pending in
      rw kind (
        held-insert uuid v _ e.pending ∙ elim (Bool-cases (uuid == v)) [
          | inl same ↦ rw same (
              (λ i. (add64 (up i) event.upload, add64 (down i) event.download))
              ∙ ap (λ x. grown event (held x e.pending)) ((str_eq_iff uuid v).0 same))
          | inr other ↦ rw other refl
        ])
  | inr other ↦ elim (Bool-cases (uuid == v)) [
    | inl same ↦ ground (arith, other, same)
    | inr differs ↦ ground (arith, other, differs)
  ]
]

if_neither : {A : Type 0} (b : Bool) (x y : A) → (if b && false then x else y) ≡ y
if_neither true x y = refl
if_neither false x y = refl

-- The effect of an event, once its hash is looked up, on the user found and on the amounts held.
found-held :
    (event : Event) (uuid : String) (now : ℤ) (e : External) (v : String) (blank : Bool)
    (o : Option UserInfo)
    → held v
        (if blank then e else elim o [
          | none ↦ e
          | some user ↦ if user.id == pos 0 then e else apply_event event uuid user now e
        ]).pending
      ≡ (if uuid == v && (not blank && (is_counted o && event.kind == "traffic"))
          then grown event (held v e.pending)
          else held v e.pending)
found-held event uuid now e v true o = sym (if_neither (uuid == v) _ _)
found-held event uuid now e v false none = sym (if_neither (uuid == v) _ _)
found-held event uuid now e v false (some user) = elim (Bool-cases (user.id == pos 0)) [
  | inl zero ↦ rw zero (sym (if_neither (uuid == v) _ _))
  | inr counted ↦ rw counted (held-apply_event event uuid user now e v)
]

-- An event of the process adds its amounts, with 64-bit addition, to what is held for the UUID that its
-- hash stands for, if it is one of traffic and the user is present with an ID that is not 0. No other
-- event and no other UUID is counted, and a line that is no event changes nothing.
pub import_event_line-held :
    (line : Option Event) (now : ℤ) (e : External) (v : String)
    → held v (import_event_line line now e).1.pending ≡ (elim line [
      | none ↦ held v e.pending
      | some event ↦ if counts event v e then grown event (held v e.pending) else held v e.pending
    ])
unfolding import_event_line import_event
import_event_line-held none now e v = refl
import_event_line-held (some event) now e v =
    elim (lookup event.user_hash e.user_hash_to_uuid)
      as (λ o.
        let after : External = elim o [
          | none ↦ e
          | some uuid ↦ if is_empty uuid then e else elim (lookup uuid e.users) [
            | none ↦ e
            | some user ↦ if user.id == pos 0 then e else apply_event event uuid user now e
          ]
        ] in
        held v after.pending
        ≡ (if counts_at event v e o then grown event (held v e.pending) else held v e.pending)) [
          | none ↦ refl
          | some uuid ↦ found-held event uuid now e v (is_empty uuid) (lookup uuid e.users)
        ]
