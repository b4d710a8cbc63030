-- ===== src/Runtime/External/Confirm.antt =====
-- internal/runtime/external.go: `ConfirmUserTraffic` of the external engine, and the ledger that it keeps.
use v2sudoku.Prelude.{
  ℤ, pos, ◌-◌, ◌≡◌, refl, sym, ◌∙◌, ap, subst, inl, inr, String, List, [], ◌∷◌, Bool, true, false,
  ◌&&◌, Option, none, some, ◌==◌, string_eq, int_eq, str_eq_iff, int_beq_iff, arith, Option-cases,
  Bool-cases, All, leb, if◌then◌else◌, sub64_exact,
}
use v2sudoku.Dict.{lookup, IsMap}
use v2sudoku.Dict.Laws.{lookup-insert, lookup-delete, insert-IsMap, delete-IsMap}
use v2sudoku.Text.{is_empty}
use v2sudoku.Panel.{UserTraffic}
use v2sudoku.Runtime.Counting.{settle}
use v2sudoku.Runtime.Embedded.Rows.{only}
use v2sudoku.Runtime.Embedded.Confirm.{settled}
use v2sudoku.Runtime.External.{
  PendingTraffic, External, no_traffic, pending_at, confirm_delta, confirm_row,
  confirm_user_traffic,
}
use v2sudoku.Runtime.External.Ledger.{Pending, IsAmount, Entry, IsPending, held, amounts_of, IsRow}

-- An amount that is settled by an amount is an amount.
settle-IsAmount : (r h : ℤ) → IsAmount r → IsAmount h → IsAmount (settle r h)
settle-IsAmount r h (x, rx, x_fits) (y, hy, y_fits) = elim (Bool-cases (leb y x)) [
  | inl reached ↦ (0, rw (rx, hy) (ground (arith, reached)), omega arith)
  | inr more ↦
      (y - x, rw (rx, hy) (ground (arith, more, sub64_exact y x y_fits)), omega (arith, y_fits))
]

settle_zero : (t : ℤ) → IsAmount t → settle t (pos 0) ≡ pos 0
settle_zero t (n, e, fits) = rw e (ground arith)

-- What one row leaves of an entry.
abbrev left_of : UserTraffic → PendingTraffic → Option PendingTraffic
left_of t d =
    if settle t.upload d.upload == pos 0 && settle t.download d.download == pos 0
    then none
    else some
        (record d { upload = settle t.upload d.upload; download = settle t.download d.download })

left-amounts :
    (t : UserTraffic) (d : PendingTraffic)
    → amounts_of (left_of t d) ≡ (settle t.upload d.upload, settle t.download d.download)
left-amounts t d = elim (Bool-cases (settle t.upload d.upload == pos 0)) [
  | inl up ↦ elim (Bool-cases (settle t.download d.download == pos 0)) [
    | inl down ↦
        rw (up, down)
          (λ i. (
            sym ((int_beq_iff (settle t.upload d.upload) (pos 0)).0 up) i,
            sym ((int_beq_iff (settle t.download d.download) (pos 0)).0 down) i,
          ))
    | inr more ↦ rw (up, more) refl
  ]
  | inr more ↦ rw more refl
]

lookup-confirm_delta :
    (k v : String) (t : UserTraffic) (m : Pending)
    → lookup v (confirm_delta k t m) ≡ (if k == v then left_of t (pending_at k m) else lookup v m)
unfolding confirm_delta
lookup-confirm_delta k v t m =
    elim (Bool-cases (
      settle t.upload (pending_at k m).upload == pos 0
      && settle t.download (pending_at k m).download == pos 0)) [
        | inl both ↦ rw both (lookup-delete k v m)
        | inr some_left ↦ rw some_left (lookup-insert k v _ m)
      ]

pub pending-held :
    (k : String) (m : Pending)
    → ((pending_at k m).upload ≡ (held k m).0) × ((pending_at k m).download ≡ (held k m).1)
pending-held k m = elim (Option-cases (lookup k m)) [
  | inl missing ↦ ground (arith, missing)
  | inr (d, found) ↦ ground (arith, found)
]

pub if_at : {A : Type 0} (b : Bool) (x y : A) → b ≡ true → (if b then x else y) ≡ x
if_at b x y h = rw h refl

if_not : {A : Type 0} (b : Bool) (x y : A) → b ≡ false → (if b then x else y) ≡ y
if_not b x y h = rw h refl

held-confirm_self :
    (k : String) (t : UserTraffic) (m : Pending)
    → held k (confirm_delta k t m) ≡ (settle t.upload (held k m).0, settle t.download (held k m).1)
held-confirm_self k t m =
    let (up, down) = pending-held k m in
    ap amounts_of (lookup-confirm_delta k k t m ∙ if_at (k == k) _ _ ((str_eq_iff k k).1 refl))
    ∙ left-amounts t (pending_at k m)
    ∙ (λ i. (settle t.upload (up i), settle t.download (down i)))

held-confirm_ne :
    (k v : String) (t : UserTraffic) (m : Pending)
    → (k == v) ≡ false
    → held v (confirm_delta k t m) ≡ held v m
held-confirm_ne k v t m other =
    ap amounts_of (lookup-confirm_delta k v t m ∙ if_not (k == v) _ _ other)

confirm_row_named :
    (t : UserTraffic) (e : External)
    → is_empty t.uuid ≡ false
    → (confirm_row t e).pending ≡ confirm_delta t.uuid t e.pending
unfolding confirm_row
confirm_row_named t e named = rw named refl

pub held-confirm :
    (ts : List UserTraffic) (e : External) (v : String)
    → All IsRow ts
    → held v (confirm_user_traffic ts e).pending ≡ settled (only v ts) (held v e.pending)
unfolding confirm_user_traffic settled only
held-confirm [] e v rows = refl
held-confirm (t ∷ ts) e v rows =
    let row = confirm_row_named t e rows.0.named in
    let rest = held-confirm ts (confirm_row t e) v rows.1 in
    elim (Bool-cases (t.uuid == v)) [
      | inl same ↦
          let own : held v (confirm_row t e).pending
              ≡ (settle t.upload (held v e.pending).0, settle t.download (held v e.pending).1) =
            ap (held v) row
            ∙ subst
                (λ x.
                  held x (confirm_delta t.uuid t e.pending)
                  ≡ (settle t.upload (held x e.pending).0, settle t.download (held x e.pending).1))
                ((str_eq_iff t.uuid v).0 same) (held-confirm_self t.uuid t e.pending) in
          rw same (rest ∙ ap (settled (only v ts)) own)
      | inr other ↦ rw other (
          rest
          ∙ ap (λ x. settled (only v ts) (held v x)) row
          ∙ ap (settled (only v ts)) (held-confirm_ne t.uuid v t e.pending other))
    ]

none-some : {A : Type 0} {x : A} → none ≡ some x → ⊥
none-some e = cc e

both_zero : (a b : ℤ) → a ≡ pos 0 → b ≡ pos 0 → (a == pos 0 && b == pos 0) ≡ true
both_zero a b x y = rw (x, y) refl

unless_none : {A : Type 0} (b : Bool) (x y : A) → (if b then none else some x) ≡ some y → x ≡ y
unless_none true x y e = absurd (cc e)
unless_none false x y e = cc e

-- What is left of an entry by a row of amounts is an entry.
left-Entry :
    (k : String) (t : UserTraffic) (d d' : PendingTraffic)
    → IsRow t
    → Entry k d
    → left_of t d ≡ some d'
    → Entry k d'
left-Entry k t d d' row h e = subst (Entry k) (unless_none _ _ _ e) (record {
  named = h.named;
  filled = h.filled;
  upload = settle-IsAmount t.upload d.upload row.upload h.upload;
  download = settle-IsAmount t.download d.download row.download h.download;
})

left-none : (t : UserTraffic) → IsRow t → left_of t no_traffic ≡ none
left-none t row =
    if_at _ _ _
      (both_zero _ _ (settle_zero t.upload row.upload) (settle_zero t.download row.download))

confirm_delta-Entry :
    (k : String) (t : UserTraffic) (m : Pending) (d : PendingTraffic)
    → IsRow t
    → IsPending m
    → left_of t (pending_at k m) ≡ some d
    → Entry k d
confirm_delta-Entry k t m d row h e = elim (Option-cases (lookup k m)) [
  | inl missing ↦
      let at_k : pending_at k m ≡ no_traffic = ground (arith, missing) in
      absurd (none-some (sym (ap (left_of t) at_k ∙ left-none t row) ∙ e))
  | inr (old, found) ↦
      let at_k : pending_at k m ≡ old = ground (arith, found) in
      left-Entry k t old d row (h.entries k old found) (sym (ap (left_of t) at_k) ∙ e)
]

confirm_delta-IsMap :
    (k : String) (t : UserTraffic) (m : Pending) → IsMap m → IsMap (confirm_delta k t m)
unfolding confirm_delta
confirm_delta-IsMap k t m h =
    elim (Bool-cases (
      settle t.upload (pending_at k m).upload == pos 0
      && settle t.download (pending_at k m).download == pos 0)) [
        | inl both ↦ rw both (delete-IsMap k m h)
        | inr some_left ↦ rw some_left (insert-IsMap k _ m h)
      ]

confirm_delta-IsPending :
    (k : String) (t : UserTraffic) (m : Pending)
    → IsRow t
    → IsPending m
    → IsPending (confirm_delta k t m)
confirm_delta-IsPending k t m row h = record {
  distinct = confirm_delta-IsMap k t m h.distinct;
  entries = λ v d found. elim (Bool-cases (k == v)) [
    | inl same ↦
        subst (λ x. Entry x d) ((str_eq_iff k v).0 same)
          (confirm_delta-Entry k t m d row h
            (sym (lookup-confirm_delta k v t m ∙ if_at (k == v) _ _ same) ∙ found))
    | inr other ↦
        h.entries v d (sym (lookup-confirm_delta k v t m ∙ if_not (k == v) _ _ other) ∙ found)
  ];
}

pub confirm-IsPending :
    (ts : List UserTraffic) (e : External)
    → All IsRow ts
    → IsPending e.pending
    → IsPending (confirm_user_traffic ts e).pending
unfolding confirm_user_traffic
confirm-IsPending [] e rows h = h
confirm-IsPending (t ∷ ts) e rows h = confirm-IsPending ts (confirm_row t e) rows.1 (
    subst IsPending (sym (confirm_row_named t e rows.0.named))
      (confirm_delta-IsPending t.uuid t e.pending rows.0 h))
