-- ===== src/Runtime/Embedded/Orphans.antt =====
-- internal/runtime/embedded.go and counting.go: a connection that outlives its user's counter.
use v2sudoku.Prelude.{
  ◌≢◌, ◌==◌, false, Option, sym, ap, ◌∙◌, refl, Bool-cases, Option-cases, inl, inr, leb_ℤ,
  nat_beq_iff, ℕ, ◌≡◌, ℤ, pos, String, true, none, some, nat_eq, int_eq, string_eq, str_eq_iff,
  arith,
}
use v2sudoku.Dict.{lookup, insert, delete}
use v2sudoku.Dict.Laws.{lookup-insert, lookup-delete}
use v2sudoku.Runtime.Counting.{
  Counters, upsert_counter, drop_idle, modify, allocate, count_read, is_idle, traffic_of,
}
use v2sudoku.Runtime.Counting.Laws.{IsHeap}

dropped :
    (uuid : String) (p : ℕ) (cs : Counters)
    → lookup uuid cs.table ≡ some p
    → is_idle (cs.cell p) ≡ true
    → drop_idle uuid cs ≡ record cs { table = delete uuid cs.table }
unfolding drop_idle
dropped uuid p cs found idle = ground (arith, found, idle)

some_inj : (x y : ℕ) → ◌≡◌ {A = Option ℕ} (some x) (some y) → x ≡ y
some_inj x y e = cc e

-- The counters after a user was dropped and has come back.
abbrev pub back : ℤ → String → Counters → Counters
back uid uuid cs = upsert_counter uid uuid (drop_idle uuid cs)

back_table :
    (uid : ℤ) (uuid : String) (p : ℕ) (cs : Counters)
    → lookup uuid cs.table ≡ some p
    → is_idle (cs.cell p) ≡ true
    → (back uid uuid cs).table ≡ insert uuid cs.next (delete uuid cs.table)
unfolding upsert_counter modify allocate
back_table uid uuid p cs found idle =
    let gone : lookup uuid (delete uuid cs.table) ≡ none =
      ground (arith, lookup-delete uuid uuid cs.table, str_eq_iff uuid uuid) in
    rw (dropped uuid p cs found idle) (ground (arith, gone))

-- The old pointer of the user stands for nobody then.
back_pointer :
    (uid : ℤ) (uuid v : String) (p : ℕ) (cs : Counters)
    → IsHeap cs
    → lookup uuid cs.table ≡ some p
    → is_idle (cs.cell p) ≡ true
    → lookup v (back uid uuid cs).table ≢ some p
back_pointer uid uuid v p cs h found idle e =
    let at_ : lookup v (insert uuid cs.next (delete uuid cs.table)) ≡ some p =
      sym (ap (lookup v) (back_table uid uuid p cs found idle)) ∙ e in
    let old = h.owns uuid p found in
    elim (Bool-cases (uuid == v)) [
      | inl same ↦
          let new : ◌≡◌ {A = Option ℕ} (some cs.next) (some p) =
            sym (lookup-insert uuid v cs.next (delete uuid cs.table) ∙ rw same refl) ∙ at_ in
          absurd (omega (arith, old.allocated, some_inj cs.next p new))
      | inr other ↦
          let kept : lookup v cs.table ≡ some p =
            sym (
              lookup-insert uuid v cs.next (delete uuid cs.table)
              ∙ rw other (lookup-delete uuid v cs.table ∙ rw other refl))
            ∙ at_ in
          absurd
            (ground (arith, other, (str_eq_iff uuid v).1 (sym old.owner ∙ (h.owns v p kept).owner)))
    ]

-- What is read on a pointer that does not stand for a user does not count for the user.
count_read-frame :
    (n : ℤ) (p : ℕ) (v : String) (cs : Counters)
    → lookup v cs.table ≢ some p
    → traffic_of v (count_read n (some p) cs) ≡ traffic_of v cs
unfolding count_read modify
count_read-frame n p v cs ne = elim (Bool-cases (leb_ℤ n (pos 0))) [
  | inl nothing ↦ rw nothing refl
  | inr some_bytes ↦ elim (Option-cases (lookup v cs.table)) [
    | inl missing ↦ ground (arith, some_bytes, missing)
    | inr (q, there) ↦
        let other : (p == q) ≡ false = elim (Bool-cases (p == q)) [
          | inl same ↦ absurd (ne (there ∙ sym (ap (λ x. some x) ((nat_beq_iff p q).0 same))))
          | inr different ↦ different
        ] in
        ground (arith, some_bytes, there, other)
  ]
]

-- On well-formed counters, a user whose counter is at zero is deleted and comes back while a connection
-- still holds the old pointer: what that connection then reads counts for nobody, whoever it is, and
-- the user's counter is at zero.
pub count_read-orphan :
    (uid n : ℤ) (uuid : String) (p : ℕ) (cs : Counters)
    → IsHeap cs
    → lookup uuid cs.table ≡ some p
    → is_idle (cs.cell p) ≡ true
    → let after = upsert_counter uid uuid (drop_idle uuid cs) in
      ((v : String) → traffic_of v (count_read n (some p) after) ≡ traffic_of v after)
      × (traffic_of uuid (count_read n (some p) after) ≡ (pos 0, pos 0))
unfolding upsert_counter modify allocate
count_read-orphan uid n uuid p cs h found idle =
    let frame : (v : String)
        → traffic_of v (count_read n (some p) (back uid uuid cs))
          ≡ traffic_of v (back uid uuid cs) =
      λ v. count_read-frame n p v (back uid uuid cs) (back_pointer uid uuid v p cs h found idle) in
    let gone : lookup uuid (delete uuid cs.table) ≡ none =
      ground (arith, lookup-delete uuid uuid cs.table, str_eq_iff uuid uuid) in
    let new : lookup uuid (insert uuid cs.next (delete uuid cs.table)) ≡ some cs.next =
      ground
        (arith, lookup-insert uuid uuid cs.next (delete uuid cs.table), str_eq_iff uuid uuid) in
    let zero_traffic : traffic_of uuid (back uid uuid cs) ≡ (pos 0, pos 0) =
      rw (dropped uuid p cs found idle) (ground (arith, gone, new)) in
    (frame, frame uuid ∙ zero_traffic)
