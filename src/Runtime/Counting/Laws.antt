-- ===== src/Runtime/Counting/Laws.antt =====
-- The map of counters of internal/runtime/embedded.go: its shape. A pointer of the map is allocated,
-- and leads to the counter of its own key, so that no two keys share one.
use mathlib.Core.Path.{fun_ext}
use v2sudoku.Prelude.{
  ℕ, suc, ◌<◌, ◌≡◌, ap, ℤ, pos, String, some, nat_eq, int_eq, string_eq, str_eq_iff, arith,
  Option-cases, Bool-cases, inl, inr,
}
use v2sudoku.Dict.{lookup, insert, IsMap}
use v2sudoku.Dict.Laws.{lookup-insert, lookup-delete, insert-IsMap, delete-IsMap}
use v2sudoku.Runtime.Counting.{
  TrafficCounter, Counters, modify, allocate, rename, keep_counter, upsert_counter, drop_idle,
  is_idle,
}

pub record Owns (cs : Counters) (uuid : String) (p : ℕ) : Type 0 where
  pub allocated : p < cs.next
  pub owner : (cs.cell p).uuid ≡ uuid

pub record IsHeap (cs : Counters) : Type 0 where
  pub distinct : IsMap cs.table
  pub owns : (uuid : String) (p : ℕ) → lookup uuid cs.table ≡ some p → Owns cs uuid p

pub keep-eq-upsert :
    (uid : ℤ) (uuid : String) (cs : Counters)
    → keep_counter uid uuid cs ≡ upsert_counter uid uuid cs
unfolding keep_counter upsert_counter modify allocate
keep-eq-upsert uid uuid cs = elim (Option-cases (lookup uuid cs.table)) [
  | inr (p, found) ↦ rw (found, keep_counter, upsert_counter)
  | inl absent ↦
      let twice : (allocate uuid uid uuid cs).cell
          ≡ (modify cs.next (rename uid uuid) (allocate uuid (pos 0) "" cs)).cell =
        fun_ext λ q. ground arith in
      rw (absent, keep_counter, upsert_counter)
        (ap (λ f. record { table = insert uuid cs.next cs.table; cell = f; next = suc cs.next })
          twice)
]

keep_counter-Owns :
    (uid : ℤ) (uuid : String) (cs : Counters)
    → IsHeap cs
    → (v : String) (p : ℕ) → lookup v (keep_counter uid uuid cs).table ≡ some p
    → Owns (keep_counter uid uuid cs) v p
unfolding keep_counter modify allocate
keep_counter-Owns uid uuid cs h v p e = elim (Option-cases (lookup uuid cs.table)) [
  | inl absent ↦
      ground
        (arith, absent, e, h.owns v p, lookup-insert uuid v cs.next cs.table, str_eq_iff uuid v)
  | inr (q, found) ↦ ground (arith, found, e, h.owns v p, h.owns uuid q)
]

keep_counter-IsMap :
    (uid : ℤ) (uuid : String) (cs : Counters)
    → IsMap cs.table
    → IsMap (keep_counter uid uuid cs).table
unfolding keep_counter modify allocate
keep_counter-IsMap uid uuid cs h = elim (Option-cases (lookup uuid cs.table)) [
  | inl absent ↦ rw (absent, keep_counter) (insert-IsMap uuid cs.next cs.table h)
  | inr (q, found) ↦ rw (found, keep_counter) h
]

pub keep_counter-IsHeap :
    (uid : ℤ) (uuid : String) (cs : Counters) → IsHeap cs → IsHeap (keep_counter uid uuid cs)
keep_counter-IsHeap uid uuid cs h = record {
  distinct = keep_counter-IsMap uid uuid cs h.distinct;
  owns = keep_counter-Owns uid uuid cs h;
}

drop_idle-Owns :
    (uuid : String) (cs : Counters)
    → IsHeap cs
    → (v : String) (p : ℕ) → lookup v (drop_idle uuid cs).table ≡ some p
    → Owns (drop_idle uuid cs) v p
unfolding drop_idle
drop_idle-Owns uuid cs h v p e = ground (arith, h.owns v p, lookup-delete uuid v cs.table)

drop_idle-IsMap : (uuid : String) (cs : Counters) → IsMap cs.table → IsMap (drop_idle uuid cs).table
unfolding drop_idle
drop_idle-IsMap uuid cs h = elim (Option-cases (lookup uuid cs.table)) [
  | inl absent ↦ rw (absent, drop_idle) h
  | inr (p, found) ↦ elim (Bool-cases (is_idle (cs.cell p))) [
    | inl idle ↦ rw (found, drop_idle, idle) (delete-IsMap uuid cs.table h)
    | inr busy ↦ rw (found, drop_idle, busy) h
  ]
]

pub drop_idle-IsHeap : (uuid : String) (cs : Counters) → IsHeap cs → IsHeap (drop_idle uuid cs)
drop_idle-IsHeap uuid cs h = record {
  distinct = drop_idle-IsMap uuid cs h.distinct;
  owns = drop_idle-Owns uuid cs h;
}

-- No method of a counter changes its name.
pub modify-IsHeap :
    (p : ℕ) (f : TrafficCounter → TrafficCounter) (cs : Counters)
    → (f (cs.cell p)).uuid ≡ (cs.cell p).uuid
    → IsHeap cs
    → IsHeap (modify p f cs)
unfolding modify
modify-IsHeap p f cs same h = record {
  distinct = h.distinct;
  owns = λ v q e. ground (arith, h.owns v q);
}
