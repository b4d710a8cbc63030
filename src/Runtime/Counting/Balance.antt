-- ===== src/Runtime/Counting/Balance.antt =====
-- The map of counters of internal/runtime/embedded.go: what each change does to the traffic that it
-- holds for a user.
use v2sudoku.Prelude.{
  ℕ, ◌≡◌, ◌≢◌, ℤ, pos, String, some, nat_eq, int_eq, string_eq, str_eq_iff, int_beq_iff, arith,
  Option-cases, inl, inr,
}
use v2sudoku.Dict.{lookup}
use v2sudoku.Dict.Laws.{lookup-insert, lookup-delete}
use v2sudoku.Runtime.Counting.{
  TrafficCounter, Counters, modify, allocate, keep_counter, drop_idle, snapshot, traffic_of,
}
use v2sudoku.Runtime.Counting.Laws.{IsHeap}

-- Naming a counter, or making a new one, changes nobody's traffic.
pub traffic_of-keep_counter :
    (uid : ℤ) (uuid v : String) (cs : Counters)
    → IsHeap cs
    → traffic_of v (keep_counter uid uuid cs) ≡ traffic_of v cs
unfolding keep_counter modify allocate
traffic_of-keep_counter uid uuid v cs h = elim (Option-cases (lookup v cs.table)) [
  | inl missing ↦ ground (arith, missing, lookup-insert uuid v cs.next cs.table)
  | inr (p, found) ↦
      ground
        (arith, found, h.owns v p found, lookup-insert uuid v cs.next cs.table, str_eq_iff uuid v)
]

-- Only a counter at zero is dropped.
pub traffic_of-drop_idle :
    (uuid v : String) (cs : Counters) → traffic_of v (drop_idle uuid cs) ≡ traffic_of v cs
unfolding drop_idle
traffic_of-drop_idle uuid v cs = elim (Option-cases (lookup uuid cs.table)) [
  | inl missing ↦ ground (arith, missing)
  | inr (p, found) ↦ ground (
    arith,
    found,
    lookup-delete uuid v cs.table,
    str_eq_iff uuid v,
    int_beq_iff (cs.cell p).up (pos 0),
    int_beq_iff (cs.cell p).down (pos 0),
  )
]

-- Subtracting from a user's counter settles that user's traffic and nobody else's.
pub traffic_of-modify_ne :
    (uuid v : String) (p : ℕ) (f : TrafficCounter → TrafficCounter) (cs : Counters)
    → IsHeap cs
    → lookup uuid cs.table ≡ some p
    → v ≢ uuid
    → traffic_of v (modify p f cs) ≡ traffic_of v cs
unfolding modify
traffic_of-modify_ne uuid v p f cs h found ne = elim (Option-cases (lookup v cs.table)) [
  | inl missing ↦ ground (arith, missing)
  | inr (q, there) ↦ ground (arith, there, h.owns v q there, h.owns uuid p found)
]

pub traffic_of-modify_self :
    (uuid : String) (p : ℕ) (f : TrafficCounter → TrafficCounter) (cs : Counters)
    → lookup uuid cs.table ≡ some p
    → traffic_of uuid (modify p f cs) ≡ snapshot (f (cs.cell p))
unfolding modify
traffic_of-modify_self uuid p f cs found = ground (arith, found)
