-- ===== src/Runtime/Counting.antt =====
-- internal/runtime/counting.go: the traffic counter of a user and the connection that feeds it. The
-- map of counters (embedded.go) holds pointers, and a connection keeps the pointer that it was
-- given, so the counters stand on a heap of their own.
pub mod Laws
pub mod Balance
use v2sudoku.Prelude.{
  ℕ, suc, ℤ, pos, String, List, [], ◌∷◌, Bool, true, false, ◌&&◌, Option, none, some, ◌==◌, nat_eq,
  int_eq, string_eq, if◌then◌else◌, leb_ℤ, add64, sub64,
}
use v2sudoku.Dict.{lookup, insert, delete}

pub record TrafficCounter : Type 0 where
  pub uid : ℤ
  pub uuid : String
  pub up : ℤ
  pub down : ℤ

unfoldable pub add_upload : ℤ → TrafficCounter → TrafficCounter
add_upload n c = if leb_ℤ n (pos 0) then c else record c { up = add64 c.up n }

unfoldable pub add_download : ℤ → TrafficCounter → TrafficCounter
add_download n c = if leb_ℤ n (pos 0) then c else record c { down = add64 c.down n }

abbrev pub snapshot : TrafficCounter → ℤ × ℤ
snapshot c = (c.up, c.down)

-- One half of `subtract`: an amount that reaches the counter sets it to zero.
abbrev pub settle : ℤ → ℤ → ℤ
settle reported held = if leb_ℤ held reported then pos 0 else sub64 held reported

unfoldable pub subtract : ℤ → ℤ → TrafficCounter → TrafficCounter
subtract up down c = record c { up = settle up c.up; down = settle down c.down }

-- The map of counters with its heap: `table` holds pointers, and `next` is the first that is free.
pub record Counters : Type 0 where
  pub table : List (String × ℕ)
  pub cell : ℕ → TrafficCounter
  pub next : ℕ

abbrev pub write_cell : ℕ → TrafficCounter → (ℕ → TrafficCounter) → ℕ → TrafficCounter
write_cell p c cell q = if p == q then c else cell q

-- A method called on the object behind a pointer.
unfoldable pub modify : ℕ → (TrafficCounter → TrafficCounter) → Counters → Counters
modify p f cs = record cs { cell = write_cell p (f (cs.cell p)) cs.cell }

-- `counters[uuid] = &trafficCounter{uid: …, uuid: …}`
unfoldable pub allocate : String → ℤ → String → Counters → Counters
allocate key uid uuid cs = record {
  table = insert key cs.next cs.table;
  cell = write_cell cs.next (record { uid = uid; uuid = uuid; up = pos 0; down = pos 0 }) cs.cell;
  next = suc cs.next;
}

abbrev pub rename : ℤ → String → TrafficCounter → TrafficCounter
rename uid uuid c = record c { uid = uid; uuid = uuid }

-- The part of `replaceUsersLocked`'s loop that sees to the user's counter.
unfoldable pub keep_counter : ℤ → String → Counters → Counters
keep_counter uid uuid cs = elim (lookup uuid cs.table) [
  | some p ↦ modify p (rename uid uuid) cs
  | none ↦ allocate uuid uid uuid cs
]

-- The same part of `upsertUserLocked`: a new counter is put in the map, then named.
unfoldable pub upsert_counter : ℤ → String → Counters → Counters
upsert_counter uid uuid cs = elim (lookup uuid cs.table) [
  | some p ↦ modify p (rename uid uuid) cs
  | none ↦ modify cs.next (rename uid uuid) (allocate uuid (pos 0) "" cs)
]

abbrev pub is_idle : TrafficCounter → Bool
is_idle c = c.up == pos 0 && c.down == pos 0

-- `if counter := counters[uuid]; counter != nil { if up == 0 && down == 0 { delete } }`
unfoldable pub drop_idle : String → Counters → Counters
drop_idle uuid cs = elim (lookup uuid cs.table) [
  | some p ↦ if is_idle (cs.cell p) then record cs { table = delete uuid cs.table } else cs
  | none ↦ cs
]

-- `countingConn.Read` and `Write`, once the connection has moved `n` bytes. The pointer may be nil.
unfoldable pub count_read : ℤ → Option ℕ → Counters → Counters
count_read n none cs = cs
count_read n (some p) cs = if leb_ℤ n (pos 0) then cs else modify p (add_upload n) cs

unfoldable pub count_write : ℤ → Option ℕ → Counters → Counters
count_write n none cs = cs
count_write n (some p) cs = if leb_ℤ n (pos 0) then cs else modify p (add_download n) cs

-- What a map of counters holds for a user: zero if there is no counter.
abbrev pub traffic_of : String → Counters → ℤ × ℤ
traffic_of uuid cs = elim (lookup uuid cs.table) [
  | some p ↦ snapshot (cs.cell p)
  | none ↦ (pos 0, pos 0)
]
