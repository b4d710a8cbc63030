-- ===== src/Runtime/Embedded/Serving/Moves.antt =====
-- internal/runtime/embedded.go: what moves on a connection, and whom it is counted for.
use v2sudoku.Prelude.{
  ℕ, ℤ, pos, ◌≡◌, ◌≢◌, refl, ap, sym, ◌∙◌, String, List, [], ◌∷◌, ◌++◌, true, Option, none, some,
  inl, inr, string_eq, if◌then◌else◌, Bool-cases, arith, leb_ℤ, add64,
}
use v2sudoku.Dict.{lookup}
use v2sudoku.Runtime.Counting.{
  Counters, TrafficCounter, add_upload, add_download, count_read, count_write, modify, traffic_of,
}
use v2sudoku.Runtime.Counting.Laws.{IsHeap, modify-IsHeap}
use v2sudoku.Runtime.Counting.Balance.{traffic_of-modify_ne, traffic_of-modify_self}
use v2sudoku.Runtime.Embedded.{Embedded}
use v2sudoku.Runtime.Embedded.Traffic.{traffic}
use v2sudoku.Runtime.Embedded.Serving.{
  Control, Move, reads, writes, move, move_all, is_keep_alive, read_first_control,
}

-- What moves add to the traffic of a user.
abbrev pub added : Move → ℤ × ℤ → ℤ × ℤ
added (reads n) x = if leb_ℤ n (pos 0) then x else (add64 x.0 n, x.1)
added (writes n) x = if leb_ℤ n (pos 0) then x else (x.0, add64 x.1 n)

unfoldable pub tally : List Move → ℤ × ℤ → ℤ × ℤ
tally [] x = x
tally (m ∷ ms) x = tally ms (added m x)

-- The first message that is not one to keep the connection alive, and the bytes read up to it.
unfoldable pub first_control : List (ℤ × Option Control) → Option Control
first_control [] = none
first_control ((n, none) ∷ rest) = none
first_control ((n, some msg) ∷ rest) =
    let more = first_control rest in if is_keep_alive msg then more else some msg

unfoldable pub control_reads : List (ℤ × Option Control) → List Move
control_reads [] = []
control_reads ((n, none) ∷ rest) = reads n ∷ []
control_reads ((n, some msg) ∷ rest) =
    let more = control_reads rest in reads n ∷ (if is_keep_alive msg then more else [])

pub read_first_control_lem :
    (p : ℕ) (ms : List (ℤ × Option Control)) (e : Embedded)
    → read_first_control p ms e ≡ (first_control ms, move_all p (control_reads ms) e)
unfolding read_first_control first_control control_reads move_all
read_first_control_lem p [] e = refl
read_first_control_lem p ((n, none) ∷ rest) e = refl
read_first_control_lem p ((n, some msg) ∷ rest) e = elim (Bool-cases (is_keep_alive msg)) [
  | inl alive ↦ rw alive (read_first_control_lem p rest (move p (reads n) e))
  | inr other ↦ rw other refl
]

pub move_all-append :
    (p : ℕ) (ms ns : List Move) (e : Embedded)
    → move_all p (ms ++ ns) e ≡ move_all p ns (move_all p ms e)
unfolding move_all
move_all-append p [] ns e = refl
move_all-append p (m ∷ ms) ns e = move_all-append p ms ns (move p m e)

-- What moves on the connection of one user leave.
pub record Moved (uuid : String) (p : ℕ) (ms : List Move) (e e' : Embedded) : Type 0 where
  pub table : e'.counters.table ≡ e.counters.table
  pub users : e'.users ≡ e.users
  pub online : e'.online ≡ e.online
  pub heap : IsHeap e'.counters
  pub own : traffic uuid e' ≡ tally ms (traffic uuid e)
  pub others : (v : String) → v ≢ uuid → traffic v e' ≡ traffic v e

add_upload-uuid : (n : ℤ) (c : TrafficCounter) → (add_upload n c).uuid ≡ c.uuid
unfolding add_upload
add_upload-uuid n c = ground arith

add_download-uuid : (n : ℤ) (c : TrafficCounter) → (add_download n c).uuid ≡ c.uuid
unfolding add_download
add_download-uuid n c = ground arith

-- A method that a move calls on the counter of a user.
modified :
    (uuid : String) (p : ℕ) (m : Move) (f : TrafficCounter → TrafficCounter) (e : Embedded)
    → lookup uuid e.counters.table ≡ some p
    → IsHeap e.counters
    → ((c : TrafficCounter) → (f c).uuid ≡ c.uuid)
    → ((c : TrafficCounter) → ◌≡◌ {A = ℤ × ℤ} ((f c).up, (f c).down) (added m (c.up, c.down)))
    → Moved uuid p (m ∷ []) e (record e { counters = modify p f e.counters })
unfolding tally
modified uuid p m f e found h names adds = record {
  table = unfold modify in refl;
  users = refl;
  online = refl;
  heap = modify-IsHeap p f e.counters (names (e.counters.cell p)) h;
  own =
      traffic_of-modify_self uuid p f e.counters found
      ∙ adds (e.counters.cell p)
      ∙ ap (added m) (sym (held_at uuid p e.counters found));
  others = λ v ne. traffic_of-modify_ne uuid v p f e.counters h found ne;
}
  where
    held_at :
        (uuid : String) (p : ℕ) (cs : Counters)
        → lookup uuid cs.table ≡ some p
        → traffic_of uuid cs ≡ ((cs.cell p).up, (cs.cell p).down)
    held_at uuid p cs found = ground (arith, found)

unmoved :
    (uuid : String) (p : ℕ) (m : Move) (e : Embedded)
    → ((x : ℤ × ℤ) → added m x ≡ x)
    → IsHeap e.counters
    → Moved uuid p (m ∷ []) e e
unfolding tally
unmoved uuid p m e same h = record {
  table = refl;
  users = refl;
  online = refl;
  heap = h;
  own = sym (same (traffic uuid e));
  others = λ v ne. refl;
}

added_zero : (n : ℤ) (x y : ℤ × ℤ) → leb_ℤ n (pos 0) ≡ true → (if leb_ℤ n (pos 0) then x else y) ≡ x
added_zero n x y none_moved = rw none_moved refl

move-Moved :
    (uuid : String) (p : ℕ) (m : Move) (e : Embedded)
    → lookup uuid e.counters.table ≡ some p
    → IsHeap e.counters
    → Moved uuid p (m ∷ []) e (move p m e)
unfolding move count_read count_write
move-Moved uuid p (reads n) e found h = elim (Bool-cases (leb_ℤ n (pos 0))) [
  | inl nothing ↦
      rw nothing (unmoved uuid p (reads n) e (λ x. added_zero n x (add64 x.0 n, x.1) nothing) h)
  | inr some_ ↦ rw some_ (
      modified uuid p (reads n) (add_upload n) e found h (add_upload-uuid n)
        (λ c. unfold add_upload in rw some_ refl))
]
move-Moved uuid p (writes n) e found h = elim (Bool-cases (leb_ℤ n (pos 0))) [
  | inl nothing ↦
      rw nothing (unmoved uuid p (writes n) e (λ x. added_zero n x (x.0, add64 x.1 n) nothing) h)
  | inr some_ ↦ rw some_ (
      modified uuid p (writes n) (add_download n) e found h (add_download-uuid n)
        (λ c. unfold add_download in rw some_ refl))
]

pub move_all-Moved :
    (uuid : String) (p : ℕ) (ms : List Move) (e : Embedded)
    → lookup uuid e.counters.table ≡ some p
    → IsHeap e.counters
    → Moved uuid p ms e (move_all p ms e)
unfolding move_all tally
move_all-Moved uuid p [] e found h = record {
  table = refl;
  users = refl;
  online = refl;
  heap = h;
  own = refl;
  others = λ v ne. refl;
}
move_all-Moved uuid p (m ∷ ms) e found h =
    let one = move-Moved uuid p m e found h in
    let rest =
      move_all-Moved uuid p ms (move p m e) (ap (lookup uuid) one.table ∙ found) one.heap in
    record {
      table = rest.table ∙ one.table;
      users = rest.users ∙ one.users;
      online = rest.online ∙ one.online;
      heap = rest.heap;
      own = rest.own ∙ ap (tally ms) one.own;
      others = λ v ne. rest.others v ne ∙ one.others v ne;
    }

pub tally-append : (ms ns : List Move) (x : ℤ × ℤ) → tally (ms ++ ns) x ≡ tally ns (tally ms x)
unfolding tally
tally-append [] ns x = refl
tally-append (m ∷ ms) ns x = tally-append ms ns (added m x)
