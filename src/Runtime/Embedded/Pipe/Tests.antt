-- ===== src/Runtime/Embedded/Pipe/Tests.antt =====
-- Runs of pipeConn of internal/runtime/embedded.go.
use v2sudoku.Prelude.{◌≡◌, refl, String, List, [], ◌∷◌, ◌++◌, true, false}
use v2sudoku.Runtime.Embedded.Pipe.{
  to_a, to_b, returned, Pipe, new_pipe, try_close_write, try_close_read, moved_on, end_copy, moves,
  fails, receives, closes_b, closes_a, Run, here, next,
}
use v2sudoku.Runtime.Embedded.Pipe.Truncated.{pipe_moves, pipe_truncates, SoundRun}

abbrev asked : List String
asked = "GET" ∷ []

abbrev answered : List String
answered = "200" ∷ "OK" ∷ []

abbrev ended_one : Pipe
ended_one = record (new_pipe asked answered) {
  into_a = record { pending = "OK" ∷ []; moved = "200" ∷ []; is_done = true };
  a_open = false;
  b_open = false;
  calls = try_close_read to_b ∷ try_close_write to_a ∷ [];
  main = returned;
}

-- The answer breaks off after its first piece.
Run-ended_one : Run (new_pipe asked answered) ended_one
unfolding moved_on end_copy
Run-ended_one =
    next
      (next
        (next
          (next (next here (moves to_a "200" ("OK" ∷ []) refl refl refl refl)) (fails to_a refl))
          (receives 0 refl refl))
        (closes_b refl))
      (closes_a refl)

pipe_moves_example :
    (ended_one.into_a.moved ++ ended_one.into_a.pending ≡ answered)
    × (ended_one.into_b.moved ++ ended_one.into_b.pending ≡ asked)
    × (ended_one.a_open ≡ false)
    × (ended_one.b_open ≡ false)
pipe_moves_example = pipe_moves asked answered ended_one Run-ended_one refl

pipe_truncates_example :
    (p : Pipe) × SoundRun (new_pipe asked answered) p
    × (p.main ≡ returned)
    × (p.into_b.moved ≡ asked)
    × (p.into_a.moved ≡ [])
    × (p.into_a.pending ≡ answered)
    × (p.a_open ≡ false)
pipe_truncates_example = pipe_truncates asked answered
