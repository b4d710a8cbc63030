-- ===== src/Runtime/Embedded/Uot/Tests.antt =====
-- Runs of handleUoT of internal/runtime/embedded.go.
use v2sudoku.Prelude.{◌⊎◌, true, ◌≡◌, refl, ◌+◌, false, none}
use v2sudoku.Runtime.Embedded.Uot.{
  unstarted, listened, receiving, packets, stream, ended, failing, used, returned, Uot, new_uot,
  fails, enters, closes_stream, closes_packets, sends, receives, returns, Run, here, next,
}
use v2sudoku.Runtime.Embedded.Uot.Closed.{inside, handle_uot-returns}
use v2sudoku.Runtime.Embedded.Uot.Ends.{Ends, handle_uot-Ends}

-- Both goroutines have failed.
abbrev both_failing : Uot
both_failing = record new_uot {
  packets_open = true;
  reads_packets = failing "reset";
  reads_stream = failing "eof";
  main = receiving;
}

Run-both_failing : Run new_uot both_failing
Run-both_failing =
    next (next (next here (listened refl)) (fails stream "eof" refl)) (fails packets "reset" refl)

handle_uot-Ends_example : Ends both_failing
handle_uot-Ends_example = handle_uot-Ends packets "reset" both_failing Run-both_failing refl

abbrev returned_one : Uot
returned_one = record {
  stream_open = false;
  packets_open = false;
  once = used;
  err_ch = none;
  reads_packets = failing "reset";
  reads_stream = ended;
  main = returned "eof";
}

Run-returned_one : Run new_uot returned_one
Run-returned_one =
    next
      (next
        (next
          (next
            (next (next Run-both_failing (enters stream "eof" refl refl))
              (closes_stream stream "eof" refl))
            (closes_packets stream "eof" refl))
          (sends stream "eof" refl refl))
        (receives "eof" refl refl))
      (returns "eof" refl)

handle_uot-returns_example :
    ((returned_one.reads_packets ≡ unstarted)
      × (returned_one.reads_stream ≡ unstarted)
      × (returned_one.stream_open ≡ true)
      × (returned_one.packets_open ≡ false))
    ⊎ ((returned_one.stream_open ≡ false)
        × (returned_one.packets_open ≡ false)
        × (returned_one.err_ch ≡ none)
        × (inside returned_one.reads_packets + inside returned_one.reads_stream ≡ 0))
handle_uot-returns_example = handle_uot-returns returned_one "eof" Run-returned_one refl
