-- ===== src/Runtime/Embedded/Lifecycle/Tests.antt =====
-- Runs of the listener and the connections of internal/runtime/embedded.go.
use v2sudoku.Prelude.{◌≡◌, ◌≢◌, refl, [], ◌∷◌, length, All, true, false, nat_eq}
use v2sudoku.Runtime.Embedded.Lifecycle.{
  listening, no_loop, Conn, gone, returned, waiting, collecting, sweeping, Lifecycle, new_lifecycle,
  Run, here, next, listen, spawn, removed, shut_conn, register_conn, unregister_conn, starts,
  accepts, spawns, ends, registers, handles, unregisters, leaves, closes, collects, sweeps, swept,
  returns, accepted, serving, handled, unregistered, shut, accepting,
}
use v2sudoku.Runtime.Embedded.Lifecycle.Returns.{IsGone, Close-returns}
use v2sudoku.Runtime.Embedded.Lifecycle.Sweep.{Has, collects-closed}
use v2sudoku.Runtime.Embedded.Lifecycle.Late.{IsServed, late_conns_stay_open}

-- The engine with one connection that is served, when `Close` is to look for the active ones.
abbrev one_conn : Conn
one_conn = record { id = 0; place = serving; is_open = true }

abbrev to_collect : Lifecycle
to_collect = record {
  listener = shut;
  loop = accepting;
  wg = 2;
  active = 0 ∷ [];
  conns = one_conn ∷ [];
  next_id = 1;
  closer = collecting;
}

Run-to_collect : Run new_lifecycle to_collect
unfolding listen spawn register_conn
Run-to_collect =
    next
      (next (next (next (next here (starts refl refl)) (accepts refl refl)) (spawns refl))
        (registers [] (record { id = 0; place = accepted; is_open = true }) [] refl refl))
      (closes refl)

abbrev swept_one : Lifecycle
swept_one = record to_collect { closer = waiting; conns = record one_conn { is_open = false } ∷ [] }

Run-swept_one : Run (record to_collect { closer = sweeping (0 ∷ []) }) swept_one
unfolding shut_conn
Run-swept_one = next (next here (sweeps 0 [] refl)) (swept refl)

collects-closed_example :
    All (λ (c : Conn). Has to_collect.active c.id → c.is_open ≡ false) swept_one.conns
collects-closed_example =
    collects-closed to_collect swept_one Run-to_collect refl Run-swept_one refl

abbrev finished : Lifecycle
finished = record {
  listener = shut;
  loop = no_loop;
  wg = 0;
  active = [];
  conns = record { id = 0; place = gone; is_open = false } ∷ [];
  next_id = 1;
  closer = returned;
}

abbrev off_conn : Conn
off_conn = record one_conn { is_open = false }

Run-finished : Run new_lifecycle finished
unfolding shut_conn unregister_conn removed
Run-finished =
    next
      (next
        (next
          (next
            (next
              (next (next (next Run-to_collect (collects refl)) (sweeps 0 [] refl)) (swept refl))
              (ends refl refl))
            (handles [] off_conn [] refl refl))
          (unregisters [] (record off_conn { place = handled }) [] refl refl))
        (leaves [] (record off_conn { place = unregistered }) [] refl refl))
      (returns refl refl)

Close-returns_example :
    (finished.listener ≢ listening) × (finished.loop ≡ no_loop) × All IsGone finished.conns
Close-returns_example = Close-returns finished Run-finished refl

late_conns_stay_open_example :
    (s : Lifecycle) × Run new_lifecycle s
    × (s.closer ≡ waiting)
    × (s.wg ≡ 3)
    × (length s.conns ≡ 3)
    × All IsServed s.conns
late_conns_stay_open_example = late_conns_stay_open 3
