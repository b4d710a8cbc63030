-- ===== src/Runtime/External/Tests.antt =====
-- Runs of the external engine (internal/runtime/external.go).
use v2sudoku.Prelude.{
  Option, ℕ, ◌≢◌, ◌⊎◌, ◌≡◌, refl, pos, [], ◌∷◌, none, some, true, false, string_eq, int_eq,
  if◌then◌else◌,
}
use v2sudoku.Text.Trim.{trim_space}
use v2sudoku.Runtime.Samples.{bob}
use v2sudoku.Runtime.Config.{build_sudoku_config}
use v2sudoku.Runtime.External.{Event, import_event_line}
use v2sudoku.Runtime.External.Process.{update_users}
use v2sudoku.Runtime.External.Process.Restart.{RunsConfig, update_users-RunsConfig}
use v2sudoku.Runtime.External.Ledger.{IsPending, held}
use v2sudoku.Runtime.External.Stop
use v2sudoku.Runtime.External.Stop.{
  Stopping, exit, signals, tick, kill, returned, next, Reach-killed,
}
use v2sudoku.Runtime.External.Served.{external_server, external-Ledger}
use v2sudoku.Runtime.External.Events.{counts, grown, import_event_line-held}
use v2sudoku.Runtime.Server.{Ledger}
use v2sudoku.Runtime.External.Samples.{
  library_one, pending_one, external_one, host_one, external_engine_one,
}

RunsConfig-external_one : RunsConfig library_one external_engine_one
unfolding build_sudoku_config trim_space
RunsConfig-external_one = record { body = "{}"; encoded = refl; hash = refl }

-- A machine on which the process has died: `cmd` is nil, and the file is up to date.
update_users-RunsConfig_example :
    let g' = (update_users library_one (bob ∷ []) [] [] none external_engine_one).1 in
    (g'.external.cmd ≡ none) × (g'.host ≡ host_one) × RunsConfig library_one g'
update_users-RunsConfig_example =
    update_users-RunsConfig library_one (bob ∷ []) [] [] none external_engine_one
      RunsConfig-external_one

external-Ledger_example :
    Ledger
      (external_server library_one)
      (λ g. IsPending g.external.pending)
      (λ v g. held v g.external.pending)
external-Ledger_example = external-Ledger library_one

abbrev event_one : Event
event_one = record {
  kind = "traffic";
  user_hash = "5a";
  ip = "";
  upload = pos 10;
  download = pos 20;
}

import_event_line-held_example :
    held "a" (import_event_line (some event_one) (pos 9) external_one).1.pending ≡ (
      if counts event_one "a" external_one
      then grown event_one (held "a" pending_one)
      else held "a" pending_one)
import_event_line-held_example = import_event_line-held (some event_one) (pos 9) external_one "a"

-- The process ends at once, and is killed after five seconds.
abbrev stopped_one : Stopping
stopped_one = record {
  cmd = none;
  locked = false;
  exited = true;
  polling = true;
  done = false;
  timeout = true;
  killed = true;
  phase = returned;
}

a_process : ◌≡◌ {A = Option ℕ} (some 4) none → ⊥
a_process e = cc e

Reach-killed_example :
    ((◌≡◌ {A = Option ℕ} (some 4) none)
      × (stopped_one.killed ≡ false)
      × (stopped_one.timeout ≡ false))
    ⊎ ((◌≢◌ {A = Option ℕ} (some 4) none)
        × (stopped_one.killed ≡ true)
        × (stopped_one.timeout ≡ true))
Reach-killed_example =
    Reach-killed (some 4) false stopped_one
      (next (next (next (next Stop.start (signals refl a_process)) exit) (tick refl))
        (kill refl refl))
      refl
