-- ===== src/Task/Tests.antt =====
-- Runs of a task (internal/task/task.go).
use v2sudoku.Prelude.{◌≡◌, refl, [], true, false, All}
use v2sudoku.Task.{Task, new_task, start, close, started, closes, Run, here, next}
use v2sudoku.Task.Stop.{Run-opened, Run-ended, IsReady, QuietRun}

abbrev running_one : Task
running_one = start true new_task

Run-running_one : Run new_task running_one
Run-running_one = next here (started true)

Run-opened_example : running_one.closed 1 ≡ false
unfolding start
Run-opened_example = Run-opened running_one Run-running_one refl

-- Closed while its loop is in `Execute`.
Run-ended_example :
    All (IsReady (close running_one)) (close running_one).loops
    × QuietRun (close running_one) (record (close running_one) { loops = [] })
unfolding start close
Run-ended_example = Run-ended (close running_one) (next Run-running_one closes) refl
