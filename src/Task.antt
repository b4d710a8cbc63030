-- ===== src/Task.antt =====
-- internal/task/task.go: a task that runs at intervals. Its loop is a goroutine of its own, so the loops
-- of one task stand in a list, and what any of them does is a step.
pub mod Stop
pub mod Loops
mod Tests
use v2sudoku.Prelude.{
  ℕ, suc, ◌≡◌, List, [], ◌∷◌, ◌++◌, Bool, true, false, ◌||◌, nat_beq, if◌then◌else◌,
}

-- Where a loop is: before its `select`, waiting in it for the timer or for a channel, or in
-- `ExecuteWithTimeout`. The channel is the one that `t.Stop` held when the loop came to its `select`.
pub data Phase : Type 0 where
  entering executing : Phase
  waiting : ℕ → Phase

-- `Task`, with its loops, the stop channels that are closed, which are numbered as they are made, and
-- whether the reload channel holds an element.
pub record Task : Type 0 where
  pub running : Bool
  pub stop : ℕ
  pub closed : ℕ → Bool
  pub loops : List Phase
  pub reload : Bool

-- A task that was never started.
abbrev pub new_task : Task
new_task = record { running = false; stop = 0; closed = λ ch. false; loops = []; reload = false }

unfoldable pub start : Bool → Task → Task
start first t = if t.running then t else record t {
  running = true;
  stop = suc t.stop;
  loops = (if first then executing else entering) ∷ t.loops;
}

unfoldable pub close : Task → Task
close t =
    if t.running
    then record t { running = false; closed = λ ch. nat_beq ch t.stop || t.closed ch }
    else t

-- How `Execute` ends: not before the time is over, with no error, with an error of the context, or with
-- another error.
pub data Ending : Type 0 where
  timed_out done canceled failed : Ending

-- `ExecuteWithTimeout`: whether it returns an error, and the reload channel, which every task of the
-- controller has, takes one element, and is full or not. An `Execute` that goes on after its time is
-- over is not kept.
unfoldable pub execute_with_timeout : Ending → Bool → Bool × Bool
execute_with_timeout timed_out reload = (false, true)
execute_with_timeout done reload = (false, reload)
execute_with_timeout canceled reload = (false, reload)
execute_with_timeout failed reload = (true, reload)

-- A loop ends if `ExecuteWithTimeout` returns an error.
abbrev pub after_execute : Bool → List Phase
after_execute true = []
after_execute false = entering ∷ []

pub data Step (t : Task) : Task → Type 0 where
  started : (first : Bool) → Step t (start first t)
  closes : Step t (close t)
  enter :
      (xs ys : List Phase)
      → t.loops ≡ xs ++ (entering ∷ ys)
      → Step t (record t { loops = xs ++ (waiting t.stop ∷ ys) })
  timer :
      (ch : ℕ) (xs ys : List Phase)
      → t.loops ≡ xs ++ (waiting ch ∷ ys)
      → Step t (record t { loops = xs ++ (executing ∷ ys) })
  stopped :
      (ch : ℕ) (xs ys : List Phase)
      → t.loops ≡ xs ++ (waiting ch ∷ ys)
      → t.closed ch ≡ true
      → Step t (record t { loops = xs ++ ys })
  executed :
      (e : Ending) (xs ys : List Phase)
      → t.loops ≡ xs ++ (executing ∷ ys)
      → Step t (record t {
        loops = xs ++ (after_execute (execute_with_timeout e t.reload).0 ++ ys);
        reload = (execute_with_timeout e t.reload).1;
      })

-- The runs from a task.
pub data Run (s : Task) : Task → Type 0 where
  here : Run s s
  next : {t u : Task} → Run s t → Step t u → Run s u
