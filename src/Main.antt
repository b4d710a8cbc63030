-- ===== src/Main.antt =====
-- main.go: `runNode`, which keeps one controller of a node running, against an environment that chooses
-- what fails, when the tasks ask for a reload and when the context ends.
pub mod Controllers
pub mod Log
pub mod Program
mod Tests
use v2sudoku.Prelude.{ℕ, suc, ◌≡◌, List, [], ◌∷◌, Bool, true, false, nat_beq, if◌then◌else◌}

-- Where `runNode` is: at the top of its loop, asleep, waiting with a controller, in the `Close` of one, or
-- returned. It comes to a `Close` because the context has ended, or for a reload.
pub data Reason : Type 0 where
  context_done reload_asked : Reason

pub data Place : Type 0 where
  top asleep returned : Place
  watching : ℕ → Place
  closing : ℕ → Reason → Place

-- The place, whether the context has ended, whether the reload channel holds an element, the controllers
-- that were started and not closed, and the number of the next one.
pub record Node : Type 0 where
  pub place : Place
  pub done : Bool
  pub reload : Bool
  pub controllers : List ℕ
  pub next_controller : ℕ

abbrev pub new_node : Node
new_node = record {
  place = top;
  done = false;
  reload = false;
  controllers = [];
  next_controller = 0;
}

-- A controller whose `Close` has returned is no longer among those that run.
unfoldable pub closed : ℕ → List ℕ → List ℕ
closed c [] = []
closed c (d ∷ ds) = let rest = closed c ds in if nat_beq c d then rest else d ∷ rest

-- What `runNode` itself does; a place where it has to wait has no step until the wait is over.
pub data Own (n : Node) : Node → Type 0 where
  ends : n.place ≡ top → n.done ≡ true → Own n (record n { place = returned })
  -- `panel.New` or `Start` fails
  fails : n.place ≡ top → n.done ≡ false → Own n (record n { place = asleep })
  starts :
      n.place ≡ top
      → n.done ≡ false
      → Own n (record n {
        place = watching n.next_controller;
        controllers = n.next_controller ∷ n.controllers;
        next_controller = suc n.next_controller;
      })
  -- `sleepOrDone` returns, in time or because the context has ended
  wakes : n.place ≡ asleep → Own n (record n { place = top })
  closes :
      (c : ℕ)
      → n.place ≡ watching c
      → n.done ≡ true
      → Own n (record n { place = closing c context_done })
  reloads :
      (c : ℕ)
      → n.place ≡ watching c
      → n.reload ≡ true
      → Own n (record n { place = closing c reload_asked; reload = false })

-- Where `runNode` goes on after a `Close`.
abbrev pub place_after : Reason → Place
place_after context_done = returned
place_after reload_asked = asleep

-- The `Close` of a controller returns, which may take any time, or never come: it waits for the server's.
pub data CloseReturns (n : Node) : Node → Type 0 where
  close_returns :
      (c : ℕ) (why : Reason)
      → n.place ≡ closing c why
      → CloseReturns n (record n { place = place_after why; controllers = closed c n.controllers })

-- A step: one of its own, the return of a `Close`, an end of the context, or a task's request for a reload.
pub data Step (n : Node) : Node → Type 0 where
  own : {m : Node} → Own n m → Step n m
  closed_by : {m : Node} → CloseReturns n m → Step n m
  cancel : Step n (record n { done = true })
  request : Step n (record n { reload = true })

pub data Reach : Node → Type 0 where
  start : Reach new_node
  next : {n m : Node} → Reach n → Step n m → Reach m
