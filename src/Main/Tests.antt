-- ===== src/Main/Tests.antt =====
-- Runs of a node (main.go).
use v2sudoku.Prelude.{ℕ, ◌≡◌, ◌≤◌, ◌⊎◌, refl, [], ◌∷◌, true}
use v2sudoku.Main.{
  Node, watching, closing, Reason, context_done, close_returns, returned, new_node, closed, Own,
  starts, closes, own, cancel, Reach, start, next,
}
use v2sudoku.Main.Controllers.{here, further, closed_then, OwnRun-returns}

abbrev watching_one : Node
watching_one = record new_node { place = watching 0; controllers = 0 ∷ []; next_controller = 1 }

Reach-watching_one : Reach watching_one
Reach-watching_one = next start (own (starts refl refl))

-- The context ends while a controller runs, and the controller is closed.
abbrev canceled_one : Node
canceled_one = record watching_one { done = true }

abbrev returned_one : Node
returned_one = record canceled_one { place = returned; controllers = closed 0 (0 ∷ []) }

OwnRun-returns_example :
    (2 ≤ 4)
    × (((returned_one.place ≡ returned) × (returned_one.controllers ≡ []))
        ⊎ ((c : ℕ) × (why : Reason) × (returned_one.place ≡ closing c why)
            × (returned_one.controllers ≡ c ∷ []))
        ⊎ ((o : Node) × Own returned_one o))
OwnRun-returns_example =
    OwnRun-returns canceled_one returned_one 2 (next Reach-watching_one cancel) refl
      (further (closes 0 refl refl) (closed_then (close_returns 0 context_done refl) here))
