-- ===== src/Main/Program.antt =====
-- main.go: `main`, with the goroutines of its nodes. What the flags say, what viper makes of the file and
-- what setting up the log does on the disk are parameters.
pub mod Leaves
mod Tests
use v2sudoku.Prelude.{◌≡◌, String, List, [], ◌∷◌, ◌++◌, Bool, true, false, map, if◌then◌else◌}
use v2sudoku.Text.{is_empty}
use v2sudoku.Conf.{
  Conf, LogConfig, NodeConfig, ConfigFile, new, Loaded, loaded, failed, load_from_path,
}
use v2sudoku.Main.{Node, Own, CloseReturns, new_node}

-- What setting up the log meets.
pub record LogHost : Type 0 where
  pub parses_level : String → Bool
  pub mkdir_succeeds : Bool
  pub open_succeeds : Bool

-- `setupLog`: whether it succeeds.
unfoldable pub setup_log : LogHost → LogConfig → Bool
setup_log host cfg =
    if host.parses_level cfg.level
    then (if is_empty cfg.output
        then true
        else if host.mkdir_succeeds
        then host.open_succeeds
        else false)
    else false

-- The nodes, whose context is one, and whether `main` has returned, which ends all of them.
pub record Program : Type 0 where
  pub nodes : List Node
  pub done : Bool
  pub over : Bool

pub data Exit : Type 0 where
  printed_version load_failed log_failed no_node : Exit

pub data Started : Type 0 where
  exits : Exit → Started
  runs : Program → Started

abbrev pub new_program : List NodeConfig → Program
new_program configs = record { nodes = map (λ c. new_node) configs; done = false; over = false }

abbrev with_nodes : List NodeConfig → Started
with_nodes [] = exits no_node
with_nodes (c ∷ cs) = runs (new_program (c ∷ cs))

abbrev with_config : LogHost → Loaded → Started
with_config host (failed e) = exits load_failed
with_config host (loaded cfg) =
    if setup_log host cfg.log_config then with_nodes cfg.node_configs else exits log_failed

-- `main`, to the start of its nodes.
unfoldable pub main_start : Bool → ConfigFile → LogHost → Started
unfolding setup_log
main_start show_version file host =
    if show_version then exits printed_version else with_config host (load_from_path new file)

abbrev pub end_context : Node → Node
end_context n = record n { done = true }

pub data Step (p : Program) : Program → Type 0 where
  node :
      (xs : List Node) (n : Node) {m : Node} (ys : List Node)
      → p.nodes ≡ xs ++ (n ∷ ys)
      → p.over ≡ false
      → Own n m
      → Step p (record p { nodes = xs ++ (m ∷ ys) })
  -- the `Close` of a controller returns
  node_closed :
      (xs : List Node) (n : Node) {m : Node} (ys : List Node)
      → p.nodes ≡ xs ++ (n ∷ ys)
      → p.over ≡ false
      → CloseReturns n m
      → Step p (record p { nodes = xs ++ (m ∷ ys) })
  -- a task of a controller asks for a reload
  asks :
      (xs : List Node) (n : Node) (ys : List Node)
      → p.nodes ≡ xs ++ (n ∷ ys)
      → p.over ≡ false
      → Step p (record p { nodes = xs ++ (record n { reload = true } ∷ ys) })
  -- a signal ends the context
  signals : p.over ≡ false → Step p (record p { nodes = map end_context p.nodes; done = true })
  returns : p.done ≡ true → Step p (record p { over = true })

-- The runs from a state.
pub data Run (p : Program) : Program → Type 0 where
  here : Run p p
  next : {q r : Program} → Run p q → Step q r → Run p r
