-- ===== src/Main/Program/Leaves.antt =====
-- main.go: `main` does not wait for its nodes.
use v2sudoku.Prelude.{
  append_assoc, suc, ◌≡◌, ◌≢◌, refl, length, Bool-cases, inl, inr, sym, ap, ◌∙◌, subst, List, [],
  ◌∷◌, ◌++◌, true, false, map, All,
}
use v2sudoku.Conf.{NodeConfig, ConfigFile, new, Loaded, loaded, failed, load_from_path}
use v2sudoku.Main.{Node, watching, starts, new_node}
use v2sudoku.Main.Program.{
  Program, runs, LogHost, setup_log, new_program, main_start, with_nodes, with_config, end_context,
  node, signals, returns, Run, here, next,
}

-- A node whose controller runs.
abbrev pub IsRunning : Node → Type 0
IsRunning n = n.controllers ≡ 0 ∷ []

abbrev started_node : Node
started_node = record new_node { place = watching 0; controllers = 0 ∷ []; next_controller = 1 }

abbrev fresh_nodes : List NodeConfig → List Node
fresh_nodes configs = map (λ c. new_node) configs

abbrev started_nodes : List NodeConfig → List Node
started_nodes configs = map (λ c. started_node) configs

abbrev at_nodes : List Node → Program
at_nodes nodes = record { nodes = nodes; done = false; over = false }

-- The nodes start, one after the other.
start_all :
    (configs : List NodeConfig) (xs : List Node) (p : Program)
    → Run p (at_nodes (xs ++ fresh_nodes configs))
    → Run p (at_nodes (xs ++ started_nodes configs))
start_all [] xs p r = r
start_all (c ∷ configs) xs p r =
    let one = next r (node xs new_node (fresh_nodes configs) refl refl (starts refl refl)) in
    subst (λ nodes. Run p (at_nodes nodes))
      (append_assoc xs (started_node ∷ []) (started_nodes configs))
      (start_all configs (xs ++ (started_node ∷ [])) p (
        subst (λ nodes. Run p (at_nodes nodes))
          (sym (append_assoc xs (started_node ∷ []) (fresh_nodes configs))) one))

started_nodes-IsRunning :
    (configs : List NodeConfig) → All IsRunning (map end_context (started_nodes configs))
started_nodes-IsRunning [] = tt
started_nodes-IsRunning (c ∷ configs) = (refl, started_nodes-IsRunning configs)

length-map : {A B : Type 0} (f : A → B) (xs : List A) → length (map f xs) ≡ length xs
length-map f [] = refl
length-map f (x ∷ xs) = ap suc (length-map f xs)

-- All nodes of a program run a controller when it is over.
abbrev pub Leaves : Program → Type 0
Leaves p =
    (q : Program) × Run p q
    × (q.over ≡ true)
    × All IsRunning q.nodes
    × (length q.nodes ≡ length p.nodes)

new_program-Leaves : (configs : List NodeConfig) → Leaves (new_program configs)
new_program-Leaves configs =
    let r = start_all configs [] (new_program configs) here in
    let lengths =
      length-map end_context (started_nodes configs)
      ∙ length-map (λ c. started_node) configs
      ∙ sym (length-map (λ c. new_node) configs) in
    (_, next (next r (signals refl)) (returns refl), refl, started_nodes-IsRunning configs, lengths)

nodes-Leaves :
    (configs : List NodeConfig) (p : Program)
    → with_nodes configs ≡ runs p
    → (p.nodes ≢ []) × Leaves p
nodes-Leaves [] p e = absurd (cc e)
nodes-Leaves (c ∷ cs) p e =
    let same : new_program (c ∷ cs) ≡ p = cc e in
    subst (λ q. (q.nodes ≢ []) × Leaves q) same
      ((λ none_left. absurd (cc none_left)), new_program-Leaves (c ∷ cs))

config-Leaves :
    (host : LogHost) (l : Loaded) (p : Program)
    → with_config host l ≡ runs p
    → (p.nodes ≢ []) × Leaves p
config-Leaves host (failed x) p e = absurd (cc e)
config-Leaves host (loaded cfg) p e = elim (Bool-cases (setup_log host cfg.log_config)) [
  | inl good ↦ nodes-Leaves cfg.node_configs p (simp good at e)
  | inr bad ↦ absurd (cc (simp bad at e))
]

-- Whenever `main` comes to run its nodes, there is at least one, and after an end of its context it can
-- return, which ends the program, while each of them still runs a controller that nothing has closed.
pub main_start-Leaves :
    (file : ConfigFile) (host : LogHost) (p : Program)
    → main_start false file host ≡ runs p
    → (p.nodes ≢ [])
      × ((q : Program) × Run p q
          × (q.over ≡ true)
          × All IsRunning q.nodes
          × (length q.nodes ≡ length p.nodes))
unfolding main_start
main_start-Leaves file host p e = config-Leaves host (load_from_path new file) p e
