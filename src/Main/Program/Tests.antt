-- ===== src/Main/Program/Tests.antt =====
-- Runs of main.go.
use v2sudoku.Prelude.{◌≡◌, ◌≢◌, refl, pos, List, [], ◌∷◌, true, false, some, length, All}
use v2sudoku.Conf.{
  NodeConfig, ConfigFile, decodes, new, normalize, fill_retry_counts, load_from_path,
}
use v2sudoku.Main.Program.{LogHost, Program, Run, new_program, main_start, setup_log}
use v2sudoku.Main.Program.Leaves.{IsRunning, main_start-Leaves}

abbrev two_nodes : List NodeConfig
two_nodes =
    record {
      api_host = "a";
      node_id = pos 1;
      key = "k";
      timeout = pos 0;
      retry_count = some (pos 2);
    }
    ∷ record {
      api_host = "b";
      node_id = pos 2;
      key = "k";
      timeout = pos 5;
      retry_count = some (pos 2);
    }
    ∷ []

abbrev file_one : ConfigFile
file_one = decodes (λ c. some (record c { node_configs = two_nodes }))

abbrev host_one : LogHost
host_one = record { parses_level = λ level. true; mkdir_succeeds = false; open_succeeds = false }

main_start-Leaves_example :
    ((new_program two_nodes).nodes ≢ [])
    × ((q : Program) × Run (new_program two_nodes) q
        × (q.over ≡ true)
        × All IsRunning q.nodes
        × (length q.nodes ≡ length (new_program two_nodes).nodes))
unfolding main_start setup_log load_from_path new normalize fill_retry_counts
main_start-Leaves_example = main_start-Leaves file_one host_one (new_program two_nodes) refl
