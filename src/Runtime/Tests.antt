-- ===== src/Runtime/Tests.antt =====
-- A run of the building of a server's configuration (internal/runtime/config.go).
use v2sudoku.Prelude.{◌≡◌, refl, String, Option, some}
use v2sudoku.Text.Trim.{trim_space}
use v2sudoku.Runtime.Config.{SudokuConfig, built, draft, build_sudoku_config}
use v2sudoku.Runtime.Samples.{node_one, auto_config}

abbrev recover_one : String → Option String
recover_one private_key = some "p"

abbrev finalize_one : SudokuConfig → Option SudokuConfig
finalize_one sc = some sc

abbrev built_one : SudokuConfig
built_one = draft node_one auto_config "p"

built_run : build_sudoku_config recover_one finalize_one node_one auto_config ≡ built built_one
unfolding build_sudoku_config trim_space
built_run = refl
