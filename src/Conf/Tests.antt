-- ===== src/Conf/Tests.antt =====
-- A run of the loading of a configuration (internal/conf/conf.go).
use v2sudoku.Prelude.{[], ◌∷◌, none, some, pos}
use v2sudoku.Conf.{new, Conf}

abbrev read : Conf
read = record new {
  node_configs =
      (record { api_host = "h"; node_id = pos 1; key = "k"; timeout = pos 0; retry_count = none })
      ∷ [];
}

abbrev result : Conf
result = record new {
  node_configs =
      (record {
        api_host = "h";
        node_id = pos 1;
        key = "k";
        timeout = pos 0;
        retry_count = some (pos 1);
      })
      ∷ [];
}
