-- ===== src/Runtime/External/Samples.antt =====
-- Concrete values for the runs of internal/runtime/external.go.
use v2sudoku.Prelude.{pos, [], ◌∷◌, true, none, some}
use v2sudoku.Runtime.Samples.{ann, node_one, auto_config, crypto_one, json_one, store_one}
use v2sudoku.Runtime.External.{External, ExternalEngine, Host}
use v2sudoku.Runtime.External.Process.{Library}
use v2sudoku.Runtime.External.Ledger.{Pending}

abbrev pub library_one : Library
library_one = record {
  crypto = crypto_one;
  json = json_one;
  recover = λ private_key. some "p";
  finalize = λ sc. some sc;
  marshal = λ sc. some "{}";
  sha256_hex = λ text. "h";
}

abbrev pub pending_one : Pending
pending_one = ("a", record { uid = pos 1; uuid = "a"; upload = pos 500; download = pos 7 }) ∷ []

abbrev pub external_one : External
external_one = record {
  node = node_one;
  runtime = auto_config;
  users = ("a", ann) ∷ [];
  user_hash_to_uuid = ("5a", "a") ∷ [];
  pending = pending_one;
  online = [];
  alive_list = [];
  last_config_hash = "h";
  cmd = none;
}

abbrev pub host_one : Host
host_one = record {
  config_file = none;
  torn = none;
  mkdir_succeeds = true;
  write_succeeds = true;
  start_succeeds = true;
  next_process = 0;
  calls = [];
}

abbrev pub external_engine_one : ExternalEngine
external_engine_one = record { external = external_one; store = store_one; host = host_one }
