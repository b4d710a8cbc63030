-- ===== src/Runtime/Samples.antt =====
-- Concrete values for the runs of internal/runtime: a node, users, a configuration, and small
-- functions in the place of the cryptography and of `encoding/json`.
use v2sudoku.Prelude.{
  ℕ, pos, String, [], ◌∷◌, true, ◌&&◌, Option, none, some, ◌==◌, string_eq, if◌then◌else◌,
}
use v2sudoku.Conf.{RuntimeConfig}
use v2sudoku.Panel.{Any, NodeInfo, UserInfo, SudokuSettings, HttpMask}
use v2sudoku.Runtime.KeyStore.Derive.{Crypto}
use v2sudoku.Runtime.KeyStore.State.{Json, Users, FileState, Disk, ClientKeyStore}
use v2sudoku.Runtime.Counting.{Counters}
use v2sudoku.Runtime.Embedded.{Embedded, Engine}

-- 32 bytes in hexadecimal.
abbrev pub master_hex : String
master_hex = "0100000000000000000000000000000000000000000000000000000000000002"

abbrev pub mask : HttpMask
mask = record {
  disable = none;
  mode = "";
  tls = none;
  host = "";
  mask_host = "";
  path_root = "";
  multiplex = "";
}

abbrev pub settings : SudokuSettings
settings = record {
  master_public_key = "";
  master_private_key = master_hex;
  aead = "";
  aead_method = "";
  ascii = "";
  table_type = "";
  padding_min = pos 0;
  padding_max = pos 0;
  enable_pure_downlink = none;
  multiplex = "";
  fallback_address = "";
  suspicious_action = "";
  custom_table = "";
  custom_tables = [];
  http_mask = mask;
}

abbrev pub node_one : NodeInfo
node_one = record {
  id = pos 7;
  tag = "";
  protocol = "sudoku";
  host = "";
  listen_ip = "";
  port = Any.nil;
  server_port = pos 443;
  network = "";
  network_settings = "";
  encryption = "";
  encryption_settings = settings;
  base_config = record {
    push_interval = Any.nil;
    pull_interval = Any.nil;
    device_online_min_traffic = pos 0;
    node_report_min_traffic = pos 0;
  };
  push_interval = pos 60000000000;
  pull_interval = pos 60000000000;
}

abbrev pub ann : UserInfo
ann = record { id = pos 1; uuid = "a"; email = ""; speed_limit = pos 0; device_limit = pos 0 }

abbrev pub bob : UserInfo
bob = record { id = pos 2; uuid = "b"; email = ""; speed_limit = pos 0; device_limit = pos 0 }

abbrev pub auto_config : RuntimeConfig
auto_config = record {
  engine = "embedded";
  working_dir = "/w";
  sudoku_path = "/s";
  fallback_address = "127.0.0.1:80";
  client_key_source = "auto";
  client_key_seed = "";
  client_key_file = "/w/keys";
  max_client_key_file_users = pos 10;
}

-- Every draw gives the key "5a".
abbrev pub crypto_one : Crypto
crypto_one = record {
  Scalar = ℕ;
  sha256 = λ bs. bs;
  sha512 = λ bs. bs;
  parse_private_scalar = λ text. some 1;
  split_private_key = λ master draw. some "5a";
}

-- The map that `json_one` can write.
abbrev pub one_entry : Users
one_entry = ("1", "5a") ∷ []

abbrev pub marshal_one : Users → Option String
marshal_one [] = none
marshal_one ((k, v) ∷ []) = if k == "1" && v == "5a" then some "1:5a" else none
marshal_one ((k, v) ∷ (p ∷ m)) = none

abbrev pub json_one : Json
json_one = record {
  unmarshal = λ text. record { succeeds = true; users = some one_entry };
  marshal_indent = marshal_one;
}

abbrev pub good_disk : Disk
good_disk = record {
  key_file = FileState.missing;
  tmp_file = FileState.missing;
  mkdir_succeeds = true;
  write_succeeds = true;
  rename_succeeds = true;
  torn = FileState.missing;
}

abbrev pub store_one : ClientKeyStore
store_one = record { cfg = auto_config; users = some []; disk = good_disk; draws = 0 }

-- An engine with one user, whose counter holds traffic.
abbrev pub counters_one : Counters
counters_one = record {
  table = ("a", 0) ∷ [];
  cell = λ p. record { uid = pos 1; uuid = "a"; up = pos 500; down = pos 7 };
  next = 1;
}

abbrev pub embedded_one : Embedded
embedded_one = record {
  node = node_one;
  runtime = auto_config;
  users = ("a", ann) ∷ [];
  user_hash_to_uuid = ("5a", "a") ∷ [];
  counters = counters_one;
  online = ("a", record { seen_at = pos 5; ip = "1.2.3.4" }) ∷ [];
  alive_list = [];
}

abbrev pub engine_one : Engine
engine_one = record { embedded = embedded_one; store = store_one }
