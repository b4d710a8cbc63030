-- ===== src/Conf.antt =====
-- internal/conf/conf.go: the configuration, its defaults and its normalisation. Reading the file is
-- viper's work, a parameter here.
pub mod Normalize
mod Tests
use v2sudoku.Prelude.{
  ℤ, pos, String, List, [], ◌∷◌, Option, none, some, Bool, true, false, ◌==◌, ◌≡◌, refl,
  if◌then◌else◌, leb_ℤ,
}
use v2sudoku.Text.{to_lower, is_empty}
use v2sudoku.Text.Trim.{trim_space}

abbrev pub default_node_retry_count : ℤ
default_node_retry_count = pos 1

abbrev pub default_node_timeout : ℤ
default_node_timeout = pos 15

abbrev pub engine_embedded : String
engine_embedded = "embedded"

abbrev pub engine_external : String
engine_external = "external"

abbrev pub default_client_key_source : String
default_client_key_source = "deterministic_split"

pub record LogConfig : Type 0 where
  pub level : String
  pub output : String

pub record NodeConfig : Type 0 where
  pub api_host : String
  pub node_id : ℤ
  pub key : String
  pub timeout : ℤ
  pub retry_count : Option ℤ

pub record RuntimeConfig : Type 0 where
  pub engine : String
  pub working_dir : String
  pub sudoku_path : String
  pub fallback_address : String
  pub client_key_source : String
  pub client_key_seed : String
  pub client_key_file : String
  pub max_client_key_file_users : ℤ

pub record Conf : Type 0 where
  pub log_config : LogConfig
  pub runtime_config : RuntimeConfig
  pub node_configs : List NodeConfig

-- `New`
unfoldable pub new : Conf
new = record {
  log_config = record { level = "info"; output = "" };
  runtime_config = record {
    engine = engine_embedded;
    working_dir = "/var/lib/v2sudoku";
    sudoku_path = "/opt/v2sudoku/sudoku";
    fallback_address = "127.0.0.1:80";
    client_key_source = default_client_key_source;
    client_key_seed = "";
    client_key_file = "/var/lib/v2sudoku/client-keys.json";
    max_client_key_file_users = pos 10000;
  };
  node_configs = [];
}

unfoldable pub engine_name : RuntimeConfig → String
engine_name c =
    let engine = trim_space (to_lower c.engine) in
    if is_empty engine then engine_embedded else engine

-- `if v == "" { v = d }`
abbrev pub or_default : String → String → String
or_default v d = if is_empty v then d else v

unfoldable pub normalize : RuntimeConfig → RuntimeConfig
normalize c = record {
  engine = or_default c.engine engine_embedded;
  working_dir = or_default c.working_dir "/var/lib/v2sudoku";
  sudoku_path = or_default c.sudoku_path "/opt/v2sudoku/sudoku";
  fallback_address = or_default c.fallback_address "127.0.0.1:80";
  client_key_source = or_default c.client_key_source default_client_key_source;
  client_key_seed = c.client_key_seed;
  client_key_file = or_default c.client_key_file "/var/lib/v2sudoku/client-keys.json";
  max_client_key_file_users =
      if leb_ℤ c.max_client_key_file_users (pos 0) then pos 10000 else c.max_client_key_file_users;
}

-- The loop of `LoadFromPath` over the nodes.
unfoldable pub fill_retry_counts : List NodeConfig → List NodeConfig
fill_retry_counts [] = []
fill_retry_counts (n ∷ ns) =
    (elim n.retry_count [
      | none ↦ record n { retry_count = some default_node_retry_count }
      | some r ↦ n
    ])
    ∷ fill_retry_counts ns

pub data LoadError : Type 0 where
  open_config read_config unmarshal_config : LoadError

-- What viper makes of the file: it cannot be opened, read or decoded, or it decodes over a value.
pub data ConfigFile : Type 0 where
  no_file : ConfigFile
  no_syntax : ConfigFile
  decodes : (Conf → Option Conf) → ConfigFile

pub data Loaded : Type 0 where
  loaded : Conf → Loaded
  failed : LoadError → Loaded

abbrev completed : Option Conf → Loaded
completed none = failed LoadError.unmarshal_config
completed (some c) = loaded (record c {
  runtime_config = normalize c.runtime_config;
  node_configs = fill_retry_counts c.node_configs;
})

-- `LoadFromPath`, by what the file holds.
unfoldable pub load_from_path : Conf → ConfigFile → Loaded
unfolding normalize fill_retry_counts
load_from_path c no_file = failed LoadError.open_config
load_from_path c no_syntax = failed LoadError.read_config
load_from_path c (decodes unmarshal) = completed (unmarshal c)
