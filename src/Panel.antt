-- ===== src/Panel.antt =====
-- internal/panel/client.go: the data that the panel serves and takes back.
pub mod Settings
pub mod Node
pub mod Client
pub mod Users
pub mod Request
mod Tests
use v2sudoku.Prelude.{ℤ, String, List, Option, Bool}

-- `any`, as far as `intervalToDuration` tells its values apart. A float is given by the integer
-- that it is truncated to, which is all that the source reads of it; `signed` is an integer of
-- another width, and `other` any further value.
pub data Any : Type 0 where
  nil : Any
  int : ℤ → Any
  int64 : ℤ → Any
  float64 : ℤ → Any
  str : String → Any
  signed : ℤ → Any
  other : Any

pub record BaseConfig : Type 0 where
  pub push_interval : Any
  pub pull_interval : Any
  pub device_online_min_traffic : ℤ
  pub node_report_min_traffic : ℤ

pub record HttpMask : Type 0 where
  pub disable : Option Bool
  pub mode : String
  pub tls : Option Bool
  pub host : String
  pub mask_host : String
  pub path_root : String
  pub multiplex : String

pub record SudokuSettings : Type 0 where
  pub master_public_key : String
  pub master_private_key : String
  pub aead : String
  pub aead_method : String
  pub ascii : String
  pub table_type : String
  pub padding_min : ℤ
  pub padding_max : ℤ
  pub enable_pure_downlink : Option Bool
  pub multiplex : String
  pub fallback_address : String
  pub suspicious_action : String
  pub custom_table : String
  pub custom_tables : List String
  pub http_mask : HttpMask

pub record NodeInfo : Type 0 where
  pub id : ℤ
  pub tag : String
  pub protocol : String
  pub host : String
  pub listen_ip : String
  pub port : Any
  pub server_port : ℤ
  pub network : String
  pub network_settings : String
  pub encryption : String
  pub encryption_settings : SudokuSettings
  pub base_config : BaseConfig
  -- durations, in nanoseconds
  pub push_interval : ℤ
  pub pull_interval : ℤ

pub record UserInfo : Type 0 where
  pub id : ℤ
  pub uuid : String
  pub email : String
  pub speed_limit : ℤ
  pub device_limit : ℤ

pub record UserTraffic : Type 0 where
  pub uid : ℤ
  pub upload : ℤ
  pub download : ℤ
  pub uuid : String

pub record OnlineUser : Type 0 where
  pub uid : ℤ
  pub ip : String
