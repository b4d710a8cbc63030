-- ===== src/Runtime/External.antt =====
-- internal/runtime/external.go: the engine that runs the sudoku server as a process of its own. The
-- store of keys and the machine that it runs on are passed along. Every operation holds the engine's
-- mutex, so it is one function; what happens beside it is in External/Stop.
pub mod Process
pub mod Ledger
pub mod Confirm
pub mod Served
pub mod Events
pub mod Samples
pub mod Stop
mod Tests
use v2sudoku.Prelude.{
  ℕ, suc, ℤ, pos, negsuc, String, List, [], ◌∷◌, ◌++◌ as append, Bool, true, false, ◌&&◌, Option,
  none, some, ◌==◌, string_eq, int_eq, if◌then◌else◌, leb_ℤ, ltb_ℤ, add64, sort_by,
}
use v2sudoku.Dict.{lookup, insert, delete}
use v2sudoku.Text.{is_empty, ◌+s+◌}
use v2sudoku.Text.Decimal.{itoa}
use v2sudoku.Conf.{RuntimeConfig}
use v2sudoku.Panel.{NodeInfo, UserInfo, UserTraffic, OnlineUser}
use v2sudoku.Runtime.KeyStore.Derive.{Crypto, KeyError, Result, ok, err}
use v2sudoku.Runtime.KeyStore.State.{Json, ClientKeyStore}
use v2sudoku.Runtime.KeyStore.Build.{UserKey, build_mappings}
use v2sudoku.Runtime.Counting.{settle}
use v2sudoku.Runtime.Config.{SudokuConfig, ConfigError, Built, built, bad, build_sudoku_config}
use v2sudoku.Runtime.Embedded.{
  OnlineState, clone_alive_list, values, cutoff_of, drop_stale, threshold_of, uuid_by_uid_locked,
}

pub record PendingTraffic : Type 0 where
  pub uid : ℤ
  pub uuid : String
  pub upload : ℤ
  pub download : ℤ

pub record External : Type 0 where
  pub node : NodeInfo
  pub runtime : RuntimeConfig
  pub users : List (String × UserInfo)
  pub user_hash_to_uuid : List (String × String)
  pub pending : List (String × PendingTraffic)
  pub online : List (String × OnlineState)
  pub alive_list : List (ℤ × ℤ)
  pub last_config_hash : String
  -- the process that `cmd` runs; `none` for nil
  pub cmd : Option ℕ

-- The machine: the configuration file, whether each call succeeds, and what was done to processes, the
-- last call first.
pub data ProcessCall : Type 0 where
  started terminated killed : ℕ → ProcessCall

pub record Host : Type 0 where
  pub config_file : Option String
  -- what a write that fails leaves of the file
  pub torn : Option String
  pub mkdir_succeeds : Bool
  pub write_succeeds : Bool
  pub start_succeeds : Bool
  pub next_process : ℕ
  pub calls : List ProcessCall

pub record ExternalEngine : Type 0 where
  pub external : External
  pub store : ClientKeyStore
  pub host : Host

pub data ExternalError : Type 0 where
  keys_failed : KeyError → ExternalError
  config_failed : ConfigError → ExternalError
  marshal_failed make_work_dir write_config start_process : ExternalError

-- The error, if any, and what the call leaves.
abbrev pub Outcome : Type 0
Outcome = Option ExternalError × ExternalEngine

abbrev pub and_then : Outcome → (ExternalEngine → Outcome) → Outcome
and_then (some e, g) f = (some e, g)
and_then (none, g) f = f g

abbrev pub no_traffic : PendingTraffic
no_traffic = record { uid = pos 0; uuid = ""; upload = pos 0; download = pos 0 }

-- `e.pending[uuid]`: the zero value if there is none.
abbrev pub pending_at : String → List (String × PendingTraffic) → PendingTraffic
pending_at uuid m = elim (lookup uuid m) [ none ↦ no_traffic | some d ↦ d ]

unfoldable pub traffic_row : ℤ → PendingTraffic → List UserTraffic
traffic_row threshold delta =
    if leb_ℤ (add64 delta.upload delta.download) threshold
    then []
    else (record {
      uid = delta.uid;
      uuid = delta.uuid;
      upload = delta.upload;
      download = delta.download;
    })
      ∷ []

unfoldable pub traffic_rows : ℤ → List (String × PendingTraffic) → List UserTraffic
traffic_rows threshold [] = []
traffic_rows threshold ((uuid, delta) ∷ rest) =
    append (traffic_row threshold delta) (traffic_rows threshold rest)

unfoldable pub get_user_traffic_slice : ℤ → External → List UserTraffic
get_user_traffic_slice report_min e =
    sort_by (λ r. r.uid) (traffic_rows (threshold_of report_min) e.pending)

-- One round of the loop of `ConfirmUserTraffic`, with the UUID found.
unfoldable pub confirm_delta :
    String → UserTraffic → List (String × PendingTraffic) → List (String × PendingTraffic)
confirm_delta uuid t m =
    let delta : PendingTraffic = pending_at uuid m in
    let up = settle t.upload delta.upload in
    let down = settle t.download delta.download in
    if up == pos 0 && down == pos 0
    then delete uuid m
    else insert uuid (record delta { upload = up; download = down }) m

unfoldable pub confirm_row : UserTraffic → External → External
confirm_row t e =
    let uuid = if is_empty t.uuid then uuid_by_uid_locked t.uid e.users else t.uuid in
    record e { pending = confirm_delta uuid t e.pending }

unfoldable pub confirm_user_traffic : List UserTraffic → External → External
confirm_user_traffic [] e = e
confirm_user_traffic (t ∷ ts) e = confirm_user_traffic ts (confirm_row t e)

-- `user := e.users[uuid]`: a missing user has ID 0, and is passed over.
unfoldable pub online_row : External → String → OnlineState → List OnlineUser
online_row e uuid state = elim (lookup uuid e.users) [
  | none ↦ []
  | some user ↦
      if user.id == pos 0
      then []
      else (record {
        uid = user.id;
        ip = if is_empty state.ip then "unknown_" +s+ itoa e.node.id else state.ip;
      })
        ∷ []
]

unfoldable pub online_rows : ℤ → External → List (String × OnlineState) → List OnlineUser
online_rows cutoff e [] = []
online_rows cutoff e ((uuid, state) ∷ rest) =
    append (if ltb_ℤ state.seen_at cutoff then [] else online_row e uuid state)
      (online_rows cutoff e rest)

unfoldable pub get_online_device : ℤ → External → List OnlineUser × External
get_online_device now e =
    let cutoff = cutoff_of now e.node.push_interval in
    (online_rows cutoff e e.online, record e { online = drop_stale cutoff e.online })

pub set_alive_list : List (ℤ × ℤ) → External → External
set_alive_list alive e = record e { alive_list = clone_alive_list alive }

-- The event of `ImportEventLine`, once its line is decoded.
pub record Event : Type 0 where
  pub kind : String
  pub user_hash : String
  pub ip : String
  pub upload : ℤ
  pub download : ℤ

-- `switch event.Type`
unfoldable pub apply_event : Event → String → UserInfo → ℤ → External → External
apply_event event uuid user now e =
    if event.kind == "open"
    then record e { online = insert uuid (record { seen_at = now; ip = event.ip }) e.online }
    else if event.kind == "close"
    then record e { online = delete uuid e.online }
    else if event.kind == "traffic"
    then record e {
      pending =
          insert uuid
            (record {
              uid = user.id;
              uuid = uuid;
              upload = add64 (pending_at uuid e.pending).upload event.upload;
              download = add64 (pending_at uuid e.pending).download event.download;
            })
            e.pending;
    }
    else e

unfoldable pub import_event : Event → ℤ → External → External
import_event event now e = elim (lookup event.user_hash e.user_hash_to_uuid) [
  | none ↦ e
  | some uuid ↦ if is_empty uuid then e else elim (lookup uuid e.users) [
    | none ↦ e
    | some user ↦ if user.id == pos 0 then e else apply_event event uuid user now e
  ]
]

-- `ImportEventLine`: `none` is a line that is no event.
unfoldable pub import_event_line : Option Event → ℤ → External → Bool × External
import_event_line none now e = (false, e)
import_event_line (some event) now e = (true, import_event event now e)
