-- ===== src/Controller/Snapshot.antt =====
-- internal/controller/controller.go: what the panel serves as one snapshot, the file that keeps the last
-- one, and the snapshot that a node starts with. `encoding/json` is a parameter.
pub mod Cache
pub mod Node
use v2sudoku.Prelude.{
  ℤ, pos, String, List, [], ◌∷◌, Bool, true, false, ◌||◌, not, Option, none, some, ◌==◌, int_eq,
  string_eq, if◌then◌else◌,
}
use v2sudoku.Text.{is_empty}
use v2sudoku.Panel.{NodeInfo, UserInfo}
use v2sudoku.Panel.Node.{NormalizeError, normalize}
use v2sudoku.Panel.Client.{PanelError, NodeResult, is_auth_status_error}
use v2sudoku.Panel.Users.{UserResult}
use v2sudoku.Runtime.KeyStore.State.{FileState}
use v2sudoku.Runtime.Embedded.{clone_alive_list}

pub record PanelSnapshot : Type 0 where
  pub api_host : String
  pub node_id : ℤ
  pub node : Option NodeInfo
  pub users : List UserInfo
  pub alive : List (ℤ × ℤ)
  pub saved_at : ℤ

pub record SnapshotJson : Type 0 where
  pub marshal : PanelSnapshot → Option String
  pub unmarshal : String → Option PanelSnapshot

-- The files of the cache, and whether each call that changes them succeeds.
pub record CacheDisk : Type 0 where
  pub cache_file : FileState
  pub tmp_file : FileState
  pub mkdir_succeeds : Bool
  pub write_succeeds : Bool
  pub rename_succeeds : Bool
  pub torn : FileState

pub data SnapshotError : Type 0 where
  fetch_failed : PanelError → SnapshotError
  empty_node_info empty_user_list : SnapshotError
  empty_snapshot marshal_failed make_dir write_tmp_file rename_tmp_file : SnapshotError
  node_refused : NormalizeError → SnapshotError
  read_failed unmarshal_failed cached_node_empty other_host other_node : SnapshotError
  -- the error of the fetch, and why the cache is of no use
  unavailable : SnapshotError → SnapshotError → SnapshotError

pub data SnapshotResult : Type 0 where
  got : PanelSnapshot → SnapshotResult
  lacks : SnapshotError → SnapshotResult

unfoldable pub clone_user_list : List UserInfo → List UserInfo
clone_user_list [] = []
clone_user_list (user ∷ users) = user ∷ clone_user_list users

-- `fetchPanelSnapshot`, by the results of the three requests; a request is made if those before it
-- succeed. `none` is the only error of the last.
unfoldable pub fetch_panel_snapshot :
    NodeResult → UserResult → Option (List (ℤ × ℤ)) → SnapshotResult
fetch_panel_snapshot (NodeResult.node_error e) us alive = lacks (fetch_failed e)
fetch_panel_snapshot NodeResult.unchanged us alive = lacks empty_node_info
fetch_panel_snapshot (NodeResult.node info) (UserResult.user_error e) alive = lacks (fetch_failed e)
fetch_panel_snapshot (NodeResult.node info) UserResult.no_users alive = lacks empty_user_list
fetch_panel_snapshot (NodeResult.node info) (UserResult.user_list list) none =
    lacks (fetch_failed PanelError.canceled)
fetch_panel_snapshot (NodeResult.node info) (UserResult.user_list list) (some m) = got (record {
  api_host = "";
  node_id = pos 0;
  node = some info;
  users = clone_user_list list;
  alive = clone_alive_list m;
  saved_at = pos 0;
})

-- The end of `savePanelSnapshot`: the text is written beside the file, which it then replaces.
unfoldable pub replace_cache : String → CacheDisk → Option SnapshotError × CacheDisk
replace_cache body disk =
    if not disk.mkdir_succeeds
    then (some make_dir, disk)
    else if not disk.write_succeeds
    then (some write_tmp_file, record disk { tmp_file = disk.torn })
    else if not disk.rename_succeeds
    then (some rename_tmp_file, record disk { tmp_file = FileState.holds body })
    else (none, record disk { tmp_file = FileState.missing; cache_file = FileState.holds body })

-- `panel.IsAuthStatusError` of an error of a fetch
unfoldable pub is_auth_error : SnapshotError → Bool
is_auth_error (fetch_failed e) = is_auth_status_error e
is_auth_error _ = false

-- What is written for a snapshot whose node was accepted.
abbrev pub to_save : ℤ → String → ℤ → NodeInfo → PanelSnapshot → PanelSnapshot
to_save node_id api_host now info s = record {
  api_host = api_host;
  node_id = node_id;
  node = some info;
  users = clone_user_list s.users;
  alive = clone_alive_list s.alive;
  saved_at = now;
}

module _ (json : SnapshotJson) (node_id : ℤ) (api_host : String) where
  write_snapshot : Option String → CacheDisk → Option SnapshotError × CacheDisk
  write_snapshot none disk = (some marshal_failed, disk)
  write_snapshot (some body) disk = replace_cache body disk

  save_normalized :
      ℤ
      → PanelSnapshot
      → Option NormalizeError × NodeInfo
      → CacheDisk
      → Option SnapshotError × (Option NodeInfo × CacheDisk)
  unfolding write_snapshot
  save_normalized now s (some e, info) disk = (some (node_refused e), (some info, disk))
  save_normalized now s (none, info) disk =
      let (e, disk') = write_snapshot (json.marshal (to_save node_id api_host now info s)) disk in
      (e, (some info, disk'))

  save_node :
      ℤ
      → PanelSnapshot
      → Option NodeInfo
      → CacheDisk
      → Option SnapshotError × (Option NodeInfo × CacheDisk)
  unfolding save_normalized
  save_node now s none disk = (some empty_snapshot, (none, disk))
  save_node now s (some info) disk = save_normalized now s (normalize node_id api_host info) disk

  -- `savePanelSnapshot`: the error, if any, what it leaves of the node, which it normalizes in its
  -- place, and the disk.
  unfoldable pub save_panel_snapshot :
      ℤ → PanelSnapshot → CacheDisk → Option SnapshotError × (Option NodeInfo × CacheDisk)
  unfolding save_node
  save_panel_snapshot now s disk = save_node now s s.node disk

  from_normalized : PanelSnapshot → Option NormalizeError × NodeInfo → SnapshotResult
  from_normalized s (some e, info) = lacks (node_refused e)
  from_normalized s (none, info) = got (record s {
    node = some info;
    users = clone_user_list s.users;
    alive = clone_alive_list s.alive;
  })

  check_snapshot : Option PanelSnapshot → SnapshotResult
  unfolding from_normalized
  check_snapshot none = lacks unmarshal_failed
  check_snapshot (some s) = elim s.node [
    | none ↦ lacks cached_node_empty
    | some info ↦
        if not (is_empty s.api_host || s.api_host == api_host)
        then lacks other_host
        else if not (s.node_id == pos 0 || s.node_id == node_id)
        then lacks other_node
        else from_normalized s (normalize node_id api_host info)
  ]

  read_cache : FileState → SnapshotResult
  unfolding check_snapshot
  read_cache (FileState.holds body) = check_snapshot (json.unmarshal body)
  read_cache _ = lacks read_failed

  unfoldable pub read_panel_snapshot : CacheDisk → SnapshotResult
  unfolding read_cache
  read_panel_snapshot disk = read_cache disk.cache_file

  from_cache : SnapshotError → SnapshotResult → SnapshotResult
  from_cache e (got s) = got s
  from_cache e (lacks x) = lacks (unavailable e x)

  -- `startupPanelSnapshot`, by what was fetched. The node of a snapshot that was fetched is normalized
  -- in its place.
  unfoldable pub startup_panel_snapshot :
      ℤ → SnapshotResult → CacheDisk → SnapshotResult × CacheDisk
  unfolding is_auth_error from_cache
  startup_panel_snapshot now (got s) disk =
      let (e, (info, disk')) = save_panel_snapshot now s disk in
      (got (record s { node = info }), disk')
  startup_panel_snapshot now (lacks e) disk =
      ((if is_auth_error e then lacks e else from_cache e (read_panel_snapshot disk)), disk)
