-- ===== src/Controller/Start.antt =====
-- internal/controller/controller.go: `Start`, `newServer` and `Close`. How a server is made and started
-- is a parameter, so that they stand for both engines.
pub mod Agrees
mod Tests
use v2sudoku.Prelude.{
  ℤ, ℕ, String, List, [], ◌∷◌, Bool, true, false, Option, none, some, ◌==◌, string_eq,
  if◌then◌else◌, ◌⊎◌, inl, inr,
}
use v2sudoku.Conf.{RuntimeConfig, engine_name, engine_external}
use v2sudoku.Panel.{NodeInfo, UserInfo}
use v2sudoku.Panel.Client.{Client, NodeResult, get_node_info}
use v2sudoku.Panel.Users.{UserResult, get_user_list, get_user_alive}
use v2sudoku.Runtime.Embedded.{clone_alive_list}
use v2sudoku.Task
use v2sudoku.Task.{Task, new_task}
use v2sudoku.Controller.Snapshot.{
  PanelSnapshot, CacheDisk, SnapshotError, SnapshotResult, got, lacks, clone_user_list,
  fetch_panel_snapshot, startup_panel_snapshot,
}
use v2sudoku.Controller.Monitor.{Controller, Replies, Codecs}

-- A controller before its start: what its client and its cache have kept, and whether the reload channel,
-- which `runNode` made, holds an element.
pub record Fresh : Type 0 where
  pub client : Client
  pub user_etag : String
  pub reload : Bool
  pub disk : CacheDisk

-- A server is not made, or it is made and does not start.
pub data StartError : Type 0 where
  no_snapshot : SnapshotError → StartError
  -- `node.Tag` of a nil node
  nil_node : StartError
  not_made not_started : StartError

-- The controller and its two tasks, `nodeInfoMonitor` and `reportUserTrafficTask`.
pub record Running (S : Type 0) : Type 0 where
  pub controller : Controller S
  pub node_info_task : Task
  pub user_report_task : Task

pub data StartResult (S : Type 0) : Type 0 where
  runs : Running S → StartResult S
  fails : StartError → StartResult S

-- How a server is made, by `NewEmbedded` or `NewExternal`, and what its `Start` leaves if it succeeds.
pub record Maker (S : Type 0) : Type 0 where
  pub make : NodeInfo → List UserInfo → List (ℤ × ℤ) → Option S
  pub launch : S → Option S

-- `newServer`
unfoldable pub new_server : {E X : Type 0} → RuntimeConfig → Maker E → Maker X → Maker E ⊎ Maker X
new_server cfg embedded external =
    if engine_name cfg == engine_external then inr external else inl embedded

-- `startTasks`: the tasks start, and not with a first run at once.
abbrev pub start_tasks : {S : Type 0} → Controller S → Running S
start_tasks c = record {
  controller = c;
  node_info_task = Task.start false new_task;
  user_report_task = Task.start false new_task;
}

module _ (codecs : Codecs) where
  fetch_rest : Replies → NodeResult → Fresh → SnapshotResult × Fresh
  fetch_rest replies (NodeResult.node info) f =
      let (list, etag) =
        get_user_list codecs.msgpack codecs.json replies.users replies.content_type f.user_etag in
      (
        fetch_panel_snapshot (NodeResult.node info) list
            (get_user_alive codecs.decode_alive replies.alive),
        record f { user_etag = etag },
      )
  fetch_rest replies r f = (fetch_panel_snapshot r UserResult.no_users none, f)

  -- `fetchPanelSnapshot`, with its requests.
  unfoldable pub fetch : Replies → Fresh → SnapshotResult × Fresh
  unfolding fetch_rest
  fetch replies f =
      let (r, client) = get_node_info codecs.hash codecs.decode_node replies.node f.client in
      fetch_rest replies r (record f { client = client })

  module _ {S : Type 0} (maker : Maker S) where
    abbrev with_server : NodeInfo → List UserInfo → List (ℤ × ℤ) → Fresh → Option S → StartResult S
    with_server info users alive f none = fails not_started
    with_server info users alive f (some server) = runs (
        start_tasks (record {
          info = some info;
          user_list = users;
          alive_list = alive;
          server = server;
          client = f.client;
          user_etag = f.user_etag;
          reload = f.reload;
          disk = f.disk;
        }))

    abbrev with_made : NodeInfo → List UserInfo → List (ℤ × ℤ) → Fresh → Option S → StartResult S
    with_made info users alive f none = fails not_made
    with_made info users alive f (some server) =
        with_server info users alive f (maker.launch server)

    abbrev with_snapshot : Fresh → SnapshotResult → StartResult S
    with_snapshot f (lacks e) = fails (no_snapshot e)
    with_snapshot f (got s) = elim s.node [
      | none ↦ fails nil_node
      | some info ↦
          let users = clone_user_list s.users in
          let alive = clone_alive_list s.alive in
          with_made info users (clone_alive_list alive) f (maker.make info users alive)
    ]

    -- `Start`
    unfoldable pub controller_start : Replies → Fresh → StartResult S
    controller_start replies f =
        let (fetched, f') = fetch replies f in
        let (s, disk) =
          startup_panel_snapshot codecs.snapshots f'.client.node_id f'.client.api_host replies.now
            fetched f'.disk in
        with_snapshot (record f' { disk = disk }) s

-- `Close` of the controller: both tasks are closed, and the server by its own `Close`.
unfoldable pub controller_close : {S : Type 0} → (S → S) → Running S → Running S
controller_close close_server r = record {
  controller = record (r.controller) { server = close_server r.controller.server };
  node_info_task = Task.close r.node_info_task;
  user_report_task = Task.close r.user_report_task;
}
