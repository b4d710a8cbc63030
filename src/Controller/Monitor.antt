-- ===== src/Controller/Monitor.antt =====
-- internal/controller/controller.go: `nodeInfoMonitor`, with any server. What the panel replies is a
-- parameter, and so are SHA-256 and the decoders.
pub mod Sync
pub mod Lost
mod Tests
use v2sudoku.Prelude.{
  ℤ, pos, String, List, [], ◌∷◌, Bool, true, false, ◌&&◌, not, Option, none, some, if◌then◌else◌,
}
use v2sudoku.Panel.{NodeInfo, UserInfo}
use v2sudoku.Panel.Client.{Client, PanelError, Reply, NodeResult, get_node_info}
use v2sudoku.Panel.Users.{Decoder, UserResult, get_user_list, get_user_alive}
use v2sudoku.Runtime.Embedded.{clone_alive_list}
use v2sudoku.Runtime.Server.{Server}
use v2sudoku.Controller.Compare.{Comparison, compare_user_list}
use v2sudoku.Controller.Snapshot.{
  PanelSnapshot, SnapshotJson, CacheDisk, clone_user_list, save_panel_snapshot,
}

-- The controller, with the parts of its client that requests write, whether its reload channel holds an
-- element, and the files of its cache.
pub record Controller (S : Type 0) : Type 0 where
  pub info : Option NodeInfo
  pub user_list : List UserInfo
  pub alive_list : List (ℤ × ℤ)
  pub server : S
  pub client : Client
  pub user_etag : String
  pub reload : Bool
  pub disk : CacheDisk

-- What the panel replies to the three requests, and the time.
pub record Replies : Type 0 where
  pub node : Reply
  pub users : Reply
  pub content_type : String
  pub alive : Reply
  pub now : ℤ

-- What the packages beside the panel's client do.
pub record Codecs : Type 0 where
  pub hash : String → String
  pub decode_node : String → Option NodeInfo
  pub msgpack : Decoder (List UserInfo)
  pub json : Decoder (List UserInfo)
  pub decode_alive : Decoder (List (ℤ × ℤ))
  pub snapshots : SnapshotJson

abbrev is_ended : PanelError → Bool
is_ended PanelError.canceled = true
is_ended _ = false

is_empty_list : List UserInfo → Bool
is_empty_list [] = true
is_empty_list (u ∷ us) = false

abbrev pub is_same_list : Comparison → Bool
unfolding is_empty_list
is_same_list changes =
    is_empty_list changes.added && (is_empty_list changes.deleted && is_empty_list changes.modified)

module _ (codecs : Codecs) (srv : Server) where
  -- A save that fails is only logged.
  abbrev saved : ℤ → Option NodeInfo → Controller srv.State → Option NodeInfo × CacheDisk
  saved now node c =
      (save_panel_snapshot codecs.snapshots c.client.node_id c.client.api_host now
        (record {
          api_host = "";
          node_id = pos 0;
          node = node;
          users = c.user_list;
          alive = c.alive_list;
          saved_at = pos 0;
        })
        c.disk).1

  -- `saveCurrentPanelSnapshot`
  save_current : ℤ → Option NodeInfo → Controller srv.State → Controller srv.State
  save_current now none c = c
  save_current now (some info) c =
      let (left, disk) = saved now (some info) c in record c { info = left; disk = disk }

  unfoldable pub save_current_panel_snapshot : ℤ → Controller srv.State → Controller srv.State
  unfolding save_current
  save_current_panel_snapshot now c = save_current now c.info c

  -- A send to the channel, which holds one element at most, is dropped if it would wait.
  abbrev pub trigger_reload : Controller srv.State → Controller srv.State
  trigger_reload c = record c { reload = true }

  -- After `UpdateUsers`: whether it succeeded, and the controller with the server that it left.
  after_update : ℤ → List UserInfo → Bool → Controller srv.State → Controller srv.State
  after_update now list false c = trigger_reload c
  after_update now list true c =
      save_current_panel_snapshot now (record c { user_list = clone_user_list list })

  take_users : ℤ → List UserInfo → Comparison → Controller srv.State → Controller srv.State
  unfolding after_update
  take_users now list changes c =
      if is_same_list changes
      then save_current_panel_snapshot now c
      else let (done, server) =
          srv.update changes.added changes.deleted changes.modified (some list) c.server in
        after_update now list done (record c { server = server })

  -- The result of a run: whether it is the error that the context ended, and the controller.
  take_alive :
      ℤ → UserResult → Option (List (ℤ × ℤ)) → Controller srv.State → Bool × Controller srv.State
  unfolding take_users
  take_alive now r none c = (true, c)
  take_alive now (UserResult.user_error e) (some alive) c = (is_ended e, c)
  take_alive now UserResult.no_users (some alive) c = (
    false,
    save_current_panel_snapshot now
        (record c { alive_list = clone_alive_list alive; server = srv.set_alive alive c.server }),
  )
  take_alive now (UserResult.user_list list) (some alive) c = (
    false,
    take_users now list (compare_user_list c.user_list list)
        (record c { alive_list = clone_alive_list alive; server = srv.set_alive alive c.server }),
  )

  monitor_users : Replies → UserResult → Controller srv.State → Bool × Controller srv.State
  unfolding take_alive
  monitor_users replies (UserResult.user_error e) c = (is_ended e, c)
  monitor_users replies r c =
      take_alive replies.now r (get_user_alive codecs.decode_alive replies.alive) c

  monitor_node : Replies → NodeResult → Controller srv.State → Bool × Controller srv.State
  unfolding monitor_users
  monitor_node replies (NodeResult.node_error e) c = (is_ended e, c)
  monitor_node replies (NodeResult.node info) c =
      (false, trigger_reload (record c { disk = (saved replies.now (some info) c).1 }))
  monitor_node replies NodeResult.unchanged c =
      let (r, etag) =
        get_user_list codecs.msgpack codecs.json replies.users replies.content_type c.user_etag in
      monitor_users replies r (record c { user_etag = etag })

  unfoldable pub node_info_monitor : Replies → Controller srv.State → Bool × Controller srv.State
  unfolding monitor_node
  node_info_monitor replies c =
      let (r, client) = get_node_info codecs.hash codecs.decode_node replies.node c.client in
      monitor_node replies r (record c { client = client })
