-- ===== src/Controller/Monitor/Tests.antt =====
-- Runs of the monitor and of the cache (internal/controller/controller.go).
use v2sudoku.Controller.Samples.{
  servable_one, saved_one, snapshots_one, cache_one, ok_reply, same_reply, codecs_one,
}
use v2sudoku.Prelude.{◌≡◌, refl, pos, [], ◌∷◌, false, none, string_eq, int_eq}
use v2sudoku.Panel.Node.{normalize}
use v2sudoku.Panel.Client.{ended, get_node_info, check_response_status}
use v2sudoku.Panel.Users.{contains, get_user_list, get_user_alive}
use v2sudoku.Runtime.Samples.{ann, bob, crypto_one, json_one, engine_one}
use v2sudoku.Runtime.Embedded.{Engine, clone_alive_list}
use v2sudoku.Runtime.Embedded.Ledger.{embedded_server}
use v2sudoku.Controller.Snapshot.{
  got, lacks, empty_node_info, is_auth_error, clone_user_list, save_panel_snapshot,
  startup_panel_snapshot, replace_cache,
}
use v2sudoku.Controller.Snapshot.Cache.{startup-save_panel_snapshot}
use v2sudoku.Controller.Monitor.{Controller, Replies, node_info_monitor}
use v2sudoku.Controller.Monitor.Lost.{node_info_monitor-lost}

startup-save_panel_snapshot_example :
    let after = (save_panel_snapshot snapshots_one (pos 7) "h" (pos 3) saved_one cache_one).1 in
    startup_panel_snapshot snapshots_one (pos 7) "h" (pos 8) (lacks empty_node_info) after.1 ≡ (
      got (record {
        api_host = "h";
        node_id = pos 7;
        node = after.0;
        users = ann ∷ [];
        alive = [];
        saved_at = pos 3;
      }),
      after.1,
    )
unfolding save_panel_snapshot normalize replace_cache is_auth_error clone_user_list clone_alive_list
startup-save_panel_snapshot_example =
    startup-save_panel_snapshot snapshots_one (pos 7) "h" (pos 3) (pos 8) saved_one cache_one
      empty_node_info (normalize (pos 7) "h" servable_one).1 (normalize (pos 7) "h" servable_one).1
      refl refl (λ body e. refl) refl refl

abbrev controller_one : Controller Engine
controller_one = record {
  info = none;
  user_list = ann ∷ [];
  alive_list = [];
  server = engine_one;
  client = record { api_host = "h"; node_id = pos 7; node_etag = ""; response_body_hash = "" };
  user_etag = "";
  reload = false;
  disk = cache_one;
}

-- The node is unchanged, and the list of users is another one.
abbrev replies_one : Replies
replies_one = record {
  node = same_reply;
  users = ok_reply;
  content_type = "";
  alive = ok_reply;
  now = pos 9;
}

node_info_monitor-lost_example :
    let srv = embedded_server crypto_one json_one in
    let c1 =
      (node_info_monitor codecs_one srv (record replies_one { alive = ended }) controller_one).1 in
    let c2 = (node_info_monitor codecs_one srv (record replies_one { users = same_reply }) c1).1 in
    (c1 ≡ record controller_one { user_etag = "t" })
    × (c2.user_list ≡ ann ∷ [])
    × (c2.reload ≡ false)
unfolding get_node_info get_user_list get_user_alive contains check_response_status
node_info_monitor-lost_example =
    node_info_monitor-lost codecs_one (embedded_server crypto_one json_one)
      (record replies_one { alive = ended }) (record replies_one { users = same_reply })
      controller_one (bob ∷ []) "t" refl refl refl refl refl
