-- ===== src/Controller/Start/Tests.antt =====
-- A start of the controller (internal/controller/controller.go) and what follows.
use v2sudoku.Prelude.{
  ◌≡◌, ◌⊎◌, refl, pos, String, [], ◌∷◌, true, false, none, some, int_eq, string_eq, ◌==◌,
  if◌then◌else◌,
}
use v2sudoku.Text.{to_lower, lower_char}
use v2sudoku.Text.Trim.{trim_space}
use v2sudoku.Panel.Node.{normalize}
use v2sudoku.Panel.Client.{replied, get_node_info, check_response_status}
use v2sudoku.Panel.Users.{contains, get_user_list, get_user_alive}
use v2sudoku.Runtime.Samples.{
  bob, node_one, auto_config, crypto_one, json_one, store_one, engine_one,
}
use v2sudoku.Runtime.KeyStore.State.{load_file_locked}
use v2sudoku.Runtime.KeyStore.Build.{build_mappings, normalized_client_key_source, build_loop}
use v2sudoku.Runtime.Config.{build_sudoku_config}
use v2sudoku.Runtime.Embedded.{
  Engine, clone_alive_list, replace_users_locked, rebuild_user_hashes_locked, replaced,
}
use v2sudoku.Runtime.Embedded.New.{new_embedded}
use v2sudoku.Runtime.Embedded.Shape.{IsShaped}
use v2sudoku.Runtime.Embedded.Traffic.{traffic}
use v2sudoku.Runtime.Embedded.Roster.{by_uuid}
use v2sudoku.Runtime.Embedded.Ledger.{embedded_server}
use v2sudoku.Controller.Snapshot.{
  is_auth_error, clone_user_list, fetch_panel_snapshot, save_panel_snapshot, startup_panel_snapshot,
  replace_cache,
}
use v2sudoku.Task.{new_task}
use v2sudoku.Controller.Samples.{cache_one, ok_reply, same_reply, codecs_one}
use v2sudoku.Controller.Monitor.{Codecs, Replies}
use v2sudoku.Controller.Start.{
  Fresh, Maker, StartResult, Running, runs, fails, controller_start, fetch, fetch_rest,
}
use v2sudoku.Controller.Start.Agrees.{embedded_maker, controller_start-Agrees, monitor_all}

abbrev fresh_one : Fresh
fresh_one = record {
  client = record { api_host = "h"; node_id = pos 7; node_etag = ""; response_body_hash = "" };
  user_etag = "";
  reload = false;
  disk = cache_one;
}

-- A panel that sends the node, and a list of users.
abbrev start_codecs : Codecs
start_codecs = record codecs_one {
  decode_node = λ body. some node_one;
  json = λ body. some (some (if body == "c" then bob ∷ [] else []));
}

abbrev first_replies : Replies
first_replies = record {
  node = ok_reply;
  users = ok_reply;
  content_type = "";
  alive = ok_reply;
  now = pos 3;
}

-- Later the node is unchanged and there is another list.
abbrev later_replies : Replies
later_replies = record first_replies {
  node = same_reply;
  users = replied (record { status = pos 200; body = "c"; etag = "u" });
  now = pos 9;
}

abbrev maker_one : Maker Engine
maker_one =
    embedded_maker crypto_one json_one (λ key. some "p") (λ sc. some sc) (λ sc. true) true
      auto_config store_one

abbrev running_of : StartResult Engine → Running Engine
running_of (runs r) = r
running_of (fails x) = record {
  controller = record {
    info = none;
    user_list = [];
    alive_list = [];
    server = engine_one;
    client = fresh_one.client;
    user_etag = "";
    reload = false;
    disk = cache_one;
  };
  node_info_task = new_task;
  user_report_task = new_task;
}

abbrev started_one : StartResult Engine
started_one = controller_start start_codecs maker_one first_replies fresh_one

controller_start-Agrees_example :
    let c' =
      monitor_all start_codecs
        (embedded_server crypto_one json_one)
        (later_replies ∷ [])
        (running_of started_one).controller in
    IsShaped c'.server.embedded
    × ((v : String) → traffic v c'.server.embedded ≡ (pos 0, pos 0))
    × ((c'.server.embedded.users ≡ by_uuid c'.user_list []) ⊎ (c'.reload ≡ true))
unfolding controller_start fetch fetch_rest startup_panel_snapshot save_panel_snapshot normalize
    replace_cache is_auth_error clone_user_list clone_alive_list get_node_info check_response_status
    get_user_list get_user_alive contains new_embedded build_sudoku_config trim_space
    replace_users_locked rebuild_user_hashes_locked build_mappings normalized_client_key_source
    to_lower lower_char load_file_locked build_loop replaced fetch_panel_snapshot
controller_start-Agrees_example =
    controller_start-Agrees start_codecs crypto_one json_one (λ key. some "p") (λ sc. some sc)
      (λ sc. true) true auto_config store_one first_replies fresh_one (running_of started_one)
      (later_replies ∷ []) refl
