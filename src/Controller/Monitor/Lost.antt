-- ===== src/Controller/Monitor/Lost.antt =====
-- internal/controller/controller.go: a list of users that `nodeInfoMonitor` fetches and drops.
use v2sudoku.Prelude.{
  ℤ, ◌≡◌, ◌∙◌, refl, ap, String, List, Bool, true, Option, none, some, string_eq,
}
use v2sudoku.Panel.{NodeInfo, UserInfo}
use v2sudoku.Panel.Client.{NodeResult, get_node_info}
use v2sudoku.Panel.Users.{UserResult, get_user_list, get_user_alive}
use v2sudoku.Runtime.Server.{Server}
use v2sudoku.Controller.Monitor.{
  Controller, Replies, Codecs, save_current, save_current_panel_snapshot, take_alive, monitor_users,
  monitor_node, node_info_monitor,
}

module _ (codecs : Codecs) (srv : Server) where
  -- A run in which the node is unchanged, by the list of users that is served.
  monitor_unchanged :
      (replies : Replies) (c : Controller srv.State) (r : UserResult) (tag : String)
      → get_node_info codecs.hash codecs.decode_node replies.node c.client
        ≡ (NodeResult.unchanged, c.client)
      → get_user_list codecs.msgpack codecs.json replies.users replies.content_type c.user_etag
        ≡ (r, tag)
      → node_info_monitor codecs srv replies c
        ≡ monitor_users codecs srv replies r (record c { user_etag = tag })
  unfolding node_info_monitor monitor_node
  monitor_unchanged replies c r tag node served =
      (λ i. monitor_node codecs srv replies (node i).0 (record c { client = (node i).1 }))
      ∙ (λ i. monitor_users codecs srv replies (served i).0 (record c { user_etag = (served i).1 }))

  abbrev watched : Controller srv.State → List UserInfo × Bool
  watched c = (c.user_list, c.reload)

  save_current-watched :
      (now : ℤ) (o : Option NodeInfo) (c : Controller srv.State)
      → watched (save_current codecs srv now o c) ≡ watched c
  unfolding save_current
  save_current-watched now none c = refl
  save_current-watched now (some info) c = refl

  no_users-watched :
      (now : ℤ) (o : Option (List (ℤ × ℤ))) (c : Controller srv.State)
      → watched (take_alive codecs srv now UserResult.no_users o c).1 ≡ watched c
  unfolding take_alive save_current_panel_snapshot
  no_users-watched now none c = refl
  no_users-watched now (some alive) c = save_current-watched now c.info _

  -- If the panel says that the node is unchanged and serves a list of users, and the context ends during
  -- the request that follows, then the run leaves the users as they were and asks for no reload, but it
  -- keeps the tag of the list. A later run to which the panel replies that node and list are unchanged
  -- leaves the users as they were too: the list that was served is lost.
  pub node_info_monitor-lost :
      (first second : Replies) (c : Controller srv.State) (list : List UserInfo) (tag : String)
      → get_node_info codecs.hash codecs.decode_node first.node c.client
        ≡ (NodeResult.unchanged, c.client)
      → get_user_list codecs.msgpack codecs.json first.users first.content_type c.user_etag
        ≡ (UserResult.user_list list, tag)
      → get_user_alive codecs.decode_alive first.alive ≡ none
      → get_node_info codecs.hash codecs.decode_node second.node c.client
        ≡ (NodeResult.unchanged, c.client)
      → get_user_list codecs.msgpack codecs.json second.users second.content_type tag
        ≡ (UserResult.no_users, tag)
      → let c1 = (node_info_monitor codecs srv first c).1 in
        let c2 = (node_info_monitor codecs srv second c1).1 in
        (c1 ≡ record c { user_etag = tag }) × (c2.user_list ≡ c.user_list) × (c2.reload ≡ c.reload)
  unfolding monitor_users take_alive
  node_info_monitor-lost first second c list tag node served ended_ node' same =
      let c1 : Controller srv.State = record c { user_etag = tag } in
      let run1 : node_info_monitor codecs srv first c ≡ (true, c1) =
        monitor_unchanged first c (UserResult.user_list list) tag node served
        ∙ ap (λ o. take_alive codecs srv first.now (UserResult.user_list list) o c1) ended_ in
      let run2 = monitor_unchanged second c1 UserResult.no_users tag node' same in
      let kept : watched (node_info_monitor codecs srv second c1).1 ≡ watched c =
        ap (λ x. watched x.1) run2
        ∙ no_users-watched second.now (get_user_alive codecs.decode_alive second.alive) c1 in
      (
        ap (λ x. x.1) run1,
        ap (λ x. (node_info_monitor codecs srv second x.1).1.user_list) run1 ∙ ap (λ x. x.0) kept,
        ap (λ x. (node_info_monitor codecs srv second x.1).1.reload) run1 ∙ ap (λ x. x.1) kept,
      )
