-- ===== src/Controller/Monitor/Sync.antt =====
-- internal/controller/controller.go: what `nodeInfoMonitor` keeps in step.
use v2sudoku.Prelude.{
  ℤ, ◌≡◌, ◌∙◌, refl, sym, subst, String, List, [], Bool, true, false, Option, none, some, ◌⊎◌, inl,
  inr, if◌then◌else◌, string_eq,
}
use v2sudoku.Panel.{NodeInfo, UserInfo}
use v2sudoku.Panel.Client.{NodeResult}
use v2sudoku.Panel.Users.{UserResult, get_user_alive}
use v2sudoku.Runtime.KeyStore.Derive.{Crypto}
use v2sudoku.Runtime.KeyStore.State.{Json}
use v2sudoku.Runtime.Embedded.{Engine, set_alive_list}
use v2sudoku.Runtime.Embedded.Roster.{by_uuid, update-users}
use v2sudoku.Runtime.Embedded.Ledger.{embedded_server}
use v2sudoku.Runtime.Server.{Server, Ledger}
use v2sudoku.Controller.Compare.{Comparison}
use v2sudoku.Controller.Snapshot.Cache.{clone_user_list_lem}
use v2sudoku.Controller.Monitor.{
  Controller, Replies, Codecs, is_same_list, save_current, save_current_panel_snapshot,
  after_update, take_users, take_alive, monitor_users, monitor_node, node_info_monitor,
}

-- A relation of the list of users, the server and the reload channel that every part of a run keeps is
-- kept by the run.
module _ (codecs : Codecs) (srv : Server) (R : List UserInfo → srv.State → Bool → Type 0)
    (alive_keeps : (list : List UserInfo) (s : srv.State) (b : Bool) (alive : List (ℤ × ℤ))
      → R list s b
      → R list (srv.set_alive alive s) b)
    (reload_keeps : (list : List UserInfo) (s : srv.State) (b : Bool) → R list s b → R list s true)
    (update_keeps : (list old added deleted modified : List UserInfo) (s : srv.State) (b : Bool)
      → R old s b
      → R list (srv.update added deleted modified (some list) s).1 b)
    (failure_keeps : (list old added deleted modified : List UserInfo) (s : srv.State) (b : Bool)
      → R old s b
      → R old (srv.update added deleted modified (some list) s).1 true) where
  abbrev Holds : Controller srv.State → Type 0
  Holds c = R c.user_list c.server c.reload

  save_current-Holds :
      (now : ℤ) (o : Option NodeInfo) (c : Controller srv.State)
      → Holds c
      → Holds (save_current codecs srv now o c)
  unfolding save_current
  save_current-Holds now none c h = h
  save_current-Holds now (some info) c h = h

  save-Holds :
      (now : ℤ) (c : Controller srv.State)
      → Holds c
      → Holds (save_current_panel_snapshot codecs srv now c)
  unfolding save_current_panel_snapshot
  save-Holds now c h = save_current-Holds now c.info c h

  after_update-Holds :
      (now : ℤ) (list added deleted modified : List UserInfo) (done : Bool)
      (c : Controller srv.State)
      → Holds c
      → Holds (
          after_update codecs srv now list done
            (record c { server = (srv.update added deleted modified (some list) c.server).1 }))
  unfolding after_update
  after_update-Holds now list added deleted modified false c h =
      failure_keeps list c.user_list added deleted modified c.server c.reload h
  after_update-Holds now list added deleted modified true c h = save-Holds now _ (
      subst (λ l. R l (srv.update added deleted modified (some list) c.server).1 c.reload)
        (sym (clone_user_list_lem list))
        (update_keeps list c.user_list added deleted modified c.server c.reload h))

  take_users-Holds :
      (now : ℤ) (list : List UserInfo) (changes : Comparison) (c : Controller srv.State)
      → Holds c
      → Holds (take_users codecs srv now list changes c)
  unfolding take_users
  take_users-Holds now list changes c h =
      if_Holds (is_same_list changes) _ _ (save-Holds now c h)
        (after_update-Holds now list changes.added changes.deleted changes.modified _ c h)
    where
      if_Holds :
          (b : Bool) (x y : Controller srv.State) → Holds x → Holds y → Holds (if b then x else y)
      if_Holds true x y hx hy = hx
      if_Holds false x y hx hy = hy

  take_alive-Holds :
      (now : ℤ) (r : UserResult) (o : Option (List (ℤ × ℤ))) (c : Controller srv.State)
      → Holds c
      → Holds (take_alive codecs srv now r o c).1
  unfolding take_alive
  take_alive-Holds now r none c h = h
  take_alive-Holds now (UserResult.user_error e) (some alive) c h = h
  take_alive-Holds now UserResult.no_users (some alive) c h =
      save-Holds now _ (alive_keeps c.user_list c.server c.reload alive h)
  take_alive-Holds now (UserResult.user_list list) (some alive) c h =
      take_users-Holds now list _ _ (alive_keeps c.user_list c.server c.reload alive h)

  monitor_users-Holds :
      (replies : Replies) (r : UserResult) (c : Controller srv.State)
      → Holds c
      → Holds (monitor_users codecs srv replies r c).1
  unfolding monitor_users
  monitor_users-Holds replies (UserResult.user_error e) c h = h
  monitor_users-Holds replies UserResult.no_users c h =
      take_alive-Holds replies.now UserResult.no_users
        (get_user_alive codecs.decode_alive replies.alive) c h
  monitor_users-Holds replies (UserResult.user_list list) c h =
      take_alive-Holds replies.now (UserResult.user_list list)
        (get_user_alive codecs.decode_alive replies.alive) c h

  monitor_node-Holds :
      (replies : Replies) (r : NodeResult) (c : Controller srv.State)
      → Holds c
      → Holds (monitor_node codecs srv replies r c).1
  unfolding monitor_node
  monitor_node-Holds replies (NodeResult.node_error e) c h = h
  monitor_node-Holds replies (NodeResult.node info) c h =
      reload_keeps c.user_list c.server c.reload h
  monitor_node-Holds replies NodeResult.unchanged c h = monitor_users-Holds replies _ _ h

  monitor-Holds :
      (replies : Replies) (c : Controller srv.State)
      → R c.user_list c.server c.reload
      → let c' = (node_info_monitor codecs srv replies c).1 in R c'.user_list c'.server c'.reload
  unfolding node_info_monitor
  monitor-Holds replies c h = monitor_node-Holds replies _ _ h

-- A run changes the users, but not what the server holds: it keeps the traffic of every user.
pub node_info_monitor-unreported :
    (codecs : Codecs) (srv : Server) {IsSound : srv.State → Type 0}
    {unreported : String → srv.State → ℤ × ℤ} (l : Ledger srv IsSound unreported)
    (replies : Replies) (c : Controller srv.State)
    → IsSound c.server
    → let s' = (node_info_monitor codecs srv replies c).1.server in
      IsSound s' × ((v : String) → unreported v s' ≡ unreported v c.server)
node_info_monitor-unreported codecs srv {IsSound} {unreported} l replies c sound =
    monitor-Holds codecs srv
      (λ list s b. IsSound s × ((v : String) → unreported v s ≡ unreported v c.server))
      (λ list s b alive h. let k = l.set_alive_keeps alive s h.0 in (k.0, λ v. k.1 v ∙ h.1 v))
      (λ list s b h. h)
      (λ list old added deleted modified s b h.
        let k = l.update_keeps added deleted modified (some list) s h.0 in
        (k.0, λ v. k.1 v ∙ h.1 v))
      (λ list old added deleted modified s b h.
        let k = l.update_keeps added deleted modified (some list) s h.0 in
        (k.0, λ v. k.1 v ∙ h.1 v))
      replies c (sound, λ v. refl)

-- With the embedded engine, a run of the monitor keeps the engine's users those of the controller's
-- list, by UUID, or it leaves a reload on its way; a reload that was on its way stays.
pub node_info_monitor-InSync :
    (codecs : Codecs) (crypto : Crypto) (json : Json) (replies : Replies) (c : Controller Engine)
    → (c.server.embedded.users ≡ by_uuid c.user_list []) ⊎ (c.reload ≡ true)
    → let c' = (node_info_monitor codecs (embedded_server crypto json) replies c).1 in
      (c'.server.embedded.users ≡ by_uuid c'.user_list []) ⊎ (c'.reload ≡ true)
unfolding set_alive_list
node_info_monitor-InSync codecs crypto json replies c same =
    monitor-Holds codecs (embedded_server crypto json)
      (λ list g b. (g.embedded.users ≡ by_uuid list []) ⊎ (b ≡ true)) (λ list g b alive h. h)
      (λ list g b h. inr refl)
      (λ list old added deleted modified g b h.
        inl (update-users crypto json added deleted modified list g))
      (λ list old added deleted modified g b h. inr refl) replies c same
