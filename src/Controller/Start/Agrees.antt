-- ===== src/Controller/Start/Agrees.antt =====
-- internal/controller/controller.go: what a start establishes and runs of the monitor keep.
use v2sudoku.Prelude.{
  ℤ, pos, ◌≡◌, ◌≢◌, ◌∙◌, refl, ap, sym, subst, String, List, [], ◌∷◌, Bool, true, false, Option,
  none, some, ◌⊎◌, inl, inr, if◌then◌else◌, Option-cases,
}
use v2sudoku.Conf.{RuntimeConfig}
use v2sudoku.Panel.{NodeInfo, UserInfo}
use v2sudoku.Panel.Client.{NodeResult}
use v2sudoku.Panel.Users.{UserResult}
use v2sudoku.Runtime.KeyStore.Derive.{Crypto}
use v2sudoku.Runtime.KeyStore.State.{Json, ClientKeyStore}
use v2sudoku.Runtime.Config.{SudokuConfig}
use v2sudoku.Runtime.Embedded.{Engine, clone_alive_list}
use v2sudoku.Runtime.Embedded.Shape.{IsShaped}
use v2sudoku.Runtime.Embedded.Traffic.{traffic}
use v2sudoku.Runtime.Embedded.New.{
  Made, made, not_made as refused, new_embedded, new_embedded-IsShaped,
}
use v2sudoku.Runtime.Embedded.Roster.{by_uuid}
use v2sudoku.Runtime.Embedded.Ledger.{embedded_server, embedded-Ledger}
use v2sudoku.Runtime.Server.{Server}
use v2sudoku.Controller.Snapshot.{SnapshotResult, got, lacks, clone_user_list}
use v2sudoku.Controller.Snapshot.Node.{HasNode, fetch_panel_snapshot-HasNode, startup-HasNode}
use v2sudoku.Controller.Monitor.{Controller, Replies, Codecs, node_info_monitor}
use v2sudoku.Controller.Monitor.Sync.{node_info_monitor-InSync, node_info_monitor-unreported}
use v2sudoku.Controller.Start.{
  Fresh, Running, runs, fails, nil_node, Maker, start_tasks, fetch_rest, fetch, with_server,
  with_made, with_snapshot, controller_start,
}

-- Runs of the monitor, one after the other.
unfoldable pub monitor_all :
    Codecs → (srv : Server) → List Replies → Controller srv.State → Controller srv.State
monitor_all codecs srv [] c = c
monitor_all codecs srv (r ∷ rs) c = monitor_all codecs srv rs (node_info_monitor codecs srv r c).1

module _ (codecs : Codecs) where
  fetch_rest-HasNode :
      (replies : Replies) (r : NodeResult) (f : Fresh) → HasNode (fetch_rest codecs replies r f).0
  unfolding fetch_rest
  fetch_rest-HasNode replies (NodeResult.node info) f =
      fetch_panel_snapshot-HasNode (NodeResult.node info) _ _
  fetch_rest-HasNode replies NodeResult.unchanged f =
      fetch_panel_snapshot-HasNode NodeResult.unchanged UserResult.no_users none
  fetch_rest-HasNode replies (NodeResult.node_error e) f =
      fetch_panel_snapshot-HasNode (NodeResult.node_error e) UserResult.no_users none

  fetch-HasNode : (replies : Replies) (f : Fresh) → HasNode (fetch codecs replies f).0
  unfolding fetch
  fetch-HasNode replies f = fetch_rest-HasNode replies _ _

  module _ {S : Type 0} (maker : Maker S) where
    with_server-ne :
        (info : NodeInfo) (users : List UserInfo) (alive : List (ℤ × ℤ)) (f : Fresh) (o : Option S)
        → with_server codecs maker info users alive f o ≢ fails nil_node
    with_server-ne info users alive f none e = absurd (cc e)
    with_server-ne info users alive f (some server) e = absurd (cc e)

    with_made-ne :
        (info : NodeInfo) (users : List UserInfo) (alive : List (ℤ × ℤ)) (f : Fresh) (o : Option S)
        → with_made codecs maker info users alive f o ≢ fails nil_node
    with_made-ne info users alive f none e = absurd (cc e)
    with_made-ne info users alive f (some server) e =
        with_server-ne info users alive f (maker.launch server) e

    with_snapshot-ne :
        (f : Fresh) (s : SnapshotResult)
        → HasNode s
        → with_snapshot codecs maker f s ≢ fails nil_node
    with_snapshot-ne f (lacks x) h e = absurd (cc e)
    with_snapshot-ne f (got s) h e = elim (Option-cases s.node) [
      | inl missing ↦ absurd (h missing)
      | inr (info, there) ↦
          with_made-ne info (clone_user_list s.users) (clone_alive_list (clone_alive_list s.alive))
            f _ (simp there at e)
    ]

    -- `Start` never takes the tag of a nil node, whatever the panel replies and the cache holds.
    pub controller_start-nil_node :
        (replies : Replies) (f : Fresh) → controller_start codecs maker replies f ≢ fails nil_node
    unfolding controller_start
    controller_start-nil_node replies f =
        with_snapshot-ne _ _
          (startup-HasNode codecs.snapshots _ _ replies.now _ _ (fetch-HasNode replies f))

    -- How the server of a controller that runs was made.
    record Launched (r : Running S) : Type 0 where
      info : NodeInfo
      users : List UserInfo
      alive : List (ℤ × ℤ)
      server : S
      was_made : maker.make info users alive ≡ some server
      was_launched : maker.launch server ≡ some r.controller.server
      list : r.controller.user_list ≡ users

    server-Launched :
        (info : NodeInfo) (users : List UserInfo) (alive kept : List (ℤ × ℤ)) (f : Fresh)
        (server : S) (o : Option S) (r : Running S)
        → maker.make info users alive ≡ some server
        → maker.launch server ≡ o
        → with_server codecs maker info users kept f o ≡ runs r
        → Launched r
    server-Launched info users alive kept f server none r made_ launched e = absurd (cc e)
    server-Launched info users alive kept f server (some s') r made_ launched e =
        let same : start_tasks (record {
          info = some info;
          user_list = users;
          alive_list = kept;
          server = s';
          client = f.client;
          user_etag = f.user_etag;
          reload = f.reload;
          disk = f.disk;
        })
            ≡ r =
          cc e in
        subst Launched same (record {
          info = info;
          users = users;
          alive = alive;
          server = server;
          was_made = made_;
          was_launched = launched;
          list = refl;
        })

    made-Launched :
        (info : NodeInfo) (users : List UserInfo) (alive kept : List (ℤ × ℤ)) (f : Fresh)
        (o : Option S) (r : Running S)
        → maker.make info users alive ≡ o
        → with_made codecs maker info users kept f o ≡ runs r
        → Launched r
    made-Launched info users alive kept f none r made_ e = absurd (cc e)
    made-Launched info users alive kept f (some server) r made_ e =
        server-Launched info users alive kept f server (maker.launch server) r made_ refl e

    snapshot-Launched :
        (f : Fresh) (s : SnapshotResult) (r : Running S)
        → with_snapshot codecs maker f s ≡ runs r
        → Launched r
    snapshot-Launched f (lacks x) r e = absurd (cc e)
    snapshot-Launched f (got s) r e = elim (Option-cases s.node) [
      | inl missing ↦ absurd (cc (simp missing at e))
      | inr (info, there) ↦
          made-Launched info (clone_user_list s.users) (clone_alive_list s.alive)
            (clone_alive_list (clone_alive_list s.alive)) f _ r refl (simp there at e)
    ]

    start-Launched :
        (replies : Replies) (f : Fresh) (r : Running S)
        → controller_start codecs maker replies f ≡ runs r
        → Launched r
    unfolding controller_start
    start-Launched replies f r e = snapshot-Launched _ _ r e

-- `NewEmbedded` and its `Start`; whether the address can be listened on is a parameter.
abbrev pub engine_made : Made → Option Engine
engine_made (made g) = some g
engine_made (refused x s) = none

abbrev pub embedded_maker :
    Crypto
    → Json
    → (String → Option String)
    → (SudokuConfig → Option SudokuConfig)
    → (SudokuConfig → Bool)
    → Bool
    → RuntimeConfig
    → ClientKeyStore
    → Maker Engine
embedded_maker crypto json recover finalize build_tables listens cfg store = record {
  make = λ info users alive.
      engine_made
        (new_embedded crypto json recover finalize build_tables info users alive cfg store);
  launch = λ g. if listens then some g else none;
}

engine_made-some : (m : Made) (g : Engine) → engine_made m ≡ some g → m ≡ made g
engine_made-some (made h) g e = ap made (cc e)
engine_made-some (refused x s) g e = absurd (cc e)

launched_same : {A : Type 0} (b : Bool) (x y : A) → (if b then some x else none) ≡ some y → x ≡ y
launched_same true x y e = cc e
launched_same false x y e = absurd (cc e)

-- A well-formed engine without traffic that has the users of a list.
abbrev pub Agrees : List UserInfo → Engine → Bool → Type 0
Agrees users g reload =
    IsShaped g.embedded
    × ((v : String) → traffic v g.embedded ≡ (pos 0, pos 0))
    × ((g.embedded.users ≡ by_uuid users []) ⊎ (reload ≡ true))

monitor_all-Agrees :
    (codecs : Codecs) (crypto : Crypto) (json : Json) (rs : List Replies) (c : Controller Engine)
    → Agrees c.user_list c.server c.reload
    → let c' = monitor_all codecs (embedded_server crypto json) rs c in
      Agrees c'.user_list c'.server c'.reload
unfolding monitor_all
monitor_all-Agrees codecs crypto json [] c h = h
monitor_all-Agrees codecs crypto json (r ∷ rs) c (shaped, idle, same) =
    let srv = embedded_server crypto json in
    let c' : Controller Engine = (node_info_monitor codecs srv r c).1 in
    let (shaped', kept) =
      node_info_monitor-unreported codecs srv (embedded-Ledger crypto json) r c shaped in
    monitor_all-Agrees codecs crypto json rs c'
      (shaped', (λ v. kept v ∙ idle v), node_info_monitor-InSync codecs crypto json r c same)

-- A controller that has started with the embedded engine, and any runs of its monitor since, whatever the
-- panel replied: the engine is well formed, and its users are those of the controller's list, by UUID, or a
-- reload is on its way. As long as no connection has counted traffic, it holds none.
pub controller_start-Agrees :
    (codecs : Codecs) (crypto : Crypto) (json : Json) (recover : String → Option String)
    (finalize : SudokuConfig → Option SudokuConfig) (build_tables : SudokuConfig → Bool)
    (listens : Bool) (cfg : RuntimeConfig) (store : ClientKeyStore) (first : Replies) (f : Fresh)
    (r : Running Engine) (later : List Replies)
    → controller_start codecs
        (embedded_maker crypto json recover finalize build_tables listens cfg store)
        first
        f
      ≡ runs r
    → let c' = monitor_all codecs (embedded_server crypto json) later r.controller in
      IsShaped c'.server.embedded
      × ((v : String) → traffic v c'.server.embedded ≡ (pos 0, pos 0))
      × ((c'.server.embedded.users ≡ by_uuid c'.user_list []) ⊎ (c'.reload ≡ true))
controller_start-Agrees codecs crypto json recover finalize build_tables listens cfg store first f r
      later e =
    let maker = embedded_maker crypto json recover finalize build_tables listens cfg store in
    let l = start-Launched codecs maker first f r e in
    let (shaped, idle, users) =
      new_embedded-IsShaped crypto json recover finalize build_tables l.info l.users l.alive cfg
        store l.server (engine_made-some _ l.server l.was_made) in
    let same = launched_same listens l.server r.controller.server l.was_launched in
    let fresh : Agrees l.users l.server r.controller.reload = (shaped, idle, inl users) in
    monitor_all-Agrees codecs crypto json later r.controller (
      subst (λ us. Agrees us r.controller.server r.controller.reload) (sym l.list)
        (subst (λ g. Agrees l.users g r.controller.reload) same fresh))
