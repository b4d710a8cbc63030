-- ===== src/Controller/Snapshot/Node.antt =====
-- internal/controller/controller.go: a snapshot that a node starts with has its settings.
use v2sudoku.Prelude.{
  ℤ, pos, ◌≡◌, ◌≢◌, ◌∙◌, refl, sym, String, List, Bool, true, false, ◌||◌, not, Option, none, some,
  if◌then◌else◌, ◌==◌, int_eq, string_eq,
}
use v2sudoku.Text.{is_empty}
use v2sudoku.Panel.{NodeInfo}
use v2sudoku.Panel.Node.{NormalizeError, normalize}
use v2sudoku.Panel.Client.{NodeResult}
use v2sudoku.Panel.Users.{UserResult}
use v2sudoku.Runtime.KeyStore.State.{FileState}
use v2sudoku.Controller.Snapshot.{
  PanelSnapshot, SnapshotJson, CacheDisk, SnapshotError, SnapshotResult, got, lacks,
  fetch_panel_snapshot, save_normalized, save_node, save_panel_snapshot, from_normalized,
  check_snapshot, read_cache, read_panel_snapshot, from_cache, is_auth_error,
  startup_panel_snapshot,
}

abbrev pub HasNode : SnapshotResult → Type 0
HasNode (lacks e) = Unit
HasNode (got s) = s.node ≢ none

some-none : {A : Type 0} {x : A} → some x ≢ none
some-none e = cc e

pub fetch_panel_snapshot-HasNode :
    (r : NodeResult) (u : UserResult) (alive : Option (List (ℤ × ℤ)))
    → HasNode (fetch_panel_snapshot r u alive)
unfolding fetch_panel_snapshot
fetch_panel_snapshot-HasNode (NodeResult.node_error e) u alive = tt
fetch_panel_snapshot-HasNode NodeResult.unchanged u alive = tt
fetch_panel_snapshot-HasNode (NodeResult.node info) (UserResult.user_error e) alive = tt
fetch_panel_snapshot-HasNode (NodeResult.node info) UserResult.no_users alive = tt
fetch_panel_snapshot-HasNode (NodeResult.node info) (UserResult.user_list list) none = tt
fetch_panel_snapshot-HasNode (NodeResult.node info) (UserResult.user_list list) (some m) = some-none

module _ (json : SnapshotJson) (node_id : ℤ) (api_host : String) where
  save_normalized-some :
      (now : ℤ) (s : PanelSnapshot) (r : Option NormalizeError × NodeInfo) (disk : CacheDisk)
      → (save_normalized json node_id api_host now s r disk).1.0 ≡ some r.1
  unfolding save_normalized
  save_normalized-some now s (some e, info) disk = refl
  save_normalized-some now s (none, info) disk = refl

  save_node-some :
      (now : ℤ) (s : PanelSnapshot) (o : Option NodeInfo) (disk : CacheDisk)
      → o ≢ none
      → (save_node json node_id api_host now s o disk).1.0 ≢ none
  unfolding save_node
  save_node-some now s none disk h e = h refl
  save_node-some now s (some info) disk h e =
      some-none (sym (save_normalized-some now s (normalize node_id api_host info) disk) ∙ e)

  from_normalized-HasNode :
      (s : PanelSnapshot) (r : Option NormalizeError × NodeInfo)
      → HasNode (from_normalized json node_id api_host s r)
  unfolding from_normalized
  from_normalized-HasNode s (some e, info) = tt
  from_normalized-HasNode s (none, info) = some-none

  if_HasNode :
      (b : Bool) (x y : SnapshotResult) → HasNode x → HasNode y → HasNode (if b then x else y)
  if_HasNode true x y hx hy = hx
  if_HasNode false x y hx hy = hy

  check_snapshot-HasNode :
      (o : Option PanelSnapshot) → HasNode (check_snapshot json node_id api_host o)
  unfolding check_snapshot
  check_snapshot-HasNode none = tt
  check_snapshot-HasNode (some s) =
      elim s.node
        as (λ n.
          let checked : SnapshotResult = elim n [
            | none ↦ lacks SnapshotError.cached_node_empty
            | some info ↦
                if not (is_empty s.api_host || s.api_host == api_host)
                then lacks SnapshotError.other_host
                else if not (s.node_id == pos 0 || s.node_id == node_id)
                then lacks SnapshotError.other_node
                else from_normalized json node_id api_host s (normalize node_id api_host info)
          ] in
          HasNode checked) [
            | none ↦ tt
            | some info ↦ if_HasNode (not (is_empty s.api_host || s.api_host == api_host)) _ _ tt (
                if_HasNode (not (s.node_id == pos 0 || s.node_id == node_id)) _ _ tt
                  (from_normalized-HasNode s (normalize node_id api_host info)))
          ]

  read_cache-HasNode : (file : FileState) → HasNode (read_cache json node_id api_host file)
  unfolding read_cache
  read_cache-HasNode FileState.missing = tt
  read_cache-HasNode FileState.unreadable = tt
  read_cache-HasNode (FileState.holds body) = check_snapshot-HasNode (json.unmarshal body)

  from_cache-HasNode :
      (e : SnapshotError) (r : SnapshotResult)
      → HasNode r
      → HasNode (from_cache json node_id api_host e r)
  unfolding from_cache
  from_cache-HasNode e (got s) h = h
  from_cache-HasNode e (lacks x) h = tt

  pub startup-HasNode :
      (now : ℤ) (fetched : SnapshotResult) (disk : CacheDisk)
      → HasNode fetched
      → HasNode (startup_panel_snapshot json node_id api_host now fetched disk).0
  unfolding startup_panel_snapshot save_panel_snapshot read_panel_snapshot
  startup-HasNode now (got s) disk h = save_node-some now s s.node disk h
  startup-HasNode now (lacks e) disk h =
      if_HasNode (is_auth_error e) _ _ tt
        (from_cache-HasNode e _ (read_cache-HasNode disk.cache_file))
