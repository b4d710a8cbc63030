-- ===== src/Controller/Snapshot/Cache.antt =====
-- internal/controller/controller.go: the file that keeps the last snapshot, and starting from it.
use v2sudoku.Prelude.{
  ℤ, pos, ◌≡◌, ◌∙◌, refl, ap, sym, String, List, [], ◌∷◌, true, false, ◌||◌, Option, none, some,
  ◌==◌, int_eq, string_eq, arith, Option-cases, Bool-cases, inl, inr, int_beq_iff, str_eq_iff,
}
use v2sudoku.Text.{is_empty}
use v2sudoku.Panel.{NodeInfo, UserInfo}
use v2sudoku.Panel.Node.{NormalizeError, normalize, normalize_again}
use v2sudoku.Runtime.KeyStore.State.{FileState}
use v2sudoku.Runtime.Embedded.{clone_alive_list}
use v2sudoku.Controller.Snapshot.{
  PanelSnapshot, SnapshotJson, CacheDisk, SnapshotError, got, lacks, clone_user_list, replace_cache,
  write_snapshot, to_save, save_normalized, save_node, save_panel_snapshot, read_panel_snapshot,
  from_normalized, check_snapshot, read_cache, startup_panel_snapshot, is_auth_error, from_cache,
}

pub clone_user_list_lem : (users : List UserInfo) → clone_user_list users ≡ users
unfolding clone_user_list
clone_user_list_lem [] = refl
clone_user_list_lem (u ∷ us) = ap (◌∷◌ u) (clone_user_list_lem us)

-- The disk that a save leaves that succeeds.
abbrev replaced_by : String → CacheDisk → CacheDisk
replaced_by body disk = record disk {
  tmp_file = FileState.missing;
  cache_file = FileState.holds body;
}

replace_cache-ok :
    (body : String) (disk : CacheDisk)
    → (replace_cache body disk).0 ≡ none
    → replace_cache body disk ≡ (none, replaced_by body disk)
unfolding replace_cache
replace_cache-ok body disk e = elim (Bool-cases disk.mkdir_succeeds) [
  | inr no_dir ↦ absurd (cc (simp no_dir at e))
  | inl dir ↦ elim (Bool-cases disk.write_succeeds) [
    | inr torn ↦ absurd (cc (simp (dir, torn) at e))
    | inl wrote ↦ elim (Bool-cases disk.rename_succeeds) [
      | inr stuck ↦ absurd (cc (simp (dir, wrote, stuck) at e))
      | inl renamed ↦ simp (dir, wrote, renamed) refl
    ]
  ]
]

replace_cache-kept :
    (body : String) (disk : CacheDisk) (e : SnapshotError)
    → (replace_cache body disk).0 ≡ some e
    → (replace_cache body disk).1.cache_file ≡ disk.cache_file
unfolding replace_cache
replace_cache-kept body disk x e = elim (Bool-cases disk.mkdir_succeeds) [
  | inr no_dir ↦ simp no_dir refl
  | inl dir ↦ elim (Bool-cases disk.write_succeeds) [
    | inr torn ↦ simp (dir, torn) refl
    | inl wrote ↦ elim (Bool-cases disk.rename_succeeds) [
      | inr stuck ↦ simp (dir, wrote, stuck) refl
      | inl renamed ↦ absurd (cc (simp (dir, wrote, renamed) at e))
    ]
  ]
]

module _ (json : SnapshotJson) (node_id : ℤ) (api_host : String) where
  -- What a save that succeeds has done.
  save_normalized-ok :
      (now : ℤ) (s : PanelSnapshot) (info : NodeInfo) (disk : CacheDisk)
      → (save_normalized json node_id api_host now s (none, info) disk).0 ≡ none
      → (body : String) × (json.marshal (to_save node_id api_host now info s) ≡ some body)
        × ((save_normalized json node_id api_host now s (none, info) disk).1
            ≡ (some info, replaced_by body disk))
  unfolding save_normalized write_snapshot
  save_normalized-ok now s info disk ok_ =
      elim (Option-cases (json.marshal (to_save node_id api_host now info s))) [
        | inl none_made ↦ absurd (cc (rw none_made at ok_))
        | inr (body, made) ↦
            let written = replace_cache-ok body disk (rw made at ok_) in
            (body, made, rw made (ap (λ x. (some info, x.1)) written))
      ]

  saved_as :
      (now : ℤ) (s : PanelSnapshot) (disk : CacheDisk) (info out : NodeInfo)
      → s.node ≡ some info
      → normalize node_id api_host info ≡ (none, out)
      → (save_panel_snapshot json node_id api_host now s disk).0 ≡ none
      → (body : String) × (json.marshal (to_save node_id api_host now out s) ≡ some body)
        × ((save_panel_snapshot json node_id api_host now s disk).1
            ≡ (some out, replaced_by body disk))
  unfolding save_panel_snapshot save_node
  saved_as now s disk info out there accepted ok_ =
      let same : save_panel_snapshot json node_id api_host now s disk
          ≡ save_normalized json node_id api_host now s (none, out) disk =
        ap (λ o. save_node json node_id api_host now s o disk) there
        ∙ ap (λ r. save_normalized json node_id api_host now s r disk) accepted in
      let (body, encoded, left) =
        save_normalized-ok now s out disk (ap (λ x. x.0) (sym same) ∙ ok_) in
      (body, encoded, ap (λ x. x.1) same ∙ left)

  own_host : (is_empty api_host || api_host == api_host) ≡ true
  own_host = ground (arith, str_eq_iff api_host api_host)

  own_node : (node_id == pos 0 || node_id == node_id) ≡ true
  own_node = ground (arith, int_beq_iff node_id node_id)

  check-to_save :
      (now : ℤ) (out : NodeInfo) (s : PanelSnapshot)
      → normalize node_id api_host out ≡ (none, out)
      → check_snapshot json node_id api_host (some (to_save node_id api_host now out s))
        ≡ got (record {
          api_host = api_host;
          node_id = node_id;
          node = some out;
          users = s.users;
          alive = clone_alive_list (clone_alive_list s.alive);
          saved_at = now;
        })
  unfolding check_snapshot from_normalized
  check-to_save now out s again = simp (own_host, own_node, again, clone_user_list_lem s.users) refl

  -- If `savePanelSnapshot` succeeds on a node that `Normalize` accepts, and decoding gives back what was
  -- encoded, then a later start whose fetch fails, but not for lack of authorization, starts with the
  -- snapshot that was saved: with its users, its devices and the node as `Normalize` left it.
  pub startup-save_panel_snapshot :
      (now later : ℤ) (s : PanelSnapshot) (disk : CacheDisk) (e : SnapshotError)
      (info out : NodeInfo)
      → s.node ≡ some info
      → normalize node_id api_host info ≡ (none, out)
      → ((body : String)
          → json.marshal (to_save node_id api_host now out s) ≡ some body
          → json.unmarshal body ≡ some (to_save node_id api_host now out s))
      → (save_panel_snapshot json node_id api_host now s disk).0 ≡ none
      → is_auth_error e ≡ false
      → let after = (save_panel_snapshot json node_id api_host now s disk).1 in
        startup_panel_snapshot json node_id api_host later (lacks e) after.1 ≡ (
          got (record {
            api_host = api_host;
            node_id = node_id;
            node = after.0;
            users = s.users;
            alive = clone_alive_list (clone_alive_list s.alive);
            saved_at = now;
          }),
          after.1,
        )
  unfolding startup_panel_snapshot save_panel_snapshot read_panel_snapshot read_cache from_cache
  startup-save_panel_snapshot now later s disk e info out there accepted decodes ok_ allowed =
      let h = saved_as now s disk info out there accepted ok_ in
      let read = decodes h.0 h.1 in
      rw
        (
          h.2,
          allowed,
          read,
          check-to_save now out s (normalize_again node_id api_host info out accepted),
        )
        refl

  save_normalized-kept :
      (now : ℤ) (s : PanelSnapshot) (r : Option NormalizeError × NodeInfo) (disk : CacheDisk)
      (e : SnapshotError)
      → (save_normalized json node_id api_host now s r disk).0 ≡ some e
      → (save_normalized json node_id api_host now s r disk).1.1.cache_file ≡ disk.cache_file
  unfolding save_normalized write_snapshot
  save_normalized-kept now s (some x, info) disk e failed = refl
  save_normalized-kept now s (none, info) disk e failed =
      elim (Option-cases (json.marshal (to_save node_id api_host now info s))) [
        | inl none_made ↦ rw none_made refl
        | inr (body, made) ↦ rw made (replace_cache-kept body disk e (rw made at failed))
      ]

  save_node-kept :
      (now : ℤ) (s : PanelSnapshot) (o : Option NodeInfo) (disk : CacheDisk) (e : SnapshotError)
      → (save_node json node_id api_host now s o disk).0 ≡ some e
      → (save_node json node_id api_host now s o disk).1.1.cache_file ≡ disk.cache_file
  unfolding save_node
  save_node-kept now s none disk e failed = refl
  save_node-kept now s (some info) disk e failed = save_normalized-kept now s _ disk e failed

  -- A save that fails, at whatever call, leaves the file of the cache as it was.
  pub save_panel_snapshot-kept :
      (now : ℤ) (s : PanelSnapshot) (disk : CacheDisk) (e : SnapshotError)
      → (save_panel_snapshot json node_id api_host now s disk).0 ≡ some e
      → (save_panel_snapshot json node_id api_host now s disk).1.1.cache_file ≡ disk.cache_file
  unfolding save_panel_snapshot
  save_panel_snapshot-kept now s disk e failed = save_node-kept now s s.node disk e failed
