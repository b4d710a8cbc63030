-- ===== src/Runtime/External/Process/Restart.antt =====
-- internal/runtime/external.go: when the process of the external engine is started and stopped.
use v2sudoku.Prelude.{
  ℕ, ◌≡◌, refl, sym, ◌∙◌, ap, String, List, [], ◌∷◌, true, Option, none, some, ◌==◌, string_eq,
  str_eq_iff, Bool-cases, Option-cases, inl, inr, ◌⊎◌,
}
use v2sudoku.Text.{is_empty, ◌+s+◌}
use v2sudoku.Conf.{RuntimeConfig}
use v2sudoku.Panel.{UserInfo, NodeInfo}
use v2sudoku.Runtime.KeyStore.Derive.{Result, KeyError, ok, err}
use v2sudoku.Runtime.KeyStore.Build.{build_mappings}
use v2sudoku.Runtime.Embedded.{values, each}
use v2sudoku.Runtime.External.{External, Host, ExternalEngine, Outcome, and_then}
use v2sudoku.Runtime.External.Process.{
  Library, config_json, start_locked, stop_locked, restart_locked, apply_config_locked, start,
  update_users, rebuild_user_hashes_locked, replace_users_locked, refilled, patched, rebuilt,
  with_body, written, rerun, write_config, put_user, delete_user,
}

result-cases : {A : Type 0} (r : Result A) → ((a : A) × (r ≡ ok a)) ⊎ ((x : KeyError) × (r ≡ err x))
result-cases (ok a) = inl (a, refl)
result-cases (err x) = inr (x, refl)

-- A running process has the configuration of the engine: the hash that was kept is that of the text
-- that the engine's node and settings give.
pub record RunsConfig (lib : Library) (g : ExternalEngine) : Type 0 where
  pub body : String
  pub encoded : (config_json lib g.external.node g.external.runtime).1 ≡ some body
  pub hash : lib.sha256_hex body ≡ g.external.last_config_hash

-- The parts of the engine that its process depends on, and the machine.
abbrev pub settings : External → NodeInfo × RuntimeConfig × String × Option ℕ
settings e = (e.node, e.runtime, e.last_config_hash, e.cmd)

abbrev pub frame : ExternalEngine → (NodeInfo × RuntimeConfig × String × Option ℕ) × Host
frame g = (settings g.external, g.host)

-- What the text of the configuration depends on, and the hash that was kept.
abbrev identity : ExternalEngine → NodeInfo × RuntimeConfig × String
identity g = (g.external.node, g.external.runtime, g.external.last_config_hash)

settings-each :
    (f : UserInfo → External → External)
    → ((u : UserInfo) (e : External) → settings (f u e) ≡ settings e)
    → (us : List UserInfo) (e : External) → settings (each f us e) ≡ settings e
settings-each f keep [] e = refl
settings-each f keep (u ∷ us) e = settings-each f keep us (f u e) ∙ keep u e

settings-put_user : (u : UserInfo) (e : External) → settings (put_user u e) ≡ settings e
unfolding put_user
settings-put_user u e = elim (Bool-cases (is_empty u.uuid)) [
  | inl blank ↦ rw blank refl
  | inr filled ↦ rw filled refl
]

settings-delete_user : (u : UserInfo) (e : External) → settings (delete_user u e) ≡ settings e
unfolding delete_user
settings-delete_user u e = refl

settings-refilled :
    (users : List UserInfo) (e : External) → settings (refilled users e) ≡ settings e
unfolding refilled
settings-refilled users e = settings-each put_user settings-put_user users (record e { users = [] })

settings-patched :
    (added deleted modified : List UserInfo) (e : External)
    → settings (patched added deleted modified e) ≡ settings e
unfolding patched
settings-patched added deleted modified e =
    settings-each put_user settings-put_user modified _
    ∙ settings-each put_user settings-put_user added _
    ∙ settings-each delete_user settings-delete_user deleted e

module _ (lib : Library) where
  frame-rebuild : (g : ExternalEngine) → frame (rebuild_user_hashes_locked lib g).1 ≡ frame g
  unfolding rebuild_user_hashes_locked rebuilt
  frame-rebuild g =
      elim (result-cases
        (build_mappings lib.crypto lib.json g.external.node (values g.external.users) g.store).0) [
          | inl (keys, good) ↦ rw good refl
          | inr (x, bad) ↦ rw bad refl
        ]

  -- A new text is written only if its hash is another one.
  apply-RunsConfig : (g : ExternalEngine) → RunsConfig lib g → apply_config_locked lib g ≡ (none, g)
  unfolding apply_config_locked with_body
  apply-RunsConfig g h =
      let same : (lib.sha256_hex h.body == g.external.last_config_hash) ≡ true =
        (str_eq_iff (lib.sha256_hex h.body) g.external.last_config_hash).1 h.hash in
      rw (h.encoded, same) refl

  RunsConfig-frame :
      (g g' : ExternalEngine) → frame g' ≡ frame g → RunsConfig lib g → RunsConfig lib g'
  RunsConfig-frame g g' e h = record {
    body = h.body;
    encoded = ap (λ x. (config_json lib x.0.0 x.0.1).1) e ∙ h.encoded;
    hash = h.hash ∙ ap (λ x. x.0.2) (sym e);
  }

  -- What follows a change of the users, whatever came of it.
  after_users :
      (g : ExternalEngine) (o : Outcome)
      → RunsConfig lib g
      → frame o.1 ≡ frame g
      → frame (and_then o (apply_config_locked lib)).1 ≡ frame g
  after_users g (some x, g') h e = e
  after_users g (none, g') h e =
      ap (λ o. frame o.1) (apply-RunsConfig g' (RunsConfig-frame g g' e h)) ∙ e

  frame-update_users :
      (added deleted modified : List UserInfo) (full : Option (List UserInfo)) (g : ExternalEngine)
      → RunsConfig lib g
      → frame (update_users lib added deleted modified full g).1 ≡ frame g
  unfolding update_users replace_users_locked
  frame-update_users added deleted modified (some users) g h = after_users g _ h (
      frame-rebuild (record g { external = refilled users g.external })
      ∙ ap (λ x. (x, g.host)) (settings-refilled users g.external))
  frame-update_users added deleted modified none g h = after_users g _ h (
      frame-rebuild (record g { external = patched added deleted modified g.external })
      ∙ ap (λ x. (x, g.host)) (settings-patched added deleted modified g.external))

  -- On an engine whose configuration file is up to date, `UpdateUsers` leaves the file and the
  -- process as they are, whatever its result: it starts nothing, also where no process runs, and it
  -- stops nothing. The file stays up to date.
  pub update_users-RunsConfig :
      (added deleted modified : List UserInfo) (full : Option (List UserInfo)) (g : ExternalEngine)
      → RunsConfig lib g
      → let g' = (update_users lib added deleted modified full g).1 in
        (g'.external.cmd ≡ g.external.cmd) × (g'.host ≡ g.host) × RunsConfig lib g'
  update_users-RunsConfig added deleted modified full g h =
      let same = frame-update_users added deleted modified full g h in
      (ap (λ x. x.0.3) same, ap (λ x. x.1) same, RunsConfig-frame g _ same h)

  start_locked-settings : (g : ExternalEngine) → identity (start_locked lib g).1 ≡ identity g
  unfolding start_locked
  start_locked-settings g = elim (Option-cases g.external.cmd) [
    | inr (p, runs) ↦ rw runs refl
    | inl idle ↦ elim (Bool-cases g.host.start_succeeds) [
      | inl starts ↦ rw (idle, starts) refl
      | inr fails ↦ rw (idle, fails) refl
    ]
  ]

  restart_locked-settings : (g : ExternalEngine) → identity (restart_locked lib g).1 ≡ identity g
  unfolding restart_locked stop_locked
  restart_locked-settings g = elim (Option-cases g.external.cmd) [
    | inl idle ↦ rw idle (start_locked-settings _)
    | inr (p, runs) ↦ rw runs (start_locked-settings _)
  ]

  RunsConfig-identity :
      (g g' : ExternalEngine) → identity g' ≡ identity g → RunsConfig lib g → RunsConfig lib g'
  RunsConfig-identity g g' e h = record {
    body = h.body;
    encoded = ap (λ x. (config_json lib x.0 x.1).1) e ∙ h.encoded;
    hash = h.hash ∙ ap (λ x. x.2) (sym e);
  }

  rerun-RunsConfig :
      (cmd : Option ℕ) (g : ExternalEngine) → RunsConfig lib g → RunsConfig lib (rerun lib cmd g).1
  unfolding rerun
  rerun-RunsConfig none g h = h
  rerun-RunsConfig (some p) g h = RunsConfig-identity g _ (restart_locked-settings g) h

  written-RunsConfig :
      (body : String) (g : ExternalEngine)
      → (config_json lib g.external.node g.external.runtime).1 ≡ some body
      → RunsConfig lib (written lib (lib.sha256_hex body) g).1
  unfolding written
  written-RunsConfig body g e =
      rerun-RunsConfig g.external.cmd
        (record g { external = record (g.external) { last_config_hash = lib.sha256_hex body } })
        (record { body = body; encoded = e; hash = refl })

  -- Where `applyConfigLocked` succeeds, the file is up to date.
  apply_ok :
      (g : ExternalEngine)
      → (apply_config_locked lib g).0 ≡ none
      → RunsConfig lib (apply_config_locked lib g).1
  unfolding apply_config_locked with_body write_config
  apply_ok g ok_ = elim (Option-cases (config_json lib g.external.node g.external.runtime).1) [
    | inl none_made ↦ absurd (cc (rw none_made at ok_))
    | inr (body, made) ↦ elim (Bool-cases (lib.sha256_hex body == g.external.last_config_hash)) [
      | inl same ↦
          rw (made, same)
            (record {
              body = body;
              encoded = made;
              hash = (str_eq_iff (lib.sha256_hex body) g.external.last_config_hash).0 same;
            })
      | inr other ↦ elim (Bool-cases g.host.mkdir_succeeds) [
        | inr no_dir ↦ absurd (cc (rw (made, other, no_dir) at ok_))
        | inl dir ↦ elim (Bool-cases g.host.write_succeeds) [
          | inr torn ↦ absurd (cc (rw (made, other, dir, torn) at ok_))
          | inl wrote ↦
              simp (made, other, dir, wrote)
                (written-RunsConfig body
                  (record g {
                    host = record (g.host) {
                      config_file = some (body +s+ "\n");
                      mkdir_succeeds = true;
                      write_succeeds = true;
                    };
                  })
                  made)
        ]
      ]
    ]
  ]

  after_apply :
      (o : Outcome)
      → (o.0 ≡ none → RunsConfig lib o.1)
      → (and_then o (start_locked lib)).0 ≡ none
      → RunsConfig lib (and_then o (start_locked lib)).1
  after_apply (some x, g) h e = absurd (cc e)
  after_apply (none, g) h e = RunsConfig-identity g _ (start_locked-settings g) (h refl)

  -- After a `Start` that succeeds the configuration file is up to date.
  pub start-RunsConfig :
      (g : ExternalEngine) → (start lib g).0 ≡ none → RunsConfig lib (start lib g).1
  unfolding start
  start-RunsConfig g e = elim (Bool-cases g.host.mkdir_succeeds) [
    | inr no_dir ↦ absurd (cc (rw no_dir at e))
    | inl dir ↦ simp dir (after_apply (apply_config_locked lib g) (apply_ok g) (simp dir at e))
  ]
