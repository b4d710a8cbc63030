-- ===== src/Runtime/External/Process/Pending.antt =====
-- internal/runtime/external.go: changes of the users and of the process, and the traffic that is pending.
use v2sudoku.Prelude.{
  ℕ, ◌≡◌, refl, arith, ◌∙◌, String, List, [], ◌∷◌, Option, none, some, ◌==◌, string_eq, Bool-cases,
  Option-cases, inl, inr,
}
use v2sudoku.Panel.{UserInfo}
use v2sudoku.Runtime.KeyStore.Derive.{Result, ok, err}
use v2sudoku.Runtime.KeyStore.Build.{UserKey, build_mappings}
use v2sudoku.Runtime.KeyStore.State.{ClientKeyStore}
use v2sudoku.Runtime.Embedded.{values, each}
use v2sudoku.Runtime.External.{
  External, ExternalEngine, ExternalError, PendingTraffic, Outcome, and_then,
}
use v2sudoku.Runtime.External.Process.{
  Library, start_locked, stop_locked, restart_locked, apply_config_locked, update_users, with_body,
  write_config, written, rerun, rebuild_user_hashes_locked, replace_users_locked, refilled, patched,
  put_user, delete_user, rebuilt,
}

-- What a call leaves pending.
abbrev left : Outcome → List (String × PendingTraffic)
left o = o.1.external.pending

pending-each :
    (f : UserInfo → External → External)
    → ((u : UserInfo) (e : External) → (f u e).pending ≡ e.pending)
    → (us : List UserInfo) (e : External) → (each f us e).pending ≡ e.pending
pending-each f keep [] e = refl
pending-each f keep (u ∷ us) e = pending-each f keep us (f u e) ∙ keep u e

pending-put_user : (u : UserInfo) (e : External) → (put_user u e).pending ≡ e.pending
unfolding put_user
pending-put_user u e = ground arith

pending-patched :
    (added deleted modified : List UserInfo) (e : External)
    → (patched added deleted modified e).pending ≡ e.pending
unfolding patched delete_user
pending-patched added deleted modified e =
    pending-each put_user pending-put_user modified _
    ∙ pending-each put_user pending-put_user added _
    ∙ pending-each delete_user (λ u x. refl) deleted e

pending-refilled : (users : List UserInfo) (e : External) → (refilled users e).pending ≡ e.pending
unfolding refilled
pending-refilled users e = pending-each put_user pending-put_user users (record e { users = [] })

module _ (lib : Library) where
  pending-rebuilt :
      (g : ExternalEngine) (r : Result (List UserKey) × ClientKeyStore)
      → left (rebuilt lib g r) ≡ g.external.pending
  unfolding rebuilt
  pending-rebuilt g (err x, s) = refl
  pending-rebuilt g (ok keys, s) = refl

  pending-start : (g : ExternalEngine) → left (start_locked lib g) ≡ g.external.pending
  unfolding start_locked
  pending-start g = ground arith

  pending-restart : (g : ExternalEngine) → left (restart_locked lib g) ≡ g.external.pending
  unfolding restart_locked stop_locked
  pending-restart g = elim (Option-cases g.external.cmd) [
    | inl idle ↦ rw idle (pending-start _)
    | inr (p, runs) ↦ rw runs (pending-start _)
  ]

  pending-rerun :
      (cmd : Option ℕ) (g : ExternalEngine) → left (rerun lib cmd g) ≡ g.external.pending
  unfolding rerun
  pending-rerun none g = refl
  pending-rerun (some p) g = pending-restart g

  pending-with_body :
      (x : ExternalError) (body : Option String) (g : ExternalEngine)
      → left (with_body lib x body g) ≡ g.external.pending
  unfolding with_body write_config written
  pending-with_body x none g = refl
  pending-with_body x (some body) g =
      elim (Bool-cases (lib.sha256_hex body == g.external.last_config_hash)) [
        | inl same ↦ rw same refl
        | inr other ↦ elim (Bool-cases g.host.mkdir_succeeds) [
          | inr no_dir ↦ rw (other, no_dir) refl
          | inl dir ↦ elim (Bool-cases g.host.write_succeeds) [
            | inr torn ↦ rw (other, dir, torn) refl
            | inl wrote ↦ rw (other, dir, wrote) (pending-rerun g.external.cmd _)
          ]
        ]
      ]

  pending-and_then : (o : Outcome) → left (and_then o (apply_config_locked lib)) ≡ left o
  unfolding apply_config_locked
  pending-and_then (some x, g) = refl
  pending-and_then (none, g) = pending-with_body _ _ g

  pending-rebuild :
      (g : ExternalEngine)
      → left (and_then (rebuild_user_hashes_locked lib g) (apply_config_locked lib))
        ≡ g.external.pending
  unfolding rebuild_user_hashes_locked
  pending-rebuild g =
      pending-and_then (rebuild_user_hashes_locked lib g)
      ∙ pending-rebuilt g
          (build_mappings lib.crypto lib.json g.external.node (values g.external.users) g.store)

  -- `UpdateUsers` leaves the traffic that is pending as it is, whatever comes of it.
  pub pending-update_users :
      (added deleted modified : List UserInfo) (full : Option (List UserInfo)) (g : ExternalEngine)
      → left (update_users lib added deleted modified full g) ≡ g.external.pending
  unfolding update_users replace_users_locked
  pending-update_users added deleted modified (some users) g =
      pending-rebuild (record g { external = refilled users g.external })
      ∙ pending-refilled users g.external
  pending-update_users added deleted modified none g =
      pending-rebuild (record g { external = patched added deleted modified g.external })
      ∙ pending-patched added deleted modified g.external
