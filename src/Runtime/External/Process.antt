-- ===== src/Runtime/External/Process.antt =====
-- internal/runtime/external.go: the users of the external engine, its configuration file, and the
-- process that it starts and stops.
pub mod Restart
pub mod Pending
use v2sudoku.Prelude.{
  ℕ, suc, ℤ, String, List, [], ◌∷◌, Bool, true, false, ◌||◌, Option, none, some, ◌==◌, string_eq,
  if◌then◌else◌,
}
use v2sudoku.Dict.{insert, delete}
use v2sudoku.Text.{is_empty, ◌+s+◌}
use v2sudoku.Conf.{RuntimeConfig}
use v2sudoku.Panel.{NodeInfo, UserInfo}
use v2sudoku.Runtime.KeyStore.Derive.{Crypto, Result, ok, err}
use v2sudoku.Runtime.KeyStore.State.{Json, ClientKeyStore}
use v2sudoku.Runtime.KeyStore.Build.{UserKey, build_mappings}
use v2sudoku.Runtime.Config.{SudokuConfig, Built, built, bad, build_sudoku_config}
use v2sudoku.Runtime.Embedded.{values, each, clone_alive_list}
use v2sudoku.Runtime.External.{
  External, Host, ExternalEngine, ExternalError, ProcessCall, Outcome, and_then, config_failed,
  keys_failed,
}

-- The loop of `rebuildUserHashesLocked`.
unfoldable pub external_hash_map : List UserKey → List (String × String) → List (String × String)
external_hash_map [] m = m
external_hash_map (k ∷ ks) m = external_hash_map ks (insert k.user_hash k.uuid m)

unfoldable pub put_user : UserInfo → External → External
put_user user e =
    if is_empty user.uuid then e else record e { users = insert user.uuid user e.users }

unfoldable pub delete_user : UserInfo → External → External
delete_user user e = record e {
  users = delete user.uuid e.users;
  online = delete user.uuid e.online;
}

-- The loop of `replaceUsersLocked`.
unfoldable pub refilled : List UserInfo → External → External
refilled users e = each put_user users (record e { users = [] })

-- The loops of `UpdateUsers`.
unfoldable pub patched : List UserInfo → List UserInfo → List UserInfo → External → External
patched added deleted modified e =
    each put_user modified (each put_user added (each delete_user deleted e))

-- The packages of the sudoku library, `encoding/json` and SHA-256 in hexadecimal.
pub record Library : Type 1 where
  pub crypto : Crypto
  pub json : Json
  pub recover : String → Option String
  pub finalize : SudokuConfig → Option SudokuConfig
  pub marshal : SudokuConfig → Option String
  pub sha256_hex : String → String

abbrev pub set_cmd : Option ℕ → ExternalEngine → ExternalEngine
set_cmd cmd g = record g { external = record (g.external) { cmd = cmd } }

module _ (lib : Library) where
  rebuilt : ExternalEngine → Result (List UserKey) × ClientKeyStore → Outcome
  rebuilt g (err x, s) = (some (keys_failed x), record g { store = s })
  rebuilt g (ok keys, s) = (
    none,
    record g {
      external = record (g.external) { user_hash_to_uuid = external_hash_map keys [] };
      store = s;
    },
  )

  unfoldable pub rebuild_user_hashes_locked : ExternalEngine → Outcome
  unfolding rebuilt
  rebuild_user_hashes_locked g =
      rebuilt g
        (build_mappings lib.crypto lib.json g.external.node (values g.external.users) g.store)

  unfoldable pub replace_users_locked : List UserInfo → ExternalEngine → Outcome
  replace_users_locked users g =
      rebuild_user_hashes_locked (record g { external = refilled users g.external })

  -- `startLocked`: nothing is started beside a process that runs.
  unfoldable pub start_locked : ExternalEngine → Outcome
  start_locked g = elim g.external.cmd [
    | some p ↦ (none, g)
    | none ↦
        if g.host.start_succeeds
        then (
          none,
          record g {
            external = record (g.external) { cmd = some g.host.next_process };
            host = record (g.host) {
              next_process = suc g.host.next_process;
              calls = ProcessCall.started g.host.next_process ∷ g.host.calls;
            };
          },
        )
        else (some ExternalError.start_process, g)
  ]

  -- A process that runs is signalled, and killed after five seconds: the goroutine that would clear `e.cmd`
  -- before waits for the mutex, which the caller holds (Runtime/External/Stop).
  abbrev calls_of_stop : ℕ → Host → List ProcessCall
  calls_of_stop p h = ProcessCall.killed p ∷ (ProcessCall.terminated p ∷ h.calls)

  unfoldable pub stop_locked : ExternalEngine → Outcome
  stop_locked g = elim g.external.cmd [
    | none ↦ (none, set_cmd none g)
    | some p ↦ (
      none,
      set_cmd none (record g { host = record (g.host) { calls = calls_of_stop p g.host } }),
    )
  ]

  unfoldable pub restart_locked : ExternalEngine → Outcome
  restart_locked g = and_then (stop_locked g) start_locked

  -- What `buildExternalConfigJSON` returns.
  abbrev pub config_json : NodeInfo → RuntimeConfig → ExternalError × Option String
  config_json node cfg = elim (build_sudoku_config lib.recover lib.finalize node cfg) [
    | bad x ↦ (config_failed x, none)
    | built sc ↦ (ExternalError.marshal_failed, lib.marshal sc)
  ]

  -- `if e.cmd != nil`, at the end of `applyConfigLocked`: a process that runs is restarted.
  rerun : Option ℕ → ExternalEngine → Outcome
  rerun none g = (none, g)
  rerun (some p) g = restart_locked g

  written : String → ExternalEngine → Outcome
  unfolding rerun
  written hash g =
      rerun g.external.cmd (record g { external = record (g.external) { last_config_hash = hash } })

  write_config : String → String → ExternalEngine → Outcome
  unfolding written
  write_config body hash g =
      if g.host.mkdir_succeeds
      then (if g.host.write_succeeds
          then written hash
              (record g { host = record (g.host) { config_file = some (body +s+ "\n") } })
          else (
            some ExternalError.write_config,
            record g { host = record (g.host) { config_file = g.host.torn } },
          ))
      else (some ExternalError.make_work_dir, g)

  with_body : ExternalError → Option String → ExternalEngine → Outcome
  unfolding write_config
  with_body x none g = (some x, g)
  with_body x (some body) g =
      if lib.sha256_hex body == g.external.last_config_hash
      then (none, g)
      else write_config body (lib.sha256_hex body) g

  unfoldable pub apply_config_locked : ExternalEngine → Outcome
  unfolding with_body
  apply_config_locked g =
      let (x, body) = config_json g.external.node g.external.runtime in with_body x body g

  unfoldable pub start : ExternalEngine → Outcome
  start g =
      if g.host.mkdir_succeeds
      then and_then (apply_config_locked g) start_locked
      else (some ExternalError.make_work_dir, g)

  unfoldable pub close : ExternalEngine → Outcome
  close g = stop_locked g

  unfoldable pub update_users :
      List UserInfo
      → List UserInfo
      → List UserInfo
      → Option (List UserInfo)
      → ExternalEngine
      → Outcome
  update_users added deleted modified full g =
      and_then
        (elim full [
          | some users ↦ replace_users_locked users g
          | none ↦
              rebuild_user_hashes_locked
                (record g { external = patched added deleted modified g.external })
        ])
        apply_config_locked

  -- `NewExternal`
  unfoldable pub new_external :
      NodeInfo → List UserInfo → List (ℤ × ℤ) → RuntimeConfig → ClientKeyStore → Host → Outcome
  new_external node users alive cfg store host = replace_users_locked users (record {
    external = record {
      node = node;
      runtime = cfg;
      users = [];
      user_hash_to_uuid = [];
      pending = [];
      online = [];
      alive_list = clone_alive_list alive;
      last_config_hash = "";
      cmd = none;
    };
    store = store;
    host = host;
  })
