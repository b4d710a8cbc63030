-- ===== src/Runtime/Embedded.antt =====
-- internal/runtime/embedded.go: the state of the embedded engine, and every operation on its users,
-- their counters, their keys and their presence. Each runs under the engine's mutex, so it is one
-- step. The store of keys is shared with other engines, and is passed along.
pub mod Shape
pub mod Traffic
pub mod Rows
pub mod Confirm
pub mod Report
pub mod Admission
pub mod Presence
pub mod Orphans
pub mod Ledger
pub mod New
pub mod Serving
pub mod Lifecycle
pub mod Pipe
pub mod Uot
pub mod Roster
pub mod Shaped
mod Tests
use v2sudoku.Prelude.{
  ℕ, ℤ, pos, negsuc, String, List, [], ◌∷◌, Bool, true, false, ◌||◌, Option, none, some, ◌==◌,
  nat_eq, int_eq, string_eq, ◌++◌ as append, if◌then◌else◌, leb_ℤ, ltb_ℤ, ◌+ℤ◌, add64, mul64,
  sort_by, length, nat_beq,
}
use v2sudoku.Dict.{lookup, insert, delete, has}
use v2sudoku.Text.{is_empty, ◌+s+◌}
use v2sudoku.Text.Decimal.{itoa}
use v2sudoku.Conf.{RuntimeConfig}
use v2sudoku.Panel.{NodeInfo, UserInfo, UserTraffic, OnlineUser}
use v2sudoku.Runtime.KeyStore.Derive.{Crypto, KeyError, Result, ok, err}
use v2sudoku.Runtime.KeyStore.State.{Json, ClientKeyStore}
use v2sudoku.Runtime.KeyStore.Build.{UserKey, build_mappings}
use v2sudoku.Runtime.Counting.{
  TrafficCounter, Counters, keep_counter, upsert_counter, drop_idle, modify, allocate, rename,
  subtract,
}

-- `onlineState` of counting.go. Times are in nanoseconds.
pub record OnlineState : Type 0 where
  pub seen_at : ℤ
  pub ip : String

pub record Embedded : Type 0 where
  pub node : NodeInfo
  pub runtime : RuntimeConfig
  pub users : List (String × UserInfo)
  pub user_hash_to_uuid : List (String × String)
  pub counters : Counters
  pub online : List (String × OnlineState)
  pub alive_list : List (ℤ × ℤ)

-- The engine with the store of keys, which most operations on users change together.
pub record Engine : Type 0 where
  pub embedded : Embedded
  pub store : ClientKeyStore

unfoldable pub clone_alive_list : List (ℤ × ℤ) → List (ℤ × ℤ)
clone_alive_list [] = []
clone_alive_list ((k, v) ∷ m) = insert k v (clone_alive_list m)

unfoldable pub set_alive_list : List (ℤ × ℤ) → Embedded → Embedded
set_alive_list alive e = record e { alive_list = clone_alive_list alive }

abbrev pub values : List (String × UserInfo) → List UserInfo
values [] = []
values ((k, u) ∷ m) = u ∷ values m

-- The loop of `rebuildUserHashesLocked` over the keys.
unfoldable pub hash_map : List UserKey → List (String × String) → List (String × String)
hash_map [] m = m
hash_map (k ∷ ks) m =
    hash_map ks (if is_empty k.user_hash || is_empty k.uuid then m else insert k.user_hash k.uuid m)

module _ (c : Crypto) (json : Json) where
  rebuilt : Embedded → Result (List UserKey) × ClientKeyStore → Result (Unit {0}) × Engine
  rebuilt e (err x, s) = (err x, record { embedded = e; store = s })
  rebuilt e (ok keys, s) =
      (ok tt, record { embedded = record e { user_hash_to_uuid = hash_map keys [] }; store = s })

  -- If the keys cannot be built, the map of hashes stays as it was.
  unfoldable pub rebuild_user_hashes_locked : Embedded → ClientKeyStore → Result (Unit {0}) × Engine
  unfolding rebuilt
  rebuild_user_hashes_locked e s = rebuilt e (build_mappings c json e.node (values e.users) s)

-- The body of the loop of `replaceUsersLocked`.
unfoldable pub put_user : UserInfo → Embedded → Embedded
put_user user e = if is_empty user.uuid then e else record e {
  users = insert user.uuid user e.users;
  counters = keep_counter user.id user.uuid e.counters;
}

unfoldable pub put_users : List UserInfo → Embedded → Embedded
unfolding put_user
put_users [] e = e
put_users (user ∷ users) e = put_users users (put_user user e)

unfoldable pub drop_stranger : String → Embedded → Embedded
drop_stranger uuid e =
    if has uuid e.users then e else record e { counters = drop_idle uuid e.counters }

-- The loop of `replaceUsersLocked` over the counters: the first argument lists the keys of the map.
unfoldable pub drop_strangers : List (String × ℕ) → Embedded → Embedded
unfolding drop_stranger
drop_strangers [] e = e
drop_strangers ((uuid, p) ∷ rest) e = drop_strangers rest (drop_stranger uuid e)

-- `replaceUsersLocked`, before the hashes are rebuilt.
unfoldable pub replaced : List UserInfo → Embedded → Embedded
unfolding put_users drop_strangers
replaced users e =
    let filled = put_users users (record e { users = [] }) in
    drop_strangers filled.counters.table filled

unfoldable pub upsert_user_locked : UserInfo → Embedded → Embedded
upsert_user_locked user e = if is_empty user.uuid then e else record e {
  users = insert user.uuid user e.users;
  counters = upsert_counter user.id user.uuid e.counters;
}

unfoldable pub delete_user_locked : UserInfo → Embedded → Embedded
delete_user_locked user e = record e {
  users = delete user.uuid e.users;
  online = delete user.uuid e.online;
  counters = drop_idle user.uuid e.counters;
}

-- `for _, user := range users`, over a state.
abbrev pub each : {A : Type 0} → (UserInfo → A → A) → List UserInfo → A → A
each f [] e = e
each f (u ∷ us) e = each f us (f u e)

-- The three loops of `UpdateUsers`.
unfoldable pub patched : List UserInfo → List UserInfo → List UserInfo → Embedded → Embedded
patched added deleted modified e =
    each upsert_user_locked modified
      (each upsert_user_locked added (each delete_user_locked deleted e))

module _ (c : Crypto) (json : Json) where
  unfoldable pub replace_users_locked : List UserInfo → Engine → Result (Unit {0}) × Engine
  replace_users_locked users g =
      rebuild_user_hashes_locked c json (replaced users g.embedded) g.store

  -- `full` is nil for `none`.
  unfoldable pub update_users :
      List UserInfo
      → List UserInfo
      → List UserInfo
      → Option (List UserInfo)
      → Engine
      → Result (Unit {0}) × Engine
  update_users added deleted modified full g = elim full [
    | some users ↦ replace_users_locked users g
    | none ↦ rebuild_user_hashes_locked c json (patched added deleted modified g.embedded) g.store
  ]

-- One round of the loop of `GetUserTrafficSlice` over the counters.
unfoldable pub traffic_row : ℤ → Embedded → String → ℕ → List UserTraffic
traffic_row threshold e uuid p =
    if leb_ℤ (add64 (e.counters.cell p).up (e.counters.cell p).down) threshold
    then []
    else elim (lookup uuid e.users) [
      | none ↦ []
      | some user ↦
          if user.id == pos 0
          then []
          else (record {
            uid = user.id;
            uuid = uuid;
            upload = (e.counters.cell p).up;
            download = (e.counters.cell p).down;
          })
            ∷ []
    ]

unfoldable pub traffic_rows : ℤ → Embedded → List (String × ℕ) → List UserTraffic
traffic_rows threshold e [] = []
traffic_rows threshold e ((uuid, p) ∷ rest) =
    append (traffic_row threshold e uuid p) (traffic_rows threshold e rest)

-- `int64(reportMin) * 1000`
abbrev pub threshold_of : ℤ → ℤ
threshold_of report_min = mul64 report_min (pos 1000)

unfoldable pub get_user_traffic_slice : ℤ → Embedded → List UserTraffic
get_user_traffic_slice report_min e =
    sort_by (λ r. r.uid) (traffic_rows (threshold_of report_min) e e.counters.table)

-- The first user that `range` meets with that ID.
unfoldable pub uuid_by_uid_locked : ℤ → List (String × UserInfo) → String
uuid_by_uid_locked uid [] = ""
uuid_by_uid_locked uid ((uuid, user) ∷ m) =
    if user.id == uid then uuid else uuid_by_uid_locked uid m

unfoldable pub confirm_row : UserTraffic → Embedded → Embedded
confirm_row t e =
    let uuid = if is_empty t.uuid then uuid_by_uid_locked t.uid e.users else t.uuid in
    elim (lookup uuid e.counters.table) [
      | none ↦ e
      | some p ↦ record e { counters = modify p (subtract t.upload t.download) e.counters }
    ]

unfoldable pub confirm_user_traffic : List UserTraffic → Embedded → Embedded
confirm_user_traffic [] e = e
confirm_user_traffic (t ∷ ts) e = confirm_user_traffic ts (confirm_row t e)

-- The time before which a user counts as gone: twice the push interval ago.
unfoldable pub cutoff_of : ℤ → ℤ → ℤ
cutoff_of now push_interval =
    if leb_ℤ push_interval (pos 0)
    then now +ℤ negsuc 119999999999
    else now +ℤ mul64 (negsuc 1) push_interval

-- One round of the loop of `GetOnlineDevice` that does not delete.
unfoldable pub online_row : Embedded → String → OnlineState → List OnlineUser
online_row e uuid state = elim (lookup uuid e.users) [
  | none ↦ []
  | some user ↦
      if user.id == pos 0
      then []
      else (record {
        uid = user.id;
        ip = if is_empty state.ip then "unknown_" +s+ itoa e.node.id else state.ip;
      })
        ∷ []
]

unfoldable pub online_rows : ℤ → Embedded → List (String × OnlineState) → List OnlineUser
online_rows cutoff e [] = []
online_rows cutoff e ((uuid, state) ∷ rest) =
    append (if ltb_ℤ state.seen_at cutoff then [] else online_row e uuid state)
      (online_rows cutoff e rest)

-- What the loop leaves of the map.
unfoldable pub drop_stale : ℤ → List (String × OnlineState) → List (String × OnlineState)
drop_stale cutoff [] = []
drop_stale cutoff ((uuid, state) ∷ rest) =
    let kept = drop_stale cutoff rest in
    if ltb_ℤ state.seen_at cutoff then kept else (uuid, state) ∷ kept

unfoldable pub get_online_device : ℤ → Embedded → List OnlineUser × Embedded
get_online_device now e =
    let cutoff = cutoff_of now e.node.push_interval in
    (online_rows cutoff e e.online, record e { online = drop_stale cutoff e.online })

-- What `counterForUserHash` gives a connection: the user and the pointer to the user's counter.
pub record Admitted : Type 0 where
  pub uuid : String
  pub counter : ℕ

abbrev pub admit : String → UserInfo → String → ℤ → Embedded → Option Admitted × Embedded
admit uuid user ip now e =
    let cs : Counters = elim (lookup uuid e.counters.table) [
      | some p ↦ e.counters
      | none ↦ allocate uuid user.id uuid e.counters
    ] in
    let p : ℕ = elim (lookup uuid e.counters.table) [ some q ↦ q | none ↦ e.counters.next ] in
    (
      some (record { uuid = uuid; counter = p }),
      record e {
        counters = modify p (rename user.id uuid) cs;
        online = insert uuid (record { seen_at = now; ip = ip }) e.online;
      },
    )

-- `ip` is the client's address and `now` the time of the call.
unfoldable pub counter_for_user_hash : String → String → ℤ → Embedded → Option Admitted × Embedded
counter_for_user_hash user_hash ip now e = elim (lookup user_hash e.user_hash_to_uuid) [
  | none ↦ (none, e)
  | some uuid ↦ if is_empty uuid then (none, e) else elim (lookup uuid e.users) [
    | none ↦ (none, e)
    | some user ↦ if user.id == pos 0 then (none, e) else admit uuid user ip now e
  ]
]

unfoldable pub mark_offline : String → ℤ → Embedded → Embedded
mark_offline uuid now e = elim (lookup uuid e.online) [
  | none ↦ e
  | some state ↦ record e { online = insert uuid (record state { seen_at = now }) e.online }
]

-- `DebugUserHashMap`: a hash whose user is gone gets 0.
unfoldable pub debug_user_hash_map :
    List (String × String) → List (String × UserInfo) → List (String × ℤ)
debug_user_hash_map [] users = []
debug_user_hash_map ((hash, uuid) ∷ m) users =
    (hash, elim (lookup uuid users) [ none ↦ pos 0 | some user ↦ user.id ])
    ∷ debug_user_hash_map m users
