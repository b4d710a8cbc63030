-- ===== src/Runtime/Embedded/Shape.antt =====
-- internal/runtime/embedded.go: the shape of the engine's state. A well-formed state has each user
-- under its own UUID, which is not empty, with a counter; the counters are a heap of their own.
use v2sudoku.Prelude.{
  ℕ, ◌≡◌, ◌≢◌, sym, ◌∙◌, subst, ap, ℤ, String, List, [], ◌∷◌, false, Option, none, some, ◌==◌,
  nat_eq, int_eq, string_eq, str_eq_iff, arith, Bool-cases, inl, inr,
}
use v2sudoku.Dict.{lookup, insert, delete, has}
use v2sudoku.Dict.Laws.{lookup-insert, lookup-delete}
use v2sudoku.Text.{is_empty}
use v2sudoku.Panel.{UserInfo}
use v2sudoku.Runtime.KeyStore.Derive.{Crypto}
use v2sudoku.Runtime.KeyStore.State.{Json, ClientKeyStore}
use v2sudoku.Runtime.Counting.{Counters, keep_counter, drop_idle, modify, allocate}
use v2sudoku.Runtime.Counting.Laws.{IsHeap, keep_counter-IsHeap, keep-eq-upsert, drop_idle-IsHeap}
use v2sudoku.Runtime.Embedded.{
  Embedded, Engine, put_user, put_users, drop_stranger, drop_strangers, replaced,
  upsert_user_locked, delete_user_locked, each, patched, rebuild_user_hashes_locked,
  replace_users_locked, update_users,
}

abbrev pub HasCounter : Counters → String → Type 0
HasCounter cs uuid = lookup uuid cs.table ≢ none

pub record User (cs : Counters) (uuid : String) (user : UserInfo) : Type 0 where
  pub named : user.uuid ≡ uuid
  pub filled : is_empty uuid ≡ false
  pub counted : HasCounter cs uuid

pub record IsShaped (e : Embedded) : Type 0 where
  pub users :
      (uuid : String) (user : UserInfo)
      → lookup uuid e.users ≡ some user
      → User e.counters uuid user
  pub heap : IsHeap e.counters

keep_counter-HasCounter :
    (uid : ℤ) (uuid v : String) (cs : Counters)
    → HasCounter cs v
    → HasCounter (keep_counter uid uuid cs) v
unfolding keep_counter modify allocate
keep_counter-HasCounter uid uuid v cs h = ground (arith, h, lookup-insert uuid v cs.next cs.table)

keep_counter-HasCounter_self :
    (uid : ℤ) (uuid : String) (cs : Counters) → HasCounter (keep_counter uid uuid cs) uuid
unfolding keep_counter modify allocate
keep_counter-HasCounter_self uid uuid cs =
    ground (arith, lookup-insert uuid uuid cs.next cs.table, str_eq_iff uuid uuid)

drop_idle-HasCounter :
    (uuid v : String) (cs : Counters)
    → v ≢ uuid
    → HasCounter cs v
    → HasCounter (drop_idle uuid cs) v
unfolding drop_idle
drop_idle-HasCounter uuid v cs ne h =
    ground (arith, h, lookup-delete uuid v cs.table, str_eq_iff uuid v)

keep_counter-User :
    (new : UserInfo) (e : Embedded)
    → is_empty new.uuid ≡ false
    → IsShaped e
    → (v : String) (user : UserInfo) → lookup v (insert new.uuid new e.users) ≡ some user
    → User (keep_counter new.id new.uuid e.counters) v user
keep_counter-User new e filled h v user found =
    let found' = sym (lookup-insert new.uuid v new e.users) ∙ found in
    elim (Bool-cases (new.uuid == v)) [
      | inl same ↦
          let name : new.uuid ≡ v = (str_eq_iff new.uuid v).0 same in
          let is : new ≡ user = ground (arith, found', same) in
          subst (λ w. User (keep_counter new.id new.uuid e.counters) w user) name
            (record {
              named = ap (λ x. x.uuid) (sym is);
              filled = filled;
              counted = keep_counter-HasCounter_self new.id new.uuid e.counters;
            })
      | inr other ↦
          let old = h.users v user (ground (arith, found', other)) in
          record {
            named = old.named;
            filled = old.filled;
            counted = keep_counter-HasCounter new.id new.uuid v e.counters old.counted;
          }
    ]

pub put_user-IsShaped : (user : UserInfo) (e : Embedded) → IsShaped e → IsShaped (put_user user e)
unfolding put_user
put_user-IsShaped user e h = elim (Bool-cases (is_empty user.uuid)) [
  | inl blank ↦ rw blank h
  | inr filled ↦ rw filled (record {
    users = keep_counter-User user e filled h;
    heap = keep_counter-IsHeap user.id user.uuid e.counters h.heap;
  })
]

pub upsert-eq-put : (user : UserInfo) (e : Embedded) → upsert_user_locked user e ≡ put_user user e
unfolding upsert_user_locked put_user
upsert-eq-put user e = rw (keep-eq-upsert user.id user.uuid e.counters)

pub put_users-IsShaped :
    (users : List UserInfo) (e : Embedded) → IsShaped e → IsShaped (put_users users e)
unfolding put_users
put_users-IsShaped [] e h = h
put_users-IsShaped (u ∷ us) e h = put_users-IsShaped us (put_user u e) (put_user-IsShaped u e h)

drop_idle-IsShaped :
    (uuid : String) (e : Embedded)
    → lookup uuid e.users ≡ none
    → IsShaped e
    → IsShaped (record e { counters = drop_idle uuid e.counters })
drop_idle-IsShaped uuid e gone h = record {
  users = λ v user found.
      let old = h.users v user found in
      record {
        named = old.named;
        filled = old.filled;
        counted =
            drop_idle-HasCounter uuid v e.counters
              (λ same. absurd (ground (arith, found, gone, ap (λ x. lookup x e.users) same)))
              old.counted;
      };
  heap = drop_idle-IsHeap uuid e.counters h.heap;
}

pub drop_stranger-IsShaped :
    (uuid : String) (e : Embedded) → IsShaped e → IsShaped (drop_stranger uuid e)
unfolding drop_stranger
drop_stranger-IsShaped uuid e h = elim (Bool-cases (has uuid e.users)) [
  | inl there ↦ rw there h
  | inr gone ↦ rw gone (drop_idle-IsShaped uuid e (ground arith) h)
]

pub drop_strangers-IsShaped :
    (table : List (String × ℕ)) (e : Embedded) → IsShaped e → IsShaped (drop_strangers table e)
unfolding drop_strangers
drop_strangers-IsShaped [] e h = h
drop_strangers-IsShaped ((uuid, p) ∷ rest) e h =
    drop_strangers-IsShaped rest (drop_stranger uuid e) (drop_stranger-IsShaped uuid e h)

-- The state that `replaceUsersLocked` starts its loop from.
pub cleared-IsShaped : (e : Embedded) → IsShaped e → IsShaped (record e { users = [] })
unfolding lookup
cleared-IsShaped e h = record { users = λ v user found. absurd (ground arith); heap = h.heap }

pub replaced-IsShaped :
    (users : List UserInfo) (e : Embedded) → IsShaped e → IsShaped (replaced users e)
unfolding replaced
replaced-IsShaped users e h =
    drop_strangers-IsShaped (put_users users (record e { users = [] })).counters.table _
      (put_users-IsShaped users (record e { users = [] }) (cleared-IsShaped e h))

pub delete_user_locked-IsShaped :
    (user : UserInfo) (e : Embedded) → IsShaped e → IsShaped (delete_user_locked user e)
unfolding delete_user_locked
delete_user_locked-IsShaped user e h =
    let gone : lookup user.uuid (delete user.uuid e.users) ≡ none =
      ground (arith, lookup-delete user.uuid user.uuid e.users, str_eq_iff user.uuid user.uuid) in
    let rest : IsShaped (record e { users = delete user.uuid e.users }) = record {
      users = λ v u found. h.users v u (ground (arith, found, lookup-delete user.uuid v e.users));
      heap = h.heap;
    } in
    let d =
      drop_idle-IsShaped user.uuid (record e { users = delete user.uuid e.users }) gone rest in
    record { users = d.users; heap = d.heap }

pub each-IsShaped :
    (f : UserInfo → Embedded → Embedded)
    → ((user : UserInfo) (e : Embedded) → IsShaped e → IsShaped (f user e))
    → (users : List UserInfo) (e : Embedded) → IsShaped e
    → IsShaped (each f users e)
each-IsShaped f keep [] e h = h
each-IsShaped f keep (u ∷ us) e h = each-IsShaped f keep us (f u e) (keep u e h)

pub upsert-IsShaped :
    (user : UserInfo) (e : Embedded) → IsShaped e → IsShaped (upsert_user_locked user e)
upsert-IsShaped user e h = rw (upsert-eq-put user e) (put_user-IsShaped user e h)

pub patched-IsShaped :
    (added deleted modified : List UserInfo) (e : Embedded)
    → IsShaped e
    → IsShaped (patched added deleted modified e)
unfolding patched
patched-IsShaped added deleted modified e h =
    each-IsShaped upsert_user_locked upsert-IsShaped modified _ (
      each-IsShaped upsert_user_locked upsert-IsShaped added _
        (each-IsShaped delete_user_locked delete_user_locked-IsShaped deleted e h))

-- Rebuilding the hashes leaves users and counters alone, whether it succeeds or not.
pub rebuild-same :
    (c : Crypto) (json : Json) (e : Embedded) (s : ClientKeyStore)
    → (let e' = (rebuild_user_hashes_locked c json e s).1.embedded in
        (e'.users ≡ e.users)
        × (e'.counters ≡ e.counters)
        × (e'.online ≡ e.online)
        × (e'.node ≡ e.node))
unfolding rebuild_user_hashes_locked
rebuild-same c json e s = ground arith

IsShaped-rebuild :
    (c : Crypto) (json : Json) (e : Embedded) (s : ClientKeyStore)
    → IsShaped e
    → IsShaped (rebuild_user_hashes_locked c json e s).1.embedded
IsShaped-rebuild c json e s h =
    let (users, counters, _, _) = rebuild-same c json e s in
    record { users = rw (users, counters) h.users; heap = rw counters h.heap }

-- `UpdateUsers` keeps the shape of the state: on a full list and on changes, and also where the
-- keys cannot be built and it fails.
pub update_users-IsShaped :
    (c : Crypto) (json : Json) (added deleted modified : List UserInfo)
    (full : Option (List UserInfo)) (g : Engine)
    → IsShaped g.embedded
    → IsShaped (update_users c json added deleted modified full g).1.embedded
unfolding update_users replace_users_locked
update_users-IsShaped c json added deleted modified (some users) g h =
    IsShaped-rebuild c json _ g.store (replaced-IsShaped users g.embedded h)
update_users-IsShaped c json added deleted modified none g h =
    IsShaped-rebuild c json _ g.store (patched-IsShaped added deleted modified g.embedded h)
