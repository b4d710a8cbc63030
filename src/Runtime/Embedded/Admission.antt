-- ===== src/Runtime/Embedded/Admission.antt =====
-- internal/runtime/embedded.go: which connections `counterForUserHash` lets in.
use v2sudoku.Prelude.{
  ◌⊎◌, ℕ, ◌≡◌, ◌≢◌, ◌↔◌, refl, sym, ◌∙◌, subst, ap, ℤ, pos, String, List, [], ◌∷◌, false, Option,
  none, some, ◌==◌, nat_eq, int_eq, string_eq, str_eq_iff, int_beq_iff, All, arith, Option-cases,
  Bool-cases, inl, inr,
}
use v2sudoku.Dict.{lookup, insert}
use v2sudoku.Dict.Laws.{lookup-insert}
use v2sudoku.Text.{is_empty}
use v2sudoku.Panel.{UserInfo}
use v2sudoku.Runtime.KeyStore.Derive.{Crypto, Result}
use v2sudoku.Runtime.KeyStore.State.{Json}
use v2sudoku.Runtime.Counting.{modify, allocate}
use v2sudoku.Runtime.Counting.Laws.{IsHeap}
use v2sudoku.Runtime.Embedded.{
  Embedded, Engine, Admitted, counter_for_user_hash, admit, put_user, put_users, drop_stranger,
  drop_strangers, replaced, replace_users_locked, update_users,
}
use v2sudoku.Runtime.Embedded.Shape.{rebuild-same}
use v2sudoku.Runtime.Embedded.Traffic.{traffic}

-- The hash stands for a user that the engine has now, under an ID that is not 0.
pub record IsKnown (user_hash : String) (e : Embedded) : Type 0 where
  pub uuid : String
  pub user : UserInfo
  pub hashed : lookup user_hash e.user_hash_to_uuid ≡ some uuid
  pub filled : is_empty uuid ≡ false
  pub present : lookup uuid e.users ≡ some user
  pub id : user.id ≢ pos 0

pub admits :
    (user_hash ip : String) (now : ℤ) (e : Embedded) (k : IsKnown user_hash e)
    → counter_for_user_hash user_hash ip now e ≡ admit k.uuid k.user ip now e
unfolding counter_for_user_hash
admits user_hash ip now e k =
    let not_zero : (k.user.id == pos 0) ≡ false =
      ground (arith, int_beq_iff k.user.id (pos 0), k.id) in
    rw (k.hashed, counter_for_user_hash, k.filled, k.present, not_zero)

-- A connection is refused, and the engine left as it was, or its user is known.
pub refused_or_let_in :
    (user_hash ip : String) (now : ℤ) (e : Embedded)
    → (counter_for_user_hash user_hash ip now e ≡ (none, e)) ⊎ IsKnown user_hash e
unfolding counter_for_user_hash
refused_or_let_in user_hash ip now e = elim (Option-cases (lookup user_hash e.user_hash_to_uuid)) [
  | inl unknown ↦ inl (rw (unknown, counter_for_user_hash))
  | inr (uuid, hashed) ↦ elim (Bool-cases (is_empty uuid)) [
    | inl blank ↦ inl (rw (hashed, counter_for_user_hash, blank))
    | inr filled ↦ elim (Option-cases (lookup uuid e.users)) [
      | inl gone ↦ inl (rw (hashed, counter_for_user_hash, filled, gone))
      | inr (user, present) ↦ elim (Bool-cases (user.id == pos 0)) [
        | inl zero_id ↦ inl (rw (hashed, counter_for_user_hash, filled, present, zero_id))
        | inr not_zero ↦ inr (record {
          uuid = uuid;
          user = user;
          hashed = hashed;
          filled = filled;
          present = present;
          id = λ same. absurd (ground (arith, int_beq_iff user.id (pos 0), not_zero, same));
        })
      ]
    ]
  ]
]

known :
    (user_hash ip : String) (now : ℤ) (e : Embedded)
    → (counter_for_user_hash user_hash ip now e).0 ≢ none
    → IsKnown user_hash e
known user_hash ip now e h = elim (refused_or_let_in user_hash ip now e) [
  | inl turned_down ↦ absurd (h (ap (λ x. x.0) turned_down))
  | inr k ↦ k
]

-- A connection is let in exactly if its hash stands for a user that the engine has now, under an ID
-- that is not 0; the map of hashes alone is not enough.
pub counter_for_user_hash_iff :
    (user_hash ip : String) (now : ℤ) (e : Embedded)
    → ((counter_for_user_hash user_hash ip now e).0 ≢ none) ↔ IsKnown user_hash e
counter_for_user_hash_iff user_hash ip now e = (
  known user_hash ip now e,
  λ k h. absurd (cc (ap (λ x. x.0) (sym (admits user_hash ip now e k)) ∙ h)),
)

refused :
    (user_hash ip v : String) (now : ℤ) (e : Embedded)
    → lookup user_hash e.user_hash_to_uuid ≡ some v
    → lookup v e.users ≡ none
    → counter_for_user_hash user_hash ip now e ≡ (none, e)
unfolding counter_for_user_hash
refused user_hash ip v now e hashed gone = elim (Bool-cases (is_empty v)) [
  | inl blank ↦ rw (hashed, counter_for_user_hash, blank)
  | inr filled ↦ rw (hashed, counter_for_user_hash, filled, gone)
]

put_users-absent :
    (v : String) (users : List UserInfo) (e : Embedded)
    → All (λ u. u.uuid ≢ v) users
    → lookup v e.users ≡ none
    → lookup v (put_users users e).users ≡ none
unfolding put_users put_user
put_users-absent v [] e absent gone = gone
put_users-absent v (u ∷ us) e absent gone =
    put_users-absent v us (put_user u e) absent.1
      (ground (arith, gone, lookup-insert u.uuid v u e.users, str_eq_iff u.uuid v, absent.0))

pub drop_strangers-users :
    (table : List (String × ℕ)) (e : Embedded) → (drop_strangers table e).users ≡ e.users
unfolding drop_strangers drop_stranger
drop_strangers-users [] e = refl
drop_strangers-users ((uuid, p) ∷ rest) e =
    drop_strangers-users rest (drop_stranger uuid e) ∙ ground arith

replaced-absent :
    (v : String) (users : List UserInfo) (e : Embedded)
    → All (λ u. u.uuid ≢ v) users
    → lookup v (replaced users e).users ≡ none
unfolding replaced lookup
replaced-absent v users e absent =
    let start = record e { users = [] } in
    ap (lookup v)
      (drop_strangers-users (put_users users start).counters.table (put_users users start))
    ∙ put_users-absent v users start absent refl

-- What letting a connection in leaves.
abbrev Effects : Embedded → String → ℤ → Option Admitted × Embedded → Type 0
Effects e ip now (none, e') = Unit
Effects e ip now (some a, e') =
    (lookup a.uuid e'.counters.table ≡ some a.counter)
    × (lookup a.uuid e'.online ≡ some (record { seen_at = now; ip = ip }))
    × ((v : String) → traffic v e' ≡ traffic v e)
    × (e'.users ≡ e.users)

lookup-insert_self :
    {V : Type 0} (k : String) (v : V) (m : List (String × V)) → lookup k (insert k v m) ≡ some v
lookup-insert_self k v m = ground (arith, lookup-insert k k v m, str_eq_iff k k)

admit-Effects :
    (uuid : String) (user : UserInfo) (ip : String) (now : ℤ) (e : Embedded)
    → IsHeap e.counters
    → Effects e ip now (admit uuid user ip now e)
unfolding modify allocate
admit-Effects uuid user ip now e h = elim (Option-cases (lookup uuid e.counters.table)) [
  | inl absent ↦ (
    ground (arith, absent, lookup-insert_self uuid e.counters.next e.counters.table),
    lookup-insert_self uuid _ e.online,
    λ v. elim (Option-cases (lookup v e.counters.table)) [
      | inl gone ↦
          ground (arith, absent, gone, lookup-insert uuid v e.counters.next e.counters.table)
      | inr (p, found) ↦ ground (
        arith,
        absent,
        found,
        h.owns v p found,
        lookup-insert uuid v e.counters.next e.counters.table,
        str_eq_iff uuid v,
      )
    ],
    refl,
  )
  | inr (q, there) ↦ (
    ground (arith, there),
    lookup-insert_self uuid _ e.online,
    λ v. elim (Option-cases (lookup v e.counters.table)) [
      | inl gone ↦ ground (arith, there, gone)
      | inr (p, found) ↦ ground (arith, there, found, h.owns v p found)
    ],
    refl,
  )
]

-- A user that the full list leaves out is refused from then on, under every hash that still stands
-- for it, also where the keys could not be built and the map of hashes is the old one.
pub update_users-revokes :
    (c : Crypto) (json : Json) (added deleted modified users : List UserInfo) (g g' : Engine)
    (r : Result (Unit {0})) (v user_hash ip : String) (now : ℤ)
    → update_users c json added deleted modified (some users) g ≡ (r, g')
    → All (λ u. u.uuid ≢ v) users
    → lookup user_hash g'.embedded.user_hash_to_uuid ≡ some v
    → counter_for_user_hash user_hash ip now g'.embedded ≡ (none, g'.embedded)
unfolding update_users replace_users_locked
update_users-revokes c json added deleted modified users g g' r v user_hash ip now done absent
      hashed =
    let gone : lookup v (replaced users g.embedded).users ≡ none =
      replaced-absent v users g.embedded absent in
    let same = (rebuild-same c json (replaced users g.embedded) g.store).0 in
    let here : lookup v g'.embedded.users ≡ none =
      subst (λ x. lookup v x.1.embedded.users ≡ none) done (ap (lookup v) same ∙ gone) in
    refused user_hash ip v now g'.embedded hashed here

-- What `counterForUserHash` changes for a connection that it lets in, on well-formed counters: the
-- connection gets the pointer that the map holds for the user; the user is online from now on, at
-- the given address; nobody's traffic changes, and no user does.
pub counter_for_user_hash-admits :
    (user_hash ip : String) (now : ℤ) (e e' : Embedded) (a : Admitted)
    → IsHeap e.counters
    → counter_for_user_hash user_hash ip now e ≡ (some a, e')
    → (lookup a.uuid e'.counters.table ≡ some a.counter)
      × (lookup a.uuid e'.online ≡ some (record { seen_at = now; ip = ip }))
      × ((v : String) → traffic v e' ≡ traffic v e)
      × (e'.users ≡ e.users)
counter_for_user_hash-admits user_hash ip now e e' a h done =
    let k = known user_hash ip now e (λ refused. absurd (ground (arith, done, refused))) in
    let same : admit k.uuid k.user ip now e ≡ (some a, e') =
      sym (admits user_hash ip now e k) ∙ done in
    subst (Effects e ip now) same (admit-Effects k.uuid k.user ip now e h)
