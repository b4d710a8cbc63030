-- ===== src/Runtime/Embedded/Traffic.antt =====
-- internal/runtime/embedded.go: changes of the users, and the traffic that has not been reported.
use v2sudoku.Prelude.{
  ℕ, ◌≡◌, refl, ◌∙◌, ap, ℤ, String, List, [], ◌∷◌, Option, none, some, nat_eq, int_eq, string_eq,
  Bool-cases, inl, inr,
}
use v2sudoku.Dict.{has}
use v2sudoku.Text.{is_empty}
use v2sudoku.Panel.{UserInfo}
use v2sudoku.Runtime.KeyStore.Derive.{Crypto}
use v2sudoku.Runtime.KeyStore.State.{Json}
use v2sudoku.Runtime.Counting.{traffic_of}
use v2sudoku.Runtime.Counting.Balance.{traffic_of-keep_counter, traffic_of-drop_idle}
use v2sudoku.Runtime.Embedded.{
  Embedded, Engine, put_user, put_users, drop_stranger, drop_strangers, replaced,
  upsert_user_locked, delete_user_locked, each, patched, replace_users_locked, update_users,
}
use v2sudoku.Runtime.Embedded.Shape.{
  IsShaped, put_user-IsShaped, upsert-eq-put, delete_user_locked-IsShaped, upsert-IsShaped,
  cleared-IsShaped, each-IsShaped, rebuild-same,
}

-- The upload and download that the engine holds for a user.
abbrev pub traffic : String → Embedded → ℤ × ℤ
traffic uuid e = traffic_of uuid e.counters

module _ (v : String) where
  traffic-put_user :
      (user : UserInfo) (e : Embedded) → IsShaped e → traffic v (put_user user e) ≡ traffic v e
  unfolding put_user
  traffic-put_user user e h = elim (Bool-cases (is_empty user.uuid)) [
    | inl blank ↦ rw blank
    | inr filled ↦ rw filled (traffic_of-keep_counter user.id user.uuid v e.counters h.heap)
  ]

  traffic-put_users :
      (users : List UserInfo) (e : Embedded)
      → IsShaped e
      → traffic v (put_users users e) ≡ traffic v e
  unfolding put_users
  traffic-put_users [] e h = refl
  traffic-put_users (u ∷ us) e h =
      traffic-put_users us (put_user u e) (put_user-IsShaped u e h) ∙ traffic-put_user u e h

  traffic-drop_stranger :
      (uuid : String) (e : Embedded) → traffic v (drop_stranger uuid e) ≡ traffic v e
  unfolding drop_stranger
  traffic-drop_stranger uuid e = elim (Bool-cases (has uuid e.users)) [
    | inl there ↦ rw there
    | inr gone ↦ rw gone (traffic_of-drop_idle uuid v e.counters)
  ]

  traffic-drop_strangers :
      (table : List (String × ℕ)) (e : Embedded) → traffic v (drop_strangers table e) ≡ traffic v e
  unfolding drop_strangers
  traffic-drop_strangers [] e = refl
  traffic-drop_strangers ((uuid, p) ∷ rest) e =
      traffic-drop_strangers rest (drop_stranger uuid e) ∙ traffic-drop_stranger uuid e

  traffic-replaced :
      (users : List UserInfo) (e : Embedded)
      → IsShaped e
      → traffic v (replaced users e) ≡ traffic v e
  unfolding replaced
  traffic-replaced users e h =
      let start = record e { users = [] } in
      traffic-drop_strangers (put_users users start).counters.table (put_users users start)
      ∙ traffic-put_users users start (cleared-IsShaped e h)

  traffic-delete :
      (user : UserInfo) (e : Embedded) → traffic v (delete_user_locked user e) ≡ traffic v e
  unfolding delete_user_locked
  traffic-delete user e = traffic_of-drop_idle user.uuid v e.counters

  traffic-each :
      (f : UserInfo → Embedded → Embedded)
      → ((user : UserInfo) (e : Embedded) → IsShaped e → IsShaped (f user e))
      → ((user : UserInfo) (e : Embedded) → IsShaped e → traffic v (f user e) ≡ traffic v e)
      → (users : List UserInfo) (e : Embedded) → IsShaped e
      → traffic v (each f users e) ≡ traffic v e
  traffic-each f keep same [] e h = refl
  traffic-each f keep same (u ∷ us) e h =
      traffic-each f keep same us (f u e) (keep u e h) ∙ same u e h

  traffic-upsert :
      (user : UserInfo) (e : Embedded)
      → IsShaped e
      → traffic v (upsert_user_locked user e) ≡ traffic v e
  traffic-upsert user e h = rw (upsert-eq-put user e) (traffic-put_user user e h)

  traffic-patched :
      (added deleted modified : List UserInfo) (e : Embedded)
      → IsShaped e
      → traffic v (patched added deleted modified e) ≡ traffic v e
  unfolding patched
  traffic-patched added deleted modified e h =
      let e1 = each delete_user_locked deleted e in
      let h1 = each-IsShaped delete_user_locked delete_user_locked-IsShaped deleted e h in
      let e2 = each upsert_user_locked added e1 in
      let h2 = each-IsShaped upsert_user_locked upsert-IsShaped added e1 h1 in
      traffic-each upsert_user_locked upsert-IsShaped traffic-upsert modified e2 h2
      ∙ traffic-each upsert_user_locked upsert-IsShaped traffic-upsert added e1 h1
      ∙ traffic-each delete_user_locked delete_user_locked-IsShaped
          (λ user x _. traffic-delete user x) deleted e h

-- On a well-formed engine, `UpdateUsers` leaves the unreported traffic of every UUID as it was: of
-- users that stay, that come and that go, on a full list and on changes, and also where it fails.
pub update_users-traffic :
    (c : Crypto) (json : Json) (added deleted modified : List UserInfo)
    (full : Option (List UserInfo)) (g : Engine) (uuid : String)
    → IsShaped g.embedded
    → traffic uuid (update_users c json added deleted modified full g).1.embedded
      ≡ traffic uuid g.embedded
unfolding update_users replace_users_locked
update_users-traffic c json added deleted modified (some users) g v h =
    ap (traffic_of v) (rebuild-same c json (replaced users g.embedded) g.store).1
    ∙ traffic-replaced v users g.embedded h
update_users-traffic c json added deleted modified none g v h =
    ap (traffic_of v) (rebuild-same c json (patched added deleted modified g.embedded) g.store).1
    ∙ traffic-patched v added deleted modified g.embedded h
