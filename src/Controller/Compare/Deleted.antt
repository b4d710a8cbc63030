-- ===== src/Controller/Compare/Deleted.antt =====
-- internal/controller/controller.go: whom `compareUserList` reports as deleted.
use v2sudoku.Prelude.{
  ◌≡◌, refl, ap, sym, ◌∙◌, String, List, [], ◌∷◌, Bool, true, false, Option, none, some, ◌==◌,
  string_eq, if◌then◌else◌, arith, Bool-cases, inl, inr, str_eq_iff,
}
use v2sudoku.Dict.{lookup, insert, IsMap}
use v2sudoku.Dict.Laws.{lookup-insert}
use v2sudoku.Panel.{UserInfo}
use v2sudoku.Controller.Compare.{
  fill_old_map, fill_old_map-IsKeyed, fill_old_map-IsMap, compare_loop, users_of_map,
  compare_user_list, IsKeyed, occurs, lookup-empty-IsKeyed, lookup-compare_loop,
  compare_loop-IsKeyed,
}

abbrev or_else : Option UserInfo → Option UserInfo → Option UserInfo
or_else none o = o
or_else (some u) o = some u

-- The last user of a list with a UUID.
unfoldable pub find_last : String → List UserInfo → Option UserInfo
find_last v [] = none
find_last v (u ∷ us) = or_else (find_last v us) (if u.uuid == v then some u else none)

-- The users of a list with a UUID.
unfoldable pub with_uuid : String → List UserInfo → List UserInfo
with_uuid v [] = []
with_uuid v (u ∷ us) = let rest = with_uuid v us in if u.uuid == v then u ∷ rest else rest

abbrev pub list_of : Option UserInfo → List UserInfo
list_of none = []
list_of (some u) = u ∷ []

or_else-if :
    (a o : Option UserInfo) (b : Bool) (u : UserInfo)
    → or_else a (if b then some u else o) ≡ or_else (or_else a (if b then some u else none)) o
or_else-if none o true u = refl
or_else-if none o false u = refl
or_else-if (some x) o b u = refl

lookup-fill_old_map :
    (v : String) (users : List UserInfo) (m : List (String × UserInfo))
    → lookup v (fill_old_map users m) ≡ or_else (find_last v users) (lookup v m)
unfolding fill_old_map find_last
lookup-fill_old_map v [] m = refl
lookup-fill_old_map v (u ∷ us) m =
    lookup-fill_old_map v us (insert u.uuid u m)
    ∙ ap (or_else (find_last v us)) (lookup-insert u.uuid v u m)
    ∙ or_else-if (find_last v us) (lookup v m) (u.uuid == v) u

or_else-none : (o : Option UserInfo) → or_else o none ≡ o
or_else-none none = refl
or_else-none (some u) = refl

pub lookup-old_map :
    (v : String) (users : List UserInfo) → lookup v (fill_old_map users []) ≡ find_last v users
unfolding lookup
lookup-old_map v users = lookup-fill_old_map v users [] ∙ or_else-none (find_last v users)

with_uuid-users_of_map :
    (v : String) (m : List (String × UserInfo))
    → IsKeyed m
    → IsMap m
    → with_uuid v (users_of_map m) ≡ list_of (lookup v m)
unfolding with_uuid lookup
with_uuid-users_of_map v [] keyed h = refl
with_uuid-users_of_map v ((k, u) ∷ m) keyed h =
    let own : u.uuid ≡ k = keyed k u (ground (arith, str_eq_iff k k)) in
    let tail : IsKeyed m =
      λ uuid user found. keyed uuid user (ground (arith, found, h.0, str_eq_iff k uuid)) in
    let rest = with_uuid-users_of_map v m tail h.1 in
    elim (Bool-cases (k == v)) [
      | inl same ↦
          let gone : lookup v m ≡ none =
            sym (ap (λ x. lookup x m) ((str_eq_iff k v).0 same)) ∙ h.0 in
          let named : (u.uuid == v) ≡ true = ap (λ x. x == v) own ∙ same in
          simp (same, named) (ap (λ us. u ∷ us) (rest ∙ ap list_of gone))
      | inr other ↦
          let named : (u.uuid == v) ≡ false = ap (λ x. x == v) own ∙ other in
          simp (other, named) rest
    ]

-- For every UUID: if no user of the new list has it, then the one user that is reported as deleted under
-- it is the last one of the old list that has it, if there is one; otherwise none is reported.
pub compare_user_list-deleted :
    (old_users new_users : List UserInfo) (v : String)
    → with_uuid v (compare_user_list old_users new_users).deleted
      ≡ (if occurs v new_users then [] else list_of (find_last v old_users))
unfolding compare_user_list
compare_user_list-deleted old_users new_users v =
    let m = fill_old_map old_users [] in
    let (keyed, map) =
      compare_loop-IsKeyed new_users m (fill_old_map-IsKeyed old_users [] lookup-empty-IsKeyed)
        (fill_old_map-IsMap old_users [] tt) in
    let left = lookup-compare_loop v new_users m in
    with_uuid-users_of_map v (compare_loop new_users m).old_map keyed map
    ∙ ap list_of left
    ∙ elim (Bool-cases (occurs v new_users)) [
      | inl there ↦ rw there refl
      | inr gone ↦ rw gone (ap list_of (lookup-old_map v old_users))
    ]
