-- ===== src/Controller/Compare.antt =====
-- internal/controller/controller.go: `compareUserList`, which turns two lists of users into changes.
pub mod Deleted
pub mod Same
use v2sudoku.Prelude.{
  ℤ, ◌≡◌, refl, ap, sym, ◌∙◌, subst, String, List, [], ◌∷◌, Bool, false, ◌||◌, not, Option, none,
  some, ◌==◌, int_eq, string_eq, if◌then◌else◌, arith, Bool-cases, inl, inr, int_beq_iff,
  str_eq_iff, All,
}
use v2sudoku.Dict.{lookup, insert, delete, IsMap}
use v2sudoku.Dict.Laws.{lookup-insert, lookup-delete, insert-IsMap, delete-IsMap}
use v2sudoku.Panel.{UserInfo}

-- The loop that fills `oldMap`: the last user with a UUID stands.
unfoldable pub fill_old_map : List UserInfo → List (String × UserInfo) → List (String × UserInfo)
fill_old_map [] m = m
fill_old_map (user ∷ users) m = fill_old_map users (insert user.uuid user m)

abbrev pub differs : UserInfo → UserInfo → Bool
differs existing user =
    not (existing.speed_limit == user.speed_limit)
    || not (existing.device_limit == user.device_limit)
    || not (existing.email == user.email)

pub record Changes : Type 0 where
  pub added : List UserInfo
  pub modified : List UserInfo
  pub old_map : List (String × UserInfo)

-- What one round of the loop over the new users adds to the lists.
abbrev pub prepend : Option UserInfo → UserInfo → Changes → Changes
prepend none user rest = record rest { added = user ∷ rest.added }
prepend (some existing) user rest =
    if differs existing user then record rest { modified = user ∷ rest.modified } else rest

-- The loop over the new users. A user that is found is taken out of `oldMap`, so a second one with
-- the same UUID counts as added.
unfoldable pub compare_loop : List UserInfo → List (String × UserInfo) → Changes
compare_loop [] m = record { added = []; modified = []; old_map = m }
compare_loop (user ∷ users) m =
    prepend (lookup user.uuid m) user (compare_loop users (delete user.uuid m))

abbrev pub users_of_map : List (String × UserInfo) → List UserInfo
users_of_map [] = []
users_of_map ((uuid, user) ∷ m) = user ∷ users_of_map m

pub record Comparison : Type 0 where
  pub deleted : List UserInfo
  pub added : List UserInfo
  pub modified : List UserInfo

unfoldable pub compare_user_list : List UserInfo → List UserInfo → Comparison
compare_user_list old_users new_users =
    let changes = compare_loop new_users (fill_old_map old_users []) in
    record {
      deleted = users_of_map changes.old_map;
      added = changes.added;
      modified = changes.modified;
    }

-- A user of the map, but for the ID.
pub record IsSame (existing user : UserInfo) : Type 0 where
  pub uuid : existing.uuid ≡ user.uuid
  pub email : existing.email ≡ user.email
  pub speed_limit : existing.speed_limit ≡ user.speed_limit
  pub device_limit : existing.device_limit ≡ user.device_limit

-- Each entry stands under its own UUID.
abbrev pub IsKeyed : List (String × UserInfo) → Type 0
IsKeyed m = (uuid : String) (user : UserInfo) → lookup uuid m ≡ some user → user.uuid ≡ uuid

fill_old_map-IsKeyed :
    (users : List UserInfo) (m : List (String × UserInfo))
    → IsKeyed m
    → IsKeyed (fill_old_map users m)
unfolding fill_old_map
fill_old_map-IsKeyed [] m h = h
fill_old_map-IsKeyed (u ∷ us) m h = fill_old_map-IsKeyed us (insert u.uuid u m) (λ uuid user found.
    ground (arith, lookup-insert u.uuid uuid u m, str_eq_iff u.uuid uuid, h uuid user, found))

delete-IsKeyed : (v : String) (m : List (String × UserInfo)) → IsKeyed m → IsKeyed (delete v m)
delete-IsKeyed v m h uuid user found = ground (arith, lookup-delete v uuid m, h uuid user, found)

-- A user of the list that the map holds unchanged.
abbrev pub Unchanged : List (String × UserInfo) → UserInfo → Type 0
Unchanged m user =
    (existing : UserInfo) × (lookup user.uuid m ≡ some existing) × IsSame existing user

differs-IsSame :
    (existing user : UserInfo)
    → existing.uuid ≡ user.uuid
    → differs existing user ≡ false
    → IsSame existing user
differs-IsSame existing user named h = record {
  uuid = named;
  email = ground (arith, h, str_eq_iff existing.email user.email);
  speed_limit = ground (arith, h, int_beq_iff existing.speed_limit user.speed_limit);
  device_limit = ground (arith, h, int_beq_iff existing.device_limit user.device_limit);
}

-- A round that reports nothing.
quiet :
    (user : UserInfo) (o : Option UserInfo) (rest : Changes)
    → (prepend o user rest).added ≡ []
    → (prepend o user rest).modified ≡ []
    → (existing : UserInfo) × (o ≡ some existing)
      × (differs existing user ≡ false)
      × (rest.added ≡ [])
      × (rest.modified ≡ [])
      × ((prepend o user rest).old_map ≡ rest.old_map)
quiet user none rest a m = absurd (cc)
quiet user (some existing) rest a m = elim (Bool-cases (differs existing user)) [
  | inl differs_ ↦ absurd (ground (arith, differs_, m))
  | inr same ↦ (existing, refl, same, rw same at a, rw same at m, rw same refl)
]

lookup-empty-IsKeyed : IsKeyed []
unfolding lookup
lookup-empty-IsKeyed uuid user found = absurd (cc)

-- A user found in what a deletion leaves was there before.
Unchanged-delete :
    (v : String) (m : List (String × UserInfo)) (user : UserInfo)
    → Unchanged (delete v m) user
    → Unchanged m user
Unchanged-delete v m user (existing, found, same) =
    (existing, ground (arith, lookup-delete v user.uuid m, found), same)

Unchanged-All :
    (v : String) (m : List (String × UserInfo)) (users : List UserInfo)
    → All (Unchanged (delete v m)) users
    → All (Unchanged m) users
Unchanged-All v m [] h = tt
Unchanged-All v m (u ∷ us) h = (Unchanged-delete v m u h.0, Unchanged-All v m us h.1)

compare_loop-Unchanged :
    (users : List UserInfo) (m : List (String × UserInfo))
    → IsKeyed m
    → (compare_loop users m).added ≡ []
    → (compare_loop users m).modified ≡ []
    → All (Unchanged m) users
unfolding compare_loop
compare_loop-Unchanged [] m keyed a mo = tt
compare_loop-Unchanged (u ∷ us) m keyed a mo =
    let (existing, found, same, a', mo', _) =
      quiet u (lookup u.uuid m) (compare_loop us (delete u.uuid m)) a mo in
    (
      (existing, found, differs-IsSame existing u (keyed u.uuid existing found) same),
      Unchanged-All u.uuid m us
          (compare_loop-Unchanged us (delete u.uuid m) (delete-IsKeyed u.uuid m keyed) a' mo'),
    )

-- If no user is reported as added or modified, each of the new users stands in the old list with the
-- same email and limits. The ID is not compared.
pub compare_user_list-Unchanged :
    (old_users new_users : List UserInfo)
    → (compare_user_list old_users new_users).added ≡ []
    → (compare_user_list old_users new_users).modified ≡ []
    → All (Unchanged (fill_old_map old_users [])) new_users
unfolding compare_user_list
compare_user_list-Unchanged old_users new_users a mo =
    compare_loop-Unchanged new_users (fill_old_map old_users [])
      (fill_old_map-IsKeyed old_users [] lookup-empty-IsKeyed) a mo

-- Whether some user of the list has the UUID.
unfoldable pub occurs : String → List UserInfo → Bool
occurs v [] = false
occurs v (u ∷ us) = u.uuid == v || occurs v us

prepend-old_map :
    (o : Option UserInfo) (u : UserInfo) (rest : Changes)
    → (prepend o u rest).old_map ≡ rest.old_map
prepend-old_map none u rest = refl
prepend-old_map (some existing) u rest = ground arith

lookup-compare_loop :
    (v : String) (users : List UserInfo) (m : List (String × UserInfo))
    → lookup v (compare_loop users m).old_map ≡ (if occurs v users then none else lookup v m)
unfolding compare_loop occurs
lookup-compare_loop v [] m = refl
lookup-compare_loop v (u ∷ us) m =
    ap (lookup v) (prepend-old_map (lookup u.uuid m) u (compare_loop us (delete u.uuid m)))
    ∙ lookup-compare_loop v us (delete u.uuid m)
    ∙ ground (arith, lookup-delete u.uuid v m)

compare_loop-IsKeyed :
    (users : List UserInfo) (m : List (String × UserInfo))
    → IsKeyed m
    → IsMap m
    → IsKeyed (compare_loop users m).old_map × IsMap (compare_loop users m).old_map
unfolding compare_loop
compare_loop-IsKeyed [] m h k = (h, k)
compare_loop-IsKeyed (u ∷ us) m h k =
    subst (λ x. IsKeyed x × IsMap x)
      (sym (prepend-old_map (lookup u.uuid m) u (compare_loop us (delete u.uuid m))))
      (compare_loop-IsKeyed us (delete u.uuid m) (delete-IsKeyed u.uuid m h)
        (delete-IsMap u.uuid m k))

fill_old_map-IsMap :
    (users : List UserInfo) (m : List (String × UserInfo)) → IsMap m → IsMap (fill_old_map users m)
unfolding fill_old_map
fill_old_map-IsMap [] m h = h
fill_old_map-IsMap (u ∷ us) m h =
    fill_old_map-IsMap us (insert u.uuid u m) (insert-IsMap u.uuid u m h)
