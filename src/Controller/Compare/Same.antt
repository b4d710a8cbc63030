-- ===== src/Controller/Compare/Same.antt =====
-- internal/controller/controller.go: what `compareUserList` does not see.
use v2sudoku.Prelude.{
  ◌≡◌, refl, ap, sym, ◌∙◌, String, List, [], ◌∷◌, true, false, none, some, ◌==◌, string_eq, int_eq,
  arith, Bool-cases, Option-cases, inl, inr, str_eq_iff, int_beq_iff, All,
}
use v2sudoku.Dict.{lookup, delete}
use v2sudoku.Dict.Laws.{lookup-delete}
use v2sudoku.Panel.{UserInfo}
use v2sudoku.Controller.Compare.{
  fill_old_map, differs, compare_loop, users_of_map, compare_user_list, IsSame, occurs,
  lookup-compare_loop,
}
use v2sudoku.Controller.Compare.Deleted.{find_last, lookup-old_map}

-- No UUID stands twice.
abbrev pub IsDistinct : List UserInfo → Type 0
IsDistinct [] = Unit
IsDistinct (u ∷ us) = (occurs u.uuid us ≡ false) × IsDistinct us

-- The user of the old list under a UUID has the same email and limits; the IDs may differ.
abbrev pub IsKept : List UserInfo → UserInfo → Type 0
IsKept old_users user = (x : UserInfo) × (find_last user.uuid old_users ≡ some x) × IsSame x user

IsSame-differs : (x user : UserInfo) → IsSame x user → differs x user ≡ false
IsSame-differs x user h = ground (
  arith,
  h.email,
  h.speed_limit,
  h.device_limit,
  str_eq_iff x.email user.email,
  int_beq_iff x.speed_limit user.speed_limit,
  int_beq_iff x.device_limit user.device_limit,
)

abbrev IsHeld : List (String × UserInfo) → UserInfo → Type 0
IsHeld m user = (x : UserInfo) × (lookup user.uuid m ≡ some x) × (differs x user ≡ false)

delete-IsHeld :
    (v : String) (m : List (String × UserInfo)) (users : List UserInfo)
    → occurs v users ≡ false
    → All (IsHeld m) users
    → All (IsHeld (delete v m)) users
unfolding occurs
delete-IsHeld v m [] h k = tt
delete-IsHeld v m (u ∷ us) h ((x, found, same), k) =
    let other : (v == u.uuid) ≡ false =
      ground (arith, h, str_eq_iff v u.uuid, str_eq_iff u.uuid v) in
    let rest : occurs v us ≡ false = ground (arith, h) in
    ((x, lookup-delete v u.uuid m ∙ rw other found, same), delete-IsHeld v m us rest k)

compare_loop-quiet :
    (users : List UserInfo) (m : List (String × UserInfo))
    → IsDistinct users
    → All (IsHeld m) users
    → ((compare_loop users m).added ≡ []) × ((compare_loop users m).modified ≡ [])
unfolding compare_loop
compare_loop-quiet [] m d h = (refl, refl)
compare_loop-quiet (u ∷ us) m d ((x, found, same), h) =
    simp (found, same)
      (compare_loop-quiet us (delete u.uuid m) d.1 (delete-IsHeld u.uuid m us d.0 h))

IsKept-IsHeld :
    (old_users users : List UserInfo)
    → All (IsKept old_users) users
    → All (IsHeld (fill_old_map old_users [])) users
IsKept-IsHeld old_users [] h = tt
IsKept-IsHeld old_users (u ∷ us) ((x, found, same), h) = (
  (x, lookup-old_map u.uuid old_users ∙ found, IsSame-differs x u same),
  IsKept-IsHeld old_users us h,
)

abbrev pub OccursIn : List UserInfo → UserInfo → Type 0
OccursIn users u = occurs u.uuid users ≡ true

found-occurs :
    (v : String) (new_users users : List UserInfo) (x : UserInfo)
    → All (OccursIn new_users) users
    → find_last v users ≡ some x
    → occurs v new_users ≡ true
unfolding find_last
found-occurs v new_users [] x h found = absurd (cc found)
found-occurs v new_users (u ∷ us) x h found = elim (Option-cases (find_last v us)) [
  | inr (y, later) ↦ found-occurs v new_users us y h.1 later
  | inl none_later ↦ elim (Bool-cases (u.uuid == v)) [
    | inl same ↦ sym (ap (λ w. occurs w new_users) ((str_eq_iff u.uuid v).0 same)) ∙ h.0
    | inr other ↦ absurd (cc (simp (none_later, other) at found))
  ]
]

empty_map :
    (m : List (String × UserInfo)) → ((v : String) → lookup v m ≡ none) → users_of_map m ≡ []
unfolding lookup
empty_map [] h = refl
empty_map ((k, u) ∷ m) h = absurd (ground (arith, h k, str_eq_iff k k))

-- If the new list has each UUID once and the same UUIDs as the old one, and each of its users has the email
-- and the limits that the old list has last for the UUID, then nothing is reported, in whatever order
-- the users stand and whatever their IDs have become.
pub compare_user_list-id :
    (old_users new_users : List UserInfo)
    → IsDistinct new_users
    → All (IsKept old_users) new_users
    → All (OccursIn new_users) old_users
    → compare_user_list old_users new_users ≡ record { deleted = []; added = []; modified = [] }
unfolding compare_user_list
compare_user_list-id old_users new_users distinct kept all_there =
    let m = fill_old_map old_users [] in
    let (added, modified) =
      compare_loop-quiet new_users m distinct (IsKept-IsHeld old_users new_users kept) in
    let left : (v : String) → lookup v (compare_loop new_users m).old_map ≡ none = λ v.
      lookup-compare_loop v new_users m ∙ elim (Bool-cases (occurs v new_users)) [
        | inl there ↦ rw there refl
        | inr gone ↦ rw gone (elim (Option-cases (find_last v old_users)) [
          | inl missing ↦ lookup-old_map v old_users ∙ missing
          | inr (x, found) ↦
              absurd (cc (found-occurs v new_users old_users x all_there found, gone))
        ])
      ] in
    let deleted = empty_map (compare_loop new_users m).old_map left in
    λ i. record { deleted = deleted i; added = added i; modified = modified i }
