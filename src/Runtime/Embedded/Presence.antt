-- ===== src/Runtime/Embedded/Presence.antt =====
-- internal/runtime/embedded.go: who counts as online.
use v2sudoku.Prelude.{
  ◌≡◌, refl, subst, ◌∙◌, ap, ℤ, String, List, [], ◌∷◌, ◌++◌, true, Option, none, some, ◌==◌,
  string_eq, str_eq_iff, if◌then◌else◌, arith, Bool-cases, inl, inr, ltb_ℤ,
}
use v2sudoku.Dict.{lookup, IsMap}
use v2sudoku.Runtime.Embedded.{
  Embedded, OnlineState, cutoff_of, online_row, online_rows, drop_stale, get_online_device,
}

-- A state that the cutoff leaves.
abbrev pub fresh : ℤ → Option OnlineState → Option OnlineState
fresh cutoff none = none
fresh cutoff (some state) = if ltb_ℤ state.seen_at cutoff then none else some state

lookup-drop_stale :
    (cutoff : ℤ) (v : String) (m : List (String × OnlineState))
    → IsMap m
    → lookup v (drop_stale cutoff m) ≡ fresh cutoff (lookup v m)
unfolding lookup drop_stale
lookup-drop_stale cutoff v [] h = refl
lookup-drop_stale cutoff v ((uuid, state) ∷ m) h =
    let gone : (uuid == v) ≡ true → lookup v m ≡ none =
      λ same. subst (λ w. lookup w m ≡ none) ((str_eq_iff uuid v).0 same) h.0 in
    elim (Bool-cases (uuid == v)) [
      | inl same ↦ elim (Bool-cases (ltb_ℤ state.seen_at cutoff)) [
        | inl stale ↦ ground (arith, same, stale, lookup-drop_stale cutoff v m h.1, gone same)
        | inr seen ↦ ground (arith, same, seen)
      ]
      | inr other ↦ ground (arith, other, lookup-drop_stale cutoff v m h.1)
    ]

online_rows-record :
    (online : List (String × OnlineState)) (cutoff : ℤ) (e : Embedded)
    (m : List (String × OnlineState))
    → online_rows cutoff (record e { online = online }) m ≡ online_rows cutoff e m
unfolding online_rows online_row
online_rows-record online cutoff e [] = refl
online_rows-record online cutoff e ((uuid, state) ∷ m) =
    ap (◌++◌ (if ltb_ℤ state.seen_at cutoff then [] else online_row e uuid state))
      (online_rows-record online cutoff e m)

rows-drop_stale :
    (cutoff : ℤ) (e : Embedded) (m : List (String × OnlineState))
    → online_rows cutoff e (drop_stale cutoff m) ≡ online_rows cutoff e m
unfolding online_rows drop_stale
rows-drop_stale cutoff e [] = refl
rows-drop_stale cutoff e ((uuid, state) ∷ m) = elim (Bool-cases (ltb_ℤ state.seen_at cutoff)) [
  | inl stale ↦ rw stale (rows-drop_stale cutoff e m)
  | inr seen ↦ rw (seen, seen) (ap (◌++◌ (online_row e uuid state)) (rows-drop_stale cutoff e m))
]

drop_stale_again :
    (cutoff : ℤ) (m : List (String × OnlineState))
    → drop_stale cutoff (drop_stale cutoff m) ≡ drop_stale cutoff m
unfolding drop_stale
drop_stale_again cutoff [] = refl
drop_stale_again cutoff ((uuid, state) ∷ m) = elim (Bool-cases (ltb_ℤ state.seen_at cutoff)) [
  | inl stale ↦ rw stale (drop_stale_again cutoff m)
  | inr seen ↦ rw (seen, seen) (ap (◌∷◌ (uuid, state)) (drop_stale_again cutoff m))
]

-- If no user stands twice in the map, then after `GetOnlineDevice` a user is online just as before
-- if it was last seen at or after the cutoff, and not at all otherwise.
pub get_online_device-lookup :
    (now : ℤ) (v : String) (e : Embedded)
    → IsMap e.online
    → lookup v (get_online_device now e).1.online
      ≡ fresh (cutoff_of now e.node.push_interval) (lookup v e.online)
unfolding get_online_device
get_online_device-lookup now v e h =
    lookup-drop_stale (cutoff_of now e.node.push_interval) v e.online h

-- A second `GetOnlineDevice` at the same time returns the rows of the first, and leaves the engine
-- as the first left it.
pub get_online_device_again :
    (now : ℤ) (e : Embedded)
    → get_online_device now (get_online_device now e).1 ≡ get_online_device now e
unfolding get_online_device drop_stale
get_online_device_again now e =
    let cutoff = cutoff_of now e.node.push_interval in
    let kept = drop_stale cutoff e.online in
    let rows : online_rows cutoff (record e { online = kept }) kept
        ≡ online_rows cutoff e e.online =
      online_rows-record kept cutoff e kept ∙ rows-drop_stale cutoff e e.online in
    ap (λ r. (r, record e { online = drop_stale cutoff kept })) rows
    ∙ ap (λ o. (online_rows cutoff e e.online, record e { online = o }))
        (drop_stale_again cutoff e.online)
