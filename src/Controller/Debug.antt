-- ===== src/Controller/Debug.antt =====
-- internal/controller/controller.go: `SortedUserHashes`.
use v2sudoku.Prelude.{
  ℤ, pos, ◌≡◌, ◌≢◌, refl, sym, ◌∙◌, String, string_eq, List, [], ◌∷◌, Option, none, some, map, ◌==◌,
  str_eq_iff, Option-cases, Bool-cases, inl, inr, All, Any, ap, arith, ◌⊎◌,
}
use v2sudoku.Dict.{lookup, insert}
use v2sudoku.Dict.Laws.{lookup-insert}
use v2sudoku.Text.Order.{sort_strings, sort_strings-All, sort_strings-Any}

-- `raw[key]`
abbrev id_of : Option ℤ → ℤ
id_of none = pos 0
id_of (some id) = id

-- The loop over the sorted keys.
unfoldable pub copy_keys : List (String × ℤ) → List String → List (String × ℤ) → List (String × ℤ)
copy_keys raw [] out = out
copy_keys raw (key ∷ keys) out = copy_keys raw keys (insert key (id_of (lookup key raw)) out)

-- The map that a server has for it, if it has one.
unfoldable pub sorted_user_hashes : Option (List (String × ℤ)) → Option (List (String × ℤ))
unfolding copy_keys
sorted_user_hashes none = none
sorted_user_hashes (some raw) = some (copy_keys raw (sort_strings (map (λ e. e.0) raw)) [])

abbrev keys_of : List (String × ℤ) → List String
keys_of raw = map (λ e. e.0) raw

keys_of-Any :
    (key : String) (id : ℤ) (raw : List (String × ℤ))
    → lookup key raw ≡ some id
    → Any (λ k. k ≡ key) (keys_of raw)
unfolding lookup
keys_of-Any key id [] h = absurd (cc h)
keys_of-Any key id ((k, v) ∷ raw) h = elim (Bool-cases (k == key)) [
  | inl same ↦ inl ((str_eq_iff k key).0 same)
  | inr other ↦ inr (keys_of-Any key id raw (simp other at h))
]

module _ (raw : List (String × ℤ)) (key : String) where
  abbrev IsOther : String → Type 0
  IsOther k = k ≢ key

  keys_of-All : (m : List (String × ℤ)) → lookup key m ≡ none → All IsOther (keys_of m)
  unfolding lookup
  keys_of-All [] h = tt
  keys_of-All ((k, v) ∷ m) h = elim (Bool-cases (k == key)) [
    | inl same ↦ absurd (cc (simp same at h))
    | inr other ↦ (
      (λ e. absurd (ground (arith, other, (str_eq_iff k key).1 e))),
      keys_of-All m (simp other at h),
    )
  ]

  insert-other :
      (k : String) (v : ℤ) (out : List (String × ℤ))
      → k ≢ key
      → lookup key (insert k v out) ≡ lookup key out
  insert-other k v out ne = elim (Bool-cases (k == key)) [
    | inl same ↦ absurd (ne ((str_eq_iff k key).0 same))
    | inr other ↦ lookup-insert k key v out ∙ rw other refl
  ]

  copy_keys-others :
      (keys : List String) (out : List (String × ℤ))
      → All IsOther keys
      → lookup key (copy_keys raw keys out) ≡ lookup key out
  unfolding copy_keys
  copy_keys-others [] out h = refl
  copy_keys-others (k ∷ keys) out h =
      copy_keys-others keys (insert k (id_of (lookup k raw)) out) h.1 ∙ insert-other k _ out h.0

  copy_keys-own :
      (id : ℤ) (keys : List String) (out : List (String × ℤ))
      → lookup key raw ≡ some id
      → (lookup key out ≡ some id) ⊎ Any (λ k. k ≡ key) keys
      → lookup key (copy_keys raw keys out) ≡ some id
  unfolding copy_keys
  copy_keys-own id [] out there (inl held) = held
  copy_keys-own id [] out there (inr none_left) = absurd none_left
  copy_keys-own id (k ∷ keys) out there h =
      copy_keys-own id keys _ there (elim (Bool-cases (k == key)) [
        | inl same ↦
            let e = (str_eq_iff k key).0 same in
            inl (
              lookup-insert k key _ out
              ∙ rw same (ap (λ o. some (id_of o)) (ap (λ x. lookup x raw) e ∙ there)))
        | inr other ↦ elim h [
          | inl held ↦ inl (lookup-insert k key _ out ∙ rw other held)
          | inr (inl e) ↦ absurd (ground (arith, other, (str_eq_iff k key).1 e))
          | inr (inr more) ↦ inr more
        ]
      ])

  -- The map that `SortedUserHashes` makes has what the map of the server has: since it is a map again, the
  -- sorting leaves nothing behind.
  pub sorted_user_hashes_lem :
      (sorted : List (String × ℤ))
      → sorted_user_hashes (some raw) ≡ some sorted
      → lookup key sorted ≡ lookup key raw
  unfolding sorted_user_hashes lookup
  sorted_user_hashes_lem sorted h =
      let keys = sort_strings (keys_of raw) in
      let same : copy_keys raw keys [] ≡ sorted = cc h in
      ap (lookup key) (sym same) ∙ elim (Option-cases (lookup key raw)) [
        | inl gone ↦
            copy_keys-others keys [] (sort_strings-All IsOther _ (keys_of-All raw gone)) ∙ sym gone
        | inr (id, there) ↦
            copy_keys-own id keys [] there
              (inr (sort_strings-Any _ _ (keys_of-Any key id raw there)))
            ∙ sym there
      ]
