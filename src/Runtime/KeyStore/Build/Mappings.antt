-- ===== src/Runtime/KeyStore/Build/Mappings.antt =====
-- internal/runtime/key_store.go: `BuildMappings` on a store that has read its file, by its loop and its
-- end.
use v2sudoku.Prelude.{
  ◌≡◌, refl, ◌∙◌, inl, inr, String, List, [], ◌∷◌, ◌&&◌, string_eq, some, arith, Bool-cases,
  sort_by,
}
use v2sudoku.Dict.{insert}
use v2sudoku.Text.{is_empty}
use v2sudoku.Text.Decimal.{itoa}
use v2sudoku.Panel.{NodeInfo, UserInfo}
use v2sudoku.Runtime.KeyStore.Derive.{Crypto, ok}
use v2sudoku.Runtime.KeyStore.State.{Json, ClientKeyStore, Users, users_of, ◌>>=◌, load_file_locked}
use v2sudoku.Runtime.KeyStore.File.{save_file_locked-atomic}
use v2sudoku.Runtime.KeyStore.Build.{
  UserKey, Round, text_at, uses_file, normalized_client_key_source, resolve_key_locked, build_round,
  build_loop, build_mappings, remember_key, use_key, finish,
}
use v2sudoku.Runtime.KeyStore.Build.Rounds.{
  resolve-frame, build_round_cases, build_loop_state, build_round_cases,
}

module _ (c : Crypto) (json : Json) where
  load_loaded :
      (s : ClientKeyStore) {m : Users} → s.users ≡ some m → load_file_locked json s ≡ (ok tt, s)
  unfolding load_file_locked
  load_loaded s e = rw e

  pub build_mappings_loaded :
      (node : NodeInfo) (users : List UserInfo) (s : ClientKeyStore) {m : Users}
      → s.users ≡ some m
      → build_mappings c json node users s
        ≡ (build_loop c node (normalized_client_key_source s.cfg.client_key_source) users
              >>= finish c json)
            s
  unfolding build_mappings
  build_mappings_loaded node users s e =
      elim (Bool-cases (uses_file (normalized_client_key_source s.cfg.client_key_source))) [
        | inl file ↦ rw (file, load_loaded s e)
        | inr no_file ↦ rw no_file
      ]

  pub finish-frame :
      (r : Round) (s : ClientKeyStore)
      → ((finish c json r s).1.users ≡ s.users)
        × ((finish c json r s).1.cfg ≡ s.cfg)
        × ((finish c json r s).1.draws ≡ s.draws)
  unfolding finish
  finish-frame r s =
      let (_, users, cfg, draws) = save_file_locked-atomic json s in
      ground (arith, users, cfg, draws)

  -- Every key that is returned comes out of the loop, sorted by UID.
  pub finish-ok :
      (r : Round) (s s' : ClientKeyStore) (keys : List UserKey)
      → finish c json r s ≡ (ok keys, s')
      → keys ≡ sort_by (λ k. k.uid) r.keys
  unfolding finish
  finish-ok r s s' keys e = ground arith

abbrev pub IsLoaded : ClientKeyStore → Type 0
IsLoaded s = (m : Users) × (s.users ≡ some m)

module _ (c : Crypto) (node : NodeInfo) where
  use_key-IsLoaded :
      (source : String) (user : UserInfo) (key : String) (s : ClientKeyStore)
      → IsLoaded s
      → IsLoaded (use_key c user source key s).1
  unfolding use_key remember_key
  use_key-IsLoaded source user key s (m, h) = elim (Bool-cases (is_empty key)) [
    | inl none_given ↦ rw none_given (m, h)
    | inr given ↦
        elim (Bool-cases (uses_file source && is_empty (text_at (itoa user.id) (users_of s)))) [
          | inl fresh ↦ rw (given, fresh) (insert (itoa user.id) key (users_of s), refl)
          | inr old ↦ rw (given, old) (m, h)
        ]
  ]

  build_round-IsLoaded :
      (source : String) (user : UserInfo) (s : ClientKeyStore)
      → IsLoaded s
      → IsLoaded (build_round c node source user s).1
  build_round-IsLoaded source user s (m, h) =
      let s1 = (resolve_key_locked c node user source s).1 in
      let same : IsLoaded s1 = (m, (resolve-frame c node user source s).1 ∙ h) in
      build_round_cases c node IsLoaded source user s same
        (λ key _. use_key-IsLoaded source user key s1 same)

  pub build_loop-IsLoaded :
      (source : String) (users : List UserInfo) (s : ClientKeyStore)
      → IsLoaded s
      → IsLoaded (build_loop c node source users s).1
  build_loop-IsLoaded source [] s h = unfold build_loop in h
  build_loop-IsLoaded source (u ∷ us) s h =
      let s1 = (build_round c node source u s).1 in
      let first = build_round-IsLoaded source u s h in
      elim (build_loop_state c node source u us s) [
        | inl e ↦ rw e first
        | inr e ↦ rw e (build_loop-IsLoaded source us s1 first)
      ]
