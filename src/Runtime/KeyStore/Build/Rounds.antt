-- ===== src/Runtime/KeyStore/Build/Rounds.antt =====
-- internal/runtime/key_store.go: one round of the loop of `BuildMappings`.
use v2sudoku.Prelude.{
  ◌≡◌, refl, ◌∙◌, ◌⊎◌, inl, inr, String, List, [], ◌∷◌, pos, ltb_ℤ, true, string_eq, str_eq_iff,
  Option, none, some, arith, Option-cases, length,
}
use v2sudoku.Panel.{NodeInfo, UserInfo}
use v2sudoku.Runtime.KeyStore.Derive.{Crypto, Result, ok, err}
use v2sudoku.Runtime.KeyStore.State.{ClientKeyStore, users_of, after}
use v2sudoku.Runtime.KeyStore.Build.{
  uses_file, resolve_key_locked, build_round, build_loop, remember_key, generate_key, split_drawn,
  file_key, use_key,
}

-- Resolving a key and looping change neither the configuration nor the disk.
pub record SameFrame (s s' : ClientKeyStore) : Type 0 where
  pub cfg : s'.cfg ≡ s.cfg
  pub disk : s'.disk ≡ s.disk

module _ (c : Crypto) (node : NodeInfo) where
  split_drawn-frame :
      (o : Option String) (s : ClientKeyStore)
      → (SameFrame s (split_drawn c o s).1) × ((split_drawn c o s).1.users ≡ s.users)
  unfolding split_drawn
  split_drawn-frame none s = (record { cfg = refl; disk = refl }, refl)
  split_drawn-frame (some k) s = (record { cfg = refl; disk = refl }, refl)

  pub generate_key-frame :
      (s : ClientKeyStore)
      → (SameFrame s (generate_key c node s).1) × ((generate_key c node s).1.users ≡ s.users)
  unfolding generate_key
  generate_key-frame s =
      elim (Option-cases (c.parse_private_scalar node.encryption_settings.master_private_key)) [
        | inl bad ↦ ground arith
        | inr (m, good) ↦ ground (arith, split_drawn-frame (c.split_private_key m s.draws) s)
      ]

  pub resolve-frame :
      (user : UserInfo) (source : String) (s : ClientKeyStore)
      → (SameFrame s (resolve_key_locked c node user source s).1)
        × ((resolve_key_locked c node user source s).1.users ≡ s.users)
  unfolding resolve_key_locked file_key
  resolve-frame user source s = ground (arith, generate_key-frame s)

  -- A round ends where its key failed to resolve, or goes on with the key.
  pub build_round_cases {ℓ} :
      (P : ClientKeyStore → Type ℓ) (source : String) (user : UserInfo) (s : ClientKeyStore)
      → P (resolve_key_locked c node user source s).1
      → ((key : String)
          → resolve_key_locked c node user source s
            ≡ (ok key, (resolve_key_locked c node user source s).1)
          → P (use_key c user source key (resolve_key_locked c node user source s).1).1)
      → P (build_round c node source user s).1
  unfolding build_round
  build_round_cases P source user s stops goes = go (resolve_key_locked c node user source s).0 refl
    where
      go :
          (r : Result String)
          → (resolve_key_locked c node user source s).0 ≡ r
          → P (after r (resolve_key_locked c node user source s).1 (use_key c user source)).1
      go (ok key) e = goes key (λ i. (e i, (resolve_key_locked c node user source s).1))
      go (err x) e = stops

  use_key-frame :
      (source : String) (user : UserInfo) (key : String) (s : ClientKeyStore)
      → SameFrame s (use_key c user source key s).1
  unfolding use_key remember_key
  use_key-frame source user key s = ground arith

  pub build_round-frame :
      (source : String) (user : UserInfo) (s : ClientKeyStore)
      → SameFrame s (build_round c node source user s).1
  build_round-frame source user s =
      let (same, _) = resolve-frame user source s in
      build_round_cases (SameFrame s) source user s same (λ key _.
        let next = use_key-frame source user key (resolve_key_locked c node user source s).1 in
        record { cfg = next.cfg ∙ same.cfg; disk = next.disk ∙ same.disk })

  -- The loop ends where its first round failed, or goes on from there.
  pub build_loop_state :
      (source : String) (u : UserInfo) (us : List UserInfo) (s : ClientKeyStore)
      → (let s1 = (build_round c node source u s).1 in
          ((build_loop c node source (u ∷ us) s).1 ≡ s1)
          ⊎ ((build_loop c node source (u ∷ us) s).1 ≡ (build_loop c node source us s1).1))
  unfolding build_loop
  build_loop_state source u us s = ground arith

  pub build_loop-frame :
      (source : String) (users : List UserInfo) (s : ClientKeyStore)
      → SameFrame s (build_loop c node source users s).1
  unfolding build_loop
  build_loop-frame source [] s = record { cfg = refl; disk = refl }
  build_loop-frame source (u ∷ us) s = ground (
    arith,
    build_round-frame source u s,
    build_loop-frame source us (build_round c node source u s).1,
  )

  -- A key is generated only while the file has room.
  pub generate_key-room :
      (s : ClientKeyStore) (key : String)
      → (generate_key c node s).0 ≡ ok key
      → ltb_ℤ (pos (length (users_of s))) s.cfg.max_client_key_file_users ≡ true
  unfolding generate_key
  generate_key-room s key e = ground arith

uses_file-cases :
    (source : String) → uses_file source ≡ true → (source ≡ "auto") ⊎ (source ≡ "file")
uses_file-cases source h = ground (arith, str_eq_iff source "auto", str_eq_iff source "file")

pub resolve-file_key :
    (c : Crypto) (node : NodeInfo) (user : UserInfo) (source : String) (s : ClientKeyStore)
    → uses_file source ≡ true
    → resolve_key_locked c node user source s ≡ file_key c node user source s
unfolding resolve_key_locked
resolve-file_key c node user source s h = elim (uses_file-cases source h) [
  | inl e ↦ rw e
  | inr e ↦ rw e
]
