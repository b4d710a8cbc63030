-- ===== src/Runtime/KeyStore/Build/Entries.antt =====
-- internal/runtime/key_store.go: the entries that `BuildMappings` returns, and the size of the map that
-- it leaves.
use v2sudoku.Prelude.{
  ℕ, ◌≡◌, refl, subst, inl, inr, String, List, [], ◌∷◌, ◌++◌, false, ◌||◌, ◌&&◌, string_eq,
  Bool-cases, All, All-append, Any, if◌then◌else◌, sort_by-All, sort_by-IsSortedBy, IsSortedBy,
}
use v2sudoku.Text.{is_empty}
use v2sudoku.Text.Decimal.{itoa}
use v2sudoku.Panel.{NodeInfo, UserInfo}
use v2sudoku.Runtime.KeyStore.Derive.{Crypto, Result, ok, err, user_hash_hex}
use v2sudoku.Runtime.KeyStore.State.{
  Json, ClientKeyStore, users_of, M, pure, ◌>>=◌, >>=-ok, after, load_file_locked,
}
use v2sudoku.Runtime.KeyStore.Build.{
  UserKey, Round, text_at, uses_file, normalized_client_key_source, resolve_key_locked, build_round,
  build_loop, build_mappings, remember_key, use_key, finish,
}
use v2sudoku.Runtime.KeyStore.Build.Mappings.{
  IsLoaded, build_mappings_loaded, finish-frame, finish-ok,
}
use v2sudoku.Runtime.KeyStore.Build.Limit.{Fits, Fits-transport, build_loop-Fits}

-- An entry carries a user's numbers, a key that is not empty, and that key's hash.
pub record IsEntryOf (c : Crypto) (k : UserKey) (user : UserInfo) : Type 0 where
  pub uid : k.uid ≡ user.id
  pub uuid : k.uuid ≡ user.uuid
  pub key : is_empty k.key ≡ false
  pub user_hash : k.user_hash ≡ user_hash_hex c k.key

module _ (c : Crypto) (node : NodeInfo) where
  -- What a round that succeeds returns.
  abbrev RoundOf : UserInfo → Result Round → Type 0
  RoundOf user (ok r) = All (λ k. IsEntryOf c k user) r.keys
  RoundOf user (err x) = Unit

  use_key-RoundOf :
      (source : String) (user : UserInfo) (key : String) (s : ClientKeyStore)
      → RoundOf user (use_key c user source key s).0
  unfolding use_key remember_key
  use_key-RoundOf source user key s = elim (Bool-cases (is_empty key)) [
    | inl blank ↦ rw blank tt
    | inr filled ↦
        let own : IsEntryOf c _ user = record {
          uid = refl;
          uuid = refl;
          key = filled;
          user_hash = refl;
        } in
        elim (Bool-cases (uses_file source && is_empty (text_at (itoa user.id) (users_of s)))) [
          | inl fresh ↦ rw (filled, fresh) (own, tt)
          | inr old ↦ rw (filled, old) (own, tt)
        ]
  ]

  build_round-RoundOf :
      (source : String) (user : UserInfo) (s : ClientKeyStore)
      → RoundOf user (build_round c node source user s).0
  unfolding build_round
  build_round-RoundOf source user s = go (resolve_key_locked c node user source s).0
    where
      go :
          (r : Result String)
          → RoundOf user
              (after r (resolve_key_locked c node user source s).1 (use_key c user source)).0
      go (ok key) = use_key-RoundOf source user key (resolve_key_locked c node user source s).1
      go (err x) = tt

  abbrev LoopOf : List UserInfo → Result Round → Type 0
  LoopOf users (ok r) = All (λ k. Any (IsEntryOf c k) users) r.keys
  LoopOf users (err x) = Unit

  All-here :
      (user : UserInfo) (users : List UserInfo) (ks : List UserKey)
      → All (λ k. IsEntryOf c k user) ks
      → All (λ k. Any (IsEntryOf c k) (user ∷ users)) ks
  All-here user users [] h = tt
  All-here user users (k ∷ ks) h = (inl h.0, All-here user users ks h.1)

  All-there :
      (user : UserInfo) (users : List UserInfo) (ks : List UserKey)
      → All (λ k. Any (IsEntryOf c k) users) ks
      → All (λ k. Any (IsEntryOf c k) (user ∷ users)) ks
  All-there user users [] h = tt
  All-there user users (k ∷ ks) h = (inr h.0, All-there user users ks h.1)

  join : Round → Round → M Round
  join first rest =
      pure (record { keys = first.keys ++ rest.keys; changed = first.changed || rest.changed })

  join-LoopOf :
      (user : UserInfo) (users : List UserInfo) (first : Round) (r : Result Round)
      (s : ClientKeyStore)
      → RoundOf user (ok first)
      → LoopOf users r
      → LoopOf (user ∷ users) (after r s (join first)).0
  unfolding join
  join-LoopOf user users first (ok rest) s h k =
      All-append (λ x. Any (IsEntryOf c x) (user ∷ users)) first.keys rest.keys
        (All-here user users first.keys h) (All-there user users rest.keys k)
  join-LoopOf user users first (err x) s h k = tt

  build_loop-LoopOf :
      (source : String) (users : List UserInfo) (s : ClientKeyStore)
      → LoopOf users (build_loop c node source users s).0
  unfolding build_loop join
  build_loop-LoopOf source [] s = tt
  build_loop-LoopOf source (u ∷ us) s =
      go (build_round c node source u s).0 (build_round-RoundOf source u s)
        (build_loop-LoopOf source us (build_round c node source u s).1)
    where
      go :
          (r : Result Round)
          → RoundOf u r
          → LoopOf us (build_loop c node source us (build_round c node source u s).1).0
          → LoopOf
              (u ∷ us)
              (after r
                (build_round c node source u s).1
                (λ first. build_loop c node source us >>= join first)).0
      go (ok first) h k =
          join-LoopOf u us first (build_loop c node source us (build_round c node source u s).1).0
            (build_loop c node source us (build_round c node source u s).1).1 h k
      go (err x) h k = tt

-- Whatever the mode, the store and the disk: if `BuildMappings` succeeds, its entries are sorted by
-- UID, and each carries the UID and UUID of a user that was given, a key that is not empty, and the
-- hash of that key.
pub build_mappings-entries :
    (c : Crypto) (json : Json) (node : NodeInfo) (users : List UserInfo) (s s' : ClientKeyStore)
    (keys : List UserKey)
    → build_mappings c json node users s ≡ (ok keys, s')
    → IsSortedBy (λ k. k.uid) keys × All (λ k. Any (IsEntryOf c k) users) keys
unfolding build_mappings
build_mappings-entries c json node users s s' keys e =
    let source = normalized_client_key_source s.cfg.client_key_source in
    let load : M (Unit {0}) = if uses_file source then load_file_locked json else pure tt in
    let (_, _, after_load) =
      >>=-ok load (λ _. build_loop c node source users >>= finish c json) s e in
    let s1 = (load s).1 in
    let (r, ran, fin) = >>=-ok (build_loop c node source users) (finish c json) s1 after_load in
    let sorted = finish-ok c json r _ s' keys fin in
    let found =
      subst (λ x. LoopOf c node users x.0) ran (build_loop-LoopOf c node source users s1) in
    rw sorted (
      sort_by-IsSortedBy (λ k. k.uid) r.keys,
      sort_by-All (λ k. k.uid) (λ k. Any (IsEntryOf c k) users) r.keys found,
    )

-- On a store that has read its file, within a cap that the limit does not exceed: whatever the
-- result of the call, errors included, the users in memory stay within the cap.
pub build_mappings-Fits :
    (c : Crypto) (json : Json) (node : NodeInfo) (users : List UserInfo) (s : ClientKeyStore)
    (cap : ℕ)
    → IsLoaded s
    → Fits cap s
    → Fits cap (build_mappings c json node users s).1
build_mappings-Fits c json node users s cap loaded f =
    let source = normalized_client_key_source s.cfg.client_key_source in
    let loop = build_loop c node source users in
    rw (build_mappings_loaded c json node users s loaded.1)
      (go (loop s).0 (build_loop-Fits c node cap source users s f))
  where
    go :
        (r : Result Round)
        → Fits cap
            (build_loop c node (normalized_client_key_source s.cfg.client_key_source) users s).1
        → Fits cap
            (after r
              (build_loop c node (normalized_client_key_source s.cfg.client_key_source) users s).1
              (finish c json)).1
    go (err x) h = h
    go (ok r) h =
        let s1 =
          (build_loop c node (normalized_client_key_source s.cfg.client_key_source) users s).1 in
        let (same, cfg, _) = finish-frame c json r s1 in
        Fits-transport s1 (finish c json r s1).1 cfg same h
