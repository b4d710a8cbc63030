-- ===== src/Runtime/KeyStore/Build/Limit.antt =====
-- internal/runtime/key_store.go: the limit on the number of users in the key file.
use v2sudoku.Prelude.{
  ℕ, ◌+◌, ◌≤◌, ◌≡◌, sym, ◌∙◌, subst, String, List, [], ◌∷◌, pos, true, false, string_eq, arith,
  length, ltb_ℤ, ◌≤ℤ◌,
}
use v2sudoku.Dict.{insert}
use v2sudoku.Dict.Laws.{length-insert}
use v2sudoku.Text.{is_empty}
use v2sudoku.Text.Trim.{trim_space-is_empty}
use v2sudoku.Text.Decimal.{itoa}
use v2sudoku.Panel.{NodeInfo, UserInfo}
use v2sudoku.Runtime.KeyStore.Derive.{Crypto, ok}
use v2sudoku.Runtime.KeyStore.State.{ClientKeyStore, Users, users_of, users_in}
use v2sudoku.Runtime.KeyStore.Build.{
  text_at, uses_file, resolve_key_locked, build_round, build_loop, remember_key, file_key, use_key,
}
use v2sudoku.Runtime.KeyStore.Build.Rounds.{
  resolve-frame, generate_key-room, resolve-file_key, build_round_cases,
}

-- The limit that the configuration sets, and the users in memory, are within `cap`.
pub record Fits (cap : ℕ) (s : ClientKeyStore) : Type 0 where
  pub limit : s.cfg.max_client_key_file_users ≤ℤ pos cap
  pub size : length (users_of s) ≤ cap

pub Fits-transport :
    {cap : ℕ} (s s' : ClientKeyStore)
    → s'.cfg ≡ s.cfg
    → s'.users ≡ s.users
    → Fits cap s
    → Fits cap s'
Fits-transport {cap} s s' cfg users f = record {
  limit = rw cfg f.limit;
  size = subst (λ u. length (users_in u) ≤ cap) (sym users) f.size;
}

module _ (c : Crypto) (node : NodeInfo) (cap : ℕ) where
  -- A key for a user whose text in the file is empty comes with room for it.
  file_key-room :
      (user : UserInfo) (source : String) (s s' : ClientKeyStore) (key : String)
      → uses_file source ≡ true
      → is_empty (text_at (itoa user.id) (users_of s)) ≡ true
      → is_empty key ≡ false
      → file_key c node user source s ≡ (ok key, s')
      → ltb_ℤ (pos (length (users_of s))) s.cfg.max_client_key_file_users ≡ true
  unfolding file_key
  file_key-room user source s s' key file blank filled e = ground (
    arith,
    trim_space-is_empty (text_at (itoa user.id) (users_of s)) blank,
    generate_key-room c node s key,
  )

  resolve-room :
      (user : UserInfo) (source : String) (s s' : ClientKeyStore) (key : String)
      → uses_file source ≡ true
      → is_empty (text_at (itoa user.id) (users_of s)) ≡ true
      → is_empty key ≡ false
      → resolve_key_locked c node user source s ≡ (ok key, s')
      → ltb_ℤ (pos (length (users_of s))) s.cfg.max_client_key_file_users ≡ true
  resolve-room user source s s' key file blank filled e =
      file_key-room user source s s' key file blank filled
        (sym (resolve-file_key c node user source s file) ∙ e)

  length-insert-le : (k v : String) (m : Users) → length (insert k v m) ≤ length m + 1
  length-insert-le k v m = ground (arith, length-insert k v m)

  use_key-Fits :
      (user : UserInfo) (source key : String) (s : ClientKeyStore)
      → (uses_file source ≡ true
          → is_empty (text_at (itoa user.id) (users_of s)) ≡ true
          → is_empty key ≡ false
          → ltb_ℤ (pos (length (users_of s))) s.cfg.max_client_key_file_users ≡ true)
      → Fits cap s
      → Fits cap (use_key c user source key s).1
  unfolding use_key remember_key
  use_key-Fits user source key s room f =
      ground (arith, length-insert-le (itoa user.id) key (users_of s), room)

  build_round-Fits :
      (source : String) (user : UserInfo) (s : ClientKeyStore)
      → Fits cap s
      → Fits cap (build_round c node source user s).1
  build_round-Fits source user s f =
      let s1 = (resolve_key_locked c node user source s).1 in
      let (same, users) = resolve-frame c node user source s in
      let here : Fits cap s1 = Fits-transport s s1 same.cfg users f in
      build_round_cases c node (Fits cap) source user s here (λ key e.
        use_key-Fits user source key s1
          (λ file blank filled.
            rw (users, same.cfg)
              (resolve-room user source s s1 key file (rw users at blank) filled e))
          here)

  pub build_loop-Fits :
      (source : String) (users : List UserInfo) (s : ClientKeyStore)
      → Fits cap s
      → Fits cap (build_loop c node source users s).1
  unfolding build_loop
  build_loop-Fits source [] s f = f
  build_loop-Fits source (u ∷ us) s f =
      let next = build_round-Fits source u s f in
      ground (arith, next, build_loop-Fits source us (build_round c node source u s).1 next)
