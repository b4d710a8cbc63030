-- ===== src/Runtime/KeyStore/Build.antt =====
-- internal/runtime/key_store.go: `BuildMappings`, which gives every user a key and its hash.
pub mod Rounds
pub mod Mappings
pub mod Limit
pub mod Stable
pub mod Again
pub mod Entries
mod Tests
use v2sudoku.Prelude.{
  ℕ, suc, ◌≡◌, String, List, [], ◌∷◌, ◌++◌, ℤ, pos, Bool, true, false, ◌||◌, ◌&&◌, Option, none,
  some, ◌==◌, string_eq, leb_ℤ, length, if◌then◌else◌, sort_by,
}
use v2sudoku.Dict.{lookup, insert}
use v2sudoku.Text.{to_lower, is_empty}
use v2sudoku.Text.Trim.{trim_space}
use v2sudoku.Text.Decimal.{itoa}
use v2sudoku.Conf.{default_client_key_source}
use v2sudoku.Panel.{NodeInfo, UserInfo}
use v2sudoku.Runtime.KeyStore.Derive.{
  Crypto, KeyError, Result, ok, err, deterministic_split_key, deterministic_user_key, user_hash_hex,
}
use v2sudoku.Runtime.KeyStore.State.{
  Json, ClientKeyStore, Users, M, pure, throw, after, users_of, ◌>>=◌, ◌>>◌, load_file_locked,
  save_file_locked,
}

pub record UserKey : Type 0 where
  pub uid : ℤ
  pub uuid : String
  pub key : String
  pub user_hash : String

unfoldable pub normalized_client_key_source : String → String
normalized_client_key_source raw =
    let source = to_lower (trim_space raw) in
    if is_empty source then default_client_key_source else source

-- `m[k]` in Go: the zero value if the key is missing.
abbrev pub text_at : String → Users → String
text_at k m = elim (lookup k m) [ none ↦ "" | some v ↦ v ]

abbrev pub uses_file : String → Bool
uses_file source = source == "auto" || source == "file"

-- What one round of the loop appends to `out`, and whether it changed the users of the file.
pub record Round : Type 0 where
  pub keys : List UserKey
  pub changed : Bool

module _ (c : Crypto) where
  pub split_drawn : Option String → M String
  split_drawn none s = (err KeyError.split_master, record s { draws = suc s.draws })
  split_drawn (some key) s = (ok key, record s { draws = suc s.draws })

  -- The last lines of the case for "file" and "auto": a fresh key is drawn.
  pub generate_key : NodeInfo → M String
  unfolding split_drawn
  generate_key node s =
      if leb_ℤ s.cfg.max_client_key_file_users (pos (length (users_of s)))
      then throw (KeyError.limit_reached s.cfg.max_client_key_file_users) s
      else if is_empty node.encryption_settings.master_private_key
      then throw KeyError.auto_requires_master s
      else elim (c.parse_private_scalar node.encryption_settings.master_private_key) [
        | none ↦ throw KeyError.parse_master s
        | some master ↦ split_drawn (c.split_private_key master s.draws) s
      ]

  -- The case for "file" and "auto".
  pub file_key : NodeInfo → UserInfo → String → M String
  unfolding generate_key
  file_key node user source s =
      let key = trim_space (text_at (itoa user.id) (users_of s)) in
      if is_empty key
      then if source == "file" then pure "" s else generate_key node s
      else pure key s

  unfoldable pub resolve_key_locked : NodeInfo → UserInfo → String → M String
  unfolding file_key
  resolve_key_locked node user source s =
      if source == "deterministic_split" || source == "split"
      then (deterministic_split_key c node.encryption_settings.master_private_key node user, s)
      else if source == "uuid"
      then pure (trim_space user.uuid) s
      else if source == "deterministic"
      then pure (deterministic_user_key c s.cfg.client_key_seed node user) s
      else if uses_file source
      then file_key node user source s
      else throw (KeyError.unsupported_source source) s

  -- The end of a round of the loop: a key that the file lacks is written to it. The result says
  -- whether it was.
  pub remember_key : UserInfo → String → String → M Bool
  remember_key user source key s =
      if uses_file source && is_empty (text_at (itoa user.id) (users_of s))
      then (ok true, record s { users = some (insert (itoa user.id) key (users_of s)) })
      else (ok false, s)

  pub use_key : UserInfo → String → String → M Round
  unfolding remember_key
  use_key user source key =
      if is_empty key then pure (record { keys = []; changed = false }) else do
        changed ← remember_key user source key
        pure (record { keys = entry ∷ []; changed = changed })
    where
      entry : UserKey
      entry = record { uid = user.id; uuid = user.uuid; key = key; user_hash = user_hash_hex c key }

  -- One round of the loop: a user without a key is passed over.
  unfoldable pub build_round : NodeInfo → String → UserInfo → M Round
  build_round node source user = do
    key ← resolve_key_locked node user source
    use_key user source key

  unfoldable pub build_loop : NodeInfo → String → List UserInfo → M Round
  build_loop node source [] = pure (record { keys = []; changed = false })
  build_loop node source (user ∷ users) = do
    first ← build_round node source user
    rest ← build_loop node source users
    pure (record { keys = first.keys ++ rest.keys; changed = first.changed || rest.changed })

  module _ (json : Json) where
    pub finish : Round → M (List UserKey)
    finish r =
        if r.changed
        then (save_file_locked json >> pure (sort_by (λ k. k.uid) r.keys))
        else pure (sort_by (λ k. k.uid) r.keys)

    unfoldable pub build_mappings : NodeInfo → List UserInfo → M (List UserKey)
    unfolding finish
    build_mappings node users s =
        let source = normalized_client_key_source s.cfg.client_key_source in
        let load : M (Unit {0}) = if uses_file source then load_file_locked json else pure tt in
        (load >> (build_loop node source users >>= finish)) s
