-- ===== src/Runtime/Embedded/New.antt =====
-- internal/runtime/embedded.go: `NewEmbedded`. Building the tables is the sudoku library's work.
use v2sudoku.Prelude.{
  ℤ, pos, ◌≡◌, ◌∙◌, refl, subst, String, List, [], Bool, Option, some, if◌then◌else◌, Bool-cases,
  inl, inr,
}
use v2sudoku.Dict.{lookup}
use v2sudoku.Conf.{RuntimeConfig}
use v2sudoku.Panel.{NodeInfo, UserInfo}
use v2sudoku.Runtime.KeyStore.Derive.{Crypto, KeyError, Result, ok, err}
use v2sudoku.Runtime.KeyStore.State.{Json, ClientKeyStore}
use v2sudoku.Runtime.Counting.{Counters}
use v2sudoku.Runtime.Config.{SudokuConfig, ConfigError, Built, built, bad, build_sudoku_config}
use v2sudoku.Runtime.Embedded.{Engine, clone_alive_list, replace_users_locked, update_users}
use v2sudoku.Runtime.Embedded.Shape.{IsShaped, update_users-IsShaped}
use v2sudoku.Runtime.Embedded.Roster.{by_uuid, update-users}
use v2sudoku.Runtime.Embedded.Traffic.{traffic, update_users-traffic}

pub data NewError : Type 0 where
  config_failed : ConfigError → NewError
  tables_failed : NewError
  keys_failed : KeyError → NewError

-- An engine, or an error and the store of keys, which other engines go on using.
pub data Made : Type 0 where
  made : Engine → Made
  not_made : NewError → ClientKeyStore → Made

abbrev no_counters : Counters
no_counters = record {
  table = [];
  cell = λ p. record { uid = pos 0; uuid = ""; up = pos 0; down = pos 0 };
  next = 0;
}

-- The engine before the users are put in.
abbrev pub empty_engine : NodeInfo → List (ℤ × ℤ) → RuntimeConfig → ClientKeyStore → Engine
empty_engine node alive cfg store = record {
  embedded = record {
    node = node;
    runtime = cfg;
    users = [];
    user_hash_to_uuid = [];
    counters = no_counters;
    online = [];
    alive_list = clone_alive_list alive;
  };
  store = store;
}

abbrev pub from_replaced : Result (Unit {0}) × Engine → Made
from_replaced (ok u, g) = made g
from_replaced (err x, g) = not_made (keys_failed x) g.store

module _ (c : Crypto) (json : Json) (recover : String → Option String)
    (finalize : SudokuConfig → Option SudokuConfig) (build_tables : SudokuConfig → Bool) where
  with_config :
      Built → NodeInfo → List UserInfo → List (ℤ × ℤ) → RuntimeConfig → ClientKeyStore → Made
  with_config (bad x) node users alive cfg store = not_made (config_failed x) store
  with_config (built sc) node users alive cfg store =
      if build_tables sc
      then from_replaced (replace_users_locked c json users (empty_engine node alive cfg store))
      else not_made tables_failed store

  unfoldable pub new_embedded :
      NodeInfo → List UserInfo → List (ℤ × ℤ) → RuntimeConfig → ClientKeyStore → Made
  unfolding with_config
  new_embedded node users alive cfg store =
      with_config (build_sudoku_config recover finalize node cfg) node users alive cfg store

  IsShaped-empty_engine :
      (node : NodeInfo) (alive : List (ℤ × ℤ)) (cfg : RuntimeConfig) (store : ClientKeyStore)
      → IsShaped (empty_engine node alive cfg store).embedded
  unfolding lookup
  IsShaped-empty_engine node alive cfg store = record {
    users = λ uuid user found. absurd (cc found);
    heap = record { distinct = tt; owns = λ uuid p found. absurd (cc found) };
  }

  -- An engine that is well formed, holds no traffic, and has the users of a list.
  abbrev IsFresh : List UserInfo → Engine → Type 0
  IsFresh users g =
      IsShaped g.embedded
      × ((v : String) → traffic v g.embedded ≡ (pos 0, pos 0))
      × (g.embedded.users ≡ by_uuid users [])

  replaced-IsFresh :
      (node : NodeInfo) (users : List UserInfo) (alive : List (ℤ × ℤ)) (cfg : RuntimeConfig)
      (store : ClientKeyStore)
      → IsFresh users (replace_users_locked c json users (empty_engine node alive cfg store)).1
  unfolding update_users lookup
  replaced-IsFresh node users alive cfg store =
      let e = empty_engine node alive cfg store in
      let shaped = IsShaped-empty_engine node alive cfg store in
      (
        update_users-IsShaped c json [] [] [] (some users) e shaped,
        λ v. update_users-traffic c json [] [] [] (some users) e v shaped ∙ refl,
        update-users c json [] [] [] users e,
      )

  from_replaced-IsFresh :
      (users : List UserInfo) (r : Result (Unit {0}) × Engine) (g : Engine)
      → from_replaced r ≡ made g
      → IsFresh users r.1
      → IsFresh users g
  from_replaced-IsFresh users (ok u, e) g same h =
      let there : e ≡ g = cc same in subst (IsFresh users) there h
  from_replaced-IsFresh users (err x, e) g same h = absurd (cc same)

  with_config-IsFresh :
      (b : Built) (node : NodeInfo) (users : List UserInfo) (alive : List (ℤ × ℤ))
      (cfg : RuntimeConfig) (store : ClientKeyStore) (g : Engine)
      → with_config b node users alive cfg store ≡ made g
      → IsFresh users g
  unfolding with_config
  with_config-IsFresh (bad x) node users alive cfg store g same = absurd (cc same)
  with_config-IsFresh (built sc) node users alive cfg store g same =
      elim (Bool-cases (build_tables sc)) [
        | inr failed ↦ absurd (cc (rw failed at same))
        | inl tables ↦
            from_replaced-IsFresh users _ g (rw tables at same)
              (replaced-IsFresh node users alive cfg store)
      ]

  -- An engine that `NewEmbedded` makes is well formed, holds no traffic for anybody, and has the users of
  -- the list, by UUID.
  pub new_embedded-IsShaped :
      (node : NodeInfo) (users : List UserInfo) (alive : List (ℤ × ℤ)) (cfg : RuntimeConfig)
      (store : ClientKeyStore) (g : Engine)
      → new_embedded node users alive cfg store ≡ made g
      → IsShaped g.embedded
        × ((v : String) → traffic v g.embedded ≡ (pos 0, pos 0))
        × (g.embedded.users ≡ by_uuid users [])
  unfolding new_embedded
  new_embedded-IsShaped node users alive cfg store g same =
      with_config-IsFresh (build_sudoku_config recover finalize node cfg) node users alive cfg store
        g same
