-- ===== src/Runtime/KeyStore/State.antt =====
-- internal/runtime/key_store.go: the store of keys and its file, read once and replaced as a whole.
use v2sudoku.Prelude.{ℕ, ◌≡◌, refl, String, List, [], Bool, Option, none, some, if◌then◌else◌}
use v2sudoku.Text.{◌+s+◌, is_empty}
use v2sudoku.Text.Trim.{trim_space}
use v2sudoku.Conf.{RuntimeConfig}
use v2sudoku.Runtime.KeyStore.Derive.{KeyError, Result, ok, err}

abbrev pub Users : Type 0
Users = List (String × String)

-- What `encoding/json` makes of a text, decoded over an empty map: whether it succeeds, and the map
-- that it leaves, `none` for a null one.
pub record Unmarshalled : Type 0 where
  pub succeeds : Bool
  pub users : Option Users

pub record Json : Type 0 where
  pub unmarshal : String → Unmarshalled
  pub marshal_indent : Users → Option String

-- What reading a file meets.
pub data FileState : Type 0 where
  missing unreadable : FileState
  holds : String → FileState

-- The disk, as far as the store uses it: the key file, the temporary file beside it, and whether
-- each call that changes it succeeds. A write that fails may leave any text in the temporary file.
pub record Disk : Type 0 where
  pub key_file : FileState
  pub tmp_file : FileState
  pub mkdir_succeeds : Bool
  pub write_succeeds : Bool
  pub rename_succeeds : Bool
  pub torn : FileState

-- `ClientKeyStore`, with the disk and the number of random draws so far. `users` is nil (`none`)
-- before the first load.
pub record ClientKeyStore : Type 0 where
  pub cfg : RuntimeConfig
  pub users : Option Users
  pub disk : Disk
  pub draws : ℕ

-- A call returns its result and the state that it leaves, also when it fails.
abbrev pub M : Type 0 → Type 0
M A = ClientKeyStore → Result A × ClientKeyStore

abbrev pub pure : {A : Type 0} → A → M A
pure a s = (ok a, s)

abbrev pub throw : {A : Type 0} → KeyError → M A
throw e s = (err e, s)

abbrev pub after :
    {A B : Type 0} → Result A → ClientKeyStore → (A → M B) → Result B × ClientKeyStore
after (ok a) s f = f a s
after (err e) s f = (err e, s)

infixl 5 ◌>>=◌ ◌>>◌
abbrev pub ◌>>=◌ : {A B : Type 0} → M A → (A → M B) → M B
◌>>=◌ m f s = after (m s).0 (m s).1 f

abbrev pub ◌>>◌ : {B : Type 0} → M (Unit {0}) → M B → M B
m >> k = m >>= λ _. k

-- Inversion of a chain that succeeds: its first part did, and the rest ran on what that left.
pub >>=-ok :
    {A B : Type 0} (m : M A) (f : A → M B) (s : ClientKeyStore) {b : B} {s' : ClientKeyStore}
    → (m >>= f) s ≡ (ok b, s')
    → (a : A) × (m s ≡ (ok a, (m s).1)) × (f a (m s).1 ≡ (ok b, s'))
>>=-ok {A} {B} m f s {b} {s'} e = go (m s).0 refl e
  where
    go :
        (r : Result A)
        → (m s).0 ≡ r
        → after r (m s).1 f ≡ (ok b, s')
        → (a : A) × (m s ≡ (ok a, (m s).1)) × (f a (m s).1 ≡ (ok b, s'))
    go (ok a) p q = (a, (λ i. (p i, (m s).1)), q)
    go (err x) p q = absurd (cc)

-- The users of the store: those of a nil map are none.
abbrev pub users_in : Option Users → Users
users_in o = elim o [ none ↦ [] | some m ↦ m ]

abbrev pub users_of : ClientKeyStore → Users
users_of s = users_in s.users

abbrev pub new_client_key_store : RuntimeConfig → Disk → ClientKeyStore
new_client_key_store cfg disk = record { cfg = cfg; users = none; disk = disk; draws = 0 }

module _ (json : Json) where
  -- The end of `loadFileLocked`: a null map is replaced by an empty one.
  decoded : Unmarshalled → M (Unit {0})
  decoded u s =
      if u.succeeds
      then (ok tt, record s { users = elim u.users [ none ↦ some [] | some m ↦ some m ] })
      else (err KeyError.decode_key_file, record s { users = u.users })

  read_file : FileState → M (Unit {0})
  unfolding decoded
  read_file FileState.missing s = (ok tt, s)
  read_file FileState.unreadable s = (err KeyError.read_key_file, s)
  read_file (FileState.holds body) s =
      if is_empty (trim_space body) then (ok tt, s) else decoded (json.unmarshal body) s

  -- `loadFileLocked`: nothing is read if there is a map already.
  unfoldable pub load_file_locked : M (Unit {0})
  unfolding read_file
  load_file_locked s = elim s.users [
    | some m ↦ (ok tt, s)
    | none ↦ read_file s.disk.key_file (record s { users = some [] })
  ]

  rename : String → M (Unit {0})
  rename body s =
      if s.disk.rename_succeeds
      then (
        ok tt,
        record s {
          disk = record (s.disk) {
            key_file = FileState.holds (body +s+ "\n");
            tmp_file = FileState.missing;
          };
        },
      )
      else (err KeyError.rename_file, s)

  write_tmp : String → M (Unit {0})
  unfolding rename
  write_tmp body s =
      if s.disk.write_succeeds
      then rename body
          (record s { disk = record (s.disk) { tmp_file = FileState.holds (body +s+ "\n") } })
      else (err KeyError.write_file, record s { disk = record (s.disk) { tmp_file = s.disk.torn } })

  -- `saveFileLocked`: the new text is written beside the key file, and takes its place by a rename.
  unfoldable pub save_file_locked : M (Unit {0})
  unfolding write_tmp
  save_file_locked s =
      if s.disk.mkdir_succeeds
      then elim (json.marshal_indent (users_of s)) [
        | none ↦ (err KeyError.marshal_file, s)
        | some body ↦ write_tmp body s
      ]
      else (err KeyError.make_directory, s)
