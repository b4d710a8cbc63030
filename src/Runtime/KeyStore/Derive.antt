-- ===== src/Runtime/KeyStore/Derive.antt =====
-- internal/runtime/key_store.go: keys that are derived, with no state, and the hash of a key.
use v2sudoku.Prelude.{
  ℕ, ◌%◌, String, List, [], ◌∷◌, ◌++◌, ℤ, pos, ◌-ℤ◌, Option, none, some, length, take, nat_beq, not,
  if◌then◌else◌,
}
use v2sudoku.Text.{◌+s+◌, is_empty}
use v2sudoku.Text.Trim.{trim_space}
use v2sudoku.Text.Decimal.{itoa}
use v2sudoku.Text.Bytes.{bytes}
use v2sudoku.Text.Hex.{hex_encode, hex_decode}
use v2sudoku.Panel.{NodeInfo, UserInfo}
use v2sudoku.Runtime.KeyStore.Scalar.{
  little_endian_scalar, scalar_little_endian, ed25519_order, euclid_mod,
}

-- The cryptography that the program calls: two hash functions, and the package
-- github.com/SUDOKU-ASCII/sudoku/pkg/crypto. `split_private_key` draws random bits: the number
-- says which draw of the process it is. `none` is an error.
pub record Crypto : Type 1 where
  pub Scalar : Type 0
  pub sha256 : List ℕ → List ℕ
  pub sha512 : List ℕ → List ℕ
  pub parse_private_scalar : String → Option Scalar
  pub split_private_key : Scalar → ℕ → Option String

pub data KeyError : Type 0 where
  read_key_file decode_key_file : KeyError
  split_requires_master decode_master master_length : KeyError
  limit_reached : ℤ → KeyError
  auto_requires_master parse_master split_master : KeyError
  unsupported_source : String → KeyError
  make_directory marshal_file write_file rename_file : KeyError

pub data Result {ℓ} (A : Type ℓ) : Type ℓ where
  ok : A → Result A
  err : KeyError → Result A

abbrev pub split_seed : String → NodeInfo → UserInfo → String
split_seed master_hex node user =
    "v2sudoku|node:"
    +s+ itoa node.id
    +s+ "|uid:"
    +s+ itoa user.id
    +s+ "|uuid:"
    +s+ user.uuid
    +s+ "|master:"
    +s+ master_hex

-- The two shares of `deterministicSplitKey`: one from the seed's digest, the other what is left.
abbrev pub split_rest : ℕ → ℕ → ℕ
split_rest master r = euclid_mod (pos master -ℤ pos r) ed25519_order

module _ (c : Crypto) where
  abbrev pub split_share : String → ℕ
  split_share seed = little_endian_scalar (c.sha512 (bytes seed)) % ed25519_order

  unfoldable pub split_key : List ℕ → String → Result String
  split_key master_bytes seed =
      if not (nat_beq (length master_bytes) 32)
      then err KeyError.master_length
      else let r = split_share seed in
        let k = split_rest (little_endian_scalar master_bytes) r in
        ok (hex_encode (scalar_little_endian r ++ scalar_little_endian k))

  unfoldable pub deterministic_split_key : String → NodeInfo → UserInfo → Result String
  deterministic_split_key master_hex_raw node user =
      let master_hex = trim_space master_hex_raw in
      if is_empty master_hex
      then err KeyError.split_requires_master
      else elim (hex_decode master_hex) [
        | none ↦ err KeyError.decode_master
        | some master_bytes ↦ split_key master_bytes (split_seed master_hex node user)
      ]

  unfoldable pub deterministic_user_key : String → NodeInfo → UserInfo → String
  deterministic_user_key seed_raw node user =
      let seed : String = if is_empty seed_raw then "v2sudoku" else seed_raw in
      let raw =
        seed
        +s+ "|node:"
        +s+ itoa node.id
        +s+ "|uid:"
        +s+ itoa user.id
        +s+ "|uuid:"
        +s+ user.uuid in
      hex_encode (c.sha256 (bytes raw))

  -- A key that is no hexadecimal text, or an empty one, is hashed as it is written.
  abbrev pub key_bytes : String → List ℕ
  key_bytes key = elim (hex_decode key) [
    | none ↦ bytes key
    | some [] ↦ bytes key
    | some (b ∷ bs) ↦ b ∷ bs
  ]

  unfoldable pub user_hash_hex : String → String
  user_hash_hex key = hex_encode (take 8 (c.sha256 (key_bytes (trim_space key))))
