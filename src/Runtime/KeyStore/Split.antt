-- ===== src/Runtime/KeyStore/Split.antt =====
-- internal/runtime/key_store.go: the two halves of a split key.
use v2sudoku.Prelude.{
  ℕ, ◌+◌, ◌%◌, ◌<◌, ◌≡◌, ◌↔◌, refl, sym, ◌∙◌, String, List, [], ◌++◌, pos, ◌-ℤ◌, Bool-cases,
  Option-cases, some, length, All-append, arith, inl, inr, true, nat_beq, nat_beq_iff, subst,
}
use v2sudoku.Text.{is_empty}
use v2sudoku.Text.Trim.{trim_space}
use v2sudoku.Text.Hex.{hex_encode, hex_decode, hex_decode-encode, IsByte}
use v2sudoku.Panel.{NodeInfo, UserInfo}
use v2sudoku.Runtime.KeyStore.Scalar.{
  little_endian_scalar, scalar_little_endian, ed25519_order, euclid_mod-sub, scalar-little_endian,
  length-scalar_little_endian, scalar_little_endian-IsByte, euclid_mod-lt,
}
use v2sudoku.Runtime.KeyStore.Derive.{
  Crypto, ok, split_seed, split_key, split_share, split_rest, deterministic_split_key,
}

-- A text is a split of a master scalar: two halves of 32 bytes in hexadecimal, each a scalar below
-- the order, which add up to the master modulo the order.
pub record IsSplitOf (master : ℕ) (out : String) : Type 0 where
  pub first : List ℕ
  pub second : List ℕ
  pub decoded : hex_decode out ≡ some (first ++ second)
  pub first_length : length first ≡ 32
  pub second_length : length second ≡ 32
  pub first_below : little_endian_scalar first < ed25519_order
  pub second_below : little_endian_scalar second < ed25519_order
  pub sum :
      (little_endian_scalar first + little_endian_scalar second) % ed25519_order
      ≡ master % ed25519_order

shares-IsSplitOf :
    (master r : ℕ)
    → r < ed25519_order
    → IsSplitOf master
        (hex_encode (scalar_little_endian r ++ scalar_little_endian (split_rest master r)))
shares-IsSplitOf master r h =
    let k = split_rest master r in
    let k_below : k < ed25519_order = euclid_mod-lt (pos master -ℤ pos r) in
    let r_back = scalar-little_endian r (omega arith) in
    let k_back = scalar-little_endian k (omega arith) in
    record {
      first = scalar_little_endian r;
      second = scalar_little_endian k;
      decoded = hex_decode-encode _ (
          All-append IsByte (scalar_little_endian r) (scalar_little_endian k)
            (scalar_little_endian-IsByte r) (scalar_little_endian-IsByte k));
      first_length = length-scalar_little_endian r;
      second_length = length-scalar_little_endian k;
      first_below = rw r_back h;
      second_below = rw k_back k_below;
      sum = rw (r_back, k_back) (euclid_mod-sub master r);
    }

split_key-IsSplitOf :
    (c : Crypto) (bs : List ℕ) (seed : String) {out : String}
    → split_key c bs seed ≡ ok out
    → (length bs ≡ 32) × IsSplitOf (little_endian_scalar bs) out
unfolding split_key
split_key-IsSplitOf c bs seed e = elim (Bool-cases (nat_beq (length bs) 32)) [
  | inl same ↦ (
    (nat_beq_iff _ _).0 same,
    subst (IsSplitOf (little_endian_scalar bs)) (ground arith)
        (shares-IsSplitOf (little_endian_scalar bs) (split_share c seed) (omega arith)),
  )
  | inr differs ↦ absurd (ground arith)
]

-- Whatever the hash functions are, a key that `deterministicSplitKey` returns is a split of the
-- master key that the node's settings hold, and that key is 32 bytes in hexadecimal.
pub deterministic_split_key-IsSplitOf :
    (c : Crypto) (master_hex : String) (node : NodeInfo) (user : UserInfo) (out : String)
    → deterministic_split_key c master_hex node user ≡ ok out
    → (bs : List ℕ) × (hex_decode (trim_space master_hex) ≡ some bs)
      × (length bs ≡ 32)
      × IsSplitOf (little_endian_scalar bs) out
unfolding deterministic_split_key
deterministic_split_key-IsSplitOf c master_hex node user out e =
    elim (Option-cases (hex_decode (trim_space master_hex))) [
      | inl bad ↦ absurd (ground arith)
      | inr (bs, good) ↦
          let (same, split) =
            split_key-IsSplitOf c bs (split_seed (trim_space master_hex) node user) {out = out}
              (ground arith) in
          (bs, good, same, split)
    ]

hex_decode-is_empty : (s : String) → is_empty s ≡ true → hex_decode s ≡ some []
unfolding hex_decode
hex_decode-is_empty String.[] h = refl
hex_decode-is_empty (String.◌∷◌ c s) h = absurd (ground arith)

abbrev split_bytes : Crypto → List ℕ → String → List ℕ
split_bytes c bs seed =
    let r = split_share c seed in
    scalar_little_endian r ++ scalar_little_endian (split_rest (little_endian_scalar bs) r)

deterministic_split_key-eq :
    (c : Crypto) (master_hex : String) (node : NodeInfo) (user : UserInfo) (bs : List ℕ)
    → hex_decode (trim_space master_hex) ≡ some bs
    → length bs ≡ 32
    → deterministic_split_key c master_hex node user
      ≡ ok (hex_encode (split_bytes c bs (split_seed (trim_space master_hex) node user)))
unfolding deterministic_split_key split_key
deterministic_split_key-eq c master_hex node user bs good same =
    elim (Bool-cases (is_empty (trim_space master_hex))) [
      | inl blank ↦
          let e : some bs ≡ some [] = sym good ∙ hex_decode-is_empty _ blank in
          absurd (ground arith)
      | inr filled ↦ rw (filled, good, (nat_beq_iff _ _).1 same)
    ]

-- A key is returned exactly when the settings hold 32 bytes in hexadecimal; spaces round them do
-- not matter.
pub deterministic_split_key-total_iff :
    (c : Crypto) (master_hex : String) (node : NodeInfo) (user : UserInfo)
    → ((out : String) × (deterministic_split_key c master_hex node user ≡ ok out))
      ↔ ((bs : List ℕ) × (hex_decode (trim_space master_hex) ≡ some bs) × (length bs ≡ 32))
deterministic_split_key-total_iff c master_hex node user = (
  λ p.
      let (bs, good, same, _) = deterministic_split_key-IsSplitOf c master_hex node user p.0 p.1 in
      (bs, good, same),
  λ p.
      let (bs, good, same) = p in
      (
        hex_encode (split_bytes c bs (split_seed (trim_space master_hex) node user)),
        deterministic_split_key-eq c master_hex node user bs good same,
      ),
)
