-- ===== src/Runtime/KeyStore/Tests.antt =====
-- Runs of the key file and of the split keys of internal/runtime/key_store.go.
use v2sudoku.Prelude.{
  ℕ, ◌≡◌, refl, sym, String, List, [], ◌∷◌, false, ◌⊎◌, inl, inr, none, some, arith, subst, ◌==◌,
  string_eq, str_eq_iff, length, Bool-cases,
}
use v2sudoku.Dict.{lookup}
use v2sudoku.Text.{is_empty, ◌+s+◌}
use v2sudoku.Text.Trim.{trim_space}
use v2sudoku.Text.Hex.{hex_decode, from_hex_char}
use v2sudoku.Runtime.Samples.{
  node_one, ann, auto_config, crypto_one, json_one, store_one, good_disk, master_hex, one_entry,
  marshal_one,
}
use v2sudoku.Runtime.KeyStore.Scalar.{little_endian_scalar}
use v2sudoku.Runtime.KeyStore.Derive.{ok, err, KeyError, deterministic_split_key}
use v2sudoku.Runtime.KeyStore.Split.{
  IsSplitOf, deterministic_split_key-IsSplitOf, deterministic_split_key-total_iff,
}
use v2sudoku.Runtime.KeyStore.State.{
  Users, users_of, ClientKeyStore, FileState, load_file_locked, save_file_locked,
  new_client_key_store,
}
use v2sudoku.Runtime.KeyStore.File.{
  Saved, RoundTrips, save_file_locked-atomic, load-save_file_locked, load_file_locked_after_failure,
}

abbrev full_store : ClientKeyStore
full_store = record store_one { users = some one_entry }

abbrev saved_store : ClientKeyStore
saved_store = record full_store { disk = record good_disk { key_file = FileState.holds "1:5a\n" } }

save_file_locked-atomic_example :
    let (r, s') = save_file_locked json_one full_store in
    (((r ≡ ok tt) × Saved json_one full_store s')
      ⊎ ((e : KeyError) × (r ≡ err e) × (s'.disk.key_file ≡ full_store.disk.key_file)))
    × (s'.users ≡ full_store.users)
    × (s'.cfg ≡ full_store.cfg)
    × (s'.draws ≡ full_store.draws)
save_file_locked-atomic_example = save_file_locked-atomic json_one full_store

abbrev Written : Users → Type 0
Written m =
    (body : String)
    → marshal_one m ≡ some body
    → (body ≡ "1:5a") × ((k : String) → lookup k one_entry ≡ lookup k m)

written : (m : Users) → Written m
unfolding lookup
written [] body e = absurd (ground arith)
written ((k, v) ∷ []) body e = elim (Bool-cases (k == "1")) [
  | inr other ↦ absurd (ground (arith, other))
  | inl key ↦ elim (Bool-cases (v == "5a")) [
    | inr other ↦ absurd (ground (arith, key, other))
    | inl val ↦ (
      ground (arith, key, val),
      λ j.
          subst (λ x. lookup j one_entry ≡ lookup j ((x, v) ∷ [])) (sym ((str_eq_iff k "1").0 key))
            (subst (λ y. lookup j one_entry ≡ lookup j (("1", y) ∷ []))
              (sym ((str_eq_iff v "5a").0 val)) refl),
    )
  ]
]
written ((k, v) ∷ (p ∷ m)) body e = absurd (ground arith)

RoundTrips-json_one : RoundTrips json_one
unfolding trim_space
RoundTrips-json_one m body e =
    let (same, entries) = written m body e in
    (
      subst (λ b. is_empty (trim_space (b +s+ "\n")) ≡ false) (sym same) refl,
      one_entry,
      refl,
      entries,
    )

save_one : save_file_locked json_one full_store ≡ (ok tt, saved_store)
unfolding save_file_locked
save_one = refl

load-save_file_locked_example :
    (t : ClientKeyStore) × (load_file_locked json_one
        (new_client_key_store auto_config saved_store.disk)
      ≡ (ok tt, t))
    × ((k : String) → lookup k (users_of t) ≡ lookup k one_entry)
    × (t.disk ≡ saved_store.disk)
load-save_file_locked_example =
    load-save_file_locked json_one full_store saved_store auto_config RoundTrips-json_one save_one

abbrev unread : ClientKeyStore
unread = record store_one {
  users = none;
  disk = record good_disk { key_file = FileState.unreadable };
}

load_file_locked_after_failure_example :
    let (r, s') = load_file_locked json_one unread in
    (r ≡ err KeyError.read_key_file)
    × (load_file_locked json_one (record s' { disk = good_disk })
        ≡ (ok tt, record unread { users = some []; disk = good_disk }))
load_file_locked_after_failure_example =
    load_file_locked_after_failure json_one unread good_disk refl refl

abbrev master_bytes : List ℕ
master_bytes =
    1 ∷ 0 ∷ 0 ∷ 0 ∷ 0 ∷ 0 ∷ 0 ∷ 0 ∷ 0 ∷ 0 ∷ 0 ∷ 0 ∷ 0 ∷ 0 ∷ 0 ∷ 0 ∷ 0 ∷ 0 ∷ 0 ∷ 0 ∷ 0 ∷ 0 ∷ 0 ∷ 0
    ∷ 0 ∷ 0 ∷ 0 ∷ 0 ∷ 0 ∷ 0 ∷ 0 ∷ 2 ∷ []

abbrev Made : Type 0
Made = (out : String) × (deterministic_split_key crypto_one master_hex node_one ann ≡ ok out)

abbrev Master : Type 0
Master = (bs : List ℕ) × (hex_decode (trim_space master_hex) ≡ some bs) × (length bs ≡ 32)

master : Master
unfolding hex_decode trim_space from_hex_char
master = (master_bytes, refl, refl)

made : Made
made = (deterministic_split_key-total_iff crypto_one master_hex node_one ann).1 master

deterministic_split_key-IsSplitOf_example :
    (bs : List ℕ) × (hex_decode (trim_space master_hex) ≡ some bs)
    × (length bs ≡ 32)
    × IsSplitOf (little_endian_scalar bs) made.0
deterministic_split_key-IsSplitOf_example =
    deterministic_split_key-IsSplitOf crypto_one master_hex node_one ann made.0 made.1
