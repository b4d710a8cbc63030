-- ===== src/Runtime/KeyStore/Build/Tests.antt =====
-- Runs of `BuildMappings` in internal/runtime/key_store.go.
use v2sudoku.Prelude.{
  ◌≡◌, refl, pos, String, [], ◌∷◌, true, false, some, arith, sort_by, subst, nat_eq, string_eq,
  IsSortedBy, All, Any,
}
use v2sudoku.Text.{is_empty, to_lower, lower_char}
use v2sudoku.Text.Trim.{trim_space}
use v2sudoku.Text.Decimal.{itoa}
use v2sudoku.Text.Hex.{hex_encode, hex_decode, from_hex_char, hex_char}
use v2sudoku.Dict.{lookup, insert}
use v2sudoku.Runtime.Samples.{
  node_one, ann, bob, auto_config, crypto_one, json_one, store_one, good_disk,
}
use v2sudoku.Runtime.KeyStore.Derive.{ok, err, KeyError, user_hash_hex}
use v2sudoku.Runtime.KeyStore.State.{
  ClientKeyStore, Disk, FileState, load_file_locked, save_file_locked,
}
use v2sudoku.Runtime.KeyStore.Build.{
  UserKey, normalized_client_key_source, build_round, build_loop, build_mappings,
  resolve_key_locked, use_key,
}
use v2sudoku.Runtime.KeyStore.Build.Stable.{DrawsKeys, IsClean}
use v2sudoku.Runtime.KeyStore.Build.Mappings.{IsLoaded}
use v2sudoku.Runtime.KeyStore.Build.Again.{build_mappings_again, build_mappings_after_failed_save}
use v2sudoku.Runtime.KeyStore.Build.Entries.{build_mappings-entries, build_mappings-Fits, IsEntryOf}
use v2sudoku.Runtime.KeyStore.Build.Limit.{Fits}

abbrev ann_key : UserKey
ann_key = record { uid = pos 1; uuid = "a"; key = "5a"; user_hash = "5a" }

abbrev saved_one : ClientKeyStore
saved_one = record {
  cfg = auto_config;
  users = some (("1", "5a") ∷ []);
  disk = record good_disk { key_file = FileState.holds "1:5a\n" };
  draws = 1;
}

run_auto :
    build_mappings crypto_one json_one node_one (ann ∷ []) store_one
    ≡ (ok (ann_key ∷ []), saved_one)
unfolding build_mappings normalized_client_key_source to_lower lower_char trim_space
    load_file_locked build_loop build_round resolve_key_locked lookup use_key save_file_locked
    insert itoa sort_by user_hash_hex hex_encode hex_decode from_hex_char hex_char
run_auto = refl

some_inj : {x y : String} → some x ≡ some y → x ≡ y
some_inj e = cc

auto_source : normalized_client_key_source "auto" ≡ "auto"
unfolding normalized_client_key_source to_lower trim_space
auto_source = refl

law_one : DrawsKeys crypto_one
unfolding trim_space
law_one m draw key h =
    subst (λ k. (is_empty k ≡ false) × (trim_space k ≡ k)) (some_inj h) (refl, refl)

IsLoaded-store_one : IsLoaded store_one
IsLoaded-store_one = ([], refl)

IsClean-store_one : IsClean store_one
unfolding lookup
IsClean-store_one k h = refl

build_mappings_again_example :
    build_mappings crypto_one json_one node_one (ann ∷ []) saved_one
    ≡ (ok (ann_key ∷ []), saved_one)
build_mappings_again_example =
    build_mappings_again crypto_one json_one node_one (ann ∷ []) store_one saved_one (ann_key ∷ [])
      law_one IsLoaded-store_one IsClean-store_one auto_source run_auto

abbrev broken_store : ClientKeyStore
broken_store = record store_one { disk = record good_disk { mkdir_succeeds = false } }

abbrev broken_after : ClientKeyStore
broken_after = record broken_store { users = some (("1", "5a") ∷ []); draws = 1 }

loop_broken :
    build_loop crypto_one node_one "auto" (ann ∷ []) broken_store
    ≡ (ok (record { keys = ann_key ∷ []; changed = true }), broken_after)
unfolding build_loop build_round trim_space resolve_key_locked lookup use_key insert itoa
    user_hash_hex hex_encode hex_decode from_hex_char hex_char
loop_broken = refl

build_mappings_after_failed_save_example :
    (build_mappings crypto_one json_one node_one (ann ∷ []) broken_store
      ≡ (err KeyError.make_directory, broken_after))
    × ((later : Disk)
        → build_mappings crypto_one json_one node_one
            (ann ∷ [])
            (record broken_after { disk = later })
          ≡ (ok (sort_by (λ k. k.uid) (ann_key ∷ [])), record broken_after { disk = later }))
unfolding save_file_locked
build_mappings_after_failed_save_example =
    build_mappings_after_failed_save crypto_one json_one node_one (ann ∷ []) broken_store
      broken_after broken_after (record { keys = ann_key ∷ []; changed = true })
      KeyError.make_directory law_one ([], refl) IsClean-store_one auto_source loop_broken refl refl

build_mappings-entries_example :
    IsSortedBy (λ k. k.uid) (ann_key ∷ [])
    × All (λ k. Any (IsEntryOf crypto_one k) (ann ∷ [])) (ann_key ∷ [])
build_mappings-entries_example =
    build_mappings-entries crypto_one json_one node_one (ann ∷ []) store_one saved_one
      (ann_key ∷ []) run_auto

Fits-store_one : Fits 10 store_one
Fits-store_one = record { limit = ground arith; size = ground arith }

build_mappings-Fits_example :
    Fits 10 (build_mappings crypto_one json_one node_one (ann ∷ bob ∷ []) store_one).1
build_mappings-Fits_example =
    build_mappings-Fits crypto_one json_one node_one (ann ∷ bob ∷ []) store_one 10
      IsLoaded-store_one Fits-store_one
