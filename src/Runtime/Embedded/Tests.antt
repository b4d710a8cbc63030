-- ===== src/Runtime/Embedded/Tests.antt =====
-- Runs of the embedded engine of internal/runtime/embedded.go.
use v2sudoku.Runtime.Embedded.Ledger.{embedded_server, embedded-Ledger}
use v2sudoku.Runtime.Server.{Ledger}
use v2sudoku.Prelude.{
  String, ◌≡◌, ◌≢◌, refl, ℤ, pos, [], ◌∷◌, ◌⊎◌, none, some, arith, string_eq, int_eq, nat_eq,
  str_eq_iff, All,
}
use v2sudoku.Dict.{lookup, insert}
use v2sudoku.Text.{to_lower, lower_char}
use v2sudoku.Text.Trim.{trim_space}
use v2sudoku.Runtime.KeyStore.Derive.{deterministic_split_key}
use v2sudoku.Runtime.KeyStore.Build.{
  build_mappings, normalized_client_key_source, build_loop, build_round, resolve_key_locked,
}
use v2sudoku.Panel.{UserTraffic}
use v2sudoku.Runtime.Samples.{
  node_one, bob, auto_config, crypto_one, json_one, store_one, counters_one, embedded_one,
}
use v2sudoku.Runtime.Counting.{
  Counters, keep_counter, allocate, upsert_counter, drop_idle, count_read, traffic_of,
}
use v2sudoku.Runtime.Embedded.Orphans.{count_read-orphan}
use v2sudoku.Runtime.Counting.Laws.{IsHeap}
use v2sudoku.Runtime.Embedded.{
  Embedded, Engine, update_users, replace_users_locked, rebuild_user_hashes_locked, replaced,
  counter_for_user_hash, get_user_traffic_slice, confirm_user_traffic,
}
use v2sudoku.Runtime.Embedded.Shaped.{IsHeap-cell, has_one, IsShaped-embedded_one}
use v2sudoku.Runtime.Embedded.Shape.{IsShaped}
use v2sudoku.Runtime.Embedded.Traffic.{traffic}
use v2sudoku.Runtime.Embedded.Rows.{only}
use v2sudoku.Runtime.Embedded.Report.{report_then_confirm}
use v2sudoku.Runtime.Embedded.Admission.{update_users-revokes}

-- The engine after 20 and 3 more bytes.
abbrev later_counters : Counters
later_counters = record counters_one {
  cell = λ p. record { uid = pos 1; uuid = "a"; up = pos 520; down = pos 10 };
}

abbrev later_one : Embedded
later_one = record embedded_one { counters = later_counters }

IsHeap-later_counters : IsHeap later_counters
IsHeap-later_counters =
    IsHeap-cell (record { uid = pos 1; uuid = "a"; up = pos 520; down = pos 10 }) refl

report_then_confirm_example :
    let rows = get_user_traffic_slice (pos 0) embedded_one in
    let after = traffic "a" (confirm_user_traffic rows later_one) in
    ((only "a" rows ≡ []) × (after ≡ (pos 520, pos 10)))
    ⊎ ((t : UserTraffic) × (only "a" rows ≡ t ∷ [])
        × (◌≡◌ {A = ℤ × ℤ} (t.upload, t.download) (pos 500, pos 7))
        × (after ≡ (pos 20, pos 3)))
unfolding lookup
report_then_confirm_example =
    report_then_confirm (pos 0) embedded_one later_one "a" 500 7 20 3 IsShaped-embedded_one
      IsHeap-later_counters has_one refl refl (ground arith) (ground arith)

abbrev ann_row : UserTraffic
ann_row = record { uid = pos 1; upload = pos 100; download = pos 100; uuid = "a" }

abbrev admitted_one : Embedded
admitted_one = record embedded_one {
  online = ("a", record { seen_at = pos 8; ip = "9.9.9.9" }) ∷ [];
}

-- Without a master key no key can be split, so the update fails.
abbrev keyless : Engine
keyless = record {
  embedded = record embedded_one {
    node = record node_one {
      encryption_settings = record (node_one.encryption_settings) { master_private_key = "" };
    };
  };
  store = record store_one { cfg = record auto_config { client_key_source = "split" } };
}

abbrev keyless_after : Engine
keyless_after = (update_users crypto_one json_one [] [] [] (some (bob ∷ [])) keyless).1

still_hashed : lookup "5a" keyless_after.embedded.user_hash_to_uuid ≡ some "a"
unfolding lookup insert update_users replace_users_locked rebuild_user_hashes_locked replaced
    build_mappings normalized_client_key_source to_lower lower_char trim_space build_loop
    build_round resolve_key_locked deterministic_split_key keep_counter allocate
still_hashed = refl

bob_only : All (λ u. u.uuid ≢ "a") (bob ∷ [])
bob_only = (λ same. absurd (ground (arith, same, str_eq_iff "b" "a")), tt)

update_users-revokes_example :
    counter_for_user_hash "5a" "9.9.9.9" (pos 8) keyless_after.embedded
    ≡ (none, keyless_after.embedded)
update_users-revokes_example =
    update_users-revokes crypto_one json_one [] [] [] (bob ∷ []) keyless keyless_after
      (update_users crypto_one json_one [] [] [] (some (bob ∷ [])) keyless).0 "a" "5a" "9.9.9.9"
      (pos 8) refl bob_only still_hashed

abbrev idle_counters : Counters
idle_counters = record counters_one {
  cell = λ p. record { uid = pos 1; uuid = "a"; up = pos 0; down = pos 0 };
}

abbrev back_one : Counters
back_one = upsert_counter (pos 1) "a" (drop_idle "a" idle_counters)

count_read-orphan_example :
    ((v : String) → traffic_of v (count_read (pos 64) (some 0) back_one) ≡ traffic_of v back_one)
    × (traffic_of "a" (count_read (pos 64) (some 0) back_one) ≡ (pos 0, pos 0))
unfolding lookup
count_read-orphan_example =
    count_read-orphan (pos 1) (pos 64) "a" 0 idle_counters
      (IsHeap-cell (record { uid = pos 1; uuid = "a"; up = pos 0; down = pos 0 }) refl) refl refl

embedded-Ledger_example :
    Ledger
      (embedded_server crypto_one json_one)
      (λ g. IsShaped g.embedded)
      (λ v g. traffic v g.embedded)
embedded-Ledger_example = embedded-Ledger crypto_one json_one
