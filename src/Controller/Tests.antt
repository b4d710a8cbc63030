-- ===== src/Controller/Tests.antt =====
-- Runs of `compareUserList` and `reportUserTrafficTask` (internal/controller/controller.go).
use v2sudoku.Prelude.{
  ◌⊎◌, ℕ, ◌<◌, ◌^◌, ◌∙◌, sym, ap, ℤ, String, List, ◌≢◌, arith, ◌≡◌, refl, [], ◌∷◌, some, none, pos,
  string_eq, int_eq,
}
use v2sudoku.Dict.{lookup}
use v2sudoku.Panel.{UserInfo, UserTraffic, OnlineUser}
use v2sudoku.Runtime.Samples.{ann, bob}
use v2sudoku.Runtime.Samples.{
  counters_one, embedded_one, engine_one, crypto_one, json_one, node_one,
}
use v2sudoku.Runtime.Embedded.{Engine, get_user_traffic_slice, confirm_user_traffic}
use v2sudoku.Runtime.Embedded.Shaped.{one_key, IsHeap-cell, IsShaped-embedded_one}
use v2sudoku.Runtime.Embedded.Shape.{IsShaped}
use v2sudoku.Runtime.Embedded.Traffic.{traffic}
use v2sudoku.Runtime.Embedded.Rows.{only}
use v2sudoku.Runtime.Embedded.Ledger.{embedded_server, embedded-Ledger}
use v2sudoku.Runtime.Server.{Server, amounts}
use v2sudoku.Controller.Report.{
  Outcome, report_user_traffic_task, report_min_of, report_user_traffic_task-done,
  report_user_traffic_task-kept,
}
use v2sudoku.Controller.Conservation.{System, Reach, next, start, take, count, accept, plus, total}
use v2sudoku.Controller.Conservation.Engines.{embedded-conserved, external-conserved}
use v2sudoku.Text.{is_empty}
use v2sudoku.Runtime.External.{ExternalEngine, PendingTraffic}
use v2sudoku.Runtime.External
use v2sudoku.Runtime.External.Samples.{library_one, external_one, external_engine_one}
use v2sudoku.Runtime.External.Ledger.{IsPending, held}
use v2sudoku.Runtime.External.Served.{external_server}
use v2sudoku.Controller.Compare.{compare_user_list, occurs}
use v2sudoku.Controller.Compare.Deleted.{find_last, with_uuid, compare_user_list-deleted}
use v2sudoku.Controller.Compare.Same.{compare_user_list-id}

compare_user_list-deleted_example :
    with_uuid "a" (compare_user_list (ann ∷ bob ∷ []) (bob ∷ [])).deleted ≡ ann ∷ []
unfolding occurs find_last
compare_user_list-deleted_example = compare_user_list-deleted (ann ∷ bob ∷ []) (bob ∷ []) "a"

-- Both users have new IDs, and stand in another order.
abbrev renumbered : List UserInfo
renumbered = record bob { id = pos 7 } ∷ record ann { id = pos 9 } ∷ []

compare_user_list-id_example :
    compare_user_list (ann ∷ bob ∷ []) renumbered
    ≡ record { deleted = []; added = []; modified = [] }
unfolding occurs find_last
compare_user_list-id_example =
    compare_user_list-id (ann ∷ bob ∷ []) renumbered (refl, (refl, tt))
      (
        (bob, refl, record { uuid = refl; email = refl; speed_limit = refl; device_limit = refl }),
        (
          (
            ann,
            refl,
            record { uuid = refl; email = refl; speed_limit = refl; device_limit = refl },
          ),
          tt,
        ),
      )
      (refl, (refl, tt))

abbrev server_one : Server
server_one = embedded_server crypto_one json_one

abbrev take_rows : List UserTraffic → Outcome
take_rows rows = Outcome.done

abbrev refuse_rows : List UserTraffic → Outcome
refuse_rows rows = Outcome.refused

abbrev take_online : List (ℤ × List String) → Outcome
take_online sent = Outcome.done

report_user_traffic_task-done_example :
    let rows = get_user_traffic_slice (report_min_of (some node_one)) embedded_one in
    let after =
      traffic "a"
        (report_user_traffic_task server_one take_rows take_online
          (some node_one)
          (pos 9)
          engine_one).engine.embedded in
    ((only "a" rows ≡ []) × (after ≡ amounts 500 7))
    ⊎ ((t : UserTraffic) × (only "a" rows ≡ t ∷ [])
        × (◌≡◌ {A = ℤ × ℤ} (t.upload, t.download) (amounts 500 7))
        × (after ≡ amounts 0 0))
unfolding lookup
report_user_traffic_task-done_example =
    report_user_traffic_task-done server_one take_rows take_online
      (embedded-Ledger crypto_one json_one) (some node_one) (pos 9) engine_one "a" 500 7
      IsShaped-embedded_one refl (ground arith) (ground arith) refl

refused_rows : Outcome.refused ≢ Outcome.done
refused_rows e = absurd (cc)

report_user_traffic_task-kept_example :
    let e' =
      (report_user_traffic_task server_one refuse_rows take_online
        (some node_one)
        (pos 9)
        engine_one).engine in
    IsShaped e'.embedded × ((v : String) → traffic v e'.embedded ≡ traffic v embedded_one)
report_user_traffic_task-kept_example =
    report_user_traffic_task-kept server_one refuse_rows take_online
      (embedded-Ledger crypto_one json_one) (some node_one) (pos 9) engine_one IsShaped-embedded_one
      refused_rows

abbrev devices_one : List OnlineUser
devices_one =
    (record { uid = pos 1; ip = "1.1.1.1" }) ∷ (record { uid = pos 2; ip = "2.2.2.2" }) ∷ []

-- A run: the report of the first 500 and 7 bytes is taken, 20 and 3 more are counted, and the panel
-- accepts the report.
abbrev grown_one : Engine
grown_one = record engine_one {
  embedded = record embedded_one {
    counters = record counters_one {
      cell = λ p. record { uid = pos 1; uuid = "a"; up = pos 520; down = pos 10 };
    };
  };
}

IsShaped-grown_one : IsShaped grown_one.embedded
IsShaped-grown_one = record {
  users = λ uuid user found.
      let k = IsShaped-embedded_one.users uuid user found in
      record { named = k.named; filled = k.filled; counted = k.counted };
  heap = IsHeap-cell (record { uid = pos 1; uuid = "a"; up = pos 520; down = pos 10 }) refl;
}

abbrev rows_one : List UserTraffic
rows_one = get_user_traffic_slice (pos 0) embedded_one

abbrev run_one : System Engine
run_one = record {
  engine = record grown_one { embedded = confirm_user_traffic rows_one grown_one.embedded };
  in_flight = none;
  counted_up = 520;
  counted_down = 10;
  accepted = plus (total (only "a" rows_one)) (amounts 0 0);
}

abbrev IsSoundOne : Engine → Type 0
IsSoundOne g = IsShaped g.embedded

abbrev held_one : String → Engine → ℤ × ℤ
held_one v g = traffic v g.embedded

Reach-run_one : Reach server_one IsSoundOne held_one "a" run_one
unfolding lookup
Reach-run_one =
    next
      (next (next (start engine_one 500 7 IsShaped-embedded_one refl) (take (pos 0)))
        (count 500 7 20 3 grown_one refl refl IsShaped-grown_one))
      (accept rows_one refl)

embedded-conserved_example :
    plus (traffic "a" run_one.engine.embedded) run_one.accepted ≡ amounts 520 10
embedded-conserved_example =
    embedded-conserved crypto_one json_one "a" run_one Reach-run_one (ground arith) (ground arith)

-- The same for the external engine.
abbrev pending_of : ℕ → ℕ → List (String × PendingTraffic)
pending_of u d = ("a", record { uid = pos 1; uuid = "a"; upload = pos u; download = pos d }) ∷ []

IsPending-one : (u d : ℕ) → u < 2 ^ 63 → d < 2 ^ 63 → IsPending (pending_of u d)
unfolding lookup
IsPending-one u d up down = record {
  distinct = (refl, tt);
  entries = λ uuid e found.
      let (key, same) =
        one_key "a" uuid (record { uid = pos 1; uuid = "a"; upload = pos u; download = pos d }) e
          found in
      record {
        named = ap (λ x. x.uuid) (sym same) ∙ key;
        filled = ap is_empty (sym key);
        upload = (u, ap (λ x. x.upload) (sym same), up);
        download = (d, ap (λ x. x.download) (sym same), down);
      };
}

abbrev with_pending : ℕ → ℕ → ExternalEngine
with_pending u d = record external_engine_one {
  external = record external_one { pending = pending_of u d };
}

abbrev IsSoundExternal : ExternalEngine → Type 0
IsSoundExternal g = IsPending g.external.pending

abbrev held_external : String → ExternalEngine → ℤ × ℤ
held_external v g = held v g.external.pending

abbrev rows_external : List UserTraffic
rows_external = External.get_user_traffic_slice (pos 0) (with_pending 500 7).external

abbrev run_external : System ExternalEngine
run_external = record {
  engine = record (with_pending 520 10) {
    external = External.confirm_user_traffic rows_external (with_pending 520 10).external;
  };
  in_flight = none;
  counted_up = 520;
  counted_down = 10;
  accepted = plus (total (only "a" rows_external)) (amounts 0 0);
}

Reach-run_external :
    Reach (external_server library_one) IsSoundExternal held_external "a" run_external
unfolding lookup
Reach-run_external =
    next
      (next
        (next
          (start (with_pending 500 7) 500 7 (IsPending-one 500 7 (ground arith) (ground arith))
            refl)
          (take (pos 0)))
        (count 500 7 20 3 (with_pending 520 10) refl refl
          (IsPending-one 520 10 (ground arith) (ground arith))))
      (accept rows_external refl)

external-conserved_example :
    plus (held "a" run_external.engine.external.pending) run_external.accepted ≡ amounts 520 10
external-conserved_example =
    external-conserved library_one "a" run_external Reach-run_external (ground arith) (ground arith)
