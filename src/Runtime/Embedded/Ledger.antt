-- ===== src/Runtime/Embedded/Ledger.antt =====
-- internal/runtime/embedded.go: the embedded engine as a server of the controller.
use v2sudoku.Prelude.{
  ℕ, ℤ, pos, ◌≡◌, refl, sym, ◌∙◌, ap, inl, inr, String, List, [], ◌∷◌, Bool, true, false, none,
  string_eq, arith, Option-cases, All,
}
use v2sudoku.Dict.{lookup}
use v2sudoku.Panel.{UserTraffic}
use v2sudoku.Runtime.KeyStore.Derive.{Crypto, Result, ok, err}
use v2sudoku.Runtime.KeyStore.State.{Json}
use v2sudoku.Runtime.Counting.{settle}
use v2sudoku.Runtime.Counting.Laws.{IsHeap}
use v2sudoku.Runtime.Embedded.{
  Embedded, Engine, get_user_traffic_slice, confirm_row, confirm_user_traffic, get_online_device,
  set_alive_list, update_users,
}
use v2sudoku.Runtime.Embedded.Shape.{IsShaped, update_users-IsShaped}
use v2sudoku.Runtime.Embedded.Traffic.{traffic, update_users-traffic}
use v2sudoku.Runtime.Embedded.Rows.{only, IsNamed, get_user_traffic_slice-IsNamed}
use v2sudoku.Runtime.Embedded.Confirm.{settled, confirm_row-keeps, confirm-settled}
use v2sudoku.Runtime.Embedded.Report.{slice-cases}
use v2sudoku.Runtime.Server.{Server, Ledger, amounts}

abbrev pub succeeded : {A : Type 0} → Result A → Bool
succeeded (ok a) = true
succeeded (err x) = false

-- The engine with its store of keys, as `runtime.Server`.
abbrev pub embedded_server : Crypto → Json → Server
embedded_server c json = record {
  State = Engine;
  traffic_slice = λ report_min g. get_user_traffic_slice report_min g.embedded;
  confirm = λ rows g. record g { embedded = confirm_user_traffic rows g.embedded };
  online_devices = λ now g.
      let (rows, e) = get_online_device now g.embedded in (rows, record g { embedded = e });
  set_alive = λ alive g. record g { embedded = set_alive_list alive g.embedded };
  update = λ added deleted modified full g.
      let (r, g') = update_users c json added deleted modified full g in (succeeded r, g');
}

confirm_row-users : (t : UserTraffic) (e : Embedded) → (confirm_row t e).users ≡ e.users
unfolding confirm_row
confirm_row-users t e = ground arith

-- What confirming rows leaves of the engine.
confirm-keeps :
    (ts : List UserTraffic) (e : Embedded)
    → All IsNamed ts
    → IsHeap e.counters
    → IsHeap (confirm_user_traffic ts e).counters
      × ((confirm_user_traffic ts e).counters.table ≡ e.counters.table)
      × ((confirm_user_traffic ts e).users ≡ e.users)
unfolding confirm_user_traffic
confirm-keeps [] e named h = (h, refl, refl)
confirm-keeps (t ∷ ts) e named h =
    let (heap, table) = confirm_row-keeps t e named.0 h in
    let (heap', table', users') = confirm-keeps ts (confirm_row t e) named.1 heap in
    (heap', table' ∙ table, users' ∙ confirm_row-users t e)

confirm-IsShaped :
    (ts : List UserTraffic) (e : Embedded)
    → All IsNamed ts
    → IsShaped e
    → IsShaped (confirm_user_traffic ts e)
confirm-IsShaped ts e named h =
    let (heap, table, users) = confirm-keeps ts e named h.heap in
    record {
      users = λ uuid user found.
          let k = h.users uuid user (ap (lookup uuid) (sym users) ∙ found) in
          record {
            named = k.named;
            filled = k.filled;
            counted = λ gone. k.counted (ap (lookup uuid) (sym table) ∙ gone);
          };
      heap = heap;
    }

-- A user without a counter has no traffic, and rows of sums that are not negative leave it at that.
settle_zero : (u : ℕ) → settle (pos u) (pos 0) ≡ pos 0
settle_zero u = ground arith

settled-none :
    (t : UserTraffic) (u d : ℕ)
    → (t.upload ≡ pos u)
    → (t.download ≡ pos d)
    → settled (t ∷ []) (pos 0, pos 0) ≡ (pos 0, pos 0)
unfolding settled
settled-none t u d up down = rw (up, down, settle_zero u, settle_zero d) refl

unheld :
    (e : Embedded) (v : String) → lookup v e.counters.table ≡ none → traffic v e ≡ (pos 0, pos 0)
unheld e v gone = ground (arith, gone)

settles-embedded :
    (report_min : ℤ) (e e' : Embedded) (v : String) (u d : ℕ)
    → IsShaped e
    → IsShaped e'
    → traffic v e ≡ amounts u d
    → traffic v (confirm_user_traffic (get_user_traffic_slice report_min e) e')
      ≡ settled (only v (get_user_traffic_slice report_min e)) (traffic v e')
unfolding settled
settles-embedded report_min e e' v u d h h' was =
    let named = get_user_traffic_slice-IsNamed report_min e h in
    elim (Option-cases (lookup v e'.counters.table)) [
      | inr (p, found) ↦
          confirm-settled (get_user_traffic_slice report_min e) e' v named h'.heap
            (λ gone. absurd (ground (arith, found, gone)))
      | inl gone ↦
          let table = (confirm-keeps (get_user_traffic_slice report_min e) e' named h'.heap).1 in
          let left =
            unheld (confirm_user_traffic (get_user_traffic_slice report_min e) e') v
              (ap (lookup v) table ∙ gone) in
          elim (slice-cases report_min e v h) [
            | inl none_made ↦
                left ∙ sym (ap (λ ts. settled ts (traffic v e')) none_made ∙ unheld e' v gone)
            | inr (t, one, value) ↦
                let both = value ∙ was in
                left
                ∙ sym (
                    ap (λ ts. settled ts (traffic v e')) one
                    ∙ ap (settled (t ∷ [])) (unheld e' v gone)
                    ∙ settled-none t u d (ap (λ x. x.0) both) (ap (λ x. x.1) both))
          ]
    ]

-- The embedded engine keeps the ledger: what it holds for a UUID is what the counter of the UUID holds.
pub embedded-Ledger :
    (c : Crypto) (json : Json)
    → Ledger (embedded_server c json) (λ g. IsShaped g.embedded) (λ v g. traffic v g.embedded)
unfolding get_online_device set_alive_list
embedded-Ledger c json = record {
  reports = λ report_min g v h. slice-cases report_min g.embedded v h;
  settles = λ report_min g g' v u d x y h h' was is.
      settles-embedded report_min g.embedded g'.embedded v u d h h' was;
  settles_soundly = λ report_min g g' h h'.
      confirm-IsShaped _ g'.embedded (get_user_traffic_slice-IsNamed report_min g.embedded h) h';
  online_keeps = λ now g h. (record { users = h.users; heap = h.heap }, λ v. refl);
  set_alive_keeps = λ alive g h. (record { users = h.users; heap = h.heap }, λ v. refl);
  update_keeps = λ added deleted modified full g h. (
    update_users-IsShaped c json added deleted modified full g h,
    λ v. update_users-traffic c json added deleted modified full g v h,
  );
}
