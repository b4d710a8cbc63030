-- ===== src/Runtime/External/Served.antt =====
-- internal/runtime/external.go: the external engine as a server of the controller.
use v2sudoku.Prelude.{refl, sym, ap, subst, Bool, true, false, Option, none, some, string_eq}
use v2sudoku.Runtime.External.{
  ExternalEngine, ExternalError, get_user_traffic_slice, confirm_user_traffic, get_online_device,
  set_alive_list,
}
use v2sudoku.Runtime.External.Process.{Library, update_users}
use v2sudoku.Runtime.External.Process.Pending.{pending-update_users}
use v2sudoku.Runtime.External.Ledger.{IsPending, held, slice-cases, slice-IsRow}
use v2sudoku.Runtime.External.Confirm.{held-confirm, confirm-IsPending}
use v2sudoku.Runtime.Server.{Server, Ledger}

abbrev pub no_error : Option ExternalError → Bool
no_error none = true
no_error (some x) = false

abbrev pub external_server : Library → Server
external_server lib = record {
  State = ExternalEngine;
  traffic_slice = λ report_min g. get_user_traffic_slice report_min g.external;
  confirm = λ rows g. record g { external = confirm_user_traffic rows g.external };
  online_devices = λ now g.
      let (rows, e) = get_online_device now g.external in (rows, record g { external = e });
  set_alive = λ alive g. record g { external = set_alive_list alive g.external };
  update = λ added deleted modified full g.
      let (r, g') = update_users lib added deleted modified full g in (no_error r, g');
}

-- The external engine keeps the ledger: what it holds for a UUID is what is pending under it.
pub external-Ledger :
    (lib : Library)
    → Ledger
        (external_server lib)
        (λ g. IsPending g.external.pending)
        (λ v g. held v g.external.pending)
unfolding get_online_device set_alive_list
external-Ledger lib = record {
  reports = λ report_min g v h. slice-cases report_min g.external v h;
  settles = λ report_min g g' v u d x y h h' was is.
      held-confirm _ g'.external v (slice-IsRow report_min g.external h);
  settles_soundly = λ report_min g g' h h'.
      confirm-IsPending _ g'.external (slice-IsRow report_min g.external h) h';
  online_keeps = λ now g h. (h, λ v. refl);
  set_alive_keeps = λ alive g h. (h, λ v. refl);
  update_keeps = λ added deleted modified full g h.
      let same = pending-update_users lib added deleted modified full g in
      (subst IsPending (sym same) h, λ v. ap (held v) same);
}
