-- ===== src/Controller/Conservation.antt =====
-- internal/controller/controller.go: the reports of traffic, interleaved with all else that happens to
-- the server. A report is taken, and later it is accepted by the panel and confirmed, or it is not.
pub mod Balance
pub mod Engines
use v2sudoku.Prelude.{
  ℕ, ℤ, pos, ◌+◌, ◌+ℤ◌, ◌<◌, ◌^◌, ◌≡◌, refl, ap, sym, ◌∙◌, subst, String, List, [], ◌∷◌, Option,
  none, some, ◌⊎◌, inl, inr, arith,
}
use v2sudoku.Panel.{UserInfo, UserTraffic}
use v2sudoku.Runtime.Embedded.Rows.{only}
use v2sudoku.Runtime.Server.{Server, Ledger, amounts, confirm-slice}

-- What rows say of one user.
unfoldable pub total : List UserTraffic → ℤ × ℤ
total [] = (pos 0, pos 0)
total (t ∷ ts) = let (up, down) = total ts in (t.upload +ℤ up, t.download +ℤ down)

abbrev pub plus : ℤ × ℤ → ℤ × ℤ → ℤ × ℤ
plus x y = (x.0 +ℤ y.0, x.1 +ℤ y.1)

-- The server, the report that is on its way, and what has happened to one user: the traffic that was
-- counted, and the traffic that the panel has accepted.
pub record System (S : Type 0) : Type 0 where
  pub engine : S
  pub in_flight : Option (List UserTraffic)
  pub counted_up : ℕ
  pub counted_down : ℕ
  pub accepted : ℤ × ℤ

module _ (srv : Server) (IsSound : srv.State → Type 0) (unreported : String → srv.State → ℤ × ℤ)
    (v : String) where
  pub data Step (s : System srv.State) : System srv.State → Type 0 where
    -- connections or events count traffic
    count :
        (u d a b : ℕ) (e : srv.State)
        → unreported v s.engine ≡ amounts u d
        → unreported v e ≡ amounts (u + a) (d + b)
        → IsSound e
        → Step s (record s {
          engine = e;
          counted_up = s.counted_up + a;
          counted_down = s.counted_down + b;
        })
    update :
        (added deleted modified : List UserInfo) (full : Option (List UserInfo))
        → Step s (record s { engine = (srv.update added deleted modified full s.engine).1 })
    set_alive : (alive : List (ℤ × ℤ)) → Step s (record s { engine = srv.set_alive alive s.engine })
    online : (now : ℤ) → Step s (record s { engine = (srv.online_devices now s.engine).1 })
    take :
        (report_min : ℤ)
        → Step s (record s { in_flight = some (srv.traffic_slice report_min s.engine) })
    accept :
        (rows : List UserTraffic)
        → s.in_flight ≡ some rows
        → Step s (record s {
          engine = srv.confirm rows s.engine;
          in_flight = none;
          accepted = plus (total (only v rows)) s.accepted;
        })
    refuse : Step s (record s { in_flight = none })

  pub data Reach : System srv.State → Type 0 where
    start :
        (e : srv.State) (u d : ℕ)
        → IsSound e
        → unreported v e ≡ amounts u d
        → Reach (record {
          engine = e;
          in_flight = none;
          counted_up = u;
          counted_down = d;
          accepted = amounts 0 0;
        })
    next : {s t : System srv.State} → Reach s → Step s t → Reach t
