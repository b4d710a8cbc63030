-- ===== src/Runtime/Server.antt =====
-- internal/runtime/server.go: the interface through which the controller uses an engine, and the
-- ledger of traffic that an engine keeps behind it. `Start` and `Close` belong to the machine and stand
-- with each engine.
use v2sudoku.Prelude.{
  ℕ, ℤ, pos, ◌≡◌, ◌⊎◌, inl, inr, String, List, [], ◌∷◌, Bool, Option, ◌+◌, ◌<◌, ◌^◌, ◌∙◌, ap,
}
use v2sudoku.Panel.{UserInfo, UserTraffic, OnlineUser}
use v2sudoku.Runtime.Embedded.Rows.{only}
use v2sudoku.Runtime.Embedded.Confirm.{settled}
use v2sudoku.Runtime.Embedded.Report.{settle_exact}

pub record Server : Type 1 where
  pub State : Type 0
  -- the names of the methods, with `UpdateUsers` saying whether it succeeds
  pub traffic_slice : ℤ → State → List UserTraffic
  pub confirm : List UserTraffic → State → State
  pub online_devices : ℤ → State → List OnlineUser × State
  pub set_alive : List (ℤ × ℤ) → State → State
  pub update :
      List UserInfo → List UserInfo → List UserInfo → Option (List UserInfo) → State → Bool × State

-- An amount of bytes, as a counter holds it.
abbrev pub amounts : ℕ → ℕ → ℤ × ℤ
amounts u d = (pos u, pos d)

-- What a controller may rely on: an engine keeps a ledger of the traffic that it has not reported.
-- `IsSound` holds of the states that it reaches, and `unreported` is what a state holds for a UUID.
pub record Ledger (srv : Server) (IsSound : srv.State → Type 0)
    (unreported : String → srv.State → ℤ × ℤ) : Type 0 where
  -- a report holds at most one row for each UUID, with all that is unreported
  pub reports :
      (report_min : ℤ) (s : srv.State) (v : String)
      → IsSound s
      → (only v (srv.traffic_slice report_min s) ≡ [])
        ⊎ ((t : UserTraffic) × (only v (srv.traffic_slice report_min s) ≡ t ∷ [])
            × (◌≡◌ {A = ℤ × ℤ} (t.upload, t.download) (unreported v s)))
  -- a report is settled row by row, in whatever state it is confirmed
  pub settles :
      (report_min : ℤ) (s s' : srv.State) (v : String) (u d x y : ℕ)
      → IsSound s
      → IsSound s'
      → unreported v s ≡ amounts u d
      → unreported v s' ≡ amounts x y
      → unreported v (srv.confirm (srv.traffic_slice report_min s) s')
        ≡ settled (only v (srv.traffic_slice report_min s)) (unreported v s')
  pub settles_soundly :
      (report_min : ℤ) (s s' : srv.State)
      → IsSound s
      → IsSound s'
      → IsSound (srv.confirm (srv.traffic_slice report_min s) s')
  -- nothing else touches the ledger
  pub online_keeps :
      (now : ℤ) (s : srv.State)
      → IsSound s
      → IsSound (srv.online_devices now s).1
        × ((v : String) → unreported v (srv.online_devices now s).1 ≡ unreported v s)
  pub set_alive_keeps :
      (alive : List (ℤ × ℤ)) (s : srv.State)
      → IsSound s
      → IsSound (srv.set_alive alive s)
        × ((v : String) → unreported v (srv.set_alive alive s) ≡ unreported v s)
  pub update_keeps :
      (added deleted modified : List UserInfo) (full : Option (List UserInfo)) (s : srv.State)
      → IsSound s
      → IsSound (srv.update added deleted modified full s).1
        × ((v : String)
            → unreported v (srv.update added deleted modified full s).1 ≡ unreported v s)

-- Between a report and its confirmation the traffic of a user has grown by `a` and `b`. If the sums fit
-- 63 bits, then either the user had no row and the confirmation leaves its traffic, or it had one row,
-- with the traffic at the time of the report, and the confirmation leaves exactly `a` and `b`.
pub confirm-slice :
    (srv : Server) {IsSound : srv.State → Type 0} {unreported : String → srv.State → ℤ × ℤ}
    (l : Ledger srv IsSound unreported) (report_min : ℤ) (s s' : srv.State) (v : String)
    (u d a b : ℕ)
    → IsSound s
    → IsSound s'
    → unreported v s ≡ amounts u d
    → unreported v s' ≡ amounts (u + a) (d + b)
    → u + a < 2 ^ 63
    → d + b < 2 ^ 63
    → let rows = srv.traffic_slice report_min s in
      let after = unreported v (srv.confirm rows s') in
      ((only v rows ≡ []) × (after ≡ amounts (u + a) (d + b)))
      ⊎ ((t : UserTraffic) × (only v rows ≡ t ∷ [])
          × (◌≡◌ {A = ℤ × ℤ} (t.upload, t.download) (amounts u d))
          × (after ≡ amounts a b))
unfolding settled
confirm-slice srv {unreported = unreported} l report_min s s' v u d a b sound sound' was grew
      up_fits down_fits =
    let done = l.settles report_min s s' v u d (u + a) (d + b) sound sound' was grew in
    elim (l.reports report_min s v sound) [
      | inl none_made ↦ inl (none_made, done ∙ rw (none_made, grew))
      | inr (t, one, value) ↦
          let reported = value ∙ was in
          inr (
            t,
            one,
            reported,
            done
                ∙ ap (λ ts. settled ts (unreported v s')) one
                ∙ rw (
                  grew,
                  ap (λ x. x.0) reported,
                  ap (λ x. x.1) reported,
                  settle_exact u a up_fits,
                  settle_exact d b down_fits,
                ),
          )
    ]
