-- ===== src/Controller/Conservation/Balance/Runs.antt =====
-- internal/controller/controller.go: runs of reports, confirmations and all else.
use v2sudoku.Prelude.{
  ℕ, ℤ, ◌+◌, ◌<◌, ◌^◌, ◌≡◌, refl, ap, ◌∙◌, subst, String, List, none, some, inl, inr, arith,
}
use v2sudoku.Panel.{UserTraffic}
use v2sudoku.Runtime.Embedded.Rows.{only}
use v2sudoku.Runtime.Server.{Server, Ledger, amounts, confirm-slice}
use v2sudoku.Controller.Conservation.{System, Step, Reach, total, plus}
use v2sudoku.Controller.Conservation.Balance.{
  Origin, Inv, Inv-kept, Inv-count, plus-amounts, add_nil, none-rows,
}

module _ (srv : Server) (IsSound : srv.State → Type 0) (unreported : String → srv.State → ℤ × ℤ)
    (v : String) where
  module _ (l : Ledger srv IsSound unreported) where
    -- What the acceptance of a report leaves held, and what it says of the user.
    accept-amounts :
        (s : System srv.State) (rows : List UserTraffic) (i : Inv srv IsSound unreported v s)
        (o : Origin srv IsSound unreported v rows i.up i.down)
        → s.counted_up < 2 ^ 63
        → s.counted_down < 2 ^ 63
        → (u d x y : ℕ) × (unreported v (srv.confirm rows s.engine) ≡ amounts u d)
          × (total (only v rows) ≡ amounts x y)
          × (u + x ≡ i.up)
          × (d + y ≡ i.down)
    unfolding total
    accept-amounts s rows i o up_fits down_fits =
        let grew : unreported v s.engine ≡ amounts (o.up + o.more_up) (o.down + o.more_down) =
          i.held ∙ (λ j. amounts (o.grew_up j) (o.grew_down j)) in
        subst
          (λ r.
            (u d x y : ℕ) × (unreported v (srv.confirm r s.engine) ≡ amounts u d)
            × (total (only v r) ≡ amounts x y)
            × (u + x ≡ i.up)
            × (d + y ≡ i.down))
          o.made
          (elim (confirm-slice srv l o.report_min o.state s.engine v o.up o.down o.more_up
            o.more_down o.sound i.sound o.was grew (omega (arith, i.balance_up, o.grew_up, up_fits))
            (omega (arith, i.balance_down, o.grew_down, down_fits))) [
              | inl (none_made, kept) ↦ (
                o.up + o.more_up,
                o.down + o.more_down,
                0,
                0,
                kept,
                ap total none_made,
                omega (arith, o.grew_up),
                omega (arith, o.grew_down),
              )
              | inr (t, one, value, left) ↦ (
                o.more_up,
                o.more_down,
                o.up,
                o.down,
                left,
                ap total one
                    ∙ ap (λ x. plus x (amounts 0 0)) value
                    ∙ plus-amounts o.up o.down 0 0
                    ∙ (λ j. amounts (add_nil o.up j) (add_nil o.down j)),
                omega (arith, o.grew_up),
                omega (arith, o.grew_down),
              )
            ])

    Inv-accept :
        (s : System srv.State) (rows : List UserTraffic)
        → s.in_flight ≡ some rows
        → s.counted_up < 2 ^ 63
        → s.counted_down < 2 ^ 63
        → Inv srv IsSound unreported v s
        → Inv srv IsSound unreported v (record s {
          engine = srv.confirm rows s.engine;
          in_flight = none;
          accepted = plus (total (only v rows)) s.accepted;
        })
    Inv-accept s rows flies up_fits down_fits i =
        let o = i.flight rows flies in
        let (u, d, x, y, held, said, up, down) = accept-amounts s rows i o up_fits down_fits in
        record {
          up = u;
          down = d;
          sent_up = x + i.sent_up;
          sent_down = y + i.sent_down;
          sound =
              subst (λ r. IsSound (srv.confirm r s.engine)) o.made
                (l.settles_soundly o.report_min o.state s.engine o.sound i.sound);
          held = held;
          sent = (λ j. plus (said j) (i.sent j)) ∙ plus-amounts x y i.sent_up i.sent_down;
          balance_up = omega (arith, up, i.balance_up);
          balance_down = omega (arith, down, i.balance_down);
          flight = λ r e. none-rows e;
        }

    Inv-take :
        (s : System srv.State) (report_min : ℤ)
        → Inv srv IsSound unreported v s
        → Inv srv IsSound unreported v
            (record s { in_flight = some (srv.traffic_slice report_min s.engine) })
    Inv-take s report_min i = record {
      up = i.up;
      down = i.down;
      sent_up = i.sent_up;
      sent_down = i.sent_down;
      sound = i.sound;
      held = i.held;
      sent = i.sent;
      balance_up = i.balance_up;
      balance_down = i.balance_down;
      flight = λ rows e. record {
        state = s.engine;
        report_min = report_min;
        up = i.up;
        down = i.down;
        more_up = 0;
        more_down = 0;
        sound = i.sound;
        was = i.held;
        made = cc e;
        grew_up = omega arith;
        grew_down = omega arith;
      };
    }

    Inv-refuse :
        (s : System srv.State)
        → Inv srv IsSound unreported v s
        → Inv srv IsSound unreported v (record s { in_flight = none })
    Inv-refuse s i = record {
      up = i.up;
      down = i.down;
      sent_up = i.sent_up;
      sent_down = i.sent_down;
      sound = i.sound;
      held = i.held;
      sent = i.sent;
      balance_up = i.balance_up;
      balance_down = i.balance_down;
      flight = λ rows e. none-rows e;
    }

    Step-Inv :
        {s t : System srv.State}
        → Step srv IsSound unreported v s t
        → (t.counted_up < 2 ^ 63 → t.counted_down < 2 ^ 63 → Inv srv IsSound unreported v s)
        → t.counted_up < 2 ^ 63
        → t.counted_down < 2 ^ 63
        → Inv srv IsSound unreported v t
    Step-Inv {s} (Step.count u d a b e was grew sound) i up_fits down_fits =
        Inv-count srv IsSound unreported v s u d a b e (i up_fits down_fits) was grew sound
    Step-Inv {s} (Step.update added deleted modified full) i up_fits down_fits =
        let h = i up_fits down_fits in
        Inv-kept srv IsSound unreported v s _ h
          (l.update_keeps added deleted modified full s.engine h.sound)
    Step-Inv {s} (Step.set_alive alive) i up_fits down_fits =
        let h = i up_fits down_fits in
        Inv-kept srv IsSound unreported v s _ h (l.set_alive_keeps alive s.engine h.sound)
    Step-Inv {s} (Step.online now) i up_fits down_fits =
        let h = i up_fits down_fits in
        Inv-kept srv IsSound unreported v s _ h (l.online_keeps now s.engine h.sound)
    Step-Inv {s} (Step.take report_min) i up_fits down_fits =
        Inv-take s report_min (i up_fits down_fits)
    Step-Inv {s} (Step.accept rows flies) i up_fits down_fits =
        Inv-accept s rows flies up_fits down_fits (i up_fits down_fits)
    Step-Inv {s} Step.refuse i up_fits down_fits = Inv-refuse s (i up_fits down_fits)

    -- What has been counted only grows.
    Step-counted :
        {s t : System srv.State}
        → Step srv IsSound unreported v s t
        → t.counted_up < 2 ^ 63
        → t.counted_down < 2 ^ 63
        → (s.counted_up < 2 ^ 63) × (s.counted_down < 2 ^ 63)
    Step-counted (Step.count u d a b e was grew sound) up down =
        (omega (arith, up), omega (arith, down))
    Step-counted (Step.update added deleted modified full) up down = (up, down)
    Step-counted (Step.set_alive alive) up down = (up, down)
    Step-counted (Step.online now) up down = (up, down)
    Step-counted (Step.take report_min) up down = (up, down)
    Step-counted (Step.accept rows flies) up down = (up, down)
    Step-counted Step.refuse up down = (up, down)

    Reach-Inv :
        {s : System srv.State}
        → Reach srv IsSound unreported v s
        → s.counted_up < 2 ^ 63
        → s.counted_down < 2 ^ 63
        → Inv srv IsSound unreported v s
    Reach-Inv (Reach.start e u d sound held) up_fits down_fits = record {
      up = u;
      down = d;
      sent_up = 0;
      sent_down = 0;
      sound = sound;
      held = held;
      sent = refl;
      balance_up = add_nil u;
      balance_down = add_nil d;
      flight = λ rows e. none-rows e;
    }
    Reach-Inv (Reach.next r st) up_fits down_fits =
        let (up, down) = Step-counted st up_fits down_fits in
        Step-Inv st (λ a b. Reach-Inv r up down) up_fits down_fits

    -- However reports, confirmations, updates of the users and further traffic interleave: while less
    -- than 2 ^ 63 bytes were counted for a user, what the panel has accepted and what the server still
    -- holds add up to what was counted, so no byte is lost or reported twice.
    pub Reach-conserved :
        {s : System srv.State}
        → Reach srv IsSound unreported v s
        → s.counted_up < 2 ^ 63
        → s.counted_down < 2 ^ 63
        → plus (unreported v s.engine) s.accepted ≡ amounts s.counted_up s.counted_down
    Reach-conserved r up_fits down_fits =
        let i = Reach-Inv r up_fits down_fits in
        (λ j. plus (i.held j) (i.sent j))
        ∙ plus-amounts i.up i.down i.sent_up i.sent_down
        ∙ (λ j. amounts (i.balance_up j) (i.balance_down j))
