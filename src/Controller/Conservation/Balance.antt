-- ===== src/Controller/Conservation/Balance.antt =====
-- internal/controller/controller.go: what reports and confirmations keep in balance.
pub mod Runs
use v2sudoku.Prelude.{
  ℕ, ℤ, pos, ◌+◌, ◌+ℤ◌, ◌<◌, ◌^◌, ◌≡◌, refl, ap, sym, ◌∙◌, subst, String, List, [], ◌∷◌, Option,
  none, some, ◌⊎◌, inl, inr, arith,
}
use v2sudoku.Panel.{UserInfo, UserTraffic}
use v2sudoku.Runtime.Embedded.Rows.{only}
use v2sudoku.Runtime.Server.{Server, Ledger, amounts, confirm-slice}
use v2sudoku.Controller.Conservation.{System, Step, Reach, total, plus}

pos_add : (a c : ℕ) → pos a +ℤ pos c ≡ pos (a + c)
unfolding ◌+ℤ◌
pos_add a c = ground arith

plus-amounts : (a b c d : ℕ) → plus (amounts a b) (amounts c d) ≡ amounts (a + c) (b + d)
plus-amounts a b c d = λ j. (pos_add a c j, pos_add b d j)

add_nil : (a : ℕ) → a + 0 ≡ a
add_nil a = omega arith

amounts-inj : {a b c d : ℕ} → amounts a b ≡ amounts c d → (a ≡ c) × (b ≡ d)
amounts-inj e = (cc (ap (λ x. x.0) e), cc (ap (λ x. x.1) e))

none-rows : {A : Type 0} {rows : List UserTraffic} → none ≡ some rows → A
none-rows e = absurd (cc e)

module _ (srv : Server) (IsSound : srv.State → Type 0) (unreported : String → srv.State → ℤ × ℤ)
    (v : String) where
  -- A report was made in a sound state, since when the traffic has only grown.
  record Origin (rows : List UserTraffic) (u d : ℕ) : Type 0 where
    state : srv.State
    report_min : ℤ
    up : ℕ
    down : ℕ
    more_up : ℕ
    more_down : ℕ
    sound : IsSound state
    was : unreported v state ≡ amounts up down
    made : srv.traffic_slice report_min state ≡ rows
    grew_up : u ≡ up + more_up
    grew_down : d ≡ down + more_down

  record Inv (s : System srv.State) : Type 0 where
    up : ℕ
    down : ℕ
    sent_up : ℕ
    sent_down : ℕ
    sound : IsSound s.engine
    held : unreported v s.engine ≡ amounts up down
    sent : s.accepted ≡ amounts sent_up sent_down
    balance_up : up + sent_up ≡ s.counted_up
    balance_down : down + sent_down ≡ s.counted_down
    flight : (rows : List UserTraffic) → s.in_flight ≡ some rows → Origin rows up down

  -- A step that leaves the ledger of a sound engine as it is.
  Inv-kept :
      (s : System srv.State) (e : srv.State)
      → Inv s
      → IsSound e × ((w : String) → unreported w e ≡ unreported w s.engine)
      → Inv (record s { engine = e })
  Inv-kept s e i (sound, same) = record {
    up = i.up;
    down = i.down;
    sent_up = i.sent_up;
    sent_down = i.sent_down;
    sound = sound;
    held = same v ∙ i.held;
    sent = i.sent;
    balance_up = i.balance_up;
    balance_down = i.balance_down;
    flight = i.flight;
  }

  Origin-more :
      {rows : List UserTraffic} {u d : ℕ} (a b : ℕ) → Origin rows u d → Origin rows (u + a) (d + b)
  Origin-more a b o = record {
    state = o.state;
    report_min = o.report_min;
    up = o.up;
    down = o.down;
    more_up = o.more_up + a;
    more_down = o.more_down + b;
    sound = o.sound;
    was = o.was;
    made = o.made;
    grew_up = omega (arith, o.grew_up);
    grew_down = omega (arith, o.grew_down);
  }

  Inv-count :
      (s : System srv.State) (u d a b : ℕ) (e : srv.State)
      → Inv s
      → unreported v s.engine ≡ amounts u d
      → unreported v e ≡ amounts (u + a) (d + b)
      → IsSound e
      → Inv (record s {
        engine = e;
        counted_up = s.counted_up + a;
        counted_down = s.counted_down + b;
      })
  Inv-count s u d a b e i was grew sound =
      let (same_up, same_down) = amounts-inj (sym i.held ∙ was) in
      record {
        up = i.up + a;
        down = i.down + b;
        sent_up = i.sent_up;
        sent_down = i.sent_down;
        sound = sound;
        held = grew ∙ (λ j. amounts (sym same_up j + a) (sym same_down j + b));
        sent = i.sent;
        balance_up = omega (arith, i.balance_up);
        balance_down = omega (arith, i.balance_down);
        flight = λ rows flies. Origin-more a b (i.flight rows flies);
      }
