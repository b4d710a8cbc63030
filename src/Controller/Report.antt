-- ===== src/Controller/Report.antt =====
-- internal/controller/controller.go: `reportUserTrafficTask`, with any server.
-- How the panel answers a request is a parameter.
use v2sudoku.Prelude.{
  subst, ℕ, ℤ, pos, ◌+◌, ◌<◌, ◌^◌, ◌≡◌, ◌≢◌, refl, ap, sym, ◌∙◌, String, List, [], ◌∷◌, ◌++◌, Bool,
  true, false, ◌||◌, ◌⊎◌, inl, inr, Option, none, some, ◌==◌, int_eq, if◌then◌else◌, arith, ltb_ℤ,
  add64, mul64, Bool-cases, int_beq_iff,
}
use v2sudoku.Dict.{lookup, insert}
use v2sudoku.Dict.Laws.{lookup-insert}
use v2sudoku.Panel.{NodeInfo, UserTraffic, OnlineUser}
use v2sudoku.Runtime.Embedded.Rows.{only}
use v2sudoku.Runtime.Server.{Server, Ledger, amounts, confirm-slice}

-- How a request ends: done, ended by the context, or with another error.
pub data Outcome : Type 0 where
  done canceled refused : Outcome

abbrev pub report_min_of : Option NodeInfo → ℤ
report_min_of none = pos 0
report_min_of (some node) = node.base_config.node_report_min_traffic

abbrev pub device_min_of : Option NodeInfo → ℤ
device_min_of none = pos 0
device_min_of (some node) = node.base_config.device_online_min_traffic

-- The set `noCountUID`, as the list of its elements.
unfoldable pub no_count_uid : ℤ → List UserTraffic → List ℤ
no_count_uid device_min [] = []
no_count_uid device_min (row ∷ rows) =
    let rest = no_count_uid device_min rows in
    if ltb_ℤ (add64 row.upload row.download) (mul64 device_min (pos 1000))
    then row.uid ∷ rest
    else rest

unfoldable pub contains : ℤ → List ℤ → Bool
contains uid [] = false
contains uid (x ∷ xs) = x == uid || contains uid xs

abbrev pub ips_at : ℤ → List (ℤ × List String) → List String
ips_at uid sent = elim (lookup uid sent) [ none ↦ [] | some ips ↦ ips ]

-- The loop that fills `reportData`.
unfoldable pub online_data :
    List ℤ → List OnlineUser → List (ℤ × List String) → List (ℤ × List String)
online_data skip [] sent = sent
online_data skip (online ∷ rest) sent = online_data skip rest (
    if contains online.uid skip
    then sent
    else insert online.uid (ips_at online.uid sent ++ (online.ip ∷ [])) sent)

-- What a run of the task leaves: whether it ended with the context, the engine, and the data that it
-- sent about who is online.
pub record TaskRun (S : Type 0) : Type 0 where
  pub stopped : Bool
  pub engine : S
  pub sent_online : List (ℤ × List String)

module _ (srv : Server) (push : List UserTraffic → Outcome)
    (alive : List (ℤ × List String) → Outcome) where
  is_canceled : Outcome → Bool
  is_canceled Outcome.canceled = true
  is_canceled _ = false

  send_online : List (ℤ × List String) → srv.State → TaskRun srv.State
  unfolding is_canceled
  send_online [] e = record { stopped = false; engine = e; sent_online = [] }
  send_online (x ∷ xs) e = record {
    stopped = is_canceled (alive (x ∷ xs));
    engine = e;
    sent_online = x ∷ xs;
  }

  -- The second half of the task. A list with no device online sends nothing.
  online_part : Option NodeInfo → ℤ → List UserTraffic → srv.State → TaskRun srv.State
  unfolding send_online
  online_part info now rows e =
      let (devices, e') = srv.online_devices now e in
      send_online (online_data (no_count_uid (device_min_of info) rows) devices []) e'

  after_push : Option NodeInfo → ℤ → List UserTraffic → srv.State → Outcome → TaskRun srv.State
  unfolding online_part
  after_push info now rows e Outcome.done = online_part info now rows (srv.confirm rows e)
  after_push info now rows e Outcome.canceled = record {
    stopped = true;
    engine = e;
    sent_online = [];
  }
  after_push info now rows e Outcome.refused = online_part info now rows e

  report_rows : Option NodeInfo → ℤ → List UserTraffic → srv.State → TaskRun srv.State
  unfolding after_push
  report_rows info now [] e = online_part info now [] e
  report_rows info now (row ∷ rows) e = after_push info now (row ∷ rows) e (push (row ∷ rows))

  unfoldable pub report_user_traffic_task : Option NodeInfo → ℤ → srv.State → TaskRun srv.State
  unfolding report_rows
  report_user_traffic_task info now e =
      report_rows info now (srv.traffic_slice (report_min_of info) e) e

  send-engine : (x : List (ℤ × List String)) (e : srv.State) → (send_online x e).engine ≡ e
  unfolding send_online
  send-engine [] e = refl
  send-engine (x ∷ xs) e = refl

  module _ {IsSound : srv.State → Type 0} {unreported : String → srv.State → ℤ × ℤ}
      (l : Ledger srv IsSound unreported) where
    -- A sound state with the ledger of another one.
    abbrev SameLedger : srv.State → srv.State → Type 0
    SameLedger e e' = IsSound e' × ((v : String) → unreported v e' ≡ unreported v e)

    online-SameLedger :
        (info : Option NodeInfo) (now : ℤ) (rows : List UserTraffic) (e : srv.State)
        → IsSound e
        → SameLedger e (online_part info now rows e).engine
    unfolding online_part
    online-SameLedger info now rows e h =
        subst (SameLedger e) (sym (send-engine _ (srv.online_devices now e).1))
          (l.online_keeps now e h)

    after_push-SameLedger :
        (info : Option NodeInfo) (now : ℤ) (rows : List UserTraffic) (e : srv.State) (o : Outcome)
        → IsSound e
        → o ≢ Outcome.done
        → SameLedger e (after_push info now rows e o).engine
    unfolding after_push
    after_push-SameLedger info now rows e Outcome.done sound h = absurd (h refl)
    after_push-SameLedger info now rows e Outcome.canceled sound h = (sound, λ v. refl)
    after_push-SameLedger info now rows e Outcome.refused sound h =
        online-SameLedger info now rows e sound

    report_rows-SameLedger :
        (info : Option NodeInfo) (now : ℤ) (rows : List UserTraffic) (e : srv.State)
        → IsSound e
        → push rows ≢ Outcome.done
        → SameLedger e (report_rows info now rows e).engine
    unfolding report_rows
    report_rows-SameLedger info now [] e sound h = online-SameLedger info now [] e sound
    report_rows-SameLedger info now (row ∷ rows) e sound h =
        after_push-SameLedger info now (row ∷ rows) e (push (row ∷ rows)) sound h

    -- Where the push succeeds, the rows are confirmed; there may be none.
    report_rows-done :
        (info : Option NodeInfo) (now : ℤ) (rows : List UserTraffic) (e : srv.State)
        → IsSound e
        → IsSound (srv.confirm rows e)
        → push rows ≡ Outcome.done
        → (rows ≡ []) × SameLedger e (report_rows info now rows e).engine
          ⊎ SameLedger (srv.confirm rows e) (report_rows info now rows e).engine
    unfolding report_rows after_push
    report_rows-done info now [] e sound confirmed h =
        inl (refl, online-SameLedger info now [] e sound)
    report_rows-done info now (row ∷ rows) e sound confirmed h = inr (
        subst
          (λ o.
            SameLedger (srv.confirm (row ∷ rows) e) (after_push info now (row ∷ rows) e o).engine)
          (sym h) (online-SameLedger info now (row ∷ rows) (srv.confirm (row ∷ rows) e) confirmed))

    -- What the panel did not take stays: if the push does not succeed, the task leaves a sound state
    -- in which the traffic of every user is as it was.
    pub report_user_traffic_task-kept :
        (info : Option NodeInfo) (now : ℤ) (e : srv.State)
        → IsSound e
        → push (srv.traffic_slice (report_min_of info) e) ≢ Outcome.done
        → let e' = (report_user_traffic_task info now e).engine in
          IsSound e' × ((v : String) → unreported v e' ≡ unreported v e)
    unfolding report_user_traffic_task
    report_user_traffic_task-kept info now e sound h = report_rows-SameLedger info now _ e sound h

    report_user_traffic_task-IsSound :
        (info : Option NodeInfo) (now : ℤ) (e : srv.State)
        → IsSound e
        → push (srv.traffic_slice (report_min_of info) e) ≡ Outcome.done
        → IsSound (report_user_traffic_task info now e).engine
    unfolding report_user_traffic_task
    report_user_traffic_task-IsSound info now e sound pushed =
        elim (report_rows-done info now _ e sound
          (l.settles_soundly (report_min_of info) e e sound sound) pushed) [
            | inl (none_made, kept) ↦ kept.0
            | inr settled_ ↦ settled_.0
          ]

    -- On a sound state, for a user whose traffic is below 2 ^ 63: if the push succeeds, then after the
    -- task either the user had no row and keeps its traffic, or the user had one row, with all of its
    -- traffic, and is at zero.
    pub report_user_traffic_task-done :
        (info : Option NodeInfo) (now : ℤ) (e : srv.State) (v : String) (u d : ℕ)
        → IsSound e
        → unreported v e ≡ amounts u d
        → u < 2 ^ 63
        → d < 2 ^ 63
        → push (srv.traffic_slice (report_min_of info) e) ≡ Outcome.done
        → let rows = srv.traffic_slice (report_min_of info) e in
          let after = unreported v (report_user_traffic_task info now e).engine in
          ((only v rows ≡ []) × (after ≡ amounts u d))
          ⊎ ((t : UserTraffic) × (only v rows ≡ t ∷ [])
              × (◌≡◌ {A = ℤ × ℤ} (t.upload, t.download) (amounts u d))
              × (after ≡ amounts 0 0))
    unfolding report_user_traffic_task only
    report_user_traffic_task-done info now e v u d sound was u_fits d_fits pushed =
        let up : u + 0 ≡ u = omega arith in
        let down : d + 0 ≡ d = omega arith in
        let still : unreported v e ≡ amounts (u + 0) (d + 0) = was ∙ rw (up, down) refl in
        elim (report_rows-done info now _ e sound
          (l.settles_soundly (report_min_of info) e e sound sound) pushed) [
            | inl (none_made, kept) ↦ inl (ap (only v) none_made, kept.1 v ∙ was)
            | inr settled_ ↦
                elim (confirm-slice srv l (report_min_of info) e e v u d 0 0 sound sound was still
                  (omega (arith, u_fits)) (omega (arith, d_fits))) [
                    | inl (none_made, kept) ↦
                        inl (none_made, settled_.1 v ∙ kept ∙ rw (up, down) refl)
                    | inr (t, one, value, zero) ↦ inr (t, one, value, settled_.1 v ∙ zero)
                  ]
          ]

-- The addresses of a user in a list of devices.
unfoldable pub ips_of : ℤ → List OnlineUser → List String
ips_of uid [] = []
ips_of uid (online ∷ rest) =
    let ips = ips_of uid rest in if online.uid == uid then online.ip ∷ ips else ips

append_nil : {A : Type 0} (xs : List A) → xs ++ [] ≡ xs
append_nil [] = refl
append_nil (x ∷ xs) = ap (◌∷◌ x) (append_nil xs)

append_snoc :
    {A : Type 0} (xs : List A) (y : A) (ys : List A) → (xs ++ (y ∷ [])) ++ ys ≡ xs ++ (y ∷ ys)
append_snoc [] y ys = refl
append_snoc (x ∷ xs) y ys = ap (◌∷◌ x) (append_snoc xs y ys)

abbrev ips_in : Option (List String) → List String
ips_in o = elim o [ none ↦ [] | some ips ↦ ips ]

ips_in-if :
    (b : Bool) (x : List String) (o : Option (List String))
    → ips_in (if b then some x else o) ≡ (if b then x else ips_in o)
ips_in-if true x o = refl
ips_in-if false x o = refl

ips_at-insert :
    (uid j : ℤ) (ips : List String) (sent : List (ℤ × List String))
    → ips_at j (insert uid ips sent) ≡ (if uid == j then ips else ips_at j sent)
ips_at-insert uid j ips sent =
    ap ips_in (lookup-insert uid j ips sent) ∙ ips_in-if (uid == j) ips (lookup j sent)

-- What one device adds for a user: `left_out` and `own` are the tests that the round makes.
combine :
    (left_out own skipped : Bool) (ip : String) (mine before ips : List String)
    → (own ≡ true → (left_out ≡ skipped) × (mine ≡ before))
    → (if left_out then before else if own then mine ++ (ip ∷ []) else before)
        ++ (if skipped then [] else ips)
      ≡ before ++ (if skipped then [] else if own then ip ∷ ips else ips)
combine true true true ip mine before ips h = refl
combine true true false ip mine before ips h = absurd (cc (h refl).0)
combine true false skipped ip mine before ips h = refl
combine false true true ip mine before ips h = absurd (cc (h refl).0)
combine false true false ip mine before ips h =
    ap (λ x. (x ++ (ip ∷ [])) ++ ips) (h refl).1 ∙ append_snoc before ip ips
combine false false skipped ip mine before ips h = refl

ips_at-if :
    (left_out : Bool) (uid j : ℤ) (ips : List String) (sent : List (ℤ × List String))
    → ips_at j (if left_out then sent else insert uid ips sent)
      ≡ (if left_out then ips_at j sent else if uid == j then ips else ips_at j sent)
ips_at-if true uid j ips sent = refl
ips_at-if false uid j ips sent = ips_at-insert uid j ips sent

-- What the panel is told of a user's devices: all of their addresses, in the order of the list, or none
-- if the user is to be left out, after those that stood there before.
pub online_data-ips_at :
    (skip : List ℤ) (devices : List OnlineUser) (sent : List (ℤ × List String)) (uid : ℤ)
    → ips_at uid (online_data skip devices sent)
      ≡ ips_at uid sent ++ (if contains uid skip then [] else ips_of uid devices)
unfolding online_data ips_of
online_data-ips_at skip [] sent uid = elim (Bool-cases (contains uid skip)) [
  | inl out ↦ rw out (sym (append_nil (ips_at uid sent)))
  | inr counted ↦ rw counted (sym (append_nil (ips_at uid sent)))
]
online_data-ips_at skip (o ∷ rest) sent uid =
    let ips = ips_at o.uid sent ++ (o.ip ∷ []) in
    let tail : List String = if contains uid skip then [] else ips_of uid rest in
    online_data-ips_at skip rest (if contains o.uid skip then sent else insert o.uid ips sent) uid
    ∙ ap (λ x. x ++ tail) (ips_at-if (contains o.uid skip) o.uid uid ips sent)
    ∙ combine (contains o.uid skip) (o.uid == uid) (contains uid skip) o.ip (ips_at o.uid sent)
        (ips_at uid sent) (ips_of uid rest)
        (λ own.
          let same = (int_beq_iff o.uid uid).0 own in
          (ap (λ x. contains x skip) same, ap (λ x. ips_at x sent) same))
