-- ===== src/Runtime/Embedded/Serving/Account.antt =====
-- internal/runtime/embedded.go: whom a connection is counted for, and when its user was last seen.
use v2sudoku.Prelude.{
  ℕ, ℤ, ◌≡◌, ◌≢◌, refl, ap, sym, ◌∙◌, subst, String, List, [], ◌∷◌, ◌++◌, Bool, true, false, Option,
  none, some, inl, inr, string_eq, str_eq_iff, if◌then◌else◌, Bool-cases, arith,
}
use v2sudoku.Dict.{lookup, insert}
use v2sudoku.Dict.Laws.{lookup-insert}
use v2sudoku.Runtime.Counting.Laws.{IsHeap}
use v2sudoku.Runtime.Embedded.{Embedded, OnlineState, Admitted, mark_offline}
use v2sudoku.Runtime.Embedded.Traffic.{traffic}
use v2sudoku.Runtime.Embedded.Serving.{
  Control, keep_alive, start_uot, start_mux, unknown_control, open_tcp, Move, Peer, Service, uot,
  mux, tcp, Action, serve, move_all, session, dispatch, after_lookup,
}
use v2sudoku.Runtime.Embedded.Serving.Moves.{
  Moved, tally, first_control, control_reads, read_first_control_lem, tally-append, move_all-Moved,
}

-- What is served for the first message, and whether the handler returns before `markOffline`.
unfoldable pub service_for : Bool → Option Control → Option Service
service_for dials none = none
service_for dials (some keep_alive) = none
service_for dials (some unknown_control) = none
service_for dials (some start_uot) = some uot
service_for dials (some start_mux) = some mux
service_for dials (some (open_tcp none)) = none
service_for dials (some (open_tcp (some address))) = if dials then some (tcp address) else none

unfoldable pub leaves_early : Bool → Option Control → Bool
leaves_early dials none = true
leaves_early dials (some keep_alive) = false
leaves_early dials (some unknown_control) = false
leaves_early dials (some start_uot) = false
leaves_early dials (some start_mux) = false
leaves_early dials (some (open_tcp none)) = true
leaves_early dials (some (open_tcp (some address))) = if dials then false else true

abbrev pub actions_of : Option Service → List Action
actions_of none = []
actions_of (some s) = serve s ∷ []

abbrev pub moves_of : List Move → Option Service → List Move
moves_of ms none = []
moves_of ms (some s) = ms

-- What a connection leaves that was let in for a user.
pub record Account (peer : Peer) (uuid : String) (e : Embedded) (o : List Action × Embedded)
    : Type 0 where
  pub users : o.1.users ≡ e.users
  pub heap : IsHeap o.1.counters
  pub actions : o.0 ≡ actions_of (service_for peer.dials (first_control peer.messages))
  pub own :
      traffic uuid o.1
      ≡ tally
          (control_reads peer.messages
            ++ moves_of peer.moves (service_for peer.dials (first_control peer.messages)))
          (traffic uuid e)
  pub others : (v : String) → v ≢ uuid → traffic v o.1 ≡ traffic v e
  pub online :
      lookup uuid o.1.online
      ≡ some (record {
        seen_at =
            if leaves_early peer.dials (first_control peer.messages)
            then peer.opened
            else peer.ended;
        ip = peer.ip;
      })

-- The same for the part after the first message.
record Rest (peer : Peer) (uuid : String) (msg : Option Control) (e : Embedded)
    (o : List Action × Embedded) : Type 0 where
  users : o.1.users ≡ e.users
  heap : IsHeap o.1.counters
  actions : o.0 ≡ actions_of (service_for peer.dials msg)
  own : traffic uuid o.1 ≡ tally (moves_of peer.moves (service_for peer.dials msg)) (traffic uuid e)
  others : (v : String) → v ≢ uuid → traffic v o.1 ≡ traffic v e
  online :
      lookup uuid o.1.online
      ≡ some (record {
        seen_at = if leaves_early peer.dials msg then peer.opened else peer.ended;
        ip = peer.ip;
      })

mark_offline_lem :
    (uuid : String) (now : ℤ) (state : OnlineState) (e : Embedded)
    → lookup uuid e.online ≡ some state
    → mark_offline uuid now e
      ≡ record e { online = insert uuid (record state { seen_at = now }) e.online }
unfolding mark_offline
mark_offline_lem uuid now state e there = rw (there, mark_offline)

lookup-insert_at :
    {V : Type 0} (k : String) (v : V) (m : List (String × V)) → lookup k (insert k v m) ≡ some v
lookup-insert_at k v m = ground (arith, lookup-insert k k v m, str_eq_iff k k)

abbrev seen : Peer → ℤ → OnlineState
seen peer at_ = record { seen_at = at_; ip = peer.ip }

module _ (peer : Peer) (uuid : String) (p : ℕ) where
  early :
      (msg : Option Control) (e : Embedded)
      → IsHeap e.counters
      → lookup uuid e.online ≡ some (seen peer peer.opened)
      → service_for peer.dials msg ≡ none
      → leaves_early peer.dials msg ≡ true
      → Rest peer uuid msg e ([], e)
  unfolding tally
  early msg e h there nothing out = record {
    users = refl;
    heap = h;
    actions = ap actions_of (sym nothing);
    own = ap (λ s. tally (moves_of peer.moves s) (traffic uuid e)) (sym nothing);
    others = λ v ne. refl;
    online = there ∙ ap (λ b. some (seen peer (if b then peer.opened else peer.ended))) (sym out);
  }

  -- The user is marked after what moved.
  marked :
      (msg : Option Control) (e e' : Embedded) (s : Option Service)
      → Moved uuid p (moves_of peer.moves s) e e'
      → lookup uuid e.online ≡ some (seen peer peer.opened)
      → service_for peer.dials msg ≡ s
      → leaves_early peer.dials msg ≡ false
      → Rest peer uuid msg e (actions_of s, mark_offline uuid peer.ended e')
  marked msg e e' s m there same stays =
      let after =
        mark_offline_lem uuid peer.ended (seen peer peer.opened) e'
          (ap (lookup uuid) m.online ∙ there) in
      subst (λ x. Rest peer uuid msg e (actions_of s, x)) (sym after)
        (record {
          users = m.users;
          heap = m.heap;
          actions = ap actions_of (sym same);
          own = m.own ∙ ap (λ x. tally (moves_of peer.moves x) (traffic uuid e)) (sym same);
          others = m.others;
          online =
              lookup-insert_at uuid _ e'.online
              ∙ ap (λ b. some (seen peer (if b then peer.opened else peer.ended))) (sym stays);
        })

  served :
      (msg : Option Control) (s : Service) (e : Embedded)
      → lookup uuid e.counters.table ≡ some p
      → IsHeap e.counters
      → lookup uuid e.online ≡ some (seen peer peer.opened)
      → service_for peer.dials msg ≡ some s
      → leaves_early peer.dials msg ≡ false
      → Rest peer uuid msg e (session peer uuid p s e)
  unfolding session
  served msg s e found h there same stays =
      marked msg e (move_all p peer.moves e) (some s) (move_all-Moved uuid p peer.moves e found h)
        there same stays

  dispatch-Rest :
      (msg : Option Control) (e : Embedded)
      → lookup uuid e.counters.table ≡ some p
      → IsHeap e.counters
      → lookup uuid e.online ≡ some (seen peer peer.opened)
      → Rest peer uuid msg e (dispatch peer uuid p msg e)
  unfolding dispatch service_for leaves_early tally
  dispatch-Rest none e found h there = early none e h there refl refl
  dispatch-Rest (some start_uot) e found h there =
      served (some start_uot) uot e found h there refl refl
  dispatch-Rest (some start_mux) e found h there =
      served (some start_mux) mux e found h there refl refl
  dispatch-Rest (some (open_tcp none)) e found h there =
      early (some (open_tcp none)) e h there refl refl
  dispatch-Rest (some (open_tcp (some address))) e found h there = elim (Bool-cases peer.dials) [
    | inl dials ↦ simp dials (
        served (some (open_tcp (some address))) (tcp address) e found h there (rw dials refl)
          (rw dials refl))
    | inr fails ↦
        simp fails
          (early (some (open_tcp (some address))) e h there (rw fails refl) (rw fails refl))
  ]
  dispatch-Rest (some keep_alive) e found h there =
      marked (some keep_alive) e e none (move_all-Moved uuid p [] e found h) there refl refl
  dispatch-Rest (some unknown_control) e found h there =
      marked (some unknown_control) e e none (move_all-Moved uuid p [] e found h) there refl refl

module _ (peer : Peer) (e0 : Embedded) where
  -- A connection that was let in, with what letting it in has changed.
  pub admitted-Account :
      (a : Admitted) (e : Embedded)
      → IsHeap e.counters
      → lookup a.uuid e.counters.table ≡ some a.counter
      → lookup a.uuid e.online ≡ some (seen peer peer.opened)
      → ((v : String) → traffic v e ≡ traffic v e0)
      → e.users ≡ e0.users
      → Account peer a.uuid e0 (after_lookup peer (some a, e))
  unfolding after_lookup
  admitted-Account a e h found there same users =
      let ms = control_reads peer.messages in
      let msg = first_control peer.messages in
      let e1 = move_all a.counter ms e in
      let read = move_all-Moved a.uuid a.counter ms e found h in
      let rest =
        dispatch-Rest peer a.uuid a.counter msg e1 (ap (lookup a.uuid) read.table ∙ found) read.heap
          (ap (lookup a.uuid) read.online ∙ there) in
      subst (λ x. Account peer a.uuid e0 (dispatch peer a.uuid a.counter x.0 x.1))
        (sym (read_first_control_lem a.counter peer.messages e))
        (record {
          users = rest.users ∙ read.users ∙ users;
          heap = rest.heap;
          actions = rest.actions;
          own =
              rest.own
              ∙ ap (tally (moves_of peer.moves (service_for peer.dials msg)))
                  (read.own ∙ ap (tally ms) (same a.uuid))
              ∙ sym (tally-append ms _ (traffic a.uuid e0));
          others = λ v ne. rest.others v ne ∙ read.others v ne ∙ same v;
          online = rest.online;
        })
