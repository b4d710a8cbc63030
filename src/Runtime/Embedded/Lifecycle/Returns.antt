-- ===== src/Runtime/Embedded/Lifecycle/Returns.antt =====
-- internal/runtime/embedded.go: what holds when `Close` returns.
use v2sudoku.Prelude.{
  ℕ, ◌+◌, ◌≡◌, ◌≢◌, refl, sym, ap, ◌∙◌, subst, List, [], ◌∷◌, ◌++◌, Bool, true, false, ◌==◌, nat_eq,
  Bool-cases, inl, inr, All, All-append, All-parts, arith,
}
use v2sudoku.Runtime.Embedded.Lifecycle.{
  Listener, absent, listening, shut, Loop, no_loop, accepting, holding, Place, accepted, serving,
  handled, unregistered, gone, Conn, idle, returned, Lifecycle, new_lifecycle, listen, spawn,
  shut_conn, shut_listener, register_conn, unregister_conn, Step, starts, accepts, spawns, ends,
  registers, hangs_up, handles, unregisters, leaves, closes, collects, sweeps, swept, returns, Run,
  here, next,
}

-- What the wait group counts.
abbrev loop_count : Loop → ℕ
loop_count no_loop = 0
loop_count accepting = 1
loop_count holding = 1

abbrev place_count : Place → ℕ
place_count gone = 0
place_count accepted = 1
place_count serving = 1
place_count handled = 1
place_count unregistered = 1

abbrev live : List Conn → ℕ
live [] = 0
live (c ∷ cs) = place_count c.place + live cs

live-append : (xs ys : List Conn) → live (xs ++ ys) ≡ live xs + live ys
live-append [] ys = omega arith
live-append (x ∷ xs) ys = omega (arith, live-append xs ys)

live-parts :
    (xs : List Conn) (c : Conn) (ys : List Conn)
    → live (xs ++ (c ∷ ys)) ≡ place_count c.place + live (xs ++ ys)
live-parts xs c ys = omega (arith, live-append xs (c ∷ ys), live-append xs ys)

live-shut_conn : (id : ℕ) (cs : List Conn) → live (shut_conn id cs) ≡ live cs
unfolding shut_conn
live-shut_conn id [] = refl
live-shut_conn id (c ∷ cs) = elim (Bool-cases (c.id == id)) [
  | inl same ↦ simp same (ap (λ n. place_count c.place + n) (live-shut_conn id cs))
  | inr other ↦ simp other (ap (λ n. place_count c.place + n) (live-shut_conn id cs))
]

-- A connection that was unregistered is closed.
abbrev is_past : Place → Bool
is_past unregistered = true
is_past gone = true
is_past _ = false

abbrev pub IsShut : Conn → Type 0
IsShut c = is_past c.place ≡ true → c.is_open ≡ false

IsShut-shut_conn : (id : ℕ) (cs : List Conn) → All IsShut cs → All IsShut (shut_conn id cs)
unfolding shut_conn
IsShut-shut_conn id [] h = tt
IsShut-shut_conn id (c ∷ cs) h = elim (Bool-cases (c.id == id)) [
  | inl same ↦ simp same ((λ past. refl), IsShut-shut_conn id cs h.1)
  | inr other ↦ simp other (h.0, IsShut-shut_conn id cs h.1)
]

record Inv (s : Lifecycle) : Type 0 where
  unstarted : s.listener ≡ absent → s.loop ≡ no_loop
  count : s.wg ≡ loop_count s.loop + live s.conns
  unclosed : s.listener ≡ listening → s.closer ≡ idle
  idle_wg : s.closer ≡ returned → s.wg ≡ 0
  conns : All IsShut s.conns

changed :
    (xs : List Conn) (c d : Conn) (ys cs : List Conn)
    → cs ≡ xs ++ (c ∷ ys)
    → IsShut d
    → All IsShut cs
    → All IsShut (xs ++ (d ∷ ys))
changed xs c d ys cs split own h =
    let (before, _, after) = All-parts IsShut xs c ys (subst (All IsShut) split h) in
    All-append IsShut xs (d ∷ ys) before (own, after)

counted :
    (xs : List Conn) (c d : Conn) (ys cs : List Conn)
    → cs ≡ xs ++ (c ∷ ys)
    → live (xs ++ (d ∷ ys)) + place_count c.place ≡ live cs + place_count d.place
counted xs c d ys cs split = omega (arith, ap live split, live-parts xs c ys, live-parts xs d ys)

-- A step that only moves one connection.
moved-Inv :
    (xs : List Conn) (c d : Conn) (ys : List Conn) (s : Lifecycle) (ids : List ℕ)
    → s.conns ≡ xs ++ (c ∷ ys)
    → place_count d.place ≡ place_count c.place
    → IsShut d
    → Inv s
    → Inv (record s { active = ids; conns = xs ++ (d ∷ ys) })
moved-Inv xs c d ys s ids split same own i = record {
  unstarted = i.unstarted;
  count = omega (arith, i.count, same, counted xs c d ys s.conns split);
  unclosed = i.unclosed;
  idle_wg = i.idle_wg;
  conns = changed xs c d ys s.conns split own i.conns;
}

at_split :
    (xs : List Conn) (c : Conn) (ys cs : List Conn) → cs ≡ xs ++ (c ∷ ys) → All IsShut cs → IsShut c
at_split xs c ys cs split h = (All-parts IsShut xs c ys (subst (All IsShut) split h)).1

unclosed_listener : (l : Listener) → shut_listener l ≢ listening
unclosed_listener absent e = absurd (cc e)
unclosed_listener listening e = absurd (cc e)
unclosed_listener shut e = absurd (cc e)

absent_listener : (l : Listener) → shut_listener l ≡ absent → l ≡ absent
absent_listener absent e = refl
absent_listener listening e = absurd (cc e)
absent_listener shut e = absurd (cc e)

Step-Inv : {s t : Lifecycle} → Step s t → Inv s → Inv t
unfolding listen spawn register_conn unregister_conn
Step-Inv {s} (starts h k) i = record {
  unstarted = λ e. absurd (cc e);
  count = omega (arith, i.count, ap loop_count (i.unstarted h));
  unclosed = λ e. k;
  idle_wg = λ e. absurd (cc (e, k));
  conns = i.conns;
}
Step-Inv {s} (accepts h k) i = record {
  unstarted = λ e. absurd (cc (e, h));
  count = omega (arith, i.count, ap loop_count k);
  unclosed = i.unclosed;
  idle_wg = i.idle_wg;
  conns = i.conns;
}
Step-Inv {s} (spawns h) i = record {
  unstarted = λ e. absurd (cc (i.unstarted e, h));
  count = omega (arith, i.count, ap loop_count h);
  unclosed = i.unclosed;
  idle_wg = λ e. absurd (omega (arith, i.count, i.idle_wg e, ap loop_count h));
  conns = ((λ past. absurd (cc past)), i.conns);
}
Step-Inv {s} (ends h k) i = record {
  unstarted = λ e. refl;
  count = omega (arith, i.count, ap loop_count k);
  unclosed = i.unclosed;
  idle_wg = λ e. omega (arith, i.idle_wg e);
  conns = i.conns;
}
Step-Inv {s} (registers xs c ys split h) i =
    moved-Inv xs c _ ys s _ split (sym (ap place_count h)) (λ past. absurd (cc past)) i
Step-Inv {s} (hangs_up xs c ys split) i = moved-Inv xs c _ ys s s.active split refl (λ past. refl) i
Step-Inv {s} (handles xs c ys split h) i =
    moved-Inv xs c _ ys s s.active split (sym (ap place_count h)) (λ past. absurd (cc past)) i
Step-Inv {s} (unregisters xs c ys split h) i =
    moved-Inv xs c _ ys s _ split (sym (ap place_count h)) (λ past. refl) i
Step-Inv {s} (leaves xs c ys split h) i = record {
  unstarted = i.unstarted;
  count =
      omega (
        arith,
        i.count,
        ap place_count h,
        counted xs c (record c { place = gone }) ys s.conns split,
      );
  unclosed = i.unclosed;
  idle_wg = λ e. omega (arith, i.idle_wg e);
  conns =
      changed xs c _ ys s.conns split
        (λ past. at_split xs c ys s.conns split i.conns (ap is_past h)) i.conns;
}
Step-Inv {s} (closes h) i = record {
  unstarted = λ e. i.unstarted (absent_listener s.listener e);
  count = i.count;
  unclosed = λ e. absurd (unclosed_listener s.listener e);
  idle_wg = λ e. absurd (cc e);
  conns = i.conns;
}
Step-Inv {s} (collects h) i = record {
  unstarted = i.unstarted;
  count = i.count;
  unclosed = λ e. absurd (cc (i.unclosed e, h));
  idle_wg = λ e. absurd (cc e);
  conns = i.conns;
}
Step-Inv {s} (sweeps id ids h) i = record {
  unstarted = i.unstarted;
  count = i.count ∙ ap (λ n. loop_count s.loop + n) (sym (live-shut_conn id s.conns));
  unclosed = λ e. absurd (cc (i.unclosed e, h));
  idle_wg = λ e. absurd (cc e);
  conns = IsShut-shut_conn id s.conns i.conns;
}
Step-Inv {s} (swept h) i = record {
  unstarted = i.unstarted;
  count = i.count;
  unclosed = λ e. absurd (cc (i.unclosed e, h));
  idle_wg = λ e. absurd (cc e);
  conns = i.conns;
}
Step-Inv {s} (returns h k) i = record {
  unstarted = i.unstarted;
  count = i.count;
  unclosed = λ e. absurd (cc (i.unclosed e, h));
  idle_wg = λ e. k;
  conns = i.conns;
}

Run-Inv : {s t : Lifecycle} → Run s t → Inv s → Inv t
Run-Inv here i = i
Run-Inv (next r st) i = Step-Inv st (Run-Inv r i)

Inv-new_lifecycle : Inv new_lifecycle
Inv-new_lifecycle = record {
  unstarted = λ e. refl;
  count = refl;
  unclosed = λ e. refl;
  idle_wg = λ e. refl;
  conns = tt;
}

abbrev pub IsGone : Conn → Type 0
IsGone c = (c.place ≡ gone) × (c.is_open ≡ false)

at_end : (p : Place) → place_count p ≡ 0 → p ≡ gone
at_end gone e = refl
at_end accepted e = absurd (omega (arith, e))
at_end serving e = absurd (omega (arith, e))
at_end handled e = absurd (omega (arith, e))
at_end unregistered e = absurd (omega (arith, e))

none_live : (cs : List Conn) → live cs ≡ 0 → All IsShut cs → All IsGone cs
none_live [] e h = tt
none_live (c ∷ cs) e h =
    let left = at_end c.place (omega (arith, e)) in
    ((left, h.0 (ap is_past left)), none_live cs (omega (arith, e)) h.1)

no_loop_counted : (l : Loop) → loop_count l ≡ 0 → l ≡ no_loop
no_loop_counted no_loop e = refl
no_loop_counted accepting e = absurd (omega (arith, e))
no_loop_counted holding e = absurd (omega (arith, e))

-- Once `Close` has returned, in any run: the listener does not listen, the accept loop is not running, and
-- of each connection that was ever accepted the goroutine has ended and the connection is closed.
pub Close-returns :
    (s : Lifecycle)
    → Run new_lifecycle s
    → s.closer ≡ returned
    → (s.listener ≢ listening) × (s.loop ≡ no_loop) × All IsGone s.conns
Close-returns s r e =
    let i = Run-Inv r Inv-new_lifecycle in
    let zero_wg = i.idle_wg e in
    (
      (λ l. absurd (cc (i.unclosed l, e))),
      no_loop_counted s.loop (omega (arith, i.count, zero_wg)),
      none_live s.conns (omega (arith, i.count, zero_wg)) i.conns,
    )
