-- ===== src/Runtime/Embedded/Lifecycle.antt =====
-- internal/runtime/embedded.go: the listener of the engine, its connections and `Close`, each with a
-- goroutine of its own. `Close` is called once here; `closeOnce` lets a further call do nothing.
pub mod Returns
pub mod Sweep
pub mod Late
mod Tests
use v2sudoku.Prelude.{
  ℕ, suc, ◌-◌, ◌≡◌, List, [], ◌∷◌, ◌++◌, Bool, true, false, ◌==◌, nat_eq, if◌then◌else◌,
}

-- `e.listener`
pub data Listener : Type 0 where
  absent listening shut : Listener

-- Where `acceptLoop` is: not started or at its end, before `Accept`, or with a connection from it.
pub data Loop : Type 0 where
  no_loop accepting holding : Loop

-- Where the goroutine of a connection is: before `registerConn`, in `handleConn`, before
-- `unregisterConn`, before `e.wg.Done`, or at its end.
pub data Place : Type 0 where
  accepted serving handled unregistered gone : Place

pub record Conn : Type 0 where
  pub id : ℕ
  pub place : Place
  pub is_open : Bool

-- Where `Close` is: not called, before `closeActiveConns`, with connections that it is to close, before
-- `e.wg.Wait` returns, or at its end.
pub data Closer : Type 0 where
  idle collecting waiting returned : Closer
  sweeping : List ℕ → Closer

pub record Lifecycle : Type 0 where
  pub listener : Listener
  pub loop : Loop
  pub wg : ℕ
  pub active : List ℕ
  pub conns : List Conn
  pub next_id : ℕ
  pub closer : Closer

abbrev pub new_lifecycle : Lifecycle
new_lifecycle = record {
  listener = absent;
  loop = no_loop;
  wg = 0;
  active = [];
  conns = [];
  next_id = 0;
  closer = idle;
}

-- `Start`, once the address can be listened on.
unfoldable pub listen : Lifecycle → Lifecycle
listen s = record s { listener = listening; loop = accepting; wg = suc s.wg }

-- The part of `acceptLoop` after an `Accept` that succeeds.
unfoldable pub spawn : Lifecycle → Lifecycle
spawn s = record s {
  loop = accepting;
  wg = suc s.wg;
  conns = record { id = s.next_id; place = accepted; is_open = true } ∷ s.conns;
  next_id = suc s.next_id;
}

-- `delete` from `e.active`
unfoldable pub removed : ℕ → List ℕ → List ℕ
removed id [] = []
removed id (i ∷ is) = let rest = removed id is in if i == id then rest else i ∷ rest

-- `conn.Close` of the connection with a number.
unfoldable pub shut_conn : ℕ → List Conn → List Conn
shut_conn id [] = []
shut_conn id (c ∷ cs) = (if c.id == id then record c { is_open = false } else c) ∷ shut_conn id cs

abbrev pub shut_listener : Listener → Listener
shut_listener absent = absent
shut_listener listening = shut
shut_listener shut = shut

unfoldable pub register_conn : List Conn → Conn → List Conn → Lifecycle → Lifecycle
register_conn xs c ys s = record s {
  active = c.id ∷ s.active;
  conns = xs ++ (record c { place = serving } ∷ ys);
}

unfoldable pub unregister_conn : List Conn → Conn → List Conn → Lifecycle → Lifecycle
unfolding removed
unregister_conn xs c ys s = record s {
  active = removed c.id s.active;
  conns = xs ++ (record c { place = unregistered; is_open = false } ∷ ys);
}

pub data Step (s : Lifecycle) : Lifecycle → Type 0 where
  starts : s.listener ≡ absent → s.closer ≡ idle → Step s (listen s)
  accepts : s.listener ≡ listening → s.loop ≡ accepting → Step s (record s { loop = holding })
  spawns : s.loop ≡ holding → Step s (spawn s)
  ends :
      s.listener ≡ shut → s.loop ≡ accepting → Step s (record s { loop = no_loop; wg = s.wg - 1 })
  registers :
      (xs : List Conn) (c : Conn) (ys : List Conn)
      → s.conns ≡ xs ++ (c ∷ ys)
      → c.place ≡ accepted
      → Step s (register_conn xs c ys s)
  -- the peer or the handler closes a connection, at any time
  hangs_up :
      (xs : List Conn) (c : Conn) (ys : List Conn)
      → s.conns ≡ xs ++ (c ∷ ys)
      → Step s (record s { conns = xs ++ (record c { is_open = false } ∷ ys) })
  handles :
      (xs : List Conn) (c : Conn) (ys : List Conn)
      → s.conns ≡ xs ++ (c ∷ ys)
      → c.place ≡ serving
      → Step s (record s { conns = xs ++ (record c { place = handled } ∷ ys) })
  unregisters :
      (xs : List Conn) (c : Conn) (ys : List Conn)
      → s.conns ≡ xs ++ (c ∷ ys)
      → c.place ≡ handled
      → Step s (unregister_conn xs c ys s)
  leaves :
      (xs : List Conn) (c : Conn) (ys : List Conn)
      → s.conns ≡ xs ++ (c ∷ ys)
      → c.place ≡ unregistered
      → Step s (record s { wg = s.wg - 1; conns = xs ++ (record c { place = gone } ∷ ys) })
  closes :
      s.closer ≡ idle
      → Step s (record s { listener = shut_listener s.listener; closer = collecting })
  collects : s.closer ≡ collecting → Step s (record s { closer = sweeping s.active })
  sweeps :
      (id : ℕ) (ids : List ℕ)
      → s.closer ≡ sweeping (id ∷ ids)
      → Step s (record s { closer = sweeping ids; conns = shut_conn id s.conns })
  swept : s.closer ≡ sweeping [] → Step s (record s { closer = waiting })
  returns : s.closer ≡ waiting → s.wg ≡ 0 → Step s (record s { closer = returned })

-- The runs from a state.
pub data Run (s : Lifecycle) : Lifecycle → Type 0 where
  here : Run s s
  next : {t u : Lifecycle} → Run s t → Step t u → Run s u
