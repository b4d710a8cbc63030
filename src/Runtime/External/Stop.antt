-- ===== src/Runtime/External/Stop.antt =====
-- internal/runtime/external.go: `stopLocked`, beside the goroutine that waits for the process and the one
-- that polls `e.cmd`. The caller of `stopLocked` holds the engine's mutex until it has returned.
use v2sudoku.Prelude.{
  ℕ, ◌≡◌, ◌≢◌, refl, sym, subst, ◌∙◌, Bool, true, false, Option, none, ◌⊎◌, inl, inr,
}

-- Where `stopLocked` is: before its test of `e.cmd`, in its `select`, or at its end.
pub data Phase : Type 0 where
  called selecting returned : Phase

-- `e.cmd`, which has a process whenever it is not nil, whether the mutex is held, whether the process has
-- ended, whether the goroutine that polls was made and whether it has closed `done`, whether five
-- seconds are over, and whether the process was killed.
pub record Stopping : Type 0 where
  pub cmd : Option ℕ
  pub locked : Bool
  pub exited : Bool
  pub polling : Bool
  pub done : Bool
  pub timeout : Bool
  pub killed : Bool
  pub phase : Phase

-- A call of `stopLocked`; a process that `e.cmd` still has may have ended.
abbrev pub stopping : Option ℕ → Bool → Stopping
stopping cmd exited = record {
  cmd = cmd;
  locked = true;
  exited = exited;
  polling = false;
  done = false;
  timeout = false;
  killed = false;
  phase = called;
}

pub data Step (s : Stopping) : Stopping → Type 0 where
  -- the process ends
  exit : Step s (record s { exited = true })
  -- the goroutine of `startLocked`, which has to take the mutex
  clear : s.exited ≡ true → s.locked ≡ false → Step s (record s { cmd = none })
  -- there is nothing to stop, and the caller releases the mutex
  early : s.phase ≡ called → s.cmd ≡ none → Step s (record s { phase = returned; locked = false })
  -- the signal is sent
  signals :
      s.phase ≡ called → s.cmd ≢ none → Step s (record s { phase = selecting; polling = true })
  -- the goroutine that polls
  poll : s.polling ≡ true → s.cmd ≡ none → Step s (record s { done = true; polling = false })
  -- five seconds are over
  tick : s.phase ≡ selecting → Step s (record s { timeout = true })
  -- the two cases of the `select`, after which the caller releases the mutex
  seen :
      s.phase ≡ selecting
      → s.done ≡ true
      → Step s (record s { cmd = none; phase = returned; locked = false })
  kill :
      s.phase ≡ selecting
      → s.timeout ≡ true
      → Step s (record s { cmd = none; killed = true; phase = returned; locked = false })

pub data Reach (cmd : Option ℕ) (exited : Bool) : Stopping → Type 0 where
  start : Reach cmd exited (stopping cmd exited)
  next : {s t : Stopping} → Reach cmd exited s → Step s t → Reach cmd exited t

-- What holds at each place. Until `stopLocked` has returned, the mutex is held, so nobody clears `e.cmd`.
abbrev At : Option ℕ → Phase → Stopping → Type 0
At cmd called s =
    (s.cmd ≡ cmd)
    × (s.locked ≡ true)
    × (s.polling ≡ false)
    × (s.killed ≡ false)
    × (s.timeout ≡ false)
At cmd selecting s = (s.cmd ≡ cmd) × (s.locked ≡ true) × (s.done ≡ false) × (cmd ≢ none)
At cmd returned s =
    ((cmd ≡ none) × (s.killed ≡ false) × (s.timeout ≡ false))
    ⊎ ((cmd ≢ none) × (s.killed ≡ true) × (s.timeout ≡ true))

record Inv (cmd : Option ℕ) (s : Stopping) : Type 0 where
  at_ : At cmd s.phase s
  fresh : s.phase ≡ called → s.done ≡ false

module _ (cmd : Option ℕ) where
  exit-At : (ph : Phase) (s : Stopping) → At cmd ph s → At cmd ph (record s { exited = true })
  exit-At called s h = h
  exit-At selecting s h = h
  exit-At returned s h = h

  clear-At :
      (ph : Phase) (s : Stopping)
      → s.locked ≡ false
      → At cmd ph s
      → At cmd ph (record s { cmd = none })
  clear-At called s free h = absurd (cc (free, h.1))
  clear-At selecting s free h = absurd (cc (free, h.1))
  clear-At returned s free h = h

  poll-At :
      (ph : Phase) (s : Stopping)
      → s.polling ≡ true
      → s.cmd ≡ none
      → At cmd ph s
      → At cmd ph (record s { done = true; polling = false })
  poll-At called s made gone h = absurd (cc (made, h.2))
  poll-At selecting s made gone h = absurd (h.3 (sym h.0 ∙ gone))
  poll-At returned s made gone h = h

  moved_there : (ph : Phase) (s : Stopping) → s.phase ≡ ph → At cmd s.phase s → At cmd ph s
  moved_there ph s e h = subst (λ x. At cmd x s) e h

  Step-Inv : {s t : Stopping} → Step s t → Inv cmd s → Inv cmd t
  Step-Inv {s} exit i = record { at_ = exit-At s.phase s i.at_; fresh = i.fresh }
  Step-Inv {s} (clear exited free) i = record {
    at_ = clear-At s.phase s free i.at_;
    fresh = i.fresh;
  }
  Step-Inv {s} (early c gone) i =
      let h = moved_there called s c i.at_ in
      record { at_ = inl (sym h.0 ∙ gone, h.3, h.4); fresh = λ e. absurd (cc e) }
  Step-Inv {s} (signals c ne) i =
      let h = moved_there called s c i.at_ in
      record { at_ = (h.0, h.1, i.fresh c, λ e. ne (h.0 ∙ e)); fresh = λ e. absurd (cc e) }
  Step-Inv {s} (poll made gone) i = record {
    at_ = poll-At s.phase s made gone i.at_;
    fresh = λ c. absurd (cc (made, (moved_there called s c i.at_).2));
  }
  Step-Inv {s} (tick c) i = record {
    at_ =
        subst (λ ph. At cmd ph (record s { timeout = true })) (sym c)
          (moved_there selecting s c i.at_);
    fresh = i.fresh;
  }
  Step-Inv {s} (seen c done) i = absurd (cc (done, (moved_there selecting s c i.at_).2))
  Step-Inv {s} (kill c over) i =
      let h = moved_there selecting s c i.at_ in
      record { at_ = inr (h.3, refl, over); fresh = λ e. absurd (cc e) }

  Reach-Inv : (exited : Bool) (s : Stopping) → Reach cmd exited s → Inv cmd s
  Reach-Inv exited s start = record { at_ = (refl, refl, refl, refl, refl); fresh = λ c. refl }
  Reach-Inv exited s (next {s = u} r st) = Step-Inv st (Reach-Inv exited u r)

-- Whenever `stopLocked` has returned, in any run: either `e.cmd` was nil when it was called, and it has
-- neither waited five seconds nor sent a kill; or there was a process, and it has done both, also if the
-- process had ended by itself, before the call or while it waited.
pub Reach-killed :
    (cmd : Option ℕ) (exited : Bool) (s : Stopping)
    → Reach cmd exited s
    → s.phase ≡ returned
    → ((cmd ≡ none) × (s.killed ≡ false) × (s.timeout ≡ false))
      ⊎ ((cmd ≢ none) × (s.killed ≡ true) × (s.timeout ≡ true))
Reach-killed cmd exited s r c = moved_there cmd returned s c (Reach-Inv cmd exited s r).at_
