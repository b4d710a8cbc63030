-- ===== src/Task/Stop.antt =====
-- internal/task/task.go: stopping a task.
use v2sudoku.Prelude.{
  ℕ, suc, ◌≡◌, refl, sym, ◌∙◌, subst, ◌≤◌, List, [], ◌∷◌, ◌++◌, Bool, true, false, ◌||◌, nat_beq,
  nat_beq_iff, if◌then◌else◌, Bool-cases, inl, inr, ◌⊎◌, All, All-append, All-parts, All-each,
  arith,
}
use v2sudoku.Task.{
  Task, Phase, entering, executing, waiting, new_task, start, close, execute_with_timeout,
  after_execute, Step, started, closes, enter, timer, stopped, executed, done, Run, here, next,
}

-- A loop that waits does so on a channel that is closed, or on the current one of a task that runs.
abbrev CurrentAt : (ℕ → Bool) → ℕ → Bool → Phase → Type 0
CurrentAt closed stop running entering = Unit
CurrentAt closed stop running executing = Unit
CurrentAt closed stop running (waiting ch) = (closed ch ≡ true) ⊎ ((ch ≡ stop) × (running ≡ true))

abbrev IsCurrent : Task → Phase → Type 0
IsCurrent t = CurrentAt t.closed t.stop t.running

record Inv (t : Task) : Type 0 where
  -- a channel that is closed was made, and the current one is open while the task runs
  made : (ch : ℕ) → t.closed ch ≡ true → ch ≤ t.stop
  opened : t.running ≡ true → t.closed t.stop ≡ false
  -- otherwise the current one is closed, if there is one, without which there is no loop
  ended : t.running ≡ false → t.closed t.stop ≡ true ⊎ (t.loops ≡ [])
  current : All (IsCurrent t) t.loops

start_running : (first : Bool) (t : Task) → t.running ≡ true → start first t ≡ t
unfolding start
start_running first t running = simp running refl

close_idle : (t : Task) → t.running ≡ false → close t ≡ t
unfolding close
close_idle t idle = simp idle refl

abbrev pub started_task : Bool → Task → Task
started_task first t = record t {
  running = true;
  stop = suc t.stop;
  loops = (if first then executing else entering) ∷ t.loops;
}

pub start_idle :
    (first : Bool) (t : Task) → t.running ≡ false → start first t ≡ started_task first t
unfolding start
start_idle first t idle = simp idle refl

abbrev closed_task : Task → Task
closed_task t = record t { running = false; closed = λ ch. nat_beq ch t.stop || t.closed ch }

close_running : (t : Task) → t.running ≡ true → close t ≡ closed_task t
unfolding close
close_running t running = simp running refl

started-Inv : (first : Bool) (t : Task) → t.running ≡ false → Inv t → Inv (started_task first t)
started-Inv first t idle i = record {
  made = λ ch h. omega (arith, i.made ch h);
  opened = λ h. elim (Bool-cases (t.closed (suc t.stop))) [
    | inl is_closed ↦ absurd (omega (arith, i.made (suc t.stop) is_closed))
    | inr open_ ↦ open_
  ];
  ended = λ h. absurd (cc h);
  current = (
    first_current first,
    All-each (IsCurrent t) (IsCurrent (started_task first t)) kept t.loops i.current,
  );
}
  where
    first_current :
        (b : Bool) → IsCurrent (started_task first t) (if b then executing else entering)
    first_current true = tt
    first_current false = tt

    kept : (p : Phase) → IsCurrent t p → IsCurrent (started_task first t) p
    kept entering h = tt
    kept executing h = tt
    kept (waiting ch) (inl is_closed) = inl is_closed
    kept (waiting ch) (inr (same, runs)) = absurd (cc (idle, runs))

closed-Inv : (t : Task) → t.running ≡ true → Inv t → Inv (closed_task t)
closed-Inv t runs i = record {
  made = made;
  opened = λ h. absurd (cc h);
  ended = λ h. inl (ground (arith, nat_beq_iff t.stop t.stop));
  current = All-each (IsCurrent t) (IsCurrent (closed_task t)) kept t.loops i.current;
}
  where
    made : (ch : ℕ) → (nat_beq ch t.stop || t.closed ch) ≡ true → ch ≤ t.stop
    made ch h = elim (Bool-cases (nat_beq ch t.stop)) [
      | inl same ↦ omega (arith, (nat_beq_iff ch t.stop).0 same)
      | inr other ↦ i.made ch (rw other at h)
    ]

    kept : (p : Phase) → IsCurrent t p → IsCurrent (closed_task t) p
    kept entering h = tt
    kept executing h = tt
    kept (waiting ch) (inl is_closed) = inl (ground (arith, is_closed))
    kept (waiting ch) (inr (same, running)) = inl (ground (arith, (nat_beq_iff ch t.stop).1 same))

not_nil : (xs : List Phase) (p : Phase) (ys : List Phase) → xs ++ (p ∷ ys) ≡ [] → ⊥
not_nil [] p ys e = cc e
not_nil (x ∷ xs) p ys e = cc e

-- A step of a loop that leaves one that is current, or none.
loop-Inv :
    (t : Task) (xs : List Phase) (p : Phase) (ys zs : List Phase) (b : Bool)
    → t.loops ≡ xs ++ (p ∷ ys)
    → (IsCurrent t p → Inv t → All (IsCurrent t) zs)
    → Inv t
    → Inv (record t { loops = xs ++ (zs ++ ys); reload = b })
loop-Inv t xs p ys zs b at_ keep i =
    let (before, own, after) =
      All-parts (IsCurrent t) xs p ys (subst (All (IsCurrent t)) at_ i.current) in
    record {
      made = i.made;
      opened = i.opened;
      ended = λ idle. elim (i.ended idle) [
        | inl is_closed ↦ inl is_closed
        | inr none ↦ absurd (not_nil xs p ys (sym at_ ∙ none))
      ];
      current =
          All-append (IsCurrent t) xs (zs ++ ys) before
            (All-append (IsCurrent t) zs ys (keep own i) after);
    }

Step-Inv : {t u : Task} → Step t u → Inv t → Inv u
Step-Inv {t} (started first) i = elim (Bool-cases t.running) [
  | inl runs ↦ subst Inv (sym (start_running first t runs)) i
  | inr idle ↦ subst Inv (sym (start_idle first t idle)) (started-Inv first t idle i)
]
Step-Inv {t} closes i = elim (Bool-cases t.running) [
  | inl runs ↦ subst Inv (sym (close_running t runs)) (closed-Inv t runs i)
  | inr idle ↦ subst Inv (sym (close_idle t idle)) i
]
Step-Inv {t} (enter xs ys at_) i =
    loop-Inv t xs entering ys (waiting t.stop ∷ []) t.reload at_
      (λ own j. (now_current t xs ys at_ j, tt)) i
  where
    now_current :
        (t : Task) (xs ys : List Phase)
        → t.loops ≡ xs ++ (entering ∷ ys)
        → Inv t
        → IsCurrent t (waiting t.stop)
    now_current t xs ys at_ i = elim (Bool-cases t.running) [
      | inl runs ↦ inr (refl, runs)
      | inr idle ↦ elim (i.ended idle) [
        | inl is_closed ↦ inl is_closed
        | inr none ↦ absurd (not_nil xs entering ys (sym at_ ∙ none))
      ]
    ]
Step-Inv {t} (timer ch xs ys at_) i =
    loop-Inv t xs (waiting ch) ys (executing ∷ []) t.reload at_ (λ own j. (tt, tt)) i
Step-Inv {t} (stopped ch xs ys at_ is_closed) i =
    loop-Inv t xs (waiting ch) ys [] t.reload at_ (λ own j. tt) i
Step-Inv {t} (executed e xs ys at_) i =
    loop-Inv t xs executing ys (after_execute (execute_with_timeout e t.reload).0) _ at_
      (λ own j. left (execute_with_timeout e t.reload).0) i
  where
    left : (b : Bool) → All (IsCurrent t) (after_execute b)
    left true = tt
    left false = (tt, tt)

Run-Inv : {t u : Task} → Run t u → Inv t → Inv u
Run-Inv here i = i
Run-Inv (next r st) i = Step-Inv st (Run-Inv r i)

Inv-new_task : Inv new_task
Inv-new_task = record {
  made = λ ch h. absurd (cc h);
  opened = λ h. absurd (cc h);
  ended = λ h. inr refl;
  current = tt;
}

-- `Close` never closes a channel twice: while a task runs, its stop channel is open, in every run.
pub Run-opened : (t : Task) → Run new_task t → t.running ≡ true → t.closed t.stop ≡ false
Run-opened t r = (Run-Inv r Inv-new_task).opened

pub Run-trans : {s t u : Task} → Run s t → Run t u → Run s u
Run-trans r here = r
Run-trans r (next q st) = next (Run-trans r q) st

-- The steps by which a loop ends because its task was closed: no timer fires, nothing is started or
-- closed, and no `Execute` fails.
abbrev pub IsQuiet : {t u : Task} → Run t u → Type 0
IsQuiet here = Unit
IsQuiet (next r (started first)) = ⊥
IsQuiet (next r closes) = ⊥
IsQuiet (next r (enter xs ys at_)) = IsQuiet r
IsQuiet (next r (timer ch xs ys at_)) = ⊥
IsQuiet (next r (stopped ch xs ys at_ is_closed)) = IsQuiet r
IsQuiet (next r (executed e xs ys at_)) = (e ≡ done) × IsQuiet r

abbrev pub QuietRun : Task → Task → Type 0
QuietRun t u = (r : Run t u) × IsQuiet r

still_silent :
    {s t u : Task} → (r : Run s t) (q : Run t u) → IsQuiet r → IsQuiet q → IsQuiet (Run-trans r q)
unfolding Run-trans
still_silent r here h k = h
still_silent r (next q (enter xs ys at_)) h k = still_silent r q h k
still_silent r (next q (stopped ch xs ys at_ is_closed)) h k = still_silent r q h k
still_silent r (next q (executed e xs ys at_)) h k = (k.0, still_silent r q h k.1)
still_silent r (next q (started first)) h k = absurd k
still_silent r (next q closes) h k = absurd k
still_silent r (next q (timer ch xs ys at_)) h k = absurd k

-- One loop of a task that is closed can end, whatever it is doing.
loop_ends :
    (t : Task) (p : Phase) (ys : List Phase)
    → t.closed t.stop ≡ true
    → t.running ≡ false
    → t.loops ≡ p ∷ ys
    → IsCurrent t p
    → QuietRun t (record t { loops = ys })
unfolding execute_with_timeout
loop_ends t entering ys is_closed idle at_ own =
    (next (next here (enter [] ys at_)) (stopped t.stop [] ys refl is_closed), tt)
loop_ends t (waiting ch) ys is_closed idle at_ (inl gone) =
    (next here (stopped ch [] ys at_ gone), tt)
loop_ends t (waiting ch) ys is_closed idle at_ (inr (same, runs)) = absurd (cc (idle, runs))
loop_ends t executing ys is_closed idle at_ own = (
  next (next (next here (executed done [] ys at_)) (enter [] ys refl))
      (stopped t.stop [] ys refl is_closed),
  (refl, tt),
)

drains :
    (t : Task) (ps : List Phase)
    → t.closed t.stop ≡ true
    → t.running ≡ false
    → t.loops ≡ ps
    → All (IsCurrent t) ps
    → QuietRun t (record t { loops = [] })
drains t [] is_closed idle at_ own =
    subst (λ ps. QuietRun t (record t { loops = ps })) at_ (here, tt)
drains t (p ∷ ps) is_closed idle at_ own =
    let (r, h) = loop_ends t p ps is_closed idle at_ own.0 in
    let (q, k) = drains (record t { loops = ps }) ps is_closed idle refl own.1 in
    (Run-trans r q, still_silent r q h k)

-- The stop channel is ready for a loop that waits.
abbrev pub IsReady : Task → Phase → Type 0
IsReady t entering = t.closed t.stop ≡ true
IsReady t executing = t.closed t.stop ≡ true
IsReady t (waiting ch) = t.closed ch ≡ true

ready :
    (t : Task) (ps : List Phase)
    → t.closed t.stop ≡ true
    → t.running ≡ false
    → All (IsCurrent t) ps
    → All (IsReady t) ps
ready t [] is_closed idle own = tt
ready t (entering ∷ ps) is_closed idle own = (is_closed, ready t ps is_closed idle own.1)
ready t (executing ∷ ps) is_closed idle own = (is_closed, ready t ps is_closed idle own.1)
ready t (waiting ch ∷ ps) is_closed idle own = (waits own.0, ready t ps is_closed idle own.1)
  where
    waits : IsCurrent t (waiting ch) → t.closed ch ≡ true
    waits (inl gone) = gone
    waits (inr (same, runs)) = absurd (cc (idle, runs))

-- In any run, while a task does not run: each of its loops that waits in its `select` does so on a stop
-- channel that is closed, and so will each other one that comes to its `select`; and all loops can end
-- by that channel alone, with no timer, no further call and no `Execute` that fails.
pub Run-ended :
    (t : Task)
    → Run new_task t
    → t.running ≡ false
    → All (IsReady t) t.loops × QuietRun t (record t { loops = [] })
Run-ended t r idle =
    let i = Run-Inv r Inv-new_task in
    elim (i.ended idle) [
      | inl is_closed ↦
          (ready t t.loops is_closed idle i.current, drains t t.loops is_closed idle refl i.current)
      | inr none ↦ (
        subst (All (IsReady t)) (sym none) tt,
        subst (λ ps. QuietRun t (record t { loops = ps })) none (here, tt),
      )
    ]
