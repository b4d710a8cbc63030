-- ===== src/Task/Loops.antt =====
-- internal/task/task.go: loops that pile up.
use v2sudoku.Prelude.{ℕ, zero, suc, ◌≡◌, refl, ap, sym, subst, List, [], ◌∷◌, ◌++◌, true, false}
use v2sudoku.Task.{
  Task, Phase, entering, executing, waiting, new_task, start, close, done, execute_with_timeout,
  started, closes, enter, timer, executed, Run, here, next,
}
use v2sudoku.Task.Stop.{Run-trans, start_idle}

abbrev pub many : ℕ → Phase → List Phase
many zero p = []
many (suc n) p = p ∷ many n p

-- A task that does not run, with loops that are all in `Execute`.
abbrev Busy : ℕ → Task → Type 0
Busy n t = Run new_task t × (t.running ≡ false) × (t.loops ≡ many n executing)

start_step : (t u : Task) → start false t ≡ u → Run t u
start_step t u e = subst (Run t) e (next here (started false))

close_step : (t u : Task) → close t ≡ u → Run t u
close_step t u e = subst (Run t) e (next here closes)

one_more : (n : ℕ) (t : Task) → Busy n t → (u : Task) × Busy (suc n) u
unfolding close
one_more n t (r, idle, loops) =
    let t1 : Task = record t { running = true; stop = suc t.stop; loops = entering ∷ t.loops } in
    let t2 : Task = record t1 { loops = waiting t1.stop ∷ t.loops } in
    let t3 : Task = record t1 { loops = executing ∷ t.loops } in
    (
      close t3,
      (
        Run-trans r (
            next
              (next (next (start_step t t1 (start_idle false t idle)) (enter [] t.loops refl))
                (timer t1.stop [] t.loops refl))
              closes),
        refl,
        ap (◌∷◌ executing) loops,
      ),
    )

busy : (n : ℕ) → (t : Task) × Busy n t
busy zero = (new_task, (here, refl, refl))
busy (suc n) = let (t, h) = busy n in one_more n t h

snoc : (xs : List Phase) (p : Phase) (ys : List Phase) → (xs ++ (p ∷ [])) ++ ys ≡ xs ++ (p ∷ ys)
snoc [] p ys = refl
snoc (x ∷ xs) p ys = ap (◌∷◌ x) (snoc xs p ys)

-- Loops in `Execute` finish, and wait on the channel that is current by then.
finish :
    (n : ℕ) (t : Task) (xs : List Phase)
    → t.loops ≡ xs ++ many n executing
    → Run t (record t { loops = xs ++ many n (waiting t.stop) })
unfolding execute_with_timeout
finish zero t xs at_ = subst (λ ps. Run t (record t { loops = ps })) at_ here
finish (suc n) t xs at_ =
    let rest = many n executing in
    let w = waiting t.stop in
    let t2 : Task = record t { loops = xs ++ (w ∷ rest) } in
    Run-trans (next (next here (executed done xs rest at_)) (enter xs rest refl)) (
      subst (λ ps. Run t2 (record t { loops = ps })) (snoc xs w (many n w))
        (finish n t2 (xs ++ (w ∷ [])) (sym (snoc xs w rest))))

-- For every number there is a run, of `Start` and `Close` and of loops whose `Execute` returns no error,
-- after which the task runs with that many loops beyond the one that was started last, all of them
-- waiting on its stop channel: `Close` does not end a loop that is in `Execute`, and after the next
-- `Start` that loop goes on beside the new one.
pub loops_pile_up :
    (n : ℕ)
    → (t : Task) × Run new_task t × (t.running ≡ true) × (t.loops ≡ many (suc n) (waiting t.stop))
loops_pile_up n =
    let (t, (r, idle, loops)) = busy n in
    let t1 : Task = record t { running = true; stop = suc t.stop; loops = entering ∷ t.loops } in
    let t2 : Task = record t1 { loops = waiting t1.stop ∷ t.loops } in
    (
      record t1 { loops = many (suc n) (waiting t1.stop) },
      Run-trans r (
          Run-trans (next (start_step t t1 (start_idle false t idle)) (enter [] t.loops refl))
            (finish n t2 (waiting t1.stop ∷ []) (ap (◌∷◌ (waiting t1.stop)) loops))),
      refl,
      refl,
    )
