-- ===== src/Runtime/Embedded/Lifecycle/Late.antt =====
-- internal/runtime/embedded.go: connections that `closeActiveConns` does not see.
use v2sudoku.Prelude.{
  append_assoc, ℕ, zero, suc, ◌-◌, ◌≡◌, refl, sym, ap, ◌∙◌, subst, List, [], ◌∷◌, ◌++◌, true,
  length, All, arith,
}
use v2sudoku.Runtime.Embedded.Lifecycle.{
  listening, shut, no_loop, accepting, ends, accepted, serving, Conn, idle, waiting, Lifecycle,
  new_lifecycle, listen, spawn, register_conn, starts, accepts, spawns, registers, closes, collects,
  swept, Run, here, next,
}

-- `n` connections that were accepted and are not yet registered, and the same when they are served.
abbrev late : ℕ → List Conn
late zero = []
late (suc n) = record { id = n; place = accepted; is_open = true } ∷ late n

abbrev served : ℕ → List Conn
served zero = []
served (suc n) = record { id = n; place = serving; is_open = true } ∷ served n

-- The engine with `n` such connections.
abbrev burst : ℕ → Lifecycle
burst n = record {
  listener = listening;
  loop = accepting;
  wg = suc n;
  active = [];
  conns = late n;
  next_id = n;
  closer = idle;
}

Run-burst : (n : ℕ) → Run new_lifecycle (burst n)
unfolding listen spawn
Run-burst zero = next here (starts refl refl)
Run-burst (suc n) = next (next (Run-burst n) (accepts refl refl)) (spawns refl)

-- The late ones are registered, one after the other.
register_late :
    (n : ℕ) (xs : List Conn) (s t : Lifecycle)
    → Run s t
    → t.conns ≡ xs ++ late n
    → (u : Lifecycle) × Run s u × (u.conns ≡ xs ++ served n) × (u.closer ≡ t.closer) × (u.wg ≡ t.wg)
unfolding register_conn
register_late zero xs s t r e = (t, r, e, refl, refl)
register_late (suc n) xs s t r e =
    let c : Conn = record { id = n; place = accepted; is_open = true } in
    let d : Conn = record { id = n; place = serving; is_open = true } in
    let (u, more, conns, closer, wg) =
      register_late n (xs ++ (d ∷ [])) s (register_conn xs c (late n) t)
        (next r (registers xs c (late n) e refl)) (sym (append_assoc xs (d ∷ []) (late n))) in
    (u, more, conns ∙ append_assoc xs (d ∷ []) (served n), closer, wg)

abbrev pub IsServed : Conn → Type 0
IsServed c = (c.place ≡ serving) × (c.is_open ≡ true)

all_served : (n : ℕ) → All IsServed (served n)
all_served zero = tt
all_served (suc n) = ((refl, refl), all_served n)

length-served : (n : ℕ) → length (served n) ≡ n
length-served zero = refl
length-served (suc n) = omega (arith, length-served n)

abbrev waits : ℕ → Lifecycle
waits n = record {
  listener = shut;
  loop = no_loop;
  wg = n;
  active = [];
  conns = late n;
  next_id = n;
  closer = waiting;
}

Run-waits : (n : ℕ) → Run new_lifecycle (waits n)
Run-waits n =
    let last : suc n - 1 ≡ n = omega arith in
    subst (λ k. Run new_lifecycle (record (waits n) { wg = k })) last
      (next (next (next (next (Run-burst n) (closes refl)) (collects refl)) (swept refl))
        (ends refl refl))

-- Any number of connections can be open and served while `Close` waits for the goroutines: if they were
-- accepted, and not yet registered when it looked for the active ones, nothing of it closes them, and the
-- wait group counts exactly them.
pub late_conns_stay_open :
    (n : ℕ)
    → (s : Lifecycle) × Run new_lifecycle s
      × (s.closer ≡ waiting)
      × (s.wg ≡ n)
      × (length s.conns ≡ n)
      × All IsServed s.conns
late_conns_stay_open n =
    let (s, r, conns, closer, wg) = register_late n [] new_lifecycle (waits n) (Run-waits n) refl in
    (
      s,
      r,
      closer,
      wg,
      ap length conns ∙ length-served n,
      subst (All IsServed) (sym conns) (all_served n),
    )
