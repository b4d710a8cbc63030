-- ===== src/Runtime/Embedded/Lifecycle/Sweep.antt =====
-- internal/runtime/embedded.go: which connections `Close` closes, and which it does not.
use v2sudoku.Prelude.{
  ℕ, suc, ◌<◌, ◌≡◌, refl, sym, ap, subst, List, [], ◌∷◌, ◌++◌, Bool, true, false, ◌==◌, nat_eq,
  nat_beq_iff, Bool-cases, inl, inr, ◌⊎◌, All, All-append, All-parts, All-each, Any, arith,
}
use v2sudoku.Runtime.Embedded.Lifecycle.{
  Conn, Closer, idle, collecting, waiting, sweeping, Lifecycle, new_lifecycle, listen, spawn,
  removed, shut_conn, register_conn, unregister_conn, Step, starts, accepts, spawns, ends,
  registers, hangs_up, handles, unregisters, leaves, closes, collects, sweeps, swept, returns, Run,
  here, next,
}

-- The numbers in use are below the next one.
record Below (s : Lifecycle) : Type 0 where
  active : All (λ id. id < s.next_id) s.active
  conns : All (λ (c : Conn). c.id < s.next_id) s.conns

removed-All : (n id : ℕ) (is : List ℕ) → All (λ i. i < n) is → All (λ i. i < n) (removed id is)
unfolding removed
removed-All n id [] h = tt
removed-All n id (i ∷ is) h = elim (Bool-cases (i == id)) [
  | inl same ↦ rw same (removed-All n id is h.1)
  | inr other ↦ rw other (h.0, removed-All n id is h.1)
]

shut_conn-below :
    (n id : ℕ) (cs : List Conn)
    → All (λ (c : Conn). c.id < n) cs
    → All (λ (c : Conn). c.id < n) (shut_conn id cs)
unfolding shut_conn
shut_conn-below n id [] h = tt
shut_conn-below n id (c ∷ cs) h = elim (Bool-cases (c.id == id)) [
  | inl same ↦ simp same (h.0, shut_conn-below n id cs h.1)
  | inr other ↦ simp other (h.0, shut_conn-below n id cs h.1)
]

-- Putting another connection with the same property in the place of one.
changed :
    (P : Conn → Type 0) (xs : List Conn) (c d : Conn) (ys cs : List Conn)
    → cs ≡ xs ++ (c ∷ ys)
    → (P c → P d)
    → All P cs
    → All P (xs ++ (d ∷ ys))
changed P xs c d ys cs split f h =
    let (before, own, after) = All-parts P xs c ys (subst (All P) split h) in
    All-append P xs (d ∷ ys) before (f own, after)

part :
    (P : Conn → Type 0) (xs : List Conn) (c : Conn) (ys cs : List Conn)
    → cs ≡ xs ++ (c ∷ ys)
    → All P cs
    → P c
part P xs c ys cs split h = (All-parts P xs c ys (subst (All P) split h)).1

wider : (n : ℕ) (is : List ℕ) → All (λ i. i < n) is → All (λ i. i < suc n) is
wider n is h = All-each (λ i. i < n) (λ i. i < suc n) (λ i k. omega (arith, k)) is h

Step-Below : {s t : Lifecycle} → Step s t → Below s → Below t
unfolding listen spawn register_conn unregister_conn
Step-Below {s} (starts h k) b = record { active = b.active; conns = b.conns }
Step-Below {s} (accepts h k) b = record { active = b.active; conns = b.conns }
Step-Below {s} (spawns h) b = record {
  active = wider s.next_id s.active b.active;
  conns = (
    omega arith,
    All-each (λ c. c.id < s.next_id) (λ c. c.id < suc s.next_id) (λ c k. omega (arith, k)) s.conns
        b.conns,
  );
}
Step-Below {s} (ends h k) b = record { active = b.active; conns = b.conns }
Step-Below {s} (registers xs c ys split h) b = record {
  active = (part (λ c. c.id < s.next_id) xs c ys s.conns split b.conns, b.active);
  conns = changed (λ c. c.id < s.next_id) xs c _ ys s.conns split (λ k. k) b.conns;
}
Step-Below {s} (hangs_up xs c ys split) b = record {
  active = b.active;
  conns = changed (λ c. c.id < s.next_id) xs c _ ys s.conns split (λ k. k) b.conns;
}
Step-Below {s} (handles xs c ys split h) b = record {
  active = b.active;
  conns = changed (λ c. c.id < s.next_id) xs c _ ys s.conns split (λ k. k) b.conns;
}
Step-Below {s} (unregisters xs c ys split h) b = record {
  active = removed-All s.next_id c.id s.active b.active;
  conns = changed (λ c. c.id < s.next_id) xs c _ ys s.conns split (λ k. k) b.conns;
}
Step-Below {s} (leaves xs c ys split h) b = record {
  active = b.active;
  conns = changed (λ c. c.id < s.next_id) xs c _ ys s.conns split (λ k. k) b.conns;
}
Step-Below {s} (closes h) b = record { active = b.active; conns = b.conns }
Step-Below {s} (collects h) b = record { active = b.active; conns = b.conns }
Step-Below {s} (sweeps id ids h) b = record {
  active = b.active;
  conns = shut_conn-below s.next_id id s.conns b.conns;
}
Step-Below {s} (swept h) b = record { active = b.active; conns = b.conns }
Step-Below {s} (returns h k) b = record { active = b.active; conns = b.conns }

Run-Below : {s : Lifecycle} → Run new_lifecycle s → Below s
Run-Below here = record { active = tt; conns = tt }
Run-Below (next r st) = Step-Below st (Run-Below r)

abbrev pub Has : List ℕ → ℕ → Type 0
Has ids id = Any (λ i. i ≡ id) ids

abbrev left_of : Closer → List ℕ
left_of (sweeping ids) = ids
left_of _ = []

abbrev has_collected : Closer → Bool
has_collected idle = false
has_collected collecting = false
has_collected _ = true

-- A connection of those to be closed is closed, or still on the way to it.
abbrev IsDue : List ℕ → List ℕ → Conn → Type 0
IsDue ids rest c = Has ids c.id → (c.is_open ≡ false) ⊎ Has rest c.id

record Sweep (ids : List ℕ) (s : Lifecycle) : Type 0 where
  below : All (λ id. id < s.next_id) ids
  past : has_collected s.closer ≡ true
  due : All (IsDue ids (left_of s.closer)) s.conns

Has-below : (n id : ℕ) (ids : List ℕ) → All (λ i. i < n) ids → Has ids id → id < n
Has-below n id [] h k = absurd k
Has-below n id (i ∷ is) h (inl e) = subst (λ j. j < n) e h.0
Has-below n id (i ∷ is) h (inr k) = Has-below n id is h.1 k

sweep-due :
    (ids rest : List ℕ) (id : ℕ) (cs : List Conn)
    → All (IsDue ids (id ∷ rest)) cs
    → All (IsDue ids rest) (shut_conn id cs)
unfolding shut_conn
sweep-due ids rest id [] h = tt
sweep-due ids rest id (c ∷ cs) h = elim (Bool-cases (c.id == id)) [
  | inl same ↦ simp same ((λ k. inl refl), sweep-due ids rest id cs h.1)
  | inr other ↦ simp other (
    (λ k. elim (h.0 k) [
      | inl off ↦ inl off
      | inr (inl e) ↦ absurd (ground (arith, other, sym e, nat_beq_iff c.id id))
      | inr (inr there) ↦ inr there
    ]),
    sweep-due ids rest id cs h.1,
  )
]

module _ (ids : List ℕ) where
  -- A step that changes at most one connection, and closes it or leaves it as it was.
  kept :
      (xs : List Conn) (c d : Conn) (ys cs : List Conn) (rest : List ℕ)
      → cs ≡ xs ++ (c ∷ ys)
      → (IsDue ids rest c → IsDue ids rest d)
      → All (IsDue ids rest) cs
      → All (IsDue ids rest) (xs ++ (d ∷ ys))
  kept xs c d ys cs rest split f h = changed (IsDue ids rest) xs c d ys cs split f h

  Step-Sweep : {s t : Lifecycle} → Step s t → Sweep ids s → Sweep ids t
  unfolding listen spawn register_conn unregister_conn
  Step-Sweep {s} (starts h k) w = absurd (cc (w.past, ap has_collected k))
  Step-Sweep {s} (accepts h k) w = record { below = w.below; past = w.past; due = w.due }
  Step-Sweep {s} (spawns h) w = record {
    below = wider s.next_id ids w.below;
    past = w.past;
    due = ((λ k. absurd (omega (arith, Has-below s.next_id s.next_id ids w.below k))), w.due);
  }
  Step-Sweep {s} (ends h k) w = record { below = w.below; past = w.past; due = w.due }
  Step-Sweep {s} (registers xs c ys split h) w = record {
    below = w.below;
    past = w.past;
    due = kept xs c _ ys s.conns _ split (λ d. d) w.due;
  }
  Step-Sweep {s} (hangs_up xs c ys split) w = record {
    below = w.below;
    past = w.past;
    due = kept xs c _ ys s.conns _ split (λ d k. inl refl) w.due;
  }
  Step-Sweep {s} (handles xs c ys split h) w = record {
    below = w.below;
    past = w.past;
    due = kept xs c _ ys s.conns _ split (λ d. d) w.due;
  }
  Step-Sweep {s} (unregisters xs c ys split h) w = record {
    below = w.below;
    past = w.past;
    due = kept xs c _ ys s.conns _ split (λ d k. inl refl) w.due;
  }
  Step-Sweep {s} (leaves xs c ys split h) w = record {
    below = w.below;
    past = w.past;
    due = kept xs c _ ys s.conns _ split (λ d. d) w.due;
  }
  Step-Sweep {s} (closes h) w = absurd (cc (w.past, ap has_collected h))
  Step-Sweep {s} (collects h) w = absurd (cc (w.past, ap has_collected h))
  Step-Sweep {s} (sweeps id is h) w = record {
    below = w.below;
    past = refl;
    due = sweep-due ids is id s.conns (subst (λ x. All (IsDue ids (left_of x)) s.conns) h w.due);
  }
  Step-Sweep {s} (swept h) w = record {
    below = w.below;
    past = refl;
    due = subst (λ x. All (IsDue ids (left_of x)) s.conns) h w.due;
  }
  Step-Sweep {s} (returns h k) w = record {
    below = w.below;
    past = refl;
    due = subst (λ x. All (IsDue ids (left_of x)) s.conns) h w.due;
  }

  Run-Sweep : {s t : Lifecycle} → Run s t → Sweep ids s → Sweep ids t
  Run-Sweep here w = w
  Run-Sweep (next r st) w = Step-Sweep st (Run-Sweep r w)

all_due : (ids : List ℕ) (cs : List Conn) → All (IsDue ids ids) cs
all_due ids [] = tt
all_due ids (c ∷ cs) = ((λ k. inr k), all_due ids cs)

closed_now : (ids : List ℕ) (c : Conn) → IsDue ids [] c → Has ids c.id → c.is_open ≡ false
closed_now ids c due k = elim (due k) [ inl off ↦ off | inr none_left ↦ absurd none_left ]

-- Once `Close` waits for the goroutines, in any run and whatever else happens meanwhile, each connection
-- that was registered when it looked for the active ones is closed.
pub collects-closed :
    (s t : Lifecycle)
    → Run new_lifecycle s
    → s.closer ≡ collecting
    → Run (record s { closer = sweeping s.active }) t
    → t.closer ≡ waiting
    → All (λ (c : Conn). Has s.active c.id → c.is_open ≡ false) t.conns
collects-closed s t before h after e =
    let begin_ : Sweep s.active (record s { closer = sweeping s.active }) = record {
      below = (Run-Below before).active;
      past = refl;
      due = all_due s.active s.conns;
    } in
    let w = Run-Sweep s.active after begin_ in
    All-each (IsDue s.active []) (λ c. Has s.active c.id → c.is_open ≡ false) (closed_now s.active)
      t.conns (subst (λ x. All (IsDue s.active (left_of x)) t.conns) e w.due)
