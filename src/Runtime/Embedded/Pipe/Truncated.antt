-- ===== src/Runtime/Embedded/Pipe/Truncated.antt =====
-- internal/runtime/embedded.go: what `pipeConn` moves, and what it leaves.
use v2sudoku.Prelude.{
  append_assoc, ◌≡◌, refl, sym, ap, ◌∙◌, subst, String, List, [], ◌∷◌, ◌++◌, false, ◌⊎◌, inl, inr,
}
use v2sudoku.Runtime.Embedded.Pipe.{
  Side, to_a, to_b, Copy, closing_a, returned, Pipe, new_pipe, moved_on, end_copy, Step, moves,
  ends, fails, receives, closes_b, closes_a, Run, here, next,
}

append-nil : (xs : List String) → xs ++ [] ≡ xs
append-nil [] = refl
append-nil (x ∷ xs) = ap (λ r. x ∷ r) (append-nil xs)

-- What was written in a direction and what is pending is together what its source had to send.
abbrev IsWhole : List String → Copy → Type 0
IsWhole pieces c = c.moved ++ c.pending ≡ pieces

record Inv (from_a from_b : List String) (p : Pipe) : Type 0 where
  into_a : IsWhole from_b p.into_a
  into_b : IsWhole from_a p.into_b
  b_shut : (p.main ≡ closing_a) ⊎ (p.main ≡ returned) → p.b_open ≡ false
  a_shut : p.main ≡ returned → p.a_open ≡ false

moved_on-IsWhole :
    (pieces : List String) (piece : String) (rest : List String) (c : Copy)
    → c.pending ≡ piece ∷ rest
    → IsWhole pieces c
    → IsWhole pieces (moved_on piece rest c)
unfolding moved_on
moved_on-IsWhole pieces piece rest c there whole =
    append_assoc c.moved (piece ∷ []) rest ∙ ap (λ r. c.moved ++ r) (sym there) ∙ whole

module _ (from_a from_b : List String) where
  end_copy-Inv :
      (side : Side) (p : Pipe) → Inv from_a from_b p → Inv from_a from_b (end_copy side p)
  unfolding end_copy
  end_copy-Inv to_a p i = record {
    into_a = i.into_a;
    into_b = i.into_b;
    b_shut = i.b_shut;
    a_shut = i.a_shut;
  }
  end_copy-Inv to_b p i = record {
    into_a = i.into_a;
    into_b = i.into_b;
    b_shut = i.b_shut;
    a_shut = i.a_shut;
  }

  Step-Inv : {p q : Pipe} → Step p q → Inv from_a from_b p → Inv from_a from_b q
  Step-Inv {p} (moves to_a piece rest on there a b) i = record {
    into_a = moved_on-IsWhole from_b piece rest p.into_a there i.into_a;
    into_b = i.into_b;
    b_shut = i.b_shut;
    a_shut = i.a_shut;
  }
  Step-Inv {p} (moves to_b piece rest on there a b) i = record {
    into_a = i.into_a;
    into_b = moved_on-IsWhole from_a piece rest p.into_b there i.into_b;
    b_shut = i.b_shut;
    a_shut = i.a_shut;
  }
  Step-Inv {p} (ends side on over) i = end_copy-Inv side p i
  Step-Inv {p} (fails side on) i = end_copy-Inv side p i
  Step-Inv {p} (receives k at_ held) i = record {
    into_a = i.into_a;
    into_b = i.into_b;
    b_shut = λ e. elim e [ inl e1 ↦ absurd (cc e1) | inr e2 ↦ absurd (cc e2) ];
    a_shut = λ e. absurd (cc e);
  }
  Step-Inv {p} (closes_b at_) i = record {
    into_a = i.into_a;
    into_b = i.into_b;
    b_shut = λ e. refl;
    a_shut = λ e. absurd (cc e);
  }
  Step-Inv {p} (closes_a at_) i = record {
    into_a = i.into_a;
    into_b = i.into_b;
    b_shut = λ e. i.b_shut (inl at_);
    a_shut = λ e. refl;
  }

  Run-Inv : {p : Pipe} → Run (new_pipe from_a from_b) p → Inv from_a from_b p
  Run-Inv here = record {
    into_a = refl;
    into_b = refl;
    b_shut = λ e. elim e [ inl e1 ↦ absurd (cc e1) | inr e2 ↦ absurd (cc e2) ];
    a_shut = λ e. absurd (cc e);
  }
  Run-Inv (next r st) = Step-Inv st (Run-Inv r)

  -- Once `pipeConn` has returned, both connections are closed, and what was written to each of them, with
  -- what was still to come, is what the other one had to send: a beginning of it, in order.
  pub pipe_moves :
      (p : Pipe)
      → Run (new_pipe from_a from_b) p
      → p.main ≡ returned
      → (p.into_a.moved ++ p.into_a.pending ≡ from_b)
        × (p.into_b.moved ++ p.into_b.pending ≡ from_a)
        × (p.a_open ≡ false)
        × (p.b_open ≡ false)
  pipe_moves p r e = let i = Run-Inv r in (i.into_a, i.into_b, i.a_shut e, i.b_shut (inr e))

-- A run in which no reading and no writing fails.
abbrev pub IsSound : {p q : Pipe} → Run p q → Type 0
IsSound here = Unit
IsSound (next r (moves side piece rest on there a b)) = IsSound r
IsSound (next r (ends side on over)) = IsSound r
IsSound (next r (fails side on)) = ⊥
IsSound (next r (receives k at_ held)) = IsSound r
IsSound (next r (closes_b at_)) = IsSound r
IsSound (next r (closes_a at_)) = IsSound r

abbrev pub SoundRun : Pipe → Pipe → Type 0
SoundRun p q = (r : Run p q) × IsSound r

module _ (from_a from_b : List String) where
  -- The state when `b` has got some pieces, and others are to come.
  abbrev sending : List String → List String → Pipe
  sending done rest = record (new_pipe from_a from_b) {
    into_b = record { pending = rest; moved = done; is_done = false };
  }

  drain :
      (done rest : List String)
      → SoundRun (new_pipe from_a from_b) (sending done rest)
      → SoundRun (new_pipe from_a from_b) (sending (done ++ rest) [])
  unfolding moved_on
  drain done [] r =
      subst (λ d. SoundRun (new_pipe from_a from_b) (sending d [])) (sym (append-nil done)) r
  drain done (x ∷ rest) (r, sound) =
      subst (λ d. SoundRun (new_pipe from_a from_b) (sending d []))
        (append_assoc done (x ∷ []) rest)
        (drain (done ++ (x ∷ [])) rest (next r (moves to_b x rest refl refl refl refl), sound))

  -- Whatever the two sides have to send, `pipeConn` can close both connections and return with all of what
  -- one side sends delivered and nothing of what the other one does, though no reading or writing fails.
  pub pipe_truncates :
      (p : Pipe) × SoundRun (new_pipe from_a from_b) p
      × (p.main ≡ returned)
      × (p.into_b.moved ≡ from_a)
      × (p.into_a.moved ≡ [])
      × (p.into_a.pending ≡ from_b)
      × (p.a_open ≡ false)
  unfolding end_copy
  pipe_truncates =
      let (r, sound) = drain [] from_a (here, tt) in
      let ended = next r (ends to_b refl refl) in
      let closed =
        next (next (next ended (receives 0 refl refl)) (closes_b refl)) (closes_a refl) in
      (_, (closed, sound), refl, refl, refl, refl, refl)
