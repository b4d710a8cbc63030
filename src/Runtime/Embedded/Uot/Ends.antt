-- ===== src/Runtime/Embedded/Uot/Ends.antt =====
-- internal/runtime/embedded.go: `handleUoT` ends once a datagram could not be read or written.
use v2sudoku.Prelude.{◌≡◌, refl, ap, subst, String, none, some, ◌⊎◌, inl, inr, arith}
use v2sudoku.Runtime.Embedded.Uot.{
  Side, packets, stream, Phase, looping, unstarted, ended, failing, close_stream, close_packets,
  send, Once, fresh, busy, used, receiving, closing, returned, Uot, new_uot, phase_of, Step, enters,
  closes_stream, closes_packets, sends, receives, returns, Run, here, next,
}
use v2sudoku.Runtime.Embedded.Uot.Closed.{
  inside, busy_count, MainAt, Inv, Run-Inv, idle_phase, unsent,
}

-- A run from a state to the end of `handleUoT`.
abbrev pub Ends : Uot → Type 0
Ends s = (e : String) × (t : Uot) × Run s t × (t.main ≡ returned e)

Run-after : {s t u : Uot} → Step s t → Run t u → Run s u
Run-after st here = next here st
Run-after st (next r last) = next (Run-after st r) last

Ends-after : {s t : Uot} → Step s t → Ends t → Ends s
Ends-after st (e, u, r, at_) = (e, u, Run-after st r, at_)

closing-Ends : (e : String) (s : Uot) → s.main ≡ closing e → Ends s
closing-Ends e s at_ = (e, _, next here (returns e at_), refl)

sent-Ends : (e : String) (s : Uot) → s.err_ch ≡ some e → s.main ≡ receiving → Ends s
sent-Ends e s full at_ = Ends-after (receives e at_ full) (closing-Ends e _ refl)

send-Ends :
    (side : Side) (e : String) (s : Uot)
    → phase_of side s ≡ send e
    → s.err_ch ≡ none
    → s.main ≡ receiving
    → Ends s
send-Ends packets e s h empty at_ = Ends-after (sends packets e h empty) (sent-Ends e _ refl at_)
send-Ends stream e s h empty at_ = Ends-after (sends stream e h empty) (sent-Ends e _ refl at_)

close_packets-Ends :
    (side : Side) (e : String) (s : Uot)
    → phase_of side s ≡ close_packets e
    → s.err_ch ≡ none
    → s.main ≡ receiving
    → Ends s
close_packets-Ends packets e s h empty at_ =
    Ends-after (closes_packets packets e h) (send-Ends packets e _ refl empty at_)
close_packets-Ends stream e s h empty at_ =
    Ends-after (closes_packets stream e h) (send-Ends stream e _ refl empty at_)

close_stream-Ends :
    (side : Side) (e : String) (s : Uot)
    → phase_of side s ≡ close_stream e
    → s.err_ch ≡ none
    → s.main ≡ receiving
    → Ends s
close_stream-Ends packets e s h empty at_ =
    Ends-after (closes_stream packets e h) (close_packets-Ends packets e _ refl empty at_)
close_stream-Ends stream e s h empty at_ =
    Ends-after (closes_stream stream e h) (close_packets-Ends stream e _ refl empty at_)

enters-Ends :
    (side : Side) (e : String) (s : Uot)
    → phase_of side s ≡ failing e
    → s.once ≡ fresh
    → (s.err_ch ≡ none) × (s.main ≡ receiving)
    → Ends s
enters-Ends packets e s h u (empty, at_) =
    Ends-after (enters packets e h u) (close_stream-Ends packets e _ refl empty at_)
enters-Ends stream e s h u (empty, at_) =
    Ends-after (enters stream e h u) (close_stream-Ends stream e _ refl empty at_)

-- A goroutine that is inside goes through to the end.
inside-Ends :
    (side : Side) (s : Uot) (ph : Phase)
    → phase_of side s ≡ ph
    → (s.err_ch ≡ none) × (s.main ≡ receiving)
    → Ends s ⊎ (inside ph ≡ 0)
inside-Ends side s unstarted h m = inr refl
inside-Ends side s looping h m = inr refl
inside-Ends side s ended h m = inr refl
inside-Ends side s (failing e) h m = inr refl
inside-Ends side s (close_stream e) h m = inl (close_stream-Ends side e s h m.0 m.1)
inside-Ends side s (close_packets e) h m = inl (close_packets-Ends side e s h m.0 m.1)
inside-Ends side s (send e) h m = inl (send-Ends side e s h m.0 m.1)

busy-Ends : (s : Uot) → s.once ≡ busy → Inv s → Ends s
busy-Ends s b i =
    let m = unsent s b i in
    elim (inside-Ends packets s s.reads_packets refl m) [
      | inl done ↦ done
      | inr off ↦ elim (inside-Ends stream s s.reads_stream refl m) [
        | inl done ↦ done
        | inr off_too ↦ absurd (omega (arith, i.count, ap busy_count b, off, off_too))
      ]
    ]

used-Ends : (s : Uot) → MainAt used s.err_ch s.main → Ends s
used-Ends s (inl (e, full, at_)) = sent-Ends e s full at_
used-Ends s (inr (empty, (e, inl at_))) = closing-Ends e s at_
used-Ends s (inr (empty, (e, inr at_))) = (e, s, here, at_)

failing-Ends :
    (side : Side) (e : String) (s : Uot) (o : Once)
    → phase_of side s ≡ failing e
    → s.once ≡ o
    → Inv s
    → Ends s
failing-Ends side e s fresh h at_ i =
    enters-Ends side e s h at_ (subst (λ o. MainAt o s.err_ch s.main) at_ i.main)
failing-Ends side e s busy h at_ i = busy-Ends s at_ i
failing-Ends side e s used h at_ i = used-Ends s (subst (λ o. MainAt o s.err_ch s.main) at_ i.main)

-- In any run, once reading or writing a datagram has failed in one of the goroutines, `handleUoT` can go on
-- to its return, whatever the other goroutine has done: no call of `once.Do` and no send is stuck.
pub handle_uot-Ends :
    (side : Side) (e : String) (s : Uot) → Run new_uot s → phase_of side s ≡ failing e → Ends s
handle_uot-Ends side e s r h = elim (Run-Inv r) [
  | inl i ↦ absurd (cc (h, idle_phase side s i))
  | inr i ↦ failing-Ends side e s s.once h refl i
]
