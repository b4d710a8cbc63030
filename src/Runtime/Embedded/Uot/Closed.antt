-- ===== src/Runtime/Embedded/Uot/Closed.antt =====
-- internal/runtime/embedded.go: how `handleUoT` ends.
use v2sudoku.Prelude.{
  ◌≢◌, true, ℕ, ◌+◌, ◌≡◌, refl, sym, ap, ◌∙◌, subst, String, Bool, false, Option, none, some, ◌⊎◌,
  inl, inr, arith,
}
use v2sudoku.Runtime.Embedded.Uot.{
  Side, packets, stream, Phase, looping, unstarted, listening, not_listened, listened, ended,
  failing, close_stream, close_packets, send, Once, fresh, busy, used, Main, receiving, closing,
  returned, Uot, new_uot, phase_of, with_phase, Step, fails, enters, skips, closes_stream,
  closes_packets, sends, receives, returns, Run, here, next,
}

-- Whether a goroutine is in what `once.Do` runs.
abbrev pub inside : Phase → ℕ
inside (close_stream e) = 1
inside (close_packets e) = 1
inside (send e) = 1
inside _ = 0

abbrev pub busy_count : Once → ℕ
busy_count busy = 1
busy_count _ = 0

abbrev pub total : Uot → ℕ
total s = inside s.reads_packets + inside s.reads_stream

-- What is closed already, where a goroutine is.
abbrev pub IsAt : Bool → Bool → Phase → Type 0
IsAt stream_open packets_open (close_packets e) = stream_open ≡ false
IsAt stream_open packets_open (send e) = (stream_open ≡ false) × (packets_open ≡ false)
IsAt stream_open packets_open _ = Unit

IsAt-shut_stream : (s p : Bool) (ph : Phase) → IsAt s p ph → IsAt false p ph
IsAt-shut_stream s p unstarted h = tt
IsAt-shut_stream s p looping h = tt
IsAt-shut_stream s p ended h = tt
IsAt-shut_stream s p (failing e) h = tt
IsAt-shut_stream s p (close_stream e) h = tt
IsAt-shut_stream s p (close_packets e) h = refl
IsAt-shut_stream s p (send e) h = (refl, h.1)

IsAt-shut_packets : (s p : Bool) (ph : Phase) → IsAt s p ph → IsAt s false ph
IsAt-shut_packets s p unstarted h = tt
IsAt-shut_packets s p looping h = tt
IsAt-shut_packets s p ended h = tt
IsAt-shut_packets s p (failing e) h = tt
IsAt-shut_packets s p (close_stream e) h = tt
IsAt-shut_packets s p (close_packets e) h = h
IsAt-shut_packets s p (send e) h = (h.0, refl)

-- Before the goroutines start, and after that for good if there is no packet connection.
pub record IsIdle (s : Uot) : Type 0 where
  pub once : s.once ≡ fresh
  pub packets : s.reads_packets ≡ unstarted
  pub stream : s.reads_stream ≡ unstarted
  pub stream_open : s.stream_open ≡ true
  pub packets_open : s.packets_open ≡ false
  pub err_ch : s.err_ch ≡ none
  pub main : (s.main ≡ listening) ⊎ ((e : String) × (s.main ≡ returned e))

-- What the channel holds and where `handleUoT` is: it has received the error once it was sent.
abbrev pub MainAt : Once → Option String → Main → Type 0
MainAt used ch m =
    ((e : String) × (ch ≡ some e) × (m ≡ receiving))
    ⊎ ((ch ≡ none) × ((e : String) × ((m ≡ closing e) ⊎ (m ≡ returned e))))
MainAt _ ch m = (ch ≡ none) × (m ≡ receiving)

holds_used :
    (o : Once) (ch : Option String) (m : Main) (e : String) → MainAt o ch m → ch ≡ some e → o ≡ used
holds_used fresh ch m e h full = absurd (cc (h.0, full))
holds_used busy ch m e h full = absurd (cc (h.0, full))
holds_used used ch m e h full = refl

closing_used :
    (o : Once) (ch : Option String) (m : Main) (e : String)
    → MainAt o ch m
    → m ≡ closing e
    → (o ≡ used) × (ch ≡ none)
closing_used fresh ch m e h at_ = absurd (cc (h.1, at_))
closing_used busy ch m e h at_ = absurd (cc (h.1, at_))
closing_used used ch m e (inl (x, full, receives_)) at_ = absurd (cc (receives_, at_))
closing_used used ch m e (inr (empty, _)) at_ = (refl, empty)

not_listening : (o : Once) (ch : Option String) (m : Main) → MainAt o ch m → m ≢ listening
not_listening fresh ch m h at_ = absurd (cc (h.1, at_))
not_listening busy ch m h at_ = absurd (cc (h.1, at_))
not_listening used ch m (inl (e, full, at_)) l = absurd (cc (at_, l))
not_listening used ch m (inr (empty, (e, inl at_))) l = absurd (cc (at_, l))
not_listening used ch m (inr (empty, (e, inr at_))) l = absurd (cc (at_, l))

pub record Inv (s : Uot) : Type 0 where
  pub count : total s ≡ busy_count s.once
  pub packets_at : IsAt s.stream_open s.packets_open s.reads_packets
  pub stream_at : IsAt s.stream_open s.packets_open s.reads_stream
  pub shut : s.once ≡ used → (s.stream_open ≡ false) × (s.packets_open ≡ false)
  pub main : MainAt s.once s.err_ch s.main

-- A step of one goroutine that leaves the connections and `once` as they are.
local-Inv :
    (side : Side) (ph : Phase) (s : Uot)
    → inside ph ≡ inside (phase_of side s)
    → IsAt s.stream_open s.packets_open ph
    → Inv s
    → Inv (with_phase side ph s)
local-Inv packets ph s same at_ i = record {
  count = omega (arith, same, i.count);
  packets_at = at_;
  stream_at = i.stream_at;
  shut = i.shut;
  main = i.main;
}
local-Inv stream ph s same at_ i = record {
  count = omega (arith, same, i.count);
  packets_at = i.packets_at;
  stream_at = at_;
  shut = i.shut;
  main = i.main;
}

at_once : (o : Once) (n : ℕ) → 1 + n ≡ busy_count o → o ≡ busy
at_once fresh n e = absurd (omega (arith, e))
at_once busy n e = refl
at_once used n e = absurd (omega (arith, e))

-- A goroutine is inside only while `once` is busy.
one_goes_in : (side : Side) (s : Uot) → inside (phase_of side s) ≡ 1 → Inv s → s.once ≡ busy
one_goes_in packets s one i = at_once s.once (inside s.reads_stream) (omega (arith, one, i.count))
one_goes_in stream s one i = at_once s.once (inside s.reads_packets) (omega (arith, one, i.count))

-- Then nothing was sent.
pub unsent : (s : Uot) → s.once ≡ busy → Inv s → (s.err_ch ≡ none) × (s.main ≡ receiving)
unsent s at_ i = subst (λ o. MainAt o s.err_ch s.main) at_ i.main

-- While `once` is busy.
busy-Inv :
    (s : Uot)
    → total s ≡ 1
    → IsAt s.stream_open s.packets_open s.reads_packets
    → IsAt s.stream_open s.packets_open s.reads_stream
    → s.once ≡ busy
    → (s.err_ch ≡ none) × (s.main ≡ receiving)
    → Inv s
busy-Inv s one p q at_ h = record {
  count = one ∙ sym (ap busy_count at_);
  packets_at = p;
  stream_at = q;
  shut = λ e. absurd (cc (e, at_));
  main = subst (λ o. MainAt o s.err_ch s.main) (sym at_) h;
}

Step-Inv : {s t : Uot} → Step s t → Inv s → Inv t
Step-Inv {s} (not_listened e h) i = absurd (not_listening s.once s.err_ch s.main i.main h)
Step-Inv {s} (listened h) i = absurd (not_listening s.once s.err_ch s.main i.main h)
Step-Inv {s} (fails side e h) i = local-Inv side (failing e) s (sym (ap inside h)) tt i
Step-Inv {s} (skips side e h u) i = local-Inv side ended s (sym (ap inside h)) tt i
Step-Inv {s} (enters packets e h u) i =
    busy-Inv _ (omega (arith, i.count, ap inside h, ap busy_count u)) tt i.stream_at refl
      (subst (λ o. MainAt o s.err_ch s.main) u i.main)
Step-Inv {s} (enters stream e h u) i =
    busy-Inv _ (omega (arith, i.count, ap inside h, ap busy_count u)) i.packets_at tt refl
      (subst (λ o. MainAt o s.err_ch s.main) u i.main)
Step-Inv {s} (closes_stream packets e h) i =
    let b = one_goes_in packets s (ap inside h) i in
    busy-Inv _ (omega (arith, i.count, ap inside h, ap busy_count b)) refl
      (IsAt-shut_stream _ _ s.reads_stream i.stream_at) b (unsent s b i)
Step-Inv {s} (closes_stream stream e h) i =
    let b = one_goes_in stream s (ap inside h) i in
    busy-Inv _ (omega (arith, i.count, ap inside h, ap busy_count b))
      (IsAt-shut_stream _ _ s.reads_packets i.packets_at) refl b (unsent s b i)
Step-Inv {s} (closes_packets packets e h) i =
    let b = one_goes_in packets s (ap inside h) i in
    busy-Inv _ (omega (arith, i.count, ap inside h, ap busy_count b))
      (subst (IsAt s.stream_open s.packets_open) h i.packets_at, refl)
      (IsAt-shut_packets _ _ s.reads_stream i.stream_at) b (unsent s b i)
Step-Inv {s} (closes_packets stream e h) i =
    let b = one_goes_in stream s (ap inside h) i in
    busy-Inv _ (omega (arith, i.count, ap inside h, ap busy_count b))
      (IsAt-shut_packets _ _ s.reads_packets i.packets_at)
      (subst (IsAt s.stream_open s.packets_open) h i.stream_at, refl) b (unsent s b i)
Step-Inv {s} (sends packets e h empty) i = record {
  count =
      omega (arith, i.count, ap inside h, ap busy_count (one_goes_in packets s (ap inside h) i));
  packets_at = tt;
  stream_at = i.stream_at;
  shut = λ u. subst (IsAt s.stream_open s.packets_open) h i.packets_at;
  main = inl (e, refl, (unsent s (one_goes_in packets s (ap inside h) i) i).1);
}
Step-Inv {s} (sends stream e h empty) i = record {
  count = omega (arith, i.count, ap inside h, ap busy_count (one_goes_in stream s (ap inside h) i));
  packets_at = i.packets_at;
  stream_at = tt;
  shut = λ u. subst (IsAt s.stream_open s.packets_open) h i.stream_at;
  main = inl (e, refl, (unsent s (one_goes_in stream s (ap inside h) i) i).1);
}
Step-Inv {s} (receives e h full) i = record {
  count = i.count;
  packets_at = i.packets_at;
  stream_at = i.stream_at;
  shut = i.shut;
  main =
      subst (λ o. MainAt o none (closing e)) (sym (holds_used s.once s.err_ch s.main e i.main full))
        (inr (refl, (e, inl refl)));
}
Step-Inv {s} (returns e h) i = record {
  count = i.count;
  packets_at = IsAt-shut_packets _ _ s.reads_packets i.packets_at;
  stream_at = IsAt-shut_packets _ _ s.reads_stream i.stream_at;
  shut = λ u. ((i.shut u).0, refl);
  main =
      let (over, empty) = closing_used s.once s.err_ch s.main e i.main h in
      subst (λ o. MainAt o s.err_ch (returned e)) (sym over) (inr (empty, (e, inr refl)));
}

pub idle_phase : (side : Side) (s : Uot) → IsIdle s → phase_of side s ≡ unstarted
idle_phase packets s i = i.packets
idle_phase stream s i = i.stream

waits_for_none : (s : Uot) → IsIdle s → s.main ≢ receiving
waits_for_none s i at_ = elim i.main [
  | inl before ↦ absurd (cc (before, at_))
  | inr (e, after) ↦ absurd (cc (after, at_))
]

closes_none : (s : Uot) (e : String) → IsIdle s → s.main ≢ closing e
closes_none s e i at_ = elim i.main [
  | inl before ↦ absurd (cc (before, at_))
  | inr (x, after) ↦ absurd (cc (after, at_))
]

-- Without a packet connection nothing happens but the call of `ListenPacket`.
Step-IsIdle : {s t : Uot} → Step s t → IsIdle s → IsIdle t ⊎ Inv t
Step-IsIdle {s} (not_listened e h) i = inl (record {
  once = i.once;
  packets = i.packets;
  stream = i.stream;
  stream_open = i.stream_open;
  packets_open = i.packets_open;
  err_ch = i.err_ch;
  main = inr (e, refl);
})
Step-IsIdle {s} (listened h) i = inr (record {
  count = sym (ap busy_count i.once);
  packets_at = tt;
  stream_at = tt;
  shut = λ u. absurd (cc (u, i.once));
  main = subst (λ o. MainAt o s.err_ch receiving) (sym i.once) (i.err_ch, refl);
})
Step-IsIdle {s} (fails side e h) i = absurd (cc (h, idle_phase side s i))
Step-IsIdle {s} (enters side e h u) i = absurd (cc (h, idle_phase side s i))
Step-IsIdle {s} (skips side e h u) i = absurd (cc (h, idle_phase side s i))
Step-IsIdle {s} (closes_stream side e h) i = absurd (cc (h, idle_phase side s i))
Step-IsIdle {s} (closes_packets side e h) i = absurd (cc (h, idle_phase side s i))
Step-IsIdle {s} (sends side e h empty) i = absurd (cc (h, idle_phase side s i))
Step-IsIdle {s} (receives e h full) i = absurd (waits_for_none s i h)
Step-IsIdle {s} (returns e h) i = absurd (closes_none s e i h)

pub Run-Inv : {s : Uot} → Run new_uot s → IsIdle s ⊎ Inv s
Run-Inv here = inl (record {
  once = refl;
  packets = refl;
  stream = refl;
  stream_open = refl;
  packets_open = refl;
  err_ch = refl;
  main = inl refl;
})
Run-Inv (next r st) = elim (Run-Inv r) [ inl i ↦ Step-IsIdle st i | inr i ↦ inr (Step-Inv st i) ]

returned_used :
    (o : Once) (ch : Option String) (m : Main) (e : String)
    → MainAt o ch m
    → m ≡ returned e
    → (o ≡ used) × (ch ≡ none)
returned_used fresh ch m e h at_ = absurd (cc (h.1, at_))
returned_used busy ch m e h at_ = absurd (cc (h.1, at_))
returned_used used ch m e (inl (x, full, receives_)) at_ = absurd (cc (receives_, at_))
returned_used used ch m e (inr (empty, _)) at_ = (refl, empty)

-- Once `handleUoT` has returned, in any run: either there was no packet connection, no goroutine was started,
-- and the stream is as open as it was; or both connections are closed, no error is left in the channel,
-- and no goroutine is about to send one.
pub handle_uot-returns :
    (s : Uot) (e : String)
    → Run new_uot s
    → s.main ≡ returned e
    → ((s.reads_packets ≡ unstarted)
        × (s.reads_stream ≡ unstarted)
        × (s.stream_open ≡ true)
        × (s.packets_open ≡ false))
      ⊎ ((s.stream_open ≡ false)
          × (s.packets_open ≡ false)
          × (s.err_ch ≡ none)
          × (inside s.reads_packets + inside s.reads_stream ≡ 0))
handle_uot-returns s e r at_ = elim (Run-Inv r) [
  | inl i ↦ inl (i.packets, i.stream, i.stream_open, i.packets_open)
  | inr i ↦
      let (over, empty) = returned_used s.once s.err_ch s.main e i.main at_ in
      let (stream_shut, packets_shut) = i.shut over in
      inr (stream_shut, packets_shut, empty, i.count ∙ ap busy_count over)
]
