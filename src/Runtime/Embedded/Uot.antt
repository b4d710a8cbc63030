-- ===== src/Runtime/Embedded/Uot.antt =====
-- internal/runtime/embedded.go: `handleUoT`, with its packet connection and its two goroutines.
-- A datagram that is passed on changes nothing here, and neither does an address that cannot be resolved.
pub mod Closed
pub mod Ends
mod Tests
use v2sudoku.Prelude.{◌≡◌, String, Bool, true, false, Option, none, some}

-- A goroutine, by the connection that it reads from.
pub data Side : Type 0 where
  packets stream : Side

-- Where a goroutine is: not started, in its loop, before `once.Do` with an error, in what `once.Do` runs (before each of
-- its three calls), or at its end.
pub data Phase : Type 0 where
  unstarted looping ended : Phase
  failing close_stream close_packets send : String → Phase

-- Whether `once` was used: while its function runs, other calls wait.
pub data Once : Type 0 where
  fresh busy used : Once

-- `handleUoT` itself: before `ListenPacket`, before the receive, before the deferred `Close`, or at its end
-- with its result.
pub data Main : Type 0 where
  listening receiving : Main
  closing returned : String → Main

pub record Uot : Type 0 where
  pub stream_open : Bool
  pub packets_open : Bool
  pub once : Once
  -- what the channel, which has room for one, holds
  pub err_ch : Option String
  pub reads_packets : Phase
  pub reads_stream : Phase
  pub main : Main

-- A call, with a stream that is open. There is no packet connection yet.
abbrev pub new_uot : Uot
new_uot = record {
  stream_open = true;
  packets_open = false;
  once = fresh;
  err_ch = none;
  reads_packets = unstarted;
  reads_stream = unstarted;
  main = listening;
}

abbrev pub phase_of : Side → Uot → Phase
phase_of packets s = s.reads_packets
phase_of stream s = s.reads_stream

abbrev pub with_phase : Side → Phase → Uot → Uot
with_phase packets ph s = record s { reads_packets = ph }
with_phase stream ph s = record s { reads_stream = ph }

pub data Step (s : Uot) : Uot → Type 0 where
  -- `ListenPacket` fails, and its error is returned at once
  not_listened : (e : String) → s.main ≡ listening → Step s (record s { main = returned e })
  listened :
      s.main ≡ listening
      → Step s (record s {
        packets_open = true;
        reads_packets = looping;
        reads_stream = looping;
        main = receiving;
      })
  -- reading or writing a datagram fails
  fails :
      (side : Side) (e : String)
      → phase_of side s ≡ looping
      → Step s (with_phase side (failing e) s)
  enters :
      (side : Side) (e : String)
      → phase_of side s ≡ failing e
      → s.once ≡ fresh
      → Step s (with_phase side (close_stream e) (record s { once = busy }))
  skips :
      (side : Side) (e : String)
      → phase_of side s ≡ failing e
      → s.once ≡ used
      → Step s (with_phase side ended s)
  closes_stream :
      (side : Side) (e : String)
      → phase_of side s ≡ close_stream e
      → Step s (with_phase side (close_packets e) (record s { stream_open = false }))
  closes_packets :
      (side : Side) (e : String)
      → phase_of side s ≡ close_packets e
      → Step s (with_phase side (send e) (record s { packets_open = false }))
  sends :
      (side : Side) (e : String)
      → phase_of side s ≡ send e
      → s.err_ch ≡ none
      → Step s (with_phase side ended (record s { err_ch = some e; once = used }))
  receives :
      (e : String)
      → s.main ≡ receiving
      → s.err_ch ≡ some e
      → Step s (record s { err_ch = none; main = closing e })
  returns :
      (e : String)
      → s.main ≡ closing e
      → Step s (record s { packets_open = false; main = returned e })

-- The runs from a state.
pub data Run (s : Uot) : Uot → Type 0 where
  here : Run s s
  next : {t u : Uot} → Run s t → Step t u → Run s u
