-- ===== src/Runtime/Embedded/Serving.antt =====
-- internal/runtime/embedded.go: what becomes of one connection, from its prelude to its end. What the
-- peer sends, and what the sudoku library and the network make of it, is a parameter (`Peer`).
pub mod Moves
pub mod Account
pub mod Fate
mod Tests
use v2sudoku.Prelude.{
  ℤ, ℕ, String, List, [], ◌∷◌, Bool, true, false, Option, none, some, if◌then◌else◌,
}
use v2sudoku.Runtime.Counting.{count_read, count_write}
use v2sudoku.Runtime.Embedded.{Embedded, Admitted, counter_for_user_hash, mark_offline}

-- A control message; `open_tcp` has the address that its payload decodes to, if it does.
pub data Control : Type 0 where
  keep_alive start_uot start_mux unknown_control : Control
  open_tcp : Option String → Control

-- What `HandleConn` of the tunnel server gives: an error, one of its results, or another one. A
-- connection that passes through may have been rejected before.
pub data TunnelResult : Type 0 where
  tunnel_failed handle_done start_tunnel other_result : TunnelResult
  pass_through : Bool → TunnelResult

-- What the handshake gives: an error, or the hash of the user, if there is one.
pub data Handshake : Type 0 where
  suspicious failed : Handshake
  upgraded : Option String → Handshake

-- Bytes that move on a connection that is counted.
pub data Move : Type 0 where
  reads writes : ℤ → Move

-- `none` is a message that cannot be read; the number is that of the bytes read for it.
pub record Peer : Type 0 where
  pub tunnel : TunnelResult
  pub handshake : Handshake
  pub ip : String
  pub messages : List (ℤ × Option Control)
  -- whether the target can be dialled, and what moves while the connection is served
  pub dials : Bool
  pub moves : List Move
  -- the times at which the user is looked up, and at which the session ends
  pub opened : ℤ
  pub ended : ℤ

pub data Service : Type 0 where
  uot mux : Service
  tcp : String → Service

-- What is done to a connection.
pub data Action : Type 0 where
  close_raw close_tunnel handle_suspicious : Action
  serve : Service → Action

unfoldable pub move : ℕ → Move → Embedded → Embedded
move p (reads n) e = record e { counters = count_read n (some p) e.counters }
move p (writes n) e = record e { counters = count_write n (some p) e.counters }

unfoldable pub move_all : ℕ → List Move → Embedded → Embedded
unfolding move
move_all p [] e = e
move_all p (m ∷ ms) e = move_all p ms (move p m e)

abbrev pub is_keep_alive : Control → Bool
is_keep_alive keep_alive = true
is_keep_alive _ = false

-- The loop of `readFirstControl`. No message is left at the end of what the peer sends.
unfoldable pub read_first_control :
    ℕ → List (ℤ × Option Control) → Embedded → Option Control × Embedded
unfolding move
read_first_control p [] e = (none, e)
read_first_control p ((n, none) ∷ rest) e = (none, move p (reads n) e)
read_first_control p ((n, some msg) ∷ rest) e =
    let more = read_first_control p rest (move p (reads n) e) in
    if is_keep_alive msg then more else (some msg, move p (reads n) e)

-- A session that is served to its end.
unfoldable pub session : Peer → String → ℕ → Service → Embedded → List Action × Embedded
unfolding move_all
session peer uuid p s e = (serve s ∷ [], mark_offline uuid peer.ended (move_all p peer.moves e))

-- The `switch` of `handleSudokuConn`; an error returns before `markOffline`.
unfoldable pub dispatch : Peer → String → ℕ → Option Control → Embedded → List Action × Embedded
unfolding session
dispatch peer uuid p none e = ([], e)
dispatch peer uuid p (some start_uot) e = session peer uuid p uot e
dispatch peer uuid p (some start_mux) e = session peer uuid p mux e
dispatch peer uuid p (some (open_tcp none)) e = ([], e)
dispatch peer uuid p (some (open_tcp (some address))) e =
    if peer.dials then session peer uuid p (tcp address) e else ([], e)
dispatch peer uuid p (some keep_alive) e = ([], mark_offline uuid peer.ended e)
dispatch peer uuid p (some unknown_control) e = ([], mark_offline uuid peer.ended e)

unfoldable pub after_lookup : Peer → Option Admitted × Embedded → List Action × Embedded
unfolding read_first_control dispatch
after_lookup peer (none, e) = (close_tunnel ∷ [], e)
after_lookup peer (some a, e) =
    let (msg, e') = read_first_control a.counter peer.messages e in
    dispatch peer a.uuid a.counter msg e'

-- `meta.UserHash`, or the empty text.
abbrev pub hash_in : Option String → String
hash_in none = ""
hash_in (some user_hash) = user_hash

unfoldable pub after_handshake : Bool → Peer → Handshake → Embedded → List Action × Embedded
unfolding after_lookup
after_handshake allow_fallback peer suspicious e =
    ((if allow_fallback then handle_suspicious else close_raw) ∷ [], e)
after_handshake allow_fallback peer failed e = (close_raw ∷ [], e)
after_handshake allow_fallback peer (upgraded meta) e =
    after_lookup peer (counter_for_user_hash (hash_in meta) peer.ip peer.opened e)

unfoldable pub handle_sudoku_conn : Bool → Peer → Embedded → List Action × Embedded
unfolding after_handshake
handle_sudoku_conn allow_fallback peer e = after_handshake allow_fallback peer peer.handshake e

after_tunnel : Peer → TunnelResult → Embedded → List Action × Embedded
after_tunnel peer tunnel_failed e = (close_raw ∷ [], e)
after_tunnel peer handle_done e = ([], e)
after_tunnel peer start_tunnel e = handle_sudoku_conn false peer e
after_tunnel peer (pass_through true) e = (handle_suspicious ∷ [], e)
after_tunnel peer (pass_through false) e = handle_sudoku_conn true peer e
after_tunnel peer other_result e = (close_raw ∷ [], e)

-- `enabled` is `HTTPMaskTunnelEnabled` of the configuration.
unfoldable pub handle_conn : Bool → Peer → Embedded → List Action × Embedded
unfolding after_tunnel
handle_conn enabled peer e =
    if enabled then after_tunnel peer peer.tunnel e else handle_sudoku_conn true peer e
