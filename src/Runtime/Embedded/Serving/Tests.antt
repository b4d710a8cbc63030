-- ===== src/Runtime/Embedded/Serving/Tests.antt =====
-- Connections that the embedded engine of internal/runtime/embedded.go serves.
use v2sudoku.Prelude.{◌≡◌, ◌⊎◌, pos, List, [], ◌∷◌, true, some, All}
use v2sudoku.Runtime.Samples.{embedded_one}
use v2sudoku.Runtime.Embedded.{Embedded}
use v2sudoku.Runtime.Embedded.Shaped.{IsHeap-counters_one}
use v2sudoku.Runtime.Embedded.Admission.{IsKnown}
use v2sudoku.Runtime.Embedded.Serving.{
  Peer, Action, handle_conn, start_tunnel, upgraded, keep_alive, open_tcp, reads, writes,
}
use v2sudoku.Runtime.Embedded.Serving.Account.{Account}
use v2sudoku.Runtime.Embedded.Serving.Fate.{IsRefusal, hash_of, handle_conn-Fate}

-- A connection of the known user, which keeps alive once and then asks for an address.
abbrev peer_one : Peer
peer_one = record {
  tunnel = start_tunnel;
  handshake = upgraded (some "5a");
  ip = "9.9.9.9";
  messages = (pos 3, some keep_alive) ∷ (pos 20, some (open_tcp (some "example.org:443"))) ∷ [];
  dials = true;
  moves = reads (pos 100) ∷ writes (pos 900) ∷ [];
  opened = pos 8;
  ended = pos 9;
}

abbrev conn_one : List Action × Embedded
conn_one = handle_conn true peer_one embedded_one

handle_conn-Fate_example :
    ((conn_one.1 ≡ embedded_one) × All IsRefusal conn_one.0)
    ⊎ ((k : IsKnown (hash_of peer_one.handshake) embedded_one) × Account peer_one k.uuid
          embedded_one conn_one)
handle_conn-Fate_example = handle_conn-Fate true peer_one embedded_one IsHeap-counters_one
