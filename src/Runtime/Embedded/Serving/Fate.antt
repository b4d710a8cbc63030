-- ===== src/Runtime/Embedded/Serving/Fate.antt =====
-- internal/runtime/embedded.go: what a whole connection does to the engine.
use v2sudoku.Prelude.{
  ℤ, ◌≡◌, refl, ap, sym, subst, String, List, Bool, true, false, none, ◌⊎◌, inl, inr, string_eq,
  Option-cases, arith, All,
}
use v2sudoku.Dict.{lookup}
use v2sudoku.Panel.{UserInfo}
use v2sudoku.Runtime.Counting.{Counters, allocate, keep_counter, rename}
use v2sudoku.Runtime.Counting.Laws.{IsHeap, modify-IsHeap, keep_counter-IsHeap}
use v2sudoku.Runtime.Embedded.{Embedded, admit, counter_for_user_hash}
use v2sudoku.Runtime.Embedded.Admission.{
  IsKnown, admits, refused_or_let_in, counter_for_user_hash-admits,
}
use v2sudoku.Runtime.Embedded.Serving.{
  TunnelResult, tunnel_failed, handle_done, start_tunnel, other_result, pass_through, Handshake,
  suspicious, failed, upgraded, Peer, Action, serve, after_lookup, hash_in, after_handshake,
  handle_sudoku_conn, after_tunnel, handle_conn,
}
use v2sudoku.Runtime.Embedded.Serving.Account.{Account, admitted-Account}

-- A connection for which the engine is left as it was, and nothing is served.
abbrev pub IsRefusal : Action → Type 0
IsRefusal (serve s) = ⊥
IsRefusal _ = Unit

abbrev pub hash_of : Handshake → String
hash_of (upgraded meta) = hash_in meta
hash_of _ = ""

abbrev pub Fate : Peer → Embedded → List Action × Embedded → Type 0
Fate peer e o =
    ((o.1 ≡ e) × All IsRefusal o.0)
    ⊎ ((k : IsKnown (hash_of peer.handshake) e) × Account peer k.uuid e o)

allocate-IsHeap :
    (uid : ℤ) (uuid : String) (cs : Counters)
    → lookup uuid cs.table ≡ none
    → IsHeap cs
    → IsHeap (allocate uuid uid uuid cs)
unfolding keep_counter
allocate-IsHeap uid uuid cs gone h = rw (gone, keep_counter) at (keep_counter-IsHeap uid uuid cs h)

new_name :
    (uid : ℤ) (uuid : String) (cs : Counters)
    → uuid ≡ ((allocate uuid uid uuid cs).cell cs.next).uuid
unfolding allocate
new_name uid uuid cs = ground arith

admit-IsHeap :
    (uuid : String) (user : UserInfo) (ip : String) (now : ℤ) (e : Embedded)
    → IsHeap e.counters
    → IsHeap (admit uuid user ip now e).1.counters
admit-IsHeap uuid user ip now e h = elim (Option-cases (lookup uuid e.counters.table)) [
  | inl gone ↦ rw gone (
      modify-IsHeap e.counters.next (rename user.id uuid) (allocate uuid user.id uuid e.counters)
        (new_name user.id uuid e.counters) (allocate-IsHeap user.id uuid e.counters gone h))
  | inr (q, found) ↦
      rw found
        (modify-IsHeap q (rename user.id uuid) e.counters (sym (h.owns uuid q found).owner) h)
]

module _ (peer : Peer) (e : Embedded) (h : IsHeap e.counters) where
  known-Account :
      (user_hash : String) (k : IsKnown user_hash e)
      → Account peer k.uuid e
          (after_lookup peer (counter_for_user_hash user_hash peer.ip peer.opened e))
  known-Account user_hash k =
      let let_in = admits user_hash peer.ip peer.opened e k in
      let (found, there, same, users) =
        counter_for_user_hash-admits user_hash peer.ip peer.opened e _ _ h let_in in
      subst (λ x. Account peer k.uuid e (after_lookup peer x)) (sym let_in)
        (admitted-Account peer e _ _ (admit-IsHeap k.uuid k.user peer.ip peer.opened e h) found
          there same users)

  lookup-Fate :
      (user_hash : String)
      → hash_of peer.handshake ≡ user_hash
      → Fate peer e (after_lookup peer (counter_for_user_hash user_hash peer.ip peer.opened e))
  unfolding after_lookup
  lookup-Fate user_hash same = elim (refused_or_let_in user_hash peer.ip peer.opened e) [
    | inl turned_down ↦ inl (rw turned_down (refl, (tt, tt)))
    | inr k ↦ inr (
        subst
          (λ x.
            (k : IsKnown x e) × Account peer k.uuid e
              (after_lookup peer (counter_for_user_hash user_hash peer.ip peer.opened e)))
          (sym same) (k, known-Account user_hash k))
  ]

  handshake-Fate :
      (allow_fallback : Bool) (hs : Handshake)
      → peer.handshake ≡ hs
      → Fate peer e (after_handshake allow_fallback peer hs e)
  unfolding after_handshake
  handshake-Fate true suspicious same = inl (refl, (tt, tt))
  handshake-Fate false suspicious same = inl (refl, (tt, tt))
  handshake-Fate allow_fallback failed same = inl (refl, (tt, tt))
  handshake-Fate allow_fallback (upgraded meta) same = lookup-Fate (hash_in meta) (ap hash_of same)

  sudoku-Fate : (allow_fallback : Bool) → Fate peer e (handle_sudoku_conn allow_fallback peer e)
  unfolding handle_sudoku_conn
  sudoku-Fate allow_fallback = handshake-Fate allow_fallback peer.handshake refl

  tunnel-Fate : (r : TunnelResult) → Fate peer e (after_tunnel peer r e)
  unfolding after_tunnel
  tunnel-Fate tunnel_failed = inl (refl, (tt, tt))
  tunnel-Fate handle_done = inl (refl, tt)
  tunnel-Fate start_tunnel = sudoku-Fate false
  tunnel-Fate (pass_through true) = inl (refl, (tt, tt))
  tunnel-Fate (pass_through false) = sudoku-Fate true
  tunnel-Fate other_result = inl (refl, (tt, tt))

-- On well-formed counters, a connection that is served with nothing in between has one of two
-- fates. Nothing is served, and the engine is left as it was. Or the hash of its handshake is that
-- of a known user: then the service of the first message that is not to keep alive is provided, if
-- there is one; the bytes read up to that message, and those that move while it is served, are
-- added to the traffic of that user, and to nobody else's; and the user was last seen when the
-- session ended, or when it opened if the handler returned early.
pub handle_conn-Fate :
    (enabled : Bool) (peer : Peer) (e : Embedded)
    → IsHeap e.counters
    → ((handle_conn enabled peer e).1 ≡ e) × All IsRefusal (handle_conn enabled peer e).0
      ⊎ (k : IsKnown (hash_of peer.handshake) e) × Account peer k.uuid e
          (handle_conn enabled peer e)
unfolding handle_conn
handle_conn-Fate true peer e h = tunnel-Fate peer e h peer.tunnel
handle_conn-Fate false peer e h = sudoku-Fate peer e h true
