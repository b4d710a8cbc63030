-- ===== src/Controller/Conservation/Engines.antt =====
-- internal/controller/controller.go: the balance of reports and confirmations, for both engines.
use v2sudoku.Prelude.{◌<◌, ◌^◌, ◌≡◌, String}
use v2sudoku.Runtime.KeyStore.Derive.{Crypto}
use v2sudoku.Runtime.KeyStore.State.{Json}
use v2sudoku.Runtime.Embedded.{Engine}
use v2sudoku.Runtime.Embedded.Shape.{IsShaped}
use v2sudoku.Runtime.Embedded.Traffic.{traffic}
use v2sudoku.Runtime.Embedded.Ledger.{embedded_server, embedded-Ledger}
use v2sudoku.Runtime.External.{ExternalEngine}
use v2sudoku.Runtime.External.Process.{Library}
use v2sudoku.Runtime.External.Ledger.{IsPending, held}
use v2sudoku.Runtime.External.Served.{external_server, external-Ledger}
use v2sudoku.Runtime.Server.{amounts}
use v2sudoku.Controller.Conservation.{System, Reach, plus}
use v2sudoku.Controller.Conservation.Balance.Runs.{Reach-conserved}

-- For the embedded engine, however reports, confirmations, updates of the users and further traffic
-- interleave from a well-formed start: while less than 2 ^ 63 bytes were counted for a user each way,
-- what its counter holds and what the panel has accepted add up to what was counted, so no byte is lost
-- or accepted twice.
pub embedded-conserved :
    (c : Crypto) (json : Json) (v : String) (s : System Engine)
    → Reach (embedded_server c json) (λ g. IsShaped g.embedded) (λ w g. traffic w g.embedded) v s
    → s.counted_up < 2 ^ 63
    → s.counted_down < 2 ^ 63
    → plus (traffic v s.engine.embedded) s.accepted ≡ amounts s.counted_up s.counted_down
embedded-conserved c json v s r up down =
    Reach-conserved (embedded_server c json) (λ g. IsShaped g.embedded)
      (λ w g. traffic w g.embedded) v (embedded-Ledger c json) r up down

-- For the external engine, however reports, confirmations, updates of the users and further traffic
-- interleave from a start with a sound map of pending traffic: while less than 2 ^ 63 bytes were
-- counted for a user each way, what is pending for it and what the panel has accepted add up to what
-- was counted, so no byte is lost or accepted twice.
pub external-conserved :
    (lib : Library) (v : String) (s : System ExternalEngine)
    → Reach
        (external_server lib)
        (λ g. IsPending g.external.pending)
        (λ w g. held w g.external.pending)
        v
        s
    → s.counted_up < 2 ^ 63
    → s.counted_down < 2 ^ 63
    → plus (held v s.engine.external.pending) s.accepted ≡ amounts s.counted_up s.counted_down
external-conserved lib v s r up down =
    Reach-conserved (external_server lib) (λ g. IsPending g.external.pending)
      (λ w g. held w g.external.pending) v (external-Ledger lib) r up down
