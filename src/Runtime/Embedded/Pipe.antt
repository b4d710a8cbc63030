-- ===== src/Runtime/Embedded/Pipe.antt =====
-- internal/runtime/embedded.go: `pipeConn`, with its two goroutines. What each side sends is a list of
-- pieces. What `TryCloseWrite` and `TryCloseRead` of the sudoku library do is left open: only the calls
-- are kept.
pub mod Truncated
mod Tests
use v2sudoku.Prelude.{ℕ, suc, ◌≡◌, String, List, [], ◌∷◌, ◌++◌, Bool, true, false}

-- A direction, by the connection that it writes to.
pub data Side : Type 0 where
  to_a to_b : Side

-- `io.Copy`: what its source has still to send, what was written, and whether it has returned.
pub record Copy : Type 0 where
  pub pending : List String
  pub moved : List String
  pub is_done : Bool

pub data Call : Type 0 where
  try_close_write try_close_read : Side → Call

-- `pipeConn` waits for the channel, closes `b` and `a`, and returns.
pub data Main : Type 0 where
  receiving closing_b closing_a returned : Main

pub record Pipe : Type 0 where
  pub into_a : Copy
  pub into_b : Copy
  pub a_open : Bool
  pub b_open : Bool
  pub calls : List Call
  -- how many errors the channel, which has room for two, holds
  pub errors : ℕ
  pub main : Main

abbrev pub new_copy : List String → Copy
new_copy pieces = record { pending = pieces; moved = []; is_done = false }

-- `from_a` is what `a` sends, and `from_b` what `b` does.
abbrev pub new_pipe : List String → List String → Pipe
new_pipe from_a from_b = record {
  into_a = new_copy from_b;
  into_b = new_copy from_a;
  a_open = true;
  b_open = true;
  calls = [];
  errors = 0;
  main = receiving;
}

abbrev pub copy_of : Side → Pipe → Copy
copy_of to_a p = p.into_a
copy_of to_b p = p.into_b

abbrev pub with_copy : Side → Copy → Pipe → Pipe
with_copy to_a c p = record p { into_a = c }
with_copy to_b c p = record p { into_b = c }

abbrev pub other : Side → Side
other to_a = to_b
other to_b = to_a

-- One round of `io.Copy`.
unfoldable pub moved_on : String → List String → Copy → Copy
moved_on piece rest c = record c { pending = rest; moved = c.moved ++ (piece ∷ []) }

-- What a goroutine does after `io.Copy`.
unfoldable pub end_copy : Side → Pipe → Pipe
end_copy side p =
    with_copy side (record (copy_of side p) { is_done = true })
      (record p {
        calls = try_close_read (other side) ∷ try_close_write side ∷ p.calls;
        errors = suc p.errors;
      })

pub data Step (p : Pipe) : Pipe → Type 0 where
  -- a piece is read from one connection and written to the other one
  moves :
      (side : Side) (piece : String) (rest : List String)
      → (copy_of side p).is_done ≡ false
      → (copy_of side p).pending ≡ piece ∷ rest
      → p.a_open ≡ true
      → p.b_open ≡ true
      → Step p (with_copy side (moved_on piece rest (copy_of side p)) p)
  -- the source has ended
  ends :
      (side : Side)
      → (copy_of side p).is_done ≡ false
      → (copy_of side p).pending ≡ []
      → Step p (end_copy side p)
  -- reading or writing fails
  fails : (side : Side) → (copy_of side p).is_done ≡ false → Step p (end_copy side p)
  receives :
      (k : ℕ)
      → p.main ≡ receiving
      → p.errors ≡ suc k
      → Step p (record p { main = closing_b; errors = k })
  closes_b : p.main ≡ closing_b → Step p (record p { main = closing_a; b_open = false })
  closes_a : p.main ≡ closing_a → Step p (record p { main = returned; a_open = false })

-- The runs from a state.
pub data Run (p : Pipe) : Pipe → Type 0 where
  here : Run p p
  next : {q r : Pipe} → Run p q → Step q r → Run p r
