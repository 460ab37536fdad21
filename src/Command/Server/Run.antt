-- ===== src/Command/Server/Run.antt =====
-- OLD/command_interface.py: `main` behind the parser, over what `accept` gives.
pub mod Counted
pub mod Ends
pub mod Fuelled
pub mod Reads
use public_trash.Base.{ℕ, zero, suc, ◌+◌, Bool, List, [], ◌∷◌, ◌++◌, length, Exception}
use public_trash.Base.Words.{Bytes}
use public_trash.Command.Socket.{Incoming, Segment, arrives, times_out, resets, fails}
use public_trash.Command.Server.{Session, Ending, ended, send_failed, crashed, serve}

-- `accept` gives a connection, or an interrupt comes while it waits.
pub data Arrival : Type 0 where
  accepted : Incoming → Arrival
  interrupted : Arrival

-- How the program ends: it waits in `accept` when nothing more is given.
pub data Closing : Type 0 where
  waiting shut_down : Closing
  failed_with : Exception → Closing

-- The acknowledgements sent on each connection, and `ack_counter`.
pub record Served : Type 0 where
  pub acks : List (List Bytes)
  pub ack_counter : ℕ
  pub closing : Closing

abbrev pub closed : ℕ → Closing → Served
closed ack_counter closing = record { acks = []; ack_counter = ack_counter; closing = closing }

-- One packet takes a byte at least.
unfoldable pub bytes_left : Incoming → ℕ
bytes_left [] = 0
bytes_left (arrives b bs ∷ rest) = suc (length bs) + bytes_left rest
bytes_left (times_out ∷ rest) = bytes_left rest
bytes_left (resets ∷ rest) = bytes_left rest
bytes_left (fails ∷ rest) = bytes_left rest

unfoldable pub serve_all : (ℕ → Bool) → Incoming → ℕ → Session
unfolding bytes_left
serve_all send_fails incoming ack_counter =
    serve (suc (bytes_left incoming)) send_fails incoming [] ack_counter

-- Behind a connection: an exception that is not caught ends the program, else `accept` is called
-- again.
abbrev pub after_session : Session → (ℕ → Served) → Served
after_session s again = elim s.ending [
  | crashed e ↦ record { acks = s.acks ∷ []; ack_counter = s.ack_counter; closing = failed_with e }
  | _ ↦ let later = again s.ack_counter in record later { acks = s.acks ∷ later.acks }
]

unfoldable pub run : (ℕ → Bool) → List Arrival → ℕ → Served
unfolding serve_all
run send_fails [] ack_counter = closed ack_counter waiting
run send_fails (interrupted ∷ arrivals) ack_counter = closed ack_counter shut_down
run send_fails (accepted incoming ∷ arrivals) ack_counter =
    after_session (serve_all send_fails incoming ack_counter) (λ n. run send_fails arrivals n)

abbrev pub first_ack_counter : ℕ
first_ack_counter = 1

unfoldable pub main : (ℕ → Bool) → List Arrival → Served
unfolding run
main send_fails arrivals = run send_fails arrivals first_ack_counter
