-- ===== src/HexTool/Session.antt =====
-- OLD/connect.py: `main`, round by round of its loop. What `select`, `recv` and `sendall` give and
-- the times are given; a time is a number, and `period` stands for the five seconds.
pub mod Paced
use public_trash.Base.{
  ℕ, zero, suc, ◌+◌, ◌%◌, Bool, true, false, if◌then◌else◌, leb, List, [], ◌∷◌, ◌++◌, length,
  get_elem?, Option, none, some, Exception, index_error, Result, ok, raise, ◌>>=◌,
}
use public_trash.Base.Words.{Bytes}
use public_trash.Base.Texts.{Text, codes}
use public_trash.HexTool.{hex_to_bytes, format_bytes_in_32bit_blocks}

-- Behind `select`: the socket is not readable, or `recv` returns, or raises.
pub data Readable : Type 0 where
  not_readable recv_error : Readable
  received : Bytes → Readable

-- A round: what is read, the time behind it, and whether `sendall` raises.
pub record Round : Type 0 where
  pub readable : Readable
  pub now : ℕ
  pub send_raises : Bool

-- How the program stands: the connection was refused, the loop goes on, or one of its breaks was taken, or an exception is not caught.
pub data Ending : Type 0 where
  not_connected connected server_closed receive_error send_error : Ending
  crashed : Exception → Ending

-- The texts of what was received, the messages sent with their times, and the end.
pub record Log : Type 0 where
  pub shown : List Text
  pub sent : List (ℕ × Bytes)
  pub ending : Ending

abbrev pub finish : Ending → Log
finish ending = record { shown = []; sent = []; ending = ending }

abbrev pub show : Bytes → Log → Log
show bytes log = record log { shown = format_bytes_in_32bit_blocks bytes ∷ log.shown }

abbrev pub note : ℕ → Bytes → Log → Log
note now message log = record log { sent = (now, message) ∷ log.sent }

-- `sendall` with what is behind it.
abbrev pub send : Bool → ℕ → Option Bytes → Log → Log
send send_raises now none again = finish (crashed index_error)
send true now (some message) again = finish send_error
send false now (some message) again = note now message again

-- The part of a round that reads: `rest` is the part behind it.
abbrev pub read : Readable → Log → Log
read not_readable rest = rest
read recv_error rest = finish receive_error
read (received []) rest = finish server_closed
read (received (b ∷ bs)) rest = show (b ∷ bs) rest

unfoldable pub run : List Bytes → ℕ → ℕ → ℕ → List Round → Log
run messages period msg_index next_send_time [] = finish connected
run messages period msg_index next_send_time (r ∷ rounds) =
    let later = run messages period ((msg_index + 1) % length messages) (r.now + period) rounds in
    let idle = run messages period msg_index next_send_time rounds in
    read r.readable (
      if leb next_send_time r.now
      then send r.send_raises r.now (get_elem? messages msg_index) later
      else idle)

unfoldable pub messages : Result (List Bytes)
unfolding hex_to_bytes
messages = hex_to_bytes (codes "0x48454c4c4f") >>= λ hello.
    hex_to_bytes (codes "0x474f4f44444159") >>= λ goodday.
    hex_to_bytes (codes "0x425945425945") >>= λ byebye. ok (hello ∷ goodday ∷ byebye ∷ [])

unfoldable pub session : ℕ → ℕ → List Round → Result (List Bytes) → Log
unfolding run
session period start rounds (raise problem) = finish (crashed problem)
session period start rounds (ok ms) = run ms period 0 (start + period) rounds

-- `main`: `none` for a connection that is refused; the messages are made at `start`.
unfoldable pub main : ℕ → ℕ → Option (List Round) → Log
unfolding session messages
main period start none = finish not_connected
main period start (some rounds) = session period start rounds messages
