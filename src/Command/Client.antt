-- ===== src/Command/Client.antt =====
-- OLD/test_command_interface.py: `send_and_receive`. Whether the n-th `sendall` raises is a
-- parameter; what will arrive on the socket is given, whatever is sent.
pub mod Acks
pub mod Run
use public_trash.Base.{
  ℕ, zero, suc, ◌+◌, Bool, true, false, ◌&&◌, ◌||◌, ◌==◌, if◌then◌else◌, leb, List, [], ◌∷◌,
  Exception, socket_timeout, Result, ok, raise,
}
use public_trash.Base.Texts.{strip, text_eq}
use public_trash.Base.Words.{Bytes}
use public_trash.Command.Packet.{Text, ack_message, create_packet, recv_packet}
use public_trash.Command.Socket.{Incoming}

-- What `send_and_receive` returns, how often it has sent, and what it has not read.
pub record Outcome : Type 0 where
  pub accepted : Bool
  pub sends : ℕ
  pub left : Incoming

abbrev outcome : Bool → ℕ → Incoming → Outcome
outcome accepted sends left = record { accepted = accepted; sends = sends; left = left }

-- A timeout goes on with the next attempt, any other exception gives up; so does a wrong reply go
-- on.
unfoldable pub judge : (ℕ → Incoming → Outcome) → ℕ → ℕ → Result (ℕ × Text) × Incoming → Outcome
judge again index sends (raise socket_timeout, rest) = again sends rest
judge again index sends (raise _, rest) = outcome false sends rest
judge again index sends (ok (ack_index, message), rest) =
    let retry = again sends rest in
    if text_eq (strip message) (ack_message index) then outcome true sends rest else retry

-- `for attempt in range(max_attempts)`, on the attempts left.
unfoldable pub attempts : ℕ → (ℕ → Bool) → ℕ → ℕ → Incoming → Outcome
unfolding judge strip text_eq
attempts zero send_fails index sends incoming = outcome false sends incoming
attempts (suc n) send_fails index sends incoming =
    let reply =
      judge (λ made rest. attempts n send_fails index made rest) index (sends + 1)
        (recv_packet incoming) in
    if send_fails sends then outcome false sends incoming else reply

abbrev pub max_attempts : ℕ
max_attempts = 3

-- The packet that is sent, at each attempt, and the outcome.
unfoldable pub send_and_receive : (ℕ → Bool) → Text → ℕ → Incoming → Result (Bytes × Outcome)
unfolding attempts
send_and_receive send_fails message index incoming = elim (create_packet message index) [
  | raise e ↦ raise e
  | ok packet ↦ ok (packet, attempts max_attempts send_fails index 0 incoming)
]
