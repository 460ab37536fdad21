-- ===== src/Command/Server.antt =====
-- OLD/command_interface.py: the loop over the packets of one connection in `main`. Whether the
-- n-th `sendall` raises is a parameter; `Run` has the accept loop, and the prints are left out.
pub mod Replies
pub mod Run
use public_trash.Base.{
  ℕ, zero, suc, ◌+◌, Bool, true, false, if◌then◌else◌, List, [], ◌∷◌, ◌++◌, Exception, value_error,
  connection_error, stuck, Result, ok, raise,
}
use public_trash.Base.Words.{Bytes}
use public_trash.Command.Packet.{Text, create_ack_packet, recv_command_packet}
use public_trash.Command.Socket.{Incoming}

-- How the loop ends: by an exception that is caught, by a failed send, or by one that is not caught.
pub data Ending : Type 0 where
  ended : Exception → Ending
  send_failed : Ending
  crashed : Exception → Ending

pub record Session : Type 0 where
  pub acks : List Bytes
  pub ack_counter : ℕ
  pub ending : Ending

-- `except (ConnectionError, ValueError)`.
abbrev pub is_caught : Exception → Bool
is_caught connection_error = true
is_caught value_error = true
is_caught _ = false

abbrev pub stop : Exception → Ending
stop e = if is_caught e then ended e else crashed e

abbrev pub finish : List Bytes → ℕ → Ending → Session
finish acks ack_counter ending = record { acks = acks; ack_counter = ack_counter; ending = ending }

-- Behind a received packet: the acknowledgement is made and sent, and the loop goes on.
unfoldable pub acknowledge : (ℕ → Bool) → (List Bytes → ℕ → Session) → ℕ → List Bytes → ℕ → Session
acknowledge send_fails again msg_index acks ack_counter =
    elim (create_ack_packet ack_counter msg_index) [
      | raise e ↦ finish acks ack_counter (crashed e)
      | ok (packet, next) ↦
          let go_on = again (acks ++ packet ∷ []) next in
          if send_fails ack_counter then finish acks next send_failed else go_on
    ]

-- What a `recv_command_packet` gives decides whether the loop goes on.
unfoldable pub handle :
    (ℕ → Bool)
    → (Incoming → List Bytes → ℕ → Session)
    → Result (ℕ × Text) × Incoming
    → List Bytes
    → ℕ
    → Session
unfolding acknowledge
handle send_fails again (raise e, rest) acks ack_counter = finish acks ack_counter (stop e)
handle send_fails again (ok (msg_index, message), rest) acks ack_counter =
    acknowledge send_fails (again rest) msg_index acks ack_counter

-- `while True`, on fuel: a packet has 16 bytes at least.
unfoldable pub serve : ℕ → (ℕ → Bool) → Incoming → List Bytes → ℕ → Session
unfolding handle
serve zero send_fails incoming acks ack_counter = finish acks ack_counter (crashed stuck)
serve (suc fuel) send_fails incoming acks ack_counter =
    handle send_fails (λ rest. serve fuel send_fails rest) (recv_command_packet incoming) acks
      ack_counter
