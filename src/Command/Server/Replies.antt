-- ===== src/Command/Server/Replies.antt =====
-- The server acknowledges each packet of a connection, in order, with consecutive numbers.
use public_trash.Base.{
  ℕ, zero, suc, ◌+◌, ◌^◌, ◌≤◌, ◌<◌, ◌≡◌, sym, ap, ◌∙◌, Bool, false, List, [], ◌∷◌, ◌++◌, length,
  length-append, All, append_assoc, append-nil, connection_error, ok, raise, arith,
}
use public_trash.Base.Words.{Bytes, IsU32}
use public_trash.Command.Packet.{Text, ack_message, create_ack_packet, recv_command_packet}
use public_trash.Command.Packet.RoundTrip.{
  packet_bytes, Fits, create_ack_packet-ok, recv_command_packet-packet,
}
use public_trash.Command.Server.{Session, ended, serve, acknowledge}
use public_trash.Command.Socket.Laws.{IsPlain, bytes_of, recv_all-Reads, Reads, full, short}
use public_trash.Command.Socket.{Incoming, recv_all}

-- A command: its index and its message.
abbrev pub Command : Type 0
Command = ℕ × Text

abbrev pub commands_bytes : List Command → Bytes
commands_bytes [] = []
commands_bytes (c ∷ cs) = packet_bytes c.0 c.1 ++ commands_bytes cs

-- The acknowledgements, from this value of the counter on.
abbrev pub replies : ℕ → List Command → List Bytes
replies ack_counter [] = []
replies ack_counter (c ∷ cs) =
    packet_bytes ack_counter (ack_message c.0) ∷ replies (ack_counter + 1) cs

abbrev pub IsCommand : Command → Type 0
IsCommand c = Fits c.0 c.1 × IsU32 (16 + length (ack_message c.0))

-- With no byte left the header cannot be read.
recv_at_end :
    (incoming : Incoming)
    → IsPlain incoming
    → bytes_of incoming ≡ []
    → (rest : Incoming) × (recv_command_packet incoming ≡ (raise connection_error, rest))
unfolding recv_command_packet
recv_at_end incoming p none_left = go (recv_all-Reads 12 p)
  where
    go :
        Reads 12 [] incoming (recv_all 12 incoming)
        → (rest : Incoming) × (recv_command_packet incoming ≡ (raise connection_error, rest))
    go (full got rest run size same q) =
        absurd (omega (arith, ap length (sym none_left ∙ same), length-append got (bytes_of rest)))
    go (short rest run few) = (rest, rw run)

acknowledge_sent :
    (send_fails : ℕ → Bool) (again : List Bytes → ℕ → Session) (index : ℕ) (acks : List Bytes)
    (ack_counter : ℕ) {packet : Bytes}
    → create_ack_packet ack_counter index ≡ ok (packet, ack_counter + 1)
    → send_fails ack_counter ≡ false
    → acknowledge send_fails again index acks ack_counter
      ≡ again (acks ++ packet ∷ []) (ack_counter + 1)
unfolding acknowledge
acknowledge_sent send_fails again index acks ack_counter made sends = rw (made, acknowledge, sends)

serve_commands :
    (cs : List Command) (fuel : ℕ) (send_fails : ℕ → Bool) (acks : List Bytes) (ack_counter : ℕ)
    {incoming : Incoming}
    → All IsCommand cs
    → IsPlain incoming
    → bytes_of incoming ≡ commands_bytes cs
    → length cs < fuel
    → ack_counter + length cs ≤ 2 ^ 32
    → ((n : ℕ) → send_fails n ≡ false)
    → serve fuel send_fails incoming acks ack_counter ≡ record {
      acks = acks ++ replies ack_counter cs;
      ack_counter = ack_counter + length cs;
      ending = ended connection_error;
    }
unfolding serve
serve_commands cs zero send_fails acks ack_counter all p eq fuelled fit sends = absurd (omega arith)
serve_commands [] (suc fuel) send_fails acks ack_counter {incoming} all p eq fuelled fit sends =
    let (rest, run) = recv_at_end incoming p eq in rw run (ground (arith, append-nil acks))
serve_commands (c ∷ cs) (suc fuel) send_fails acks ack_counter {incoming} (h, all) p eq fuelled fit
      sends =
    let (rest, got, q, eq') = recv_command_packet-packet c.0 c.1 (commands_bytes cs) h.0 p eq in
    let made = create_ack_packet-ok ack_counter c.0 (omega arith) h.1 in
    rw got (
      acknowledge_sent send_fails (λ x n. serve fuel send_fails rest x n) c.0 acks ack_counter made
        (sends ack_counter)
      ∙ serve_commands cs fuel send_fails (acks ++ packet_bytes ack_counter (ack_message c.0) ∷ [])
          (ack_counter + 1) all q eq' (omega arith) (omega arith) sends
      ∙ ground (
        arith,
        append_assoc acks (packet_bytes ack_counter (ack_message c.0) ∷ [])
            (replies (ack_counter + 1) cs),
      ))

-- A connection that brings these commands and then closes, cut into segments in any way, where no
-- `sendall` fails, every number fits its field and the fuel is above the number of commands: the
-- server sends one acknowledgement for each, in order, numbered on from its counter, and the loop
-- ends by the `ConnectionError` that is caught.
pub serve-replies :
    (cs : List Command) (fuel ack_counter : ℕ) (send_fails : ℕ → Bool) (incoming : Incoming)
    → All IsCommand cs
    → IsPlain incoming
    → bytes_of incoming ≡ commands_bytes cs
    → length cs < fuel
    → ack_counter + length cs ≤ 2 ^ 32
    → ((n : ℕ) → send_fails n ≡ false)
    → serve fuel send_fails incoming [] ack_counter ≡ record {
      acks = replies ack_counter cs;
      ack_counter = ack_counter + length cs;
      ending = ended connection_error;
    }
serve-replies cs fuel ack_counter send_fails incoming all p eq fuelled fit sends =
    serve_commands cs fuel send_fails [] ack_counter all p eq fuelled fit sends
