-- ===== src/Command/Packet.antt =====
-- The packets of both programs: `create_packet` of the client, `create_ack_packet` and
-- `recv_command_packet` of the server. `recv_packet` of the client is the server's code.
pub mod RoundTrip
use public_trash.Base.{
  ℕ, ◌+◌, ◌-◌, Bool, true, false, not, ◌&&◌, ◌==◌, if◌then◌else◌, ltb, List, [], ◌∷◌, ◌++◌, length,
  take, drop, Result, ok, raise, value_error,
}
use public_trash.Base
use public_trash.Base.Words.{Bytes, Endian, big, unpack_word, pack_word, pack_words}
use public_trash.Base.Decimal.{decimal}
use public_trash.Command.Socket.{Sock, give, throw, lift, ◌>>=◌, recv_all}

abbrev pub start_marker : ℕ
start_marker = 0xBAADF00D

abbrev pub end_marker : ℕ
end_marker = 0xDEADBEEF

-- The code points of a text.
abbrev pub Text : Type 0
Text = List ℕ

abbrev pub is_ascii : List ℕ → Bool
is_ascii [] = true
is_ascii (c ∷ cs) = ltb c 128 && is_ascii cs

-- `str.encode("ascii")` and `bytes.decode("ascii")`: the errors of both are `ValueError`s.
unfoldable pub encode_ascii : Text → Result Bytes
encode_ascii s = if is_ascii s then ok s else raise value_error

unfoldable pub decode_ascii : Bytes → Result Text
decode_ascii bs = if is_ascii bs then ok bs else raise value_error

-- `struct.pack("!III", ...) + message_bytes + struct.pack("!I", END_MARKER)`.
unfoldable pub assemble : ℕ → Bytes → Result Bytes
assemble index body =
    Base.◌>>=◌ (pack_words big (start_marker ∷ (16 + length body) ∷ index ∷ []))
      λ header. Base.◌>>=◌ (pack_word big end_marker) λ footer. ok (header ++ (body ++ footer))

unfoldable pub create_packet : Text → ℕ → Result Bytes
create_packet message index = Base.◌>>=◌ (encode_ascii message) (assemble index)

-- `f"ACK {received_index}"`.
abbrev pub ack_message : ℕ → Text
ack_message index = b'A' ∷ b'C' ∷ b'K' ∷ b' ' ∷ decimal index

-- The packet, and the new value of the global `ack_counter`.
unfoldable pub create_ack_packet : ℕ → ℕ → Result (Bytes × ℕ)
create_ack_packet ack_counter received_index =
    Base.◌>>=◌ (encode_ascii (ack_message received_index))
      λ body. Base.◌>>=◌ (assemble ack_counter body) λ packet. ok (packet, ack_counter + 1)

-- `struct.unpack("!III", header)`.
unfoldable pub unpack_three : Bytes → Result (ℕ × ℕ × ℕ)
unpack_three header = Base.◌>>=◌ (unpack_word big (take 4 header)) λ a.
    Base.◌>>=◌ (unpack_word big (take 4 (drop 4 header)))
      λ b. Base.◌>>=◌ (unpack_word big (drop 8 header)) λ c. ok (a, b, c)

-- What is read behind a header that passed the checks.
unfoldable pub recv_body : ℕ → ℕ → Sock (ℕ × Text)
recv_body packet_length msg_index = do
  message_bytes ← recv_all (packet_length - 16)
  footer ← recv_all 4
  last ← lift (unpack_word big footer)
  let decoded = lift (Base.◌>>=◌ (decode_ascii message_bytes) λ message. ok (msg_index, message))
  if not (last == end_marker) then throw value_error else decoded

unfoldable pub recv_command_packet : Sock (ℕ × Text)
unfolding recv_body
recv_command_packet = do
  header ← recv_all 12
  (first, packet_length, msg_index) ← lift (unpack_three header)
  let rest = recv_body packet_length msg_index
  if not (first == start_marker)
      then throw value_error
      else if ltb packet_length 16
      then throw value_error
      else rest

-- `recv_packet` of the client.
unfoldable pub recv_packet : Sock (ℕ × Text)
unfolding recv_command_packet
recv_packet = recv_command_packet
