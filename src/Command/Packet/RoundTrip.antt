-- ===== src/Command/Packet/RoundTrip.antt =====
-- What one program packs, the other reads back, however the connection cuts it.
use public_trash.Base.{
  ℕ, ◌+◌, ◌-◌, ◌≡◌, refl, ap, ◌∙◌, true, false, ltb, ltb-false, List, [], ◌∷◌, ◌++◌, length, All,
  append_assoc, ok, arith,
}
use public_trash.Base.Words.{
  Bytes, IsU32, big, word_bytes, words_bytes, pack_words-ok, pack_word-ok, unpack_word-word_bytes,
}
use public_trash.Base.Decimal.{decimal, decimal-IsDigit, IsDigit}
use public_trash.Command.Packet.{
  start_marker, end_marker, Text, is_ascii, encode_ascii, decode_ascii, assemble, create_packet,
  ack_message, create_ack_packet, unpack_three, recv_body, recv_command_packet,
}
use public_trash.Command.Socket.Laws.{IsPlain, bytes_of, recv_all_exact}
use public_trash.Command.Socket.{Incoming}

-- The packet with this index and these message bytes, and what fits its fields.
abbrev pub packet_bytes : ℕ → Bytes → Bytes
packet_bytes index body =
    words_bytes big (start_marker ∷ (16 + length body) ∷ index ∷ [])
    ++ (body ++ word_bytes big end_marker)

pub record Fits (index : ℕ) (body : Text) : Type 0 where
  pub index_fits : IsU32 index
  pub length_fits : IsU32 (16 + length body)
  pub ascii : is_ascii body ≡ true

assemble-ok :
    (index : ℕ) (body : Bytes)
    → IsU32 index
    → IsU32 (16 + length body)
    → assemble index body ≡ ok (packet_bytes index body)
unfolding assemble
assemble-ok index body hi hl = rw (
  pack_words-ok big (start_marker ∷ (16 + length body) ∷ index ∷ []) (omega arith, (hl, (hi, tt))),
  pack_word-ok big end_marker (omega arith),
)

pub create_packet-ok :
    (message : Text) (index : ℕ)
    → Fits index message
    → create_packet message index ≡ ok (packet_bytes index message)
unfolding create_packet encode_ascii
create_packet-ok message index f = rw f.ascii (assemble-ok index message f.index_fits f.length_fits)

digits_ascii : (ds : List ℕ) → All IsDigit ds → is_ascii ds ≡ true
digits_ascii [] h = refl
digits_ascii (d ∷ ds) h = ground (arith, digits_ascii ds h.1)

pub ack_ascii : (index : ℕ) → is_ascii (ack_message index) ≡ true
ack_ascii index = digits_ascii (decimal index) (decimal-IsDigit index)

pub create_ack_packet-ok :
    (ack_counter index : ℕ)
    → IsU32 ack_counter
    → IsU32 (16 + length (ack_message index))
    → create_ack_packet ack_counter index
      ≡ ok (packet_bytes ack_counter (ack_message index), ack_counter + 1)
unfolding create_ack_packet encode_ascii
create_ack_packet-ok ack_counter index hc hl =
    rw (ack_ascii index, assemble-ok ack_counter (ack_message index) hc hl)

unpack_three-words :
    (a b c : ℕ)
    → IsU32 a
    → IsU32 b
    → IsU32 c
    → unpack_three (words_bytes big (a ∷ b ∷ c ∷ [])) ≡ ok (a, b, c)
unfolding unpack_three
unpack_three-words a b c ha hb hc = rw (
  unpack_word-word_bytes big a ha,
  unpack_word-word_bytes big b hb,
  unpack_word-word_bytes big c hc,
)

recv_body-packet :
    (index : ℕ) (body tail : Bytes) {incoming : Incoming}
    → is_ascii body ≡ true
    → IsPlain incoming
    → bytes_of incoming ≡ body ++ (word_bytes big end_marker ++ tail)
    → (rest : Incoming) × (recv_body (16 + length body) index incoming ≡ (ok (index, body), rest))
      × IsPlain rest
      × (bytes_of rest ≡ tail)
unfolding recv_body decode_ascii
recv_body-packet index body tail {incoming} ascii p eq =
    let n : 16 + length body - 16 ≡ length body = omega arith in
    let (r1, got1, p1, eq1) =
      recv_all_exact (length body) body (word_bytes big end_marker ++ tail) p eq refl in
    let (r2, got2, p2, eq2) = recv_all_exact 4 (word_bytes big end_marker) tail p1 eq1 refl in
    let marker = unpack_word-word_bytes big end_marker (omega arith) in
    (r2, rw (n, got1, got2, marker, ascii), p2, eq2)

-- On a connection with no timeout and no error that brings a packet and then anything, in any
-- segments, `recv_command_packet` returns the index and the message of the packet and leaves what
-- is behind it; the index and the length fit 32 bits and the message is ASCII.
pub recv_command_packet-packet :
    (index : ℕ) (body tail : Bytes) {incoming : Incoming}
    → Fits index body
    → IsPlain incoming
    → bytes_of incoming ≡ packet_bytes index body ++ tail
    → (rest : Incoming) × (recv_command_packet incoming ≡ (ok (index, body), rest))
      × IsPlain rest
      × (bytes_of rest ≡ tail)
unfolding recv_command_packet
recv_command_packet-packet index body tail {incoming} f p eq =
    let header = words_bytes big (start_marker ∷ (16 + length body) ∷ index ∷ []) in
    let (r1, got1, p1, eq1) =
      recv_all_exact 12 header (body ++ (word_bytes big end_marker ++ tail)) p
        (eq ∙ ap (◌++◌ header) (append_assoc body (word_bytes big end_marker) tail)) refl in
    let (r2, got2, p2, eq2) = recv_body-packet index body tail f.ascii p1 eq1 in
    let three =
      unpack_three-words start_marker (16 + length body) index (omega arith) f.length_fits
        f.index_fits in
    let long : ltb (16 + length body) 16 ≡ false = ltb-false _ _ (omega arith) in
    (r2, rw (got1, three, long) got2, p2, eq2)
