-- ===== src/Command/Client/Acks.antt =====
-- The client accepts the acknowledgement of its own index, and no other.
use public_trash.Base.{
  ℕ, zero, suc, ◌+◌, ◌<◌, ◌≡◌, ◌≢◌, refl, sym, ap, ◌∙◌, inl, inr, Bool, true, false, Bool-cases,
  if◌then◌else◌, ◌==◌, ==_iff, [], ◌∷◌, ◌++◌, length, replicate, All, ok, arith,
}
use public_trash.Base.Texts.{is_space, rstrip, trim, strip, text_eq, text_eq_iff}
use public_trash.Base.Words.{Bytes}
use public_trash.Command.Client.{judge, attempts, send_and_receive}
use public_trash.Base.Decimal.{decimal, decimal-IsDigit, decimal-injective, decimal-length, IsDigit}
use public_trash.Command.Packet.{Text, ack_message, recv_packet, recv_command_packet}
use public_trash.Command.Packet.RoundTrip.{
  packet_bytes, Fits, create_packet-ok, recv_command_packet-packet,
}
use public_trash.Command.Socket.Laws.{IsPlain, bytes_of}
use public_trash.Command.Socket.{Incoming, times_out, recv_all, recv_loop, recv}

trim_ink : (c : ℕ) (cs : Text) → is_space c ≡ false → trim c cs ≡ c ∷ cs
trim_ink c [] h = rw h
trim_ink c (d ∷ ds) h = refl

rstrip_digits : (ds : Text) → All IsDigit ds → rstrip ds ≡ ds
unfolding rstrip
rstrip_digits [] h = refl
rstrip_digits (d ∷ ds) h = rw (rstrip_digits ds h.1) (trim_ink d ds (ground arith))

strip_ack :
    (ds : Text)
    → All IsDigit ds
    → 0 < length ds
    → strip (b'A' ∷ b'C' ∷ b'K' ∷ b' ' ∷ ds) ≡ b'A' ∷ b'C' ∷ b'K' ∷ b' ' ∷ ds
unfolding strip
strip_ack [] h pos = absurd (omega arith)
strip_ack (d ∷ ds) h pos = rw (rstrip_digits ds h.1, trim_ink d ds (ground arith))

strip-ack_message : (index : ℕ) → strip (ack_message index) ≡ ack_message index
strip-ack_message index = strip_ack (decimal index) (decimal-IsDigit index) (decimal-length index)

ack_message-injective : (i j : ℕ) → ack_message i ≡ ack_message j → i ≡ j
ack_message-injective i j h = decimal-injective i j (ap behind h)
  where
    behind : Text → Text
    behind (_ ∷ _ ∷ _ ∷ _ ∷ ds) = ds
    behind s = s

-- One attempt, when a well-formed reply with a message `ack` is the next thing on the connection.
attempts_reply :
    (n index sends : ℕ) (send_fails : ℕ → Bool) (ack_index : ℕ) (ack : Text) (tail : Bytes)
    {incoming : Incoming}
    → send_fails sends ≡ false
    → Fits ack_index ack
    → IsPlain incoming
    → bytes_of incoming ≡ packet_bytes ack_index ack ++ tail
    → (rest : Incoming) × IsPlain rest
      × (bytes_of rest ≡ tail)
      × (attempts (suc n) send_fails index sends incoming
          ≡ judge
              (λ made left. attempts n send_fails index made left)
              index
              (sends + 1)
              (ok (ack_index, ack), rest))
unfolding attempts recv_packet
attempts_reply n index sends send_fails ack_index ack tail ok_send f p eq =
    let (rest, got, q, eq') = recv_command_packet-packet ack_index ack tail f p eq in
    (rest, q, eq', rw (ok_send, got))

-- The test of the client on the reply "ACK j".
text_eq-ack_message : (i j : ℕ) → text_eq (ack_message j) (ack_message i) ≡ (i == j)
text_eq-ack_message i j = elim (Bool-cases (i == j)) [
  | inl same ↦
      rw same (
        (text_eq_iff (ack_message j) (ack_message i)).1
          (ap ack_message (sym ((==_iff i j).0 same))))
  | inr other ↦ rw other (elim (Bool-cases (text_eq (ack_message j) (ack_message i))) [
    | inl same ↦ ground (
      arith,
      other,
      ack_message-injective j i ((text_eq_iff (ack_message j) (ack_message i)).0 same),
    )
    | inr differ ↦ differ
  ])
]

-- The test of the client on the reply "ACK j".
decision {ℓ} :
    {A : Type ℓ} (i j : ℕ) (x y : A)
    → (if text_eq (strip (ack_message j)) (ack_message i) then x else y) ≡ (if i == j then x else y)
decision i j x y = rw (strip-ack_message j, text_eq-ack_message i j) refl

-- A reply that says "ACK j" in front, at an attempt for index `i`.
pub reply_for :
    (n i j sends ack_index : ℕ) (send_fails : ℕ → Bool) (tail : Bytes) {incoming : Incoming}
    → send_fails sends ≡ false
    → Fits ack_index (ack_message j)
    → IsPlain incoming
    → bytes_of incoming ≡ packet_bytes ack_index (ack_message j) ++ tail
    → (rest : Incoming) × IsPlain rest
      × (bytes_of rest ≡ tail)
      × (attempts (suc n) send_fails i sends incoming ≡ (
          if i == j
          then record { accepted = true; sends = sends + 1; left = rest }
          else attempts n send_fails i (sends + 1) rest))
unfolding judge
reply_for n i j sends ack_index send_fails tail ok_send f p eq =
    let (rest, q, eq', run) =
      attempts_reply n i sends send_fails ack_index (ack_message j) tail ok_send f p eq in
    (rest, q, eq', run ∙ decision i j _ _)

-- Every attempt waits for a reply in vain.
attempts_timeouts :
    (n index sends : ℕ) (send_fails : ℕ → Bool) (rest : Incoming)
    → ((k : ℕ) → send_fails k ≡ false)
    → attempts n send_fails index sends (replicate n times_out ++ rest)
      ≡ record { accepted = false; sends = sends + n; left = rest }
unfolding attempts judge recv_packet recv_command_packet recv_all recv_loop recv
attempts_timeouts zero index sends send_fails rest h = ground arith
attempts_timeouts (suc n) index sends send_fails rest h =
    rw (h sends) (attempts_timeouts n index (sends + 1) send_fails rest h ∙ ground arith)

-- Where no `sendall` fails, the message fits a packet and the connection brings, in any segments,
-- the acknowledgement of another index and then that of this one, `send_and_receive` sends the
-- packet twice, accepts the second, and leaves what is behind it.
pub send_and_receive-stale :
    (message : Text) (i j a b : ℕ) (send_fails : ℕ → Bool) (tail : Bytes) (incoming : Incoming)
    → Fits i message
    → ((k : ℕ) → send_fails k ≡ false)
    → i ≢ j
    → Fits a (ack_message j)
    → Fits b (ack_message i)
    → IsPlain incoming
    → bytes_of incoming ≡ packet_bytes a (ack_message j) ++ (packet_bytes b (ack_message i) ++ tail)
    → (rest : Incoming) × IsPlain rest
      × (bytes_of rest ≡ tail)
      × (send_and_receive send_fails message i incoming
          ≡ ok (packet_bytes i message, record { accepted = true; sends = 2; left = rest }))
unfolding send_and_receive
send_and_receive-stale message i j a b send_fails tail incoming fm h ne fa fb p eq =
    let (r1, p1, eq1, run1) =
      reply_for 2 i j 0 a send_fails (packet_bytes b (ack_message i) ++ tail) (h 0) fa p eq in
    let (r2, p2, eq2, run2) = reply_for 1 i i 1 b send_fails tail (h 1) fb p1 eq1 in
    let differ : (i == j) ≡ false = ground arith in
    let same : (i == i) ≡ true = ground arith in
    (
      r2,
      p2,
      eq2,
      rw (create_packet-ok message i fm, send_and_receive, run1, differ, run2, same) refl,
    )

-- Where no `sendall` fails and the message fits a packet, three timeouts make `send_and_receive`
-- send the packet three times and return `False`.
send_and_receive-timeouts :
    (message : Text) (i : ℕ) (send_fails : ℕ → Bool) (rest : Incoming)
    → Fits i message
    → ((k : ℕ) → send_fails k ≡ false)
    → send_and_receive send_fails message i (replicate 3 times_out ++ rest)
      ≡ ok (packet_bytes i message, record { accepted = false; sends = 3; left = rest })
unfolding send_and_receive
send_and_receive-timeouts message i send_fails rest fm h =
    rw (create_packet-ok message i fm, send_and_receive, attempts_timeouts 3 i 0 send_fails rest h)
      refl
