-- ===== src/Command/Server/Run/Fuelled.antt =====
-- One packet is read, or an exception of the code is raised, whatever arrives.
use public_trash.Base.{
  ℕ, zero, suc, ◌+◌, ◌-◌, ◌≤◌, ◌<◌, ◌≡◌, refl, subst, min, Bool, true, false, not, Bool-cases, inl,
  inr, ◌==◌, if◌then◌else◌, ltb, ltb→lt, List, [], ◌∷◌, ◌++◌, length, take, drop, length-append,
  length-take, length-drop, Exception, stuck, connection_error, value_error, Result, ok, raise,
  arith,
}
use public_trash.Base
use public_trash.Base.Words.{Bytes, big, unpack_word}
use public_trash.Command.Socket.{Incoming, and_then, Sock, lift, throw, recv_all}
use public_trash.Command.Packet.{
  Text, start_marker, end_marker, is_ascii, decode_ascii, unpack_three, recv_body,
  recv_command_packet,
}
use public_trash.Command.Server.Run.{bytes_left}
use public_trash.Command.Server.Run.Reads.{is_stuck, IsFuelled, IsRead, recv_all-IsRead}

-- A call on the socket that leaves at most so many bytes, and raises no `stuck`.
abbrev pub IsCalled : {A : Type 0} → ℕ → Result A × Incoming → Type 0
IsCalled start (r, rest) = IsFuelled r × (bytes_left rest ≤ start)

module _ {A B : Type 0} where
  and_then-IsCalled :
      (start : ℕ) (m : Result A × Incoming) (next : A → Sock B)
      → IsCalled start m
      → ((a : A) (rest : Incoming) → IsCalled (bytes_left rest) (next a rest))
      → IsCalled start (and_then m next)
  and_then-IsCalled start (ok a, rest) next h k =
      let (fuelled, less) = k a rest in (fuelled, omega (arith, less, h.1))
  and_then-IsCalled start (raise e, rest) next h k = h

  pub bind-IsFuelled :
      (m : Result A) (next : A → Result B)
      → IsFuelled m
      → ((a : A) → IsFuelled (next a))
      → IsFuelled (Base.◌>>=◌ m next)
  bind-IsFuelled (ok a) next h k = k a
  bind-IsFuelled (raise e) next h k = h

IsRead-IsCalled : (n start : ℕ) (m : Result Bytes × Incoming) → IsRead n start m → IsCalled start m
IsRead-IsCalled n start (ok got, rest) h = (tt, omega (arith, h.1))
IsRead-IsCalled n start (raise e, rest) h = h

lift-IsCalled :
    {A : Type 0} (r : Result A) (rest : Incoming)
    → IsFuelled r
    → IsCalled (bytes_left rest) (lift r rest)
lift-IsCalled r rest h = (h, omega arith)

recv_all-IsCalled :
    (n : ℕ) (incoming : Incoming) → IsCalled (bytes_left incoming) (recv_all n incoming)
recv_all-IsCalled n incoming =
    IsRead-IsCalled n (bytes_left incoming) (recv_all n incoming) (recv_all-IsRead n incoming)

unpack_word-IsFuelled : (bs : Bytes) → IsFuelled (unpack_word big bs)
unfolding unpack_word
unpack_word-IsFuelled [] = refl
unpack_word-IsFuelled (a ∷ []) = refl
unpack_word-IsFuelled (a ∷ b ∷ []) = refl
unpack_word-IsFuelled (a ∷ b ∷ c ∷ []) = refl
unpack_word-IsFuelled (a ∷ b ∷ c ∷ d ∷ []) = tt
unpack_word-IsFuelled (a ∷ b ∷ c ∷ d ∷ e ∷ es) = refl

unpack_three-IsFuelled : (header : Bytes) → IsFuelled (unpack_three header)
unfolding unpack_three
unpack_three-IsFuelled header =
    bind-IsFuelled (unpack_word big (take 4 header)) _ (unpack_word-IsFuelled (take 4 header)) (λ a.
      bind-IsFuelled (unpack_word big (take 4 (drop 4 header))) _
        (unpack_word-IsFuelled (take 4 (drop 4 header)))
        (λ b.
          bind-IsFuelled (unpack_word big (drop 8 header)) _ (unpack_word-IsFuelled (drop 8 header))
            (λ c. tt)))

pub if-IsFuelled :
    {A : Type 0} (b : Bool) (x y : Result A)
    → IsFuelled x
    → IsFuelled y
    → IsFuelled (if b then x else y)
if-IsFuelled true x y h k = h
if-IsFuelled false x y h k = k

if-IsCalled :
    {A : Type 0} (b : Bool) (start : ℕ) (x y : Sock A) (rest : Incoming)
    → IsCalled start (x rest)
    → IsCalled start (y rest)
    → IsCalled start ((if b then x else y) rest)
if-IsCalled true start x y rest h k = h
if-IsCalled false start x y rest h k = k

decode_ascii-IsFuelled : (bs : Bytes) → IsFuelled (decode_ascii bs)
unfolding decode_ascii
decode_ascii-IsFuelled bs = if-IsFuelled (is_ascii bs) (ok bs) (raise value_error) tt refl

recv_body-IsCalled :
    (packet_length msg_index : ℕ) (incoming : Incoming)
    → IsCalled (bytes_left incoming) (recv_body packet_length msg_index incoming)
unfolding recv_body
recv_body-IsCalled packet_length msg_index incoming =
    and_then-IsCalled (bytes_left incoming) _ _ (recv_all-IsCalled (packet_length - 16) incoming)
      (λ message_bytes behind.
        and_then-IsCalled (bytes_left behind) _ _ (recv_all-IsCalled 4 behind) (λ footer last.
          and_then-IsCalled (bytes_left last) _ _
            (lift-IsCalled (unpack_word big footer) last (unpack_word-IsFuelled footer))
            (λ word rest.
              if-IsCalled (not (word == end_marker)) (bytes_left rest) (throw value_error) _ rest
                (refl, omega arith)
                (lift-IsCalled _ rest (
                  bind-IsFuelled (decode_ascii message_bytes) _
                    (decode_ascii-IsFuelled message_bytes) (λ message. tt))))))

-- A packet takes a byte at least.
abbrev pub IsPacket : ℕ → Result (ℕ × Text) × Incoming → Type 0
IsPacket start (ok c, rest) = bytes_left rest < start
IsPacket start (raise e, rest) = is_stuck e ≡ false

IsCalled-IsPacket :
    (left start : ℕ) (m : Result (ℕ × Text) × Incoming)
    → IsCalled left m
    → left < start
    → IsPacket start m
IsCalled-IsPacket left start (ok c, rest) h less = omega (arith, h.1, less)
IsCalled-IsPacket left start (raise e, rest) h less = h.0

header-IsPacket :
    (start : ℕ) (m : Result Bytes × Incoming) (next : Bytes → Sock (ℕ × Text))
    → IsRead 12 start m
    → ((header : Bytes) (rest : Incoming) → IsCalled (bytes_left rest) (next header rest))
    → IsPacket start (and_then m next)
header-IsPacket start (ok header, rest) next h k =
    IsCalled-IsPacket (bytes_left rest) start (next header rest) (k header rest)
      (omega (arith, h.0, h.1))
header-IsPacket start (raise e, rest) next h k = h.0

pub recv_command_packet-IsPacket :
    (incoming : Incoming) → IsPacket (bytes_left incoming) (recv_command_packet incoming)
unfolding recv_command_packet
recv_command_packet-IsPacket incoming =
    header-IsPacket (bytes_left incoming) (recv_all 12 incoming) _ (recv_all-IsRead 12 incoming)
      (λ header rest.
        and_then-IsCalled (bytes_left rest) _ _
          (lift-IsCalled (unpack_three header) rest (unpack_three-IsFuelled header))
          (λ words behind.
            if-IsCalled (not (words.0 == start_marker)) (bytes_left behind) (throw value_error) _
              behind (refl, omega arith)
              (if-IsCalled (ltb words.1 16) (bytes_left behind) (throw value_error)
                (recv_body words.1 words.2) behind (refl, omega arith)
                (recv_body-IsCalled words.1 words.2 behind))))
