-- ===== src/Command/Socket.antt =====
-- A connected socket as what will arrive on it, and `recv_all` of both programs.
pub mod Laws
use public_trash.Base.{
  ℕ, zero, suc, ◌+◌, ◌-◌, Bool, true, false, if◌then◌else◌, ltb, List, [], ◌∷◌, ◌++◌, length, take,
  drop, Exception, connection_error, socket_timeout, socket_error, stuck, Result, ok, raise,
}
use public_trash.Base.Words.{Bytes}

-- Bytes that arrive together, at least one; a timeout; a reset by the peer, which is a
-- `ConnectionError`; another error of the socket.
pub data Segment : Type 0 where
  arrives : ℕ → Bytes → Segment
  times_out resets fails : Segment

-- Behind the last segment the peer has closed the connection.
abbrev pub Incoming : Type 0
Incoming = List Segment

-- A call on the socket returns or raises, and leaves what has not been read.
abbrev pub Sock : Type 0 → Type 0
Sock A = Incoming → Result A × Incoming

abbrev pub and_then : {A B : Type 0} → Result A × Incoming → (A → Sock B) → Result B × Incoming
and_then (ok a, rest) next = next a rest
and_then (raise e, rest) next = (raise e, rest)

infixl 5 ◌>>=◌
abbrev pub ◌>>=◌ : {A B : Type 0} → Sock A → (A → Sock B) → Sock B
m >>= next = λ incoming. and_then (m incoming) next

abbrev pub give : {A : Type 0} → A → Sock A
give a incoming = (ok a, incoming)

abbrev pub throw : {A : Type 0} → Exception → Sock A
throw e incoming = (raise e, incoming)

abbrev pub lift : {A : Type 0} → Result A → Sock A
lift r incoming = (r, incoming)

-- What is left of a segment goes back to the front.
abbrev pub put_back : Bytes → Incoming → Incoming
put_back [] rest = rest
put_back (b ∷ bs) rest = arrives b bs ∷ rest

-- `sock.recv(n)` for a positive `n`: at most `n` bytes of what is there, none after the end.
unfoldable pub recv : ℕ → Sock Bytes
recv n [] = (ok [], [])
recv n (arrives b bs ∷ rest) = (ok (take n (b ∷ bs)), put_back (drop n (b ∷ bs)) rest)
recv n (times_out ∷ rest) = (raise socket_timeout, rest)
recv n (resets ∷ rest) = (raise connection_error, rest)
recv n (fails ∷ rest) = (raise socket_error, rest)

-- The body of the loop behind `recv`: an empty packet raises, others extend the data.
abbrev pub received : (Bytes → Sock Bytes) → Bytes → Bytes → Sock Bytes
received again block [] = throw connection_error
received again block (b ∷ bs) = again (block ++ b ∷ bs)

-- `while len(data) < n`, on fuel: each round adds a byte, so `n` rounds are enough.
unfoldable pub recv_loop : ℕ → ℕ → Bytes → Sock Bytes
unfolding recv
recv_loop zero n block incoming =
    if ltb (length block) n then (raise stuck, incoming) else (ok block, incoming)
recv_loop (suc fuel) n block incoming =
    let more =
      and_then (recv (n - length block) incoming)
        (received (λ next rest. recv_loop fuel n next rest) block) in
    if ltb (length block) n then more else (ok block, incoming)

unfoldable pub recv_all : ℕ → Sock Bytes
unfolding recv_loop
recv_all n = recv_loop n n []
