-- ===== src/SizeServer.antt =====
-- OLD/cs_tester.py: blocks of growing sizes, sent until the shutdown event is set.
pub mod Sizes
pub mod Handler
use public_trash.Base.{
  ℕ, zero, suc, ◌+◌, ◌*◌, ◌%◌, Bool, true, false, if◌then◌else◌, ltb, List, [], ◌∷◌, ◌++◌,
}
use public_trash.Base.Words.{Bytes}

-- `(i % 256) for i in range(first, first + count)`.
abbrev pub cycle : ℕ → ℕ → Bytes
cycle first zero = []
cycle first (suc count) = (first % 256) ∷ cycle (first + 1) count

unfoldable pub generate_data : ℕ → Bytes
generate_data length = cycle 1 length

unfoldable pub initial_size : ℕ
initial_size = 10

unfoldable pub max_size : ℕ
max_size = 5120

unfoldable pub next_size : ℕ → ℕ
unfolding initial_size max_size
next_size size = if ltb max_size (size * 2) then initial_size else size * 2

-- What a round of the sender meets: the event is set, or `sendall` returns, or it raises.
pub data Round : Type 0 where
  is_set sent send_error : Round

-- How a thread stands when its rounds are over, and whether it has set the event.
pub data Standing : Type 0 where
  running stopped set_shutdown : Standing

unfoldable pub sender_from : ℕ → List Round → List Bytes × Standing
unfolding generate_data next_size
sender_from size [] = ([], running)
sender_from size (is_set ∷ rounds) = ([], stopped)
sender_from size (send_error ∷ rounds) = ([], set_shutdown)
sender_from size (sent ∷ rounds) =
    let (blocks, standing) = sender_from (next_size size) rounds in
    (generate_data size ∷ blocks, standing)

unfoldable pub sender : List Round → List Bytes × Standing
unfolding sender_from
sender rounds = sender_from initial_size rounds

-- What a round of the receiver meets: the event is set, or `recv` returns, or it raises.
pub data Incoming : Type 0 where
  seen_set recv_error : Incoming
  received : Bytes → Incoming

unfoldable pub receiver : List Incoming → List Bytes × Standing
receiver [] = ([], running)
receiver (seen_set ∷ rounds) = ([], stopped)
receiver (recv_error ∷ rounds) = ([], set_shutdown)
receiver (received [] ∷ rounds) = ([], set_shutdown)
receiver (received (b ∷ bs) ∷ rounds) =
    let (shown, standing) = receiver rounds in ((b ∷ bs) ∷ shown, standing)
