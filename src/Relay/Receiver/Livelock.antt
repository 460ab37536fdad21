-- ===== src/Relay/Receiver/Livelock.antt =====
-- A header word whose length field is 0 stops the receiver for good: the frame of length 0 is
-- invalid and is "removed", which leaves the buffer as it was.
use public_trash.Base.{
  ℕ, zero, suc, ◌+◌, ◌≤◌, ◌≡◌, refl, [], length, take, drop, ok, raise, stuck, false, arith,
}
use public_trash.Base.Words.{Bytes, Endian, unpack_word}
use public_trash.Relay.Frame.{start_marker, length_field, validate_block}
use public_trash.Relay.Receiver.{Receiver, again, count_invalid, consume, round, drain}

-- The buffer starts with the marker and a header word whose length field is 0.
pub record StartsEmptyFrame (e : Endian) (buffer : Bytes) : Type 0 where
  pub long_enough : 12 ≤ length buffer
  pub marked : unpack_word e (take 4 buffer) ≡ ok start_marker
  pub header : (w : ℕ) × (unpack_word e (take 4 (drop 4 buffer)) ≡ ok w) × (length_field w ≡ 0)

validate_empty : (e : Endian) → validate_block e [] ≡ ok false
unfolding validate_block
validate_empty e = refl

round_idle :
    (clock : ℕ → ℕ) (e : Endian) (r : Receiver)
    → StartsEmptyFrame e r.buffer
    → round clock e r ≡ ok (again (consume 0 (count_invalid r)))
unfolding round
round_idle clock e r h = ground (arith, h.header.1, h.header.2, validate_empty e)

drain_stuck :
    (clock : ℕ → ℕ) (e : Endian) (fuel : ℕ) (r : Receiver)
    → StartsEmptyFrame e r.buffer
    → drain clock e fuel r ≡ raise stuck
unfolding drain
drain_stuck clock e zero r h = refl
drain_stuck clock e (suc fuel) r h =
    rw (round_idle clock e r h) (drain_stuck clock e fuel (consume 0 (count_invalid r)) h)

-- Where the buffer starts with the marker and a header word whose length field is 0, a round of
-- the inner loop goes on with the same buffer and one more invalid frame counted, so that no
-- number of rounds ends the loop.
pub drain-StartsEmptyFrame :
    (clock : ℕ → ℕ) (e : Endian) (r : Receiver)
    → StartsEmptyFrame e r.buffer
    → ((next : Receiver) × (round clock e r ≡ ok (again next))
        × (next.buffer ≡ r.buffer)
        × (next.conn.stats.invalid_frames ≡ r.conn.stats.invalid_frames + 1))
      × ((fuel : ℕ) → drain clock e fuel r ≡ raise stuck)
drain-StartsEmptyFrame clock e r h = (
  (consume 0 (count_invalid r), round_idle clock e r h, refl, refl),
  λ fuel. drain_stuck clock e fuel r h,
)
