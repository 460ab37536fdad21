-- ===== src/Relay/Together.antt =====
-- OLD/threaded_ether_relay.py: the frames that a sender makes, at the receiver of the peer.
use public_trash.Base.{
  ℕ, zero, suc, ◌+◌, ◌%◌, ◌≡◌, refl, ap, ap₂, subst, ◌∙◌, List, [], ◌∷◌, ◌++◌, map, length, join,
  All, Result, ok, raise, arith,
}
use public_trash.Base.Words.{Bytes, Endian}
use public_trash.Relay.Connection.{Connection}
use public_trash.Relay.Frame.{Rng, create_data_chunks}
use public_trash.Relay.Frame.Valid.{length-frame}
use public_trash.Relay.Frame.Chunks.{create_data_chunks-Sends}
use public_trash.Relay.Receiver.{Receiver, Event, receiver_thread, new_receiver}
use public_trash.Relay.Receiver.Stream.Rounds.{Item, IsItem, stream, valid_counts}
use public_trash.Relay.Receiver.Stream.Chunks.{Delivers, receiver_thread-stream}

abbrev chunks_of : Result (List Bytes) → List Bytes
chunks_of (ok chunks) = chunks
chunks_of (raise e) = []

-- The chunks of `n` frames from a count on, joined.
abbrev pub sent_bytes : (ℕ → Rng) → Endian → ℕ → ℕ → Bytes
sent_bytes rng e count zero = []
sent_bytes rng e count (suc n) =
    join (chunks_of (create_data_chunks (rng count) e count)) ++ sent_bytes rng e (count + 1) n

-- Their counts on the wire, which have 16 bits.
abbrev pub sent_counts : ℕ → ℕ → List ℕ
sent_counts count zero = []
sent_counts count (suc n) = count % 65536 ∷ sent_counts (count + 1) n

-- The frames that these bytes are.
record Framed (e : Endian) (count n : ℕ) (bytes : Bytes) : Type 0 where
  items : List Item
  valid : All IsItem items
  bytes_are : bytes ≡ stream e items
  counts : map (λ f. f.0) items ≡ sent_counts count n
  many : length items ≡ n

sent_bytes-Framed :
    (rng : ℕ → Rng) (e : Endian) (count n : ℕ) → Framed e count n (sent_bytes rng e count n)
sent_bytes-Framed rng e count zero = record {
  items = [];
  valid = tt;
  bytes_are = refl;
  counts = refl;
  many = refl;
}
sent_bytes-Framed rng e count (suc n) =
    let (chunks, made, sends) = create_data_chunks-Sends (rng count) e count in
    let rest = sent_bytes-Framed rng e (count + 1) n in
    let size = length-frame e (count % 65536) sends.payload in
    record {
      items = (count % 65536, sends.payload) ∷ rest.items;
      valid = (
        record {
          fits = sends.fits;
          short = omega (arith, size, ap length sends.joined, sends.length_bounds);
        },
        rest.valid,
      );
      bytes_are =
          ap₂ (λ x y. x ++ y) (ap (λ r. join (chunks_of r)) made ∙ sends.joined) rest.bytes_are;
      counts = ap (◌∷◌ (count % 65536)) rest.counts;
      many = ap suc rest.many;
    }

-- The bytes of `n` frames that `create_data_chunks` makes for the counts from `count` on, brought
-- in any segments with timeouts anywhere: the receiver thread of a new receiver ends without an
-- exception and with an empty buffer, has received `n` frames and no invalid one, and has
-- reported as valid the counts modulo 2 ** 16, in order.
pub receiver_thread-create_data_chunks :
    (rng : ℕ → Rng) (clock : ℕ → ℕ) (e : Endian) (c : Connection) (count n : ℕ)
    (events : List Event)
    → Delivers events (sent_bytes rng e count n)
    → (r : Receiver) × (receiver_thread clock e events (new_receiver c) ≡ ok r)
      × (r.buffer ≡ [])
      × (r.conn.stats.received_frames ≡ c.stats.received_frames + n)
      × (r.conn.stats.invalid_frames ≡ c.stats.invalid_frames)
      × (valid_counts r.printed ≡ sent_counts count n)
receiver_thread-create_data_chunks rng clock e c count n events ds =
    let f = sent_bytes-Framed rng e count n in
    let (r, run, empty, took) =
      receiver_thread-stream clock e c f.items events f.valid
        (subst (Delivers events) f.bytes_are ds) in
    (
      r,
      run,
      empty,
      took.received ∙ ap (λ m. c.stats.received_frames + m) f.many,
      took.invalid,
      took.counts ∙ f.counts,
    )
