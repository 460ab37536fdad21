-- ===== src/Relay/Receiver.antt =====
-- OLD/threaded_ether_relay.py: `Connection._receiver_thread` and `ClientHandler._receiver_thread`.
-- What `recv` returns, until the loop's flags are seen set, is a list of events; the clock is a
-- parameter, read at the n-th valid frame.
pub mod Drain
pub mod Copies
pub mod Livelock
pub mod Stream
use public_trash.Base.{
  ℕ, zero, suc, ◌+◌, ◌*◌, ◌/◌, ◌^◌, min, Bool, true, false, ◌&&◌, ◌==◌, if◌then◌else◌, ltb, leb,
  List, [], ◌∷◌, ◌++◌, length, take, drop, Option, none, some, Result, ok, raise, stuck, ◌>>=◌,
}
use public_trash.Base.Words.{Bytes, Endian, unpack_word}
use public_trash.Relay.Connection.{Stats, received, invalid, update_stats, Connection}
use public_trash.Relay.Frame.{start_marker, length_field, count_field, validate_block}
use public_trash.Relay.HexDump.{Offsets, print_hex_words}

-- The `chunk_info` of a message: frame number, bytes in the buffer, expected length, percentage.
pub record Progress : Type 0 where
  pub frame : ℕ
  pub got : ℕ
  pub expected : ℕ
  pub percent : ℕ

pub data Message : Type 0 where
  received_chunk : ℕ → Option Progress → Message
  valid_frame : (count frame_length : ℕ) → Message
  invalid_frame : Message
  buffer_overflow : ℕ → Message
  closed_by_peer connection_reset receive_error exiting : Message

-- The local variables of the thread, with the connection and what was printed.
pub record Receiver : Type 0 where
  pub buffer : Bytes
  pub current_frame : Option ℕ
  pub expected_frame_length : ℕ
  pub conn : Connection
  pub printed : List Message

abbrev pub say : Receiver → Message → Receiver
say r m = record r { printed = r.printed ++ m ∷ [] }

-- What is done with a whole frame of `n` bytes whose header word is `length_count`.
abbrev pub count_valid : (ℕ → ℕ) → ℕ → ℕ → Receiver → Receiver
count_valid clock n length_count r =
    let c = r.conn in
    record r {
      printed = r.printed ++ valid_frame (count_field length_count) n ∷ [];
      conn = record c {
        stats = update_stats c.stats received 1;
        last_received_count = some (count_field length_count);
        last_time_received = some (clock c.stats.received_frames);
      };
    }

abbrev pub count_invalid : Receiver → Receiver
count_invalid r =
    let c = r.conn in
    record r {
      printed = r.printed ++ invalid_frame ∷ [];
      conn = record c { stats = update_stats c.stats invalid 1 };
    }

-- The frame's bytes leave the buffer, and the tracking is reset.
abbrev pub consume : ℕ → Receiver → Receiver
consume n r = record r { buffer = drop n r.buffer; current_frame = none; expected_frame_length = 0 }

-- One round of `while len(buffer) >= 12` ends the loop or goes on.
pub data Round : Type 0 where
  done again : Receiver → Round

unfoldable pub take_frame : (ℕ → ℕ) → Endian → Receiver → Result Round
take_frame clock e r = do
  length_count ← unpack_word e (take 4 (drop 4 r.buffer))
  let n = length_field length_count
  let whole = do
    valid ← validate_block e (take n r.buffer)
    ok (again (consume n (if valid then count_valid clock n length_count r else count_invalid r)))
  if leb n (length r.buffer) then whole else ok (done r)

unfoldable pub round : (ℕ → ℕ) → Endian → Receiver → Result Round
unfolding take_frame
round clock e r = if ltb (length r.buffer) 12 then ok (done r) else do
  first ← unpack_word e (take 4 r.buffer)
  let framed = take_frame clock e r
  if leb 4 (length r.buffer) && first == start_marker
      then if leb 8 (length r.buffer) then framed else ok (done r)
      else ok (again (record r { buffer = drop 1 r.buffer }))

unfoldable pub drain : (ℕ → ℕ) → Endian → ℕ → Receiver → Result Receiver
drain clock e zero r = raise stuck
drain clock e (suc fuel) r = do
  step ← round clock e r
  elim step [ done r' ↦ ok r' | again r' ↦ drain clock e fuel r' ]

unfoldable pub read_header : Endian → Receiver → Result Receiver
read_header e r = do
  length_count ← unpack_word e (take 4 (drop 4 r.buffer))
  ok (record r {
    expected_frame_length = length_field length_count;
    current_frame = some (count_field length_count);
  })

unfoldable pub look_ahead : Endian → Receiver → Result Receiver
unfolding read_header
look_ahead e r = do
  first ← unpack_word e (take 4 r.buffer)
  let found = read_header e r
  if first == start_marker then found else ok r

-- The header check before a chunk is appended: it only serves the message.
unfoldable pub track : Endian → Receiver → Result Receiver
unfolding look_ahead
track e r =
    let looked = look_ahead e r in
    elim r.current_frame [ some f ↦ ok r | none ↦ if leb 8 (length r.buffer) then looked else ok r ]

abbrev pub percent_of : ℕ → ℕ → ℕ
percent_of got expected = if ltb 0 expected then min 100 (got * 100 / expected) else 0

unfoldable pub progress : Receiver → Option Progress
progress r = elim r.current_frame [
  | none ↦ none
  | some f ↦ some (record {
    frame = f;
    got = length r.buffer;
    expected = r.expected_frame_length;
    percent = percent_of (length r.buffer) r.expected_frame_length;
  })
]

-- `print_msg` with data dumps it, which moves the receive offset.
abbrev pub show_chunk : Option Progress → Bytes → Receiver → Receiver
show_chunk info chunk r =
    let c = r.conn in
    record r {
      printed = r.printed ++ received_chunk (length chunk) info ∷ [];
      conn = record c { offsets = (print_hex_words c.offsets chunk false).1 };
    }

abbrev pub extend : Bytes → Receiver → Receiver
extend chunk r = record r { buffer = r.buffer ++ chunk }

-- `if len(buffer) > 16384: ...`.
unfoldable pub limit_buffer : Receiver → Receiver
limit_buffer r =
    if ltb 16384 (length r.buffer)
    then record r { buffer = []; printed = r.printed ++ buffer_overflow (length r.buffer) ∷ [] }
    else r

-- The inner loop ends within this many rounds, unless it never ends.
abbrev pub enough : Receiver → ℕ
enough r = suc (length r.buffer)

-- One chunk in `Connection._receiver_thread`.
unfoldable pub receive : (ℕ → ℕ) → Endian → Bytes → Receiver → Result Receiver
receive clock e chunk r = do
  tracked ← track e r
  let r' = extend chunk (show_chunk (progress tracked) chunk tracked)
  drained ← drain clock e (enough r') r'
  ok (limit_buffer drained)

-- One chunk in `ClientHandler._receiver_thread`, which has no tracking.
unfoldable pub handler_receive : (ℕ → ℕ) → Endian → Bytes → Receiver → Result Receiver
handler_receive clock e chunk r = do
  let r' = extend chunk (show_chunk none chunk r)
  drained ← drain clock e (enough r') r'
  ok (limit_buffer drained)

-- What `recv` gives: data (empty when the peer has closed), a timeout, or a socket error.
pub data Event : Type 0 where
  data_received : Bytes → Event
  timed_out reset failed : Event

-- The outer loop of `Connection._receiver_thread`; the list ends where a flag is seen set.
unfoldable pub receiver_thread : (ℕ → ℕ) → Endian → List Event → Receiver → Result Receiver
receiver_thread clock e [] r = ok (say r exiting)
receiver_thread clock e (data_received [] ∷ events) r = ok (say (say r closed_by_peer) exiting)
receiver_thread clock e (data_received (b ∷ bs) ∷ events) r = do
  r' ← receive clock e (b ∷ bs) r
  receiver_thread clock e events r'
receiver_thread clock e (timed_out ∷ events) r = receiver_thread clock e events r
receiver_thread clock e (reset ∷ events) r = ok (say (say r connection_reset) exiting)
receiver_thread clock e (failed ∷ events) r = ok (say (say r receive_error) exiting)

-- The outer loop of `ClientHandler._receiver_thread`, where a timeout is an error like the others.
unfoldable pub handler_thread : (ℕ → ℕ) → Endian → List Event → Receiver → Result Receiver
handler_thread clock e [] r = ok (say r exiting)
handler_thread clock e (data_received [] ∷ events) r = ok (say (say r closed_by_peer) exiting)
handler_thread clock e (data_received (b ∷ bs) ∷ events) r = do
  r' ← handler_receive clock e (b ∷ bs) r
  handler_thread clock e events r'
handler_thread clock e (_ ∷ events) r = ok (say (say r receive_error) exiting)

abbrev pub new_receiver : Connection → Receiver
new_receiver c = record {
  buffer = [];
  current_frame = none;
  expected_frame_length = 0;
  conn = c;
  printed = [];
}
