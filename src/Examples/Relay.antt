-- ===== src/Examples/Relay.antt =====
-- The relay at concrete inputs: frames of one or two words, and their receivers.
use public_trash.Base.{
  ℕ, ◌+◌, ◌≤◌, ◌≡◌, ◌↔◌, refl, true, false, List, [], ◌∷◌, ◌++◌, map, drop, length-drop, zero, suc,
  replicate, All, ok, raise, stuck, arith,
}
use public_trash.Base.Words.{Bytes, big, little, unpack_word, words_bytes}
use public_trash.Relay.Connection.{new_connection}
use public_trash.Relay.Frame.{Rng, create_data_chunks, validate_block}
use public_trash.Relay.Frame.Chunks.{Sends, create_data_chunks-Sends}
use public_trash.Relay.Frame.Valid.{Fits, frame, validate_block_iff}
use public_trash.Relay.HexDump.{Offsets, print_hex_words, current_offset, hex_byte, dots}
use public_trash.Relay.HexDump.Layout.{words_of_cells, lines_of_words, print_hex_words-layout}
use public_trash.Relay.Receiver.{
  Receiver, again, round, drain, enough, Event, data_received, timed_out, receiver_thread,
  handler_thread, reset, new_receiver,
}
use public_trash.Relay.Receiver.Copies.{essence, map_ok, receiver_thread-handler_thread}
use public_trash.Relay.Receiver.Drain.{Drained, drain-enough}
use public_trash.Relay.Receiver.Livelock.{StartsEmptyFrame, drain-StartsEmptyFrame}
use public_trash.Relay.Receiver.Stream.Chunks.{nothing, pause, chunk, receiver_thread-stream}
use public_trash.Relay.Receiver.Stream.Rounds.{Item, IsItem, Took}
use public_trash.Relay.Receiver.Stream.Chunks.{Delivers}
use public_trash.Relay.Together.{sent_bytes, receiver_thread-create_data_chunks}
use public_trash.Relay.Receiver.Stream.Rounds.{valid_counts}

abbrev small_frame : Bytes
small_frame = frame big 7 (1 ∷ 2 ∷ [])

validate_small_frame : validate_block big small_frame ≡ ok true
unfolding validate_block unpack_word
validate_small_frame = refl

validate_block_iff_example : (validate_block big small_frame ≡ ok true) ↔ (
    (count : ℕ) × (payload : List ℕ) × Fits count payload × (small_frame ≡ frame big count payload))
validate_block_iff_example = validate_block_iff big small_frame (omega arith)

-- A source of random numbers that draws the least number each time.
least : (i lo hi : ℕ) → lo ≤ hi → (lo ≤ lo) × (lo ≤ hi)
least i lo hi h = omega arith

abbrev low_rng : Rng
low_rng = record { randint = λ i lo hi. lo; randint_bounds = least }

create_data_chunks-Sends_example :
    (chunks : List Bytes) × (create_data_chunks low_rng little 70000 ≡ ok chunks)
    × Sends little 70000 chunks
create_data_chunks-Sends_example = create_data_chunks-Sends low_rng little 70000

abbrev some_chunks : List Bytes
some_chunks = (create_data_chunks-Sends low_rng big 5).0

abbrev five_in : Offsets
five_in = record { tx_offset = 5; rx_offset = 0 }

print_hex_words-layout_example :
    ((print_hex_words five_in (0xde ∷ 0xad ∷ []) true).0
      ≡ lines_of_words (
          words_of_cells
            (replicate 5 dots ++ (map hex_byte (0xde ∷ 0xad ∷ []) ++ replicate 9 dots))))
    × (current_offset (print_hex_words five_in (0xde ∷ 0xad ∷ []) true).1 true ≡ 7)
    × (current_offset (print_hex_words five_in (0xde ∷ 0xad ∷ []) true).1 false ≡ 0)
print_hex_words-layout_example = print_hex_words-layout five_in (0xde ∷ 0xad ∷ []) true

abbrev idle_clock : ℕ → ℕ
idle_clock n = n

-- The marker, a header word 7 (length field 0, count 7) and four bytes more.
abbrev empty_frame : Bytes
empty_frame = words_bytes big (0xBAADF00D ∷ 7 ∷ 0 ∷ [])

abbrev holding : Bytes → Receiver
holding b = record (new_receiver new_connection) { buffer = b }

empty_frame-StartsEmptyFrame : StartsEmptyFrame big empty_frame
unfolding unpack_word
empty_frame-StartsEmptyFrame = record {
  long_enough = omega arith;
  marked = refl;
  header = (7, refl, refl);
}

drain-StartsEmptyFrame_example :
    ((next : Receiver) × (round idle_clock big (holding empty_frame) ≡ ok (again next))
      × (next.buffer ≡ empty_frame)
      × (next.conn.stats.invalid_frames ≡ 0 + 1))
    × ((fuel : ℕ) → drain idle_clock big fuel (holding empty_frame) ≡ raise stuck)
drain-StartsEmptyFrame_example =
    drain-StartsEmptyFrame idle_clock big (holding empty_frame) empty_frame-StartsEmptyFrame

-- One stray byte, and the shortest frame.
abbrev stray : Bytes
stray = 9 ∷ frame big 7 []

stray_safe : (k : ℕ) → ¬ StartsEmptyFrame big (drop k stray)
unfolding unpack_word
stray_safe zero h = ground (arith, h.marked)
stray_safe (suc zero) h = ground (arith, h.header.1, h.header.2)
stray_safe (suc (suc k)) h = omega (arith, h.long_enough, length-drop k (drop 2 stray))

drain-enough_example :
    (r : Receiver) × (drain idle_clock big (enough (holding stray)) (holding stray) ≡ ok r)
    × Drained idle_clock big (holding stray) r
drain-enough_example = drain-enough idle_clock big (holding stray) stray_safe

abbrev two_frames : List Item
two_frames = (7, 1 ∷ []) ∷ (8, 2 ∷ 3 ∷ []) ∷ []

two_frames-IsItem : All IsItem two_frames
two_frames-IsItem = omega arith

-- The 16 bytes of the first frame and 2 of the second, a timeout, and the other 18.
abbrev in_pieces : List Event
in_pieces =
    data_received
      (words_bytes big (0xBAADF00D ∷ 0x00100007 ∷ 1 ∷ 0xDEADBEEF ∷ []) ++ 0xBA ∷ 0xAD ∷ [])
    ∷ timed_out
    ∷ data_received (0xF0 ∷ 0x0D ∷ words_bytes big (0x00140008 ∷ 2 ∷ 3 ∷ 0xDEADBEEF ∷ []))
    ∷ []

receiver_thread-stream_example :
    (r : Receiver) × (receiver_thread idle_clock big in_pieces (new_receiver new_connection) ≡ ok r)
    × (r.buffer ≡ [])
    × Took two_frames (new_receiver new_connection) r
receiver_thread-stream_example =
    receiver_thread-stream idle_clock big new_connection two_frames in_pieces two_frames-IsItem
      (chunk _ _ (pause (chunk _ _ nothing)))

-- A frame behind a stray byte, and a reset of the connection.
abbrev then_reset : List Event
then_reset = data_received stray ∷ reset ∷ []

receiver_thread-handler_thread_example :
    map_ok essence (receiver_thread idle_clock big then_reset (new_receiver new_connection))
    ≡ map_ok essence (handler_thread idle_clock big then_reset (new_receiver new_connection))
receiver_thread-handler_thread_example =
    receiver_thread-handler_thread idle_clock big then_reset (new_receiver new_connection)
      (new_receiver new_connection) (refl, (refl, tt)) refl

-- Each byte in a segment of its own.
abbrev one_by_one : Bytes → List Event
one_by_one [] = []
one_by_one (b ∷ bs) = data_received (b ∷ []) ∷ one_by_one bs

one_by_one-Delivers : (bs : Bytes) → Delivers (one_by_one bs) bs
one_by_one-Delivers [] = nothing
one_by_one-Delivers (b ∷ bs) = chunk b [] (one_by_one-Delivers bs)

-- Two frames, with the counts 65535 and 65536.
abbrev sent_pair : Bytes
sent_pair = sent_bytes (λ _. low_rng) big 65535 2

receiver_thread-create_data_chunks_example :
    (r : Receiver) × (receiver_thread idle_clock big
        (one_by_one sent_pair)
        (new_receiver new_connection)
      ≡ ok r)
    × (r.buffer ≡ [])
    × (r.conn.stats.received_frames ≡ 2)
    × (r.conn.stats.invalid_frames ≡ 0)
    × (valid_counts r.printed ≡ 65535 ∷ 0 ∷ [])
receiver_thread-create_data_chunks_example =
    receiver_thread-create_data_chunks (λ _. low_rng) idle_clock big new_connection 65535 2
      (one_by_one sent_pair) (one_by_one-Delivers sent_pair)
