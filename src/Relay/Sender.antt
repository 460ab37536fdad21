-- ===== src/Relay/Sender.antt =====
-- OLD/threaded_ether_relay.py: `_sender_thread` and `_send_chunk`. The two stop flags are never
-- cleared, so what is given is from which test on one of them is seen to be set; given too is
-- whether the n-th `sendall` raises. What is printed is left out.
pub mod Stopped
use public_trash.Base.{
  ℕ, zero, suc, ◌+◌, Bool, true, false, if◌then◌else◌, leb, List, [], ◌∷◌, ◌++◌, length, take,
  Exception, index_error, socket_error, stuck, Result, ok, raise,
}
use public_trash.Base.Words.{Bytes, Endian}
use public_trash.Relay.Connection.{Connection, sent, get_next_count, update_stats}
use public_trash.Relay.Frame.{Rng, unpack_two, create_data_chunks}

-- What the thread is given: the arguments, the draws for each frame, the flags and the socket.
pub record World : Type 0 where
  pub endian_fmt : Endian
  pub no_send : Bool
  pub rng : ℕ → Rng
  pub stop_at : ℕ
  pub send_fails : ℕ → Bool

-- The state of the thread: its connection, the tests of the flags it has made, what it has sent.
pub record Sender : Type 0 where
  pub connection : Connection
  pub tests : ℕ
  pub output : List Bytes

-- How a part of the thread ends.
pub data Flow : Type 0 where
  goes_on breaks : Flow
  errs : Exception → Flow

-- `connection_active_flag.is_set() or app.shutdown_flag.is_set()`, and the state behind the test.
abbrev pub stop_seen : World → Sender → Bool
stop_seen w s = leb w.stop_at s.tests

abbrev pub tested : Sender → Sender
tested s = record s { tests = s.tests + 1 }

abbrev pub put : Sender → Bytes → Sender
put s chunk = record s { output = s.output ++ chunk ∷ [] }

-- The loop over the chunks of a frame.
unfoldable pub send_chunks : World → List Bytes → Sender → Flow × Sender
send_chunks w [] s = (goes_on, s)
send_chunks w (c ∷ cs) s =
    let rest = send_chunks w cs (put (tested s) c) in
    if stop_seen w s
    then (goes_on, tested s)
    else if w.send_fails (length s.output)
    then (errs socket_error, tested s)
    else rest

abbrev pub count_sent : Sender → Sender
count_sent s = record s {
  connection = record s.connection { stats = update_stats s.connection.stats sent 1 };
}

-- What comes behind the chunks.
abbrev pub after_chunks : World → Flow × Sender → Flow × Sender
after_chunks w (goes_on, s) = (if stop_seen w s then breaks else goes_on, tested (count_sent s))
after_chunks w (breaks, s) = (breaks, s)
after_chunks w (errs e, s) = (errs e, s)

-- The two words in front of the first chunk, of which the length of the frame is printed.
abbrev pub first_chunk_values : Endian → List Bytes → Result (ℕ × ℕ)
first_chunk_values e [] = raise index_error
first_chunk_values e (chunk ∷ chunks) = unpack_two e (take 8 chunk)

abbrev pub with_length : World → Sender → List Bytes → Result (ℕ × ℕ) → Flow × Sender
with_length w s chunks (raise e) = (errs e, s)
with_length w s chunks (ok _) = after_chunks w (send_chunks w chunks s)

abbrev pub with_chunks : World → Sender → Result (List Bytes) → Flow × Sender
with_chunks w s (raise e) = (errs e, s)
with_chunks w s (ok chunks) = with_length w s chunks (first_chunk_values w.endian_fmt chunks)

abbrev pub counted : Sender → Sender
counted s = record s { connection = (get_next_count s.connection).1 }

-- The body of the loop.
unfoldable pub send_frame : World → Sender → Flow × Sender
unfolding send_chunks get_next_count
send_frame w s = with_chunks w (counted s) (
    create_data_chunks (w.rng (get_next_count s.connection).0) w.endian_fmt
      (get_next_count s.connection).0)

-- How the loop goes on: a `socket.error` is caught and breaks it, another exception ends the thread.
abbrev pub follow : (Sender → Result Sender) → Flow × Sender → Result Sender
follow again (goes_on, s) = again s
follow again (breaks, s) = ok s
follow again (errs socket_error, s) = ok s
follow again (errs e, s) = raise e

-- The `while` loop, on fuel: each round makes two tests of the flags at least.
unfoldable pub sender_loop : World → ℕ → Sender → Result Sender
unfolding send_frame
sender_loop w zero s = raise stuck
sender_loop w (suc fuel) s =
    let again = follow (sender_loop w fuel) (send_frame w (tested s)) in
    if stop_seen w s then ok (tested s) else again

-- With `no_send` the thread sleeps until a flag is set.
unfoldable pub sender_thread : World → Sender → Result Sender
unfolding sender_loop
sender_thread w s =
    let looped = sender_loop w (w.stop_at + 1) s in if w.no_send then ok s else looped
