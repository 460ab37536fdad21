-- ===== src/Command/Server/Run/Ends.antt =====
-- How the server's `main` can close: every loop inside has fuel enough, whatever arrives.
use public_trash.Base.{
  ℕ, zero, suc, ◌+◌, ◌<◌, ◌≡◌, ◌≢◌, refl, subst, Bool, true, false, Bool-cases, inl, inr, ltb, List,
  [], ◌∷◌, ◌++◌, length, Exception, stuck, struct_error, value_error, if◌then◌else◌, ◌^◌, Result,
  ok, raise, arith,
}
use public_trash.Base.Words.{Bytes, Endian, big, word_bytes, pack_word, pack_words}
use public_trash.Command.Socket.{Incoming}
use public_trash.Command.Packet.{
  Text, start_marker, end_marker, is_ascii, encode_ascii, assemble, create_ack_packet, ack_message,
  recv_command_packet,
}
use public_trash.Command.Server.{
  Session, Ending, ended, send_failed, crashed, is_caught, stop, finish, acknowledge, handle, serve,
}
use public_trash.Command.Server.Run.{
  Arrival, accepted, interrupted, Closing, failed_with, Served, after_session, bytes_left,
  serve_all, run, first_ack_counter, main,
}
use public_trash.Command.Server.Run.Reads.{is_stuck, IsFuelled}
use public_trash.Command.Server.Run.Fuelled.{
  bind-IsFuelled, if-IsFuelled, IsPacket, recv_command_packet-IsPacket,
}

pack_word-IsFuelled : (e : Endian) (n : ℕ) → IsFuelled (pack_word e n)
unfolding pack_word
pack_word-IsFuelled e n =
    if-IsFuelled (ltb n (2 ^ 32)) (ok (word_bytes e n)) (raise struct_error) tt refl

pack_words-IsFuelled : (e : Endian) (ns : List ℕ) → IsFuelled (pack_words e ns)
unfolding pack_words
pack_words-IsFuelled e [] = tt
pack_words-IsFuelled e (n ∷ ns) =
    bind-IsFuelled (pack_word e n) _ (pack_word-IsFuelled e n)
      (λ word. bind-IsFuelled (pack_words e ns) _ (pack_words-IsFuelled e ns) (λ words. tt))

create_ack_packet-IsFuelled :
    (ack_counter msg_index : ℕ) → IsFuelled (create_ack_packet ack_counter msg_index)
unfolding create_ack_packet encode_ascii assemble
create_ack_packet-IsFuelled ack_counter msg_index =
    bind-IsFuelled (encode_ascii (ack_message msg_index)) _
      (if-IsFuelled (is_ascii (ack_message msg_index)) (ok (ack_message msg_index))
        (raise value_error) tt refl)
      (λ body.
        bind-IsFuelled (assemble ack_counter body) _
          (bind-IsFuelled (pack_words big (start_marker ∷ (16 + length body) ∷ ack_counter ∷ [])) _
            (pack_words-IsFuelled big _)
            (λ header.
              bind-IsFuelled (pack_word big end_marker) _ (pack_word-IsFuelled big end_marker)
                (λ footer. tt)))
          (λ packet. tt))

-- The loop over the packets did not run out of fuel.
abbrev IsServed : Ending → Type 0
IsServed (crashed e) = is_stuck e ≡ false
IsServed _ = Unit

stop-IsServed : (e : Exception) → is_stuck e ≡ false → IsServed (stop e)
stop-IsServed e h = elim (Bool-cases (is_caught e)) [
  | inl caught ↦ rw caught tt
  | inr other ↦ rw other h
]

sent-IsServed :
    (failed : Bool) (s t : Session)
    → IsServed s.ending
    → IsServed t.ending
    → IsServed (if failed then s else t).ending
sent-IsServed true s t h k = h
sent-IsServed false s t h k = k

acknowledge-IsServed :
    (send_fails : ℕ → Bool) (again : List Bytes → ℕ → Session) (msg_index : ℕ) (acks : List Bytes)
    (ack_counter : ℕ) (r : Result (Bytes × ℕ))
    → create_ack_packet ack_counter msg_index ≡ r
    → IsFuelled r
    → ((acks : List Bytes) (next : ℕ) → IsServed (again acks next).ending)
    → IsServed (acknowledge send_fails again msg_index acks ack_counter).ending
unfolding acknowledge
acknowledge-IsServed send_fails again msg_index acks ack_counter (raise e) made h go_on =
    rw (made, IsServed) h
acknowledge-IsServed send_fails again msg_index acks ack_counter (ok (packet, next)) made h go_on =
    rw (made, IsServed)
      (sent-IsServed (send_fails ack_counter) (finish acks next send_failed)
        (again (acks ++ packet ∷ []) next) tt (go_on (acks ++ packet ∷ []) next))

handle-IsServed :
    (send_fails : ℕ → Bool) (again : Incoming → List Bytes → ℕ → Session) (start : ℕ)
    (m : Result (ℕ × Text) × Incoming) (acks : List Bytes) (ack_counter : ℕ)
    → IsPacket start m
    → ((rest : Incoming) (acks : List Bytes) (next : ℕ)
        → bytes_left rest < start
        → IsServed (again rest acks next).ending)
    → IsServed (handle send_fails again m acks ack_counter).ending
unfolding handle
handle-IsServed send_fails again start (raise e, rest) acks ack_counter h go_on = stop-IsServed e h
handle-IsServed send_fails again start (ok (msg_index, message), rest) acks ack_counter h go_on =
    acknowledge-IsServed send_fails (again rest) msg_index acks ack_counter
      (create_ack_packet ack_counter msg_index) refl
      (create_ack_packet-IsFuelled ack_counter msg_index) (λ acks next. go_on rest acks next h)

serve-IsServed :
    (fuel : ℕ) (send_fails : ℕ → Bool) (incoming : Incoming) (acks : List Bytes) (ack_counter : ℕ)
    → bytes_left incoming < fuel
    → IsServed (serve fuel send_fails incoming acks ack_counter).ending
unfolding serve
serve-IsServed zero send_fails incoming acks ack_counter enough = absurd (omega (arith, enough))
serve-IsServed (suc fuel) send_fails incoming acks ack_counter enough =
    handle-IsServed send_fails (serve fuel send_fails) (bytes_left incoming)
      (recv_command_packet incoming) acks ack_counter (recv_command_packet-IsPacket incoming)
      (λ rest acks next less.
        serve-IsServed fuel send_fails rest acks next (omega (arith, enough, less)))

serve_all-IsServed :
    (send_fails : ℕ → Bool) (incoming : Incoming) (ack_counter : ℕ)
    → IsServed (serve_all send_fails incoming ack_counter).ending
unfolding serve_all
serve_all-IsServed send_fails incoming ack_counter =
    serve-IsServed (suc (bytes_left incoming)) send_fails incoming [] ack_counter (omega arith)

-- The program did not run out of fuel.
abbrev IsClosed : Closing → Type 0
IsClosed (failed_with e) = is_stuck e ≡ false
IsClosed _ = Unit

after_session-IsClosed :
    (s : Session) (again : ℕ → Served) (ending : Ending)
    → s.ending ≡ ending
    → IsServed ending
    → ((n : ℕ) → IsClosed (again n).closing)
    → IsClosed (after_session s again).closing
after_session-IsClosed s again (ended e) same h later = rw same (later s.ack_counter)
after_session-IsClosed s again send_failed same h later = rw same (later s.ack_counter)
after_session-IsClosed s again (crashed e) same h later = rw same h

run-IsClosed :
    (send_fails : ℕ → Bool) (arrivals : List Arrival) (ack_counter : ℕ)
    → IsClosed (run send_fails arrivals ack_counter).closing
unfolding run
run-IsClosed send_fails [] ack_counter = tt
run-IsClosed send_fails (interrupted ∷ arrivals) ack_counter = tt
run-IsClosed send_fails (accepted incoming ∷ arrivals) ack_counter =
    after_session-IsClosed (serve_all send_fails incoming ack_counter) (run send_fails arrivals)
      (serve_all send_fails incoming ack_counter).ending refl
      (serve_all-IsServed send_fails incoming ack_counter) (λ n. run-IsClosed send_fails arrivals n)

-- Whatever arrives on the connections and whichever acknowledgements cannot be sent: the fuel of
-- the two loops, the bytes asked for in `recv_all` and the bytes that arrive in the loop over the
-- packets, never runs out in `main`.
pub main-ends :
    (send_fails : ℕ → Bool) (arrivals : List Arrival)
    → (main send_fails arrivals).closing ≢ failed_with stuck
unfolding main
main-ends send_fails arrivals same =
    let held : true ≡ false =
      subst IsClosed same (run-IsClosed send_fails arrivals first_ack_counter) in
    cc held
