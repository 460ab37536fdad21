-- ===== src/Relay/Sender/Stopped.antt =====
-- What the sender thread has sent when it ends.
use public_trash.Base.{
  ℕ, zero, suc, ◌+◌, ◌≤◌, ◌<◌, ◌≡◌, refl, sym, ap, subst, ◌∙◌, ◌⊎◌, true, false, Bool-cases, inl,
  inr, List, [], ◌∷◌, ◌++◌, length, length-take, length-drop, take, drop, append_assoc, append-nil,
  Result, ok, arith,
}
use public_trash.Base.Words.{Bytes, Endian, unpack_word_total}
use public_trash.Relay.Connection.{get_next_count}
use public_trash.Relay.Frame.{unpack_two, create_data_chunks}
use public_trash.Relay.Frame.Chunks.{StartsLong, create_data_chunks-Sends}
use public_trash.Relay.Sender.{
  World, Sender, Flow, goes_on, breaks, stop_seen, tested, put, send_chunks, count_sent,
  after_chunks, first_chunk_values, counted, send_frame, sender_loop, sender_thread, follow,
}

-- What is sent of the frames from number `c` on, of which this many are started: nothing more, some
-- chunks of the last, or a whole frame in front of the others.
pub data Sent (w : World) : ℕ → ℕ → List Bytes → Type 0 where
  stopped : {c : ℕ} → Sent w c 0 []
  broken_off :
      {c : ℕ} {chunks : List Bytes}
      → create_data_chunks (w.rng c) w.endian_fmt c ≡ ok chunks
      → (m : ℕ) → Sent w c 1 (take m chunks)
  whole :
      {c n : ℕ} {chunks rest : List Bytes}
      → create_data_chunks (w.rng c) w.endian_fmt c ≡ ok chunks
      → Sent w (c + 1) n rest
      → Sent w c (suc n) (chunks ++ rest)

-- The loop over the chunks sends some in front of them, and all if no flag is seen to be set.
record Chunked (w : World) (cs : List Bytes) (s : Sender) : Type 0 where
  m : ℕ
  after : Sender
  run : send_chunks w cs s ≡ (goes_on, after)
  same : after.connection ≡ s.connection
  output : after.output ≡ s.output ++ take m cs
  later : s.tests ≤ after.tests
  all : (take m cs ≡ cs) ⊎ (stop_seen w after ≡ true)

send_chunks-Chunked :
    (w : World) (cs : List Bytes) (s : Sender) → ((n : ℕ) → w.send_fails n ≡ false) → Chunked w cs s
unfolding send_chunks
send_chunks-Chunked w [] s h = record {
  m = 0;
  after = s;
  run = refl;
  same = refl;
  output = sym (append-nil s.output);
  later = omega arith;
  all = inl refl;
}
send_chunks-Chunked w (c ∷ cs) s h = elim (Bool-cases (stop_seen w s)) [
  | inl stop ↦ record {
    m = 0;
    after = tested s;
    run = rw stop refl;
    same = refl;
    output = sym (append-nil s.output);
    later = omega arith;
    all = inr (ground (arith, stop));
  }
  | inr on ↦
      let rest = send_chunks-Chunked w cs (put (tested s) c) h in
      record {
        m = suc rest.m;
        after = rest.after;
        run = rw (on, h (length s.output)) rest.run;
        same = rest.same;
        output = rest.output ∙ append_assoc s.output (c ∷ []) (take rest.m cs);
        later = omega (arith, rest.later);
        all = elim rest.all [ inl e ↦ inl (ap (◌∷◌ c) e) | inr e ↦ inr e ];
      }
]

-- A whole round: some of the frame is sent and the loop ends, or all of it and it goes on.
record Framed (w : World) (chunks : List Bytes) (s after : Sender) : Type 0 where
  m : ℕ
  count : after.connection.count ≡ s.connection.count + 1
  sent_frames : after.connection.stats.sent_frames ≡ s.connection.stats.sent_frames + 1
  output : after.output ≡ s.output ++ take m chunks
  later : s.tests < after.tests
  all : (after.tests ≤ w.stop_at) → take m chunks ≡ chunks

data Round (w : World) (chunks : List Bytes) (s : Sender) : Flow × Sender → Type 0 where
  last : {after : Sender} → Framed w chunks s after → Round w chunks s (breaks, after)
  next :
      {after : Sender}
      → after.tests ≤ w.stop_at
      → Framed w chunks s after
      → Round w chunks s (goes_on, after)

framed :
    (w : World) (s : Sender) (chunks : List Bytes) (d : Chunked w chunks (counted s))
    → Framed w chunks s (tested (count_sent d.after))
unfolding get_next_count
framed w s chunks d = record {
  m = d.m;
  count = ap (λ c. c.count) d.same;
  sent_frames = ap (λ c. c.stats.sent_frames + 1) d.same;
  output = d.output;
  later = omega (arith, d.later);
  all = λ early. elim d.all [ inl e ↦ e | inr stop ↦ absurd (ground (arith, stop, early)) ];
}

after_chunks-Round :
    (w : World) (s : Sender) (chunks : List Bytes) (d : Chunked w chunks (counted s))
    → Round w chunks s (after_chunks w (goes_on, d.after))
after_chunks-Round w s chunks d = elim (Bool-cases (stop_seen w d.after)) [
  | inl stop ↦ rw stop (last (framed w s chunks d))
  | inr on ↦ rw on (next (ground (arith, on)) (framed w s chunks d))
]

-- The two words are there.
first_chunk_values_ok :
    (e : Endian) (chunks : List Bytes)
    → StartsLong chunks
    → (values : ℕ × ℕ) × (first_chunk_values e chunks ≡ ok values)
unfolding unpack_two
first_chunk_values_ok e [] h = absurd h
first_chunk_values_ok e (c ∷ cs) h =
    let (a, run_a) =
      unpack_word_total e (take 4 (take 8 c))
        (omega (arith, h, length-take 4 (take 8 c), length-take 8 c)) in
    let (b, run_b) =
      unpack_word_total e (drop 4 (take 8 c))
        (omega (arith, h, length-drop 4 (take 8 c), length-take 8 c)) in
    ((a, b), rw (run_a, run_b) refl)

send_frame-Round :
    (w : World) (s : Sender) (chunks : List Bytes)
    → ((n : ℕ) → w.send_fails n ≡ false)
    → create_data_chunks (w.rng s.connection.count) w.endian_fmt s.connection.count ≡ ok chunks
    → StartsLong chunks
    → Round w chunks s (send_frame w s)
unfolding send_frame get_next_count
send_frame-Round w s chunks h made long =
    let d = send_chunks-Chunked w chunks (counted s) h in
    let (values, read) = first_chunk_values_ok w.endian_fmt chunks long in
    rw (made, read, d.run) (after_chunks-Round w s chunks d)

-- What the thread leaves.
pub record Ended (w : World) (s : Sender) (out : Result Sender) : Type 0 where
  pub number : ℕ
  pub bytes : List Bytes
  pub after : Sender
  pub run : out ≡ ok after
  pub output : after.output ≡ s.output ++ bytes
  pub frames : Sent w s.connection.count number bytes
  pub count : after.connection.count ≡ s.connection.count + number
  pub sent_frames : after.connection.stats.sent_frames ≡ s.connection.stats.sent_frames + number

follow-Ended :
    (w : World) (fuel : ℕ) (s : Sender) (chunks : List Bytes) (r : Flow × Sender)
    → create_data_chunks (w.rng s.connection.count) w.endian_fmt s.connection.count ≡ ok chunks
    → Round w chunks s r
    → ((t : Sender) → s.tests < t.tests → t.tests ≤ w.stop_at → Ended w t (sender_loop w fuel t))
    → Ended w s (follow (sender_loop w fuel) r)
follow-Ended w fuel s chunks r made (last {after} f) again = record {
  number = 1;
  bytes = take f.m chunks;
  after = after;
  run = refl;
  output = f.output;
  frames = broken_off made f.m;
  count = f.count;
  sent_frames = f.sent_frames;
}
follow-Ended w fuel s chunks r made (next {after} early f) again =
    let rest = again after f.later early in
    record {
      number = suc rest.number;
      bytes = chunks ++ rest.bytes;
      after = rest.after;
      run = rest.run;
      output =
          rest.output
          ∙ ap (λ o. o ++ rest.bytes) (f.output ∙ ap (◌++◌ s.output) (f.all early))
          ∙ append_assoc s.output chunks rest.bytes;
      frames = whole made (subst (λ c. Sent w c rest.number rest.bytes) f.count rest.frames);
      count = omega (arith, rest.count, f.count);
      sent_frames = omega (arith, rest.sent_frames, f.sent_frames);
    }

tested-Ended :
    {w : World} {s : Sender} {out : Result Sender} → Ended w (tested s) out → Ended w s out
tested-Ended e = record {
  number = e.number;
  bytes = e.bytes;
  after = e.after;
  run = e.run;
  output = e.output;
  frames = e.frames;
  count = e.count;
  sent_frames = e.sent_frames;
}

sender_loop-Ended :
    (w : World) (fuel : ℕ) (s : Sender)
    → ((n : ℕ) → w.send_fails n ≡ false)
    → s.tests ≤ w.stop_at
    → w.stop_at < s.tests + fuel
    → Ended w s (sender_loop w fuel s)
unfolding sender_loop
sender_loop-Ended w zero s h early fuelled = absurd (omega arith)
sender_loop-Ended w (suc fuel) s h early fuelled = elim (Bool-cases (stop_seen w s)) [
  | inl stop ↦ rw stop record {
    number = 0;
    bytes = [];
    after = tested s;
    run = refl;
    output = sym (append-nil s.output);
    frames = stopped;
    count = omega arith;
    sent_frames = omega arith;
  }
  | inr on ↦
      let (chunks, made, sends) =
        create_data_chunks-Sends (w.rng s.connection.count) w.endian_fmt s.connection.count in
      rw on (
        tested-Ended (
          follow-Ended w fuel (tested s) chunks (send_frame w (tested s)) made
            (send_frame-Round w (tested s) chunks h made sends.first_long)
            (λ t later soon. sender_loop-Ended w fuel t h soon (omega (arith, later, fuelled)))))
]

-- Where sending is enabled and no `sendall` raises, the sender thread ends with no exception: it
-- has sent the frames of consecutive numbers, each whole but perhaps the last, and has counted as
-- sent every frame that it started.
pub sender_thread-Ended :
    (w : World) (s : Sender)
    → w.no_send ≡ false
    → ((n : ℕ) → w.send_fails n ≡ false)
    → s.tests ≡ 0
    → Ended w s (sender_thread w s)
unfolding sender_thread
sender_thread-Ended w s send h fresh =
    simp send (sender_loop-Ended w (w.stop_at + 1) s h (omega arith) (omega arith))
