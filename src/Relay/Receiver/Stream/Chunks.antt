-- ===== src/Relay/Receiver/Stream/Chunks.antt =====
-- `receive` and `receiver_thread` on chunks that make up a stream of frames.
use public_trash.Base.{
  ℕ, ◌+◌, ◌≤◌, ◌≡◌, refl, sym, ap, subst, ◌∙◌, Bool-cases, Option-cases, inl, inr, List, [], ◌∷◌,
  ◌++◌, length, take, drop, All, All-append_right, length-append, length-take, length-drop,
  append_assoc, append-nil, leb, ◌==◌, ltb-false, tests, ok, some, arith,
}
use public_trash.Base.Words.{Bytes, Endian, unpack_word_total}
use public_trash.Relay.Connection.{Connection}
use public_trash.Relay.Frame.{start_marker, length_field, count_field}
use public_trash.Relay.Frame.Valid.{frame, length-frame}
use public_trash.Relay.Receiver.{
  Receiver, exiting, track, progress, show_chunk, extend, limit_buffer, enough, receive, Event,
  data_received, timed_out, receiver_thread, new_receiver, say,
}
use public_trash.Relay.Receiver.Stream.Rounds.{
  Item, IsItem, stream, Waits, Took, Took-trans, Progressed, drain-stream, valid_counts,
  valid_counts-append,
}

-- Two receivers that differ in the tracking only.
pub record SameData (r s : Receiver) : Type 0 where
  pub buffer : s.buffer ≡ r.buffer
  pub conn : s.conn ≡ r.conn
  pub printed : s.printed ≡ r.printed

pub track_total : (e : Endian) (r : Receiver) → (s : Receiver) × (track e r ≡ ok s) × SameData r s
unfolding track
track_total e r = elim (Option-cases r.current_frame) [
  | inr (f, tracking) ↦ (r, ground arith, record { buffer = refl; conn = refl; printed = refl })
  | inl idle ↦ elim (Bool-cases (leb 8 (length r.buffer))) [
    | inr short ↦ (r, ground arith, record { buffer = refl; conn = refl; printed = refl })
    | inl long ↦
        let (a, first) =
          unpack_word_total e (take 4 r.buffer) (omega (tests, long, length-take 4 r.buffer)) in
        let (w, header) =
          unpack_word_total e (take 4 (drop 4 r.buffer))
            (omega (tests, long, length-take 4 (drop 4 r.buffer), length-drop 4 r.buffer)) in
        elim (Bool-cases (a == start_marker)) [
          | inr other ↦ (r, ground arith, record { buffer = refl; conn = refl; printed = refl })
          | inl marked ↦ (
            record r {
              expected_frame_length = length_field w;
              current_frame = some (count_field w);
            },
            ground arith,
            record { buffer = refl; conn = refl; printed = refl },
          )
        ]
  ]
]

Took-shown :
    (fs : List Item) (r s r' : Receiver) (chunk : Bytes)
    → SameData r s
    → Took fs (extend chunk (show_chunk (progress s) chunk s)) r'
    → Took fs r r'
Took-shown fs r s r' chunk d t = record {
  received = t.received ∙ ap (λ (c : Connection). c.stats.received_frames + length fs) d.conn;
  invalid = t.invalid ∙ ap (λ (c : Connection). c.stats.invalid_frames) d.conn;
  last = t.last ∙ rw d.conn;
  counts =
      t.counts ∙ rw (valid_counts-append s.printed, append-nil (valid_counts s.printed), d.printed);
}

Waits-short : (b : Bytes) (fs : List Item) → All IsItem fs → Waits b fs → length b ≤ 16384
Waits-short b [] items w = rw w (omega arith)
Waits-short b (f ∷ fs) items w = omega (arith, items.0.short)

limit_idle : (r : Receiver) → length r.buffer ≤ 16384 → limit_buffer r ≡ r
unfolding limit_buffer
limit_idle r h = rw (ltb-false 16384 (length r.buffer) h)

left_items :
    {e : Endian} {r : Receiver} {rest : Bytes} {fs : List Item} {r' : Receiver}
    (p : Progressed e r rest fs r')
    → All IsItem fs
    → All IsItem p.left
left_items p items = All-append_right IsItem p.taken p.left (subst (All IsItem) p.all items)

-- One chunk of a stream.
receive-stream :
    (clock : ℕ → ℕ) (e : Endian) (fs : List Item) (chunk : Bytes) (r : Receiver) (rest : Bytes)
    → All IsItem fs
    → r.buffer ++ (chunk ++ rest) ≡ stream e fs
    → (r' : Receiver) × (receive clock e chunk r ≡ ok r') × Progressed e r rest fs r'
unfolding receive
receive-stream clock e fs chunk r rest items same =
    let (s, tracked, d) = track_total e r in
    let shown = extend chunk (show_chunk (progress s) chunk s) in
    let front : shown.buffer ≡ r.buffer ++ chunk = ap (λ b. b ++ chunk) d.buffer in
    let (r', run, p) =
      drain-stream clock e fs (enough shown) shown rest items
        (ap (λ b. b ++ rest) front ∙ append_assoc r.buffer chunk rest ∙ same) (omega arith) in
    let kept = limit_idle r' (Waits-short r'.buffer p.left (left_items p items) p.waits) in
    (
      r',
      rw tracked (rw run (ap ok kept)),
      record {
        taken = p.taken;
        left = p.left;
        all = p.all;
        same = p.same;
        waits = p.waits;
        took = Took-shown p.taken r s r' chunk d p.took;
      },
    )

-- The events bring exactly these bytes, in chunks that are not empty, with timeouts anywhere.
pub data Delivers : List Event → Bytes → Type 0 where
  nothing : Delivers [] []
  pause : {events : List Event} {bs : Bytes} → Delivers events bs → Delivers (timed_out ∷ events) bs
  chunk :
      {events : List Event} {bs : Bytes} (b : ℕ) (c : Bytes)
      → Delivers events bs
      → Delivers (data_received (b ∷ c) ∷ events) (b ∷ c ++ bs)

-- With nothing more to come, a buffer that waits for a frame is empty and no frame is left.
nothing_left :
    (e : Endian) (fs : List Item) (b : Bytes)
    → b ++ [] ≡ stream e fs
    → Waits b fs
    → (fs ≡ []) × (b ≡ [])
nothing_left e [] b same w = (refl, w)
nothing_left e (f ∷ fs) b same w = absurd (
    omega (
      arith,
      ap length same,
      length-append b [],
      length-append (frame e f.0 f.1) (stream e fs),
      length-frame e f.0 f.1,
    ))

say-Took : (r : Receiver) → Took [] r (say r exiting)
say-Took r = record {
  received = omega arith;
  invalid = refl;
  last = refl;
  counts = valid_counts-append r.printed (exiting ∷ []);
}

thread_stream :
    (clock : ℕ → ℕ) (e : Endian) (fs : List Item) (r : Receiver) {events : List Event} {bs : Bytes}
    → All IsItem fs
    → Delivers events bs
    → r.buffer ++ bs ≡ stream e fs
    → Waits r.buffer fs
    → (r' : Receiver) × (receiver_thread clock e events r ≡ ok r') × (r'.buffer ≡ []) × Took fs r r'
unfolding receiver_thread
thread_stream clock e fs r items nothing same w =
    let (no_frames, empty) = nothing_left e fs r.buffer same w in
    (
      say r exiting,
      refl,
      empty,
      subst (λ gs. Took gs r (say r exiting)) (sym no_frames) (say-Took r),
    )
thread_stream clock e fs r items (pause ds) same w = thread_stream clock e fs r items ds same w
thread_stream clock e fs r items (chunk {bs = bs} b c ds) same w =
    let (s, got, p) = receive-stream clock e fs (b ∷ c) r bs items same in
    let (r', run, empty, t) =
      thread_stream clock e p.left s (left_items p items) ds p.same p.waits in
    (
      r',
      rw got run,
      empty,
      subst (λ gs. Took gs r r') (sym p.all) (Took-trans p.taken p.left r s r' p.took t),
    )

-- However a stream of frames, none longer than 16384 bytes, is cut into chunks, and whatever
-- timeouts come between them, the receiver thread of a new receiver ends without an exception,
-- counts each frame as received, once and in order, counts none as invalid, keeps the last count,
-- and leaves nothing in its buffer.
pub receiver_thread-stream :
    (clock : ℕ → ℕ) (e : Endian) (c : Connection) (fs : List Item)
    → (events : List Event) → All IsItem fs
    → Delivers events (stream e fs)
    → (r : Receiver) × (receiver_thread clock e events (new_receiver c) ≡ ok r)
      × (r.buffer ≡ [])
      × Took fs (new_receiver c) r
receiver_thread-stream clock e c fs events items ds =
    thread_stream clock e fs (new_receiver c) items ds refl (waits_empty fs)
  where
    waits_empty : (gs : List Item) → Waits [] gs
    waits_empty [] = refl
    waits_empty (g ∷ gs) = omega arith
