-- ===== src/Relay/Receiver/Copies.antt =====
-- The receiver thread of `ClientHandler` is a copy of the one of `Connection` without the tracking
-- of a frame, which only serves messages.
use public_trash.Base.{
  ℕ, zero, suc, ◌≡◌, refl, sym, ap, ap₂, All, ◌∙◌, Bool, true, false, Bool-cases, inl, inr,
  if◌then◌else◌, ltb, leb, ◌&&◌, ◌==◌, List, [], ◌∷◌, length, take, drop, none, Result, ok, raise,
  ◌>>=◌, arith,
}
use public_trash.Base.Words.{Bytes, Endian, unpack_word}
use public_trash.Relay.Frame.{validate_block, start_marker, length_field}
use public_trash.Relay.Receiver.Stream.Chunks.{track_total}
use public_trash.Relay.Receiver.{
  Receiver, Round, done, again, consume, count_valid, count_invalid, take_frame, round, drain,
  progress, show_chunk, extend, limit_buffer, enough, receive, handler_receive, Event,
  data_received, timed_out, reset, failed, receiver_thread, handler_thread,
}

-- What is left of a state without the tracking and the messages.
abbrev pub essence : Receiver → Receiver
essence r = record r { current_frame = none; expected_frame_length = 0; printed = [] }

abbrev pub map_ok : {A B : Type 0} → (A → B) → Result A → Result B
map_ok f (ok a) = ok (f a)
map_ok f (raise e) = raise e

abbrev essence_round : Round → Round
essence_round (done r) = done (essence r)
essence_round (again r) = again (essence r)

-- Two computations go on from the same value.
go_on :
    {A B C : Type 0} (h : B → C) (m : Result A) (f g : A → Result B)
    → ((a : A) → map_ok h (f a) ≡ map_ok h (g a))
    → map_ok h (m >>= f) ≡ map_ok h (m >>= g)
go_on h (ok a) f g same = same a
go_on h (raise e) f g same = refl

branch :
    {A B : Type 0} (h : A → B) (b : Bool) (x y x' y' : Result A)
    → map_ok h x ≡ map_ok h x'
    → map_ok h y ≡ map_ok h y'
    → map_ok h (if b then x else y) ≡ map_ok h (if b then x' else y')
branch h true x y x' y' p q = p
branch h false x y x' y' p q = q

-- A continuation that only looks at what `g` keeps.
through :
    {A B C : Type 0} (h : B → C) (g : A → A) (m : Result A) (next : A → Result B)
    → ((a : A) → map_ok h (next a) ≡ map_ok h (next (g a)))
    → map_ok h (m >>= next) ≡ map_ok h (map_ok g m >>= next)
through h g (ok a) next same = same a
through h g (raise e) next same = refl

consumed :
    (clock : ℕ → ℕ) (n length_count : ℕ) (r : Receiver) (valid : Bool)
    → essence (consume n (if valid then count_valid clock n length_count r else count_invalid r))
      ≡ essence (
          consume n (
            if valid
            then count_valid clock n length_count (essence r)
            else count_invalid (essence r)))
consumed clock n length_count r true = refl
consumed clock n length_count r false = refl

take_frame-essence :
    (clock : ℕ → ℕ) (e : Endian) (r : Receiver)
    → map_ok essence_round (take_frame clock e r)
      ≡ map_ok essence_round (take_frame clock e (essence r))
unfolding take_frame
take_frame-essence clock e r =
    go_on essence_round (unpack_word e (take 4 (drop 4 r.buffer))) _ _ λ length_count.
      branch essence_round (leb (length_field length_count) (length r.buffer)) _ _ _ _
        (go_on essence_round (validate_block e (take (length_field length_count) r.buffer)) _ _
          λ valid.
            ap (λ x. ok (again x))
              (consumed clock (length_field length_count) length_count r valid))
        refl

round-essence :
    (clock : ℕ → ℕ) (e : Endian) (r : Receiver)
    → map_ok essence_round (round clock e r) ≡ map_ok essence_round (round clock e (essence r))
unfolding round
round-essence clock e r = branch essence_round (ltb (length r.buffer) 12) _ _ _ _ refl (
    go_on essence_round (unpack_word e (take 4 r.buffer)) _ _ λ first.
      branch essence_round (leb 4 (length r.buffer) && first == start_marker) _ _ _ _
        (branch essence_round (leb 8 (length r.buffer)) _ _ _ _ (take_frame-essence clock e r) refl)
        refl)

drain-essence :
    (clock : ℕ → ℕ) (e : Endian) (fuel : ℕ) (r : Receiver)
    → map_ok essence (drain clock e fuel r) ≡ map_ok essence (drain clock e fuel (essence r))
unfolding drain
drain-essence clock e zero r = refl
drain-essence clock e (suc fuel) r =
    let next : Round → Result Receiver =
      λ step. elim step [ done r' ↦ ok r' | again r' ↦ drain clock e fuel r' ] in
    let same : (step : Round)
        → map_ok essence (next step) ≡ map_ok essence (next (essence_round step)) =
      λ step.
        elim step as (λ k. map_ok essence (next k) ≡ map_ok essence (next (essence_round k))) [
          | done r' ↦ refl
          | again r' ↦ drain-essence clock e fuel r'
        ] in
    through essence essence_round (round clock e r) next same
    ∙ ap (λ m. map_ok essence (m >>= next)) (round-essence clock e r)
    ∙ sym (through essence essence_round (round clock e (essence r)) next same)

limit_buffer-essence :
    (r : Receiver) → essence (limit_buffer r) ≡ essence (limit_buffer (essence r))
unfolding limit_buffer
limit_buffer-essence r = elim (Bool-cases (ltb 16384 (length r.buffer))) [
  | inl over ↦ rw over refl
  | inr fine ↦ rw fine refl
]

-- The inner loop and the limit, from two states with the same essence.
rest-essence :
    (clock : ℕ → ℕ) (e : Endian) (r s : Receiver)
    → essence r ≡ essence s
    → map_ok essence (drain clock e (enough r) r >>= λ drained. ok (limit_buffer drained))
      ≡ map_ok essence (drain clock e (enough s) s >>= λ drained. ok (limit_buffer drained))
rest-essence clock e r s same =
    to_essence r
    ∙ ap (λ x. map_ok essence (drain clock e (enough x) x >>= λ drained. ok (limit_buffer drained)))
        same
    ∙ sym (to_essence s)
  where
    limited :
        (drained : Receiver)
        → Path
            (Result Receiver)
            (ok (essence (limit_buffer drained)))
            (ok (essence (limit_buffer (essence drained))))
    limited drained = ap ok (limit_buffer-essence drained)

    to_essence :
        (x : Receiver)
        → map_ok essence (drain clock e (enough x) x >>= λ drained. ok (limit_buffer drained))
          ≡ map_ok essence (
              drain clock e (enough (essence x)) (essence x) >>= λ drained.
              ok (limit_buffer drained))
    to_essence x =
        through essence essence (drain clock e (enough x) x) (λ drained. ok (limit_buffer drained))
          limited
        ∙ ap (λ m. map_ok essence (m >>= λ drained. ok (limit_buffer drained)))
            (drain-essence clock e (enough x) x)
        ∙ sym (
            through essence essence (drain clock e (enough x) (essence x))
              (λ drained. ok (limit_buffer drained)) limited)

-- One chunk.
receive-handler_receive :
    (clock : ℕ → ℕ) (e : Endian) (chunk : Bytes) (r s : Receiver)
    → essence r ≡ essence s
    → map_ok essence (receive clock e chunk r) ≡ map_ok essence (handler_receive clock e chunk s)
unfolding receive handler_receive
receive-handler_receive clock e chunk r s same =
    let (t, tracked, d) = track_total e r in
    let essential : essence t ≡ essence r =
      ap₂
        (λ b c. record {
          buffer = b;
          current_frame = none;
          expected_frame_length = 0;
          conn = c;
          printed = [];
        })
        d.buffer d.conn in
    rw tracked (
      rest-essence clock e (extend chunk (show_chunk (progress t) chunk t))
        (extend chunk (show_chunk none chunk s))
        (ap (λ x. essence (extend chunk (show_chunk none chunk x))) (essential ∙ same)))

abbrev pub is_timeout : Event → Bool
is_timeout timed_out = true
is_timeout _ = false

-- A computation whose result has this essence goes on as another does.
join_essence :
    (m n : Result Receiver) (f g : Receiver → Result Receiver)
    → map_ok essence m ≡ map_ok essence n
    → ((r s : Receiver) → essence r ≡ essence s → map_ok essence (f r) ≡ map_ok essence (g s))
    → map_ok essence (m >>= f) ≡ map_ok essence (n >>= g)
join_essence (ok a) (ok b) f g same next = next a b (ground (arith, same))
join_essence (ok a) (raise y) f g same next = absurd (ground (arith, same))
join_essence (raise x) (ok b) f g same next = absurd (ground (arith, same))
join_essence (raise x) (raise y) f g same next = same

-- Over events without a timeout, the receiver thread of `Connection` and that of `ClientHandler`
-- both raise the same exception or both end, from states that agree but for tracking and
-- messages, in states that agree but for those: the same buffer, counters, last count and
-- offsets.
pub receiver_thread-handler_thread :
    (clock : ℕ → ℕ) (e : Endian) (events : List Event) (r s : Receiver)
    → All (λ event. is_timeout event ≡ false) events
    → essence r ≡ essence s
    → map_ok essence (receiver_thread clock e events r)
      ≡ map_ok essence (handler_thread clock e events s)
unfolding receiver_thread handler_thread
receiver_thread-handler_thread clock e [] r s quiet same = ap ok same
receiver_thread-handler_thread clock e (data_received [] ∷ events) r s quiet same = ap ok same
receiver_thread-handler_thread clock e (data_received (b ∷ bs) ∷ events) r s (_, quiet) same =
    join_essence (receive clock e (b ∷ bs) r) (handler_receive clock e (b ∷ bs) s)
      (receiver_thread clock e events) (handler_thread clock e events)
      (receive-handler_receive clock e (b ∷ bs) r s same)
      (λ r' s' alike. receiver_thread-handler_thread clock e events r' s' quiet alike)
receiver_thread-handler_thread clock e (timed_out ∷ events) r s (loud, _) same =
    absurd (ground (arith, loud))
receiver_thread-handler_thread clock e (reset ∷ events) r s quiet same = ap ok same
receiver_thread-handler_thread clock e (failed ∷ events) r s quiet same = ap ok same
