-- ===== src/Relay/Receiver/Drain.antt =====
-- The inner loop of the receivers ends, unless an empty frame starts somewhere in the buffer.
use public_trash.Base.{
  ℕ, zero, suc, ◌+◌, ◌-◌, ◌%◌, ◌≤◌, ◌<◌, ◌≡◌, ◌≢◌, refl, ap, subst, ◌∙◌, inl, inr, Bool, true,
  false, Bool-cases, if◌then◌else◌, length, take, drop, length-take, length-drop, drop-drop, ltb,
  leb, ◌==◌, ==_iff, ok, arith,
}
use public_trash.Base.Words.{Bytes, Endian, unpack_word, unpack_word_total}
use public_trash.Relay.Frame.{start_marker, length_field, unpack_two, check_end, validate_block}
use public_trash.Relay.Receiver.{
  Receiver, Round, done, again, count_valid, count_invalid, consume, take_frame, round, drain,
  enough,
}
use public_trash.Relay.Receiver.Livelock.{StartsEmptyFrame}

unpack_two_total :
    (e : Endian) (bs : Bytes) → length bs ≡ 8 → (a : ℕ) × (b : ℕ) × (unpack_two e bs ≡ ok (a, b))
unfolding unpack_two
unpack_two_total e bs h =
    let (a, ea) = unpack_word_total e (take 4 bs) (omega (arith, length-take 4 bs)) in
    let (b, eb) = unpack_word_total e (drop 4 bs) (omega (arith, length-drop 4 bs)) in
    (a, b, rw (ea, eb))

check_end_total : (e : Endian) (bs : Bytes) → 4 ≤ length bs → (v : Bool) × (check_end e bs ≡ ok v)
unfolding check_end
check_end_total e bs h =
    let (z, ez) =
      unpack_word_total e (drop (length bs - 4) bs)
        (omega (arith, length-drop (length bs - 4) bs)) in
    elim (Bool-cases (z == 0xDEADBEEF)) [ inl t ↦ (true, rw (ez, t)) | inr f ↦ (false, rw (ez, f)) ]

-- `validate_block` raises nothing, on any bytes.
pub validate_block_total :
    (e : Endian) (block : Bytes) → (v : Bool) × (validate_block e block ≡ ok v)
unfolding validate_block
validate_block_total e block = elim (Bool-cases (ltb (length block) 12)) [
  | inl short ↦ (false, rw short)
  | inr long ↦ elim (Bool-cases (length block % 4 == 0)) [
    | inr odd ↦ (false, rw (long, odd))
    | inl even ↦
        let (a, b, eq) = unpack_two_total e (take 8 block) (ground (arith, length-take 8 block)) in
        let (v, ev) = check_end_total e block (ground arith) in
        elim (Bool-cases (a == start_marker)) [
          | inr f ↦ (false, rw (long, even, eq, f))
          | inl t ↦ elim (Bool-cases (length_field b == length block)) [
            | inr f ↦ (false, rw (long, even, eq, t, f))
            | inl u ↦ (v, rw (long, even, eq, t, u) ev)
          ]
        ]
  ]
]

-- A round ends the loop, or takes at least one byte off the front of the buffer.
pub data Progresses (r : Receiver) (s : Round) : Type 0 where
  ends : s ≡ done r → Progresses r s
  moves :
      (k : ℕ) (r' : Receiver)
      → s ≡ again r'
      → r'.buffer ≡ drop (suc k) r.buffer
      → suc k ≤ length r.buffer
      → Progresses r s

counted_buffer :
    (clock : ℕ → ℕ) (n w : ℕ) (r : Receiver) (v : Bool)
    → (if v then count_valid clock n w r else count_invalid r).buffer ≡ r.buffer
counted_buffer clock n w r true = refl
counted_buffer clock n w r false = refl

take_frame-Progresses :
    (clock : ℕ → ℕ) (e : Endian) (r : Receiver) (w : ℕ)
    → unpack_word e (take 4 (drop 4 r.buffer)) ≡ ok w
    → length_field w ≢ 0
    → (s : Round) × (take_frame clock e r ≡ ok s) × Progresses r s
unfolding take_frame
take_frame-Progresses clock e r w header pos =
    elim (Bool-cases (leb (length_field w) (length r.buffer))) [
      | inr part ↦ (done r, rw (header, part), ends refl)
      | inl whole ↦
          let n = length_field w in
          let (v, valid) = validate_block_total e (take n r.buffer) in
          let one : n ≡ suc (n - 1) = omega arith in
          let next = consume n (if v then count_valid clock n w r else count_invalid r) in
          (
            again next,
            rw (header, whole, valid),
            moves (n - 1) next refl
                (ap (drop n) (counted_buffer clock n w r v) ∙ ap (λ m. drop m r.buffer) one)
                (ground arith),
          )
    ]

round-Progresses :
    (clock : ℕ → ℕ) (e : Endian) (r : Receiver)
    → ¬ StartsEmptyFrame e r.buffer
    → (s : Round) × (round clock e r ≡ ok s) × Progresses r s
unfolding round
round-Progresses clock e r safe = elim (Bool-cases (ltb (length r.buffer) 12)) [
  | inl short ↦ (done r, rw short, ends refl)
  | inr long ↦
      let size : 12 ≤ length r.buffer = ground arith in
      let (a, first) =
        unpack_word_total e (take 4 r.buffer) (omega (arith, length-take 4 r.buffer)) in
      let (w, header) =
        unpack_word_total e (take 4 (drop 4 r.buffer))
          (omega (arith, length-take 4 (drop 4 r.buffer), length-drop 4 r.buffer)) in
      let l4 : leb 4 (length r.buffer) ≡ true = ground arith in
      let l8 : leb 8 (length r.buffer) ≡ true = ground arith in
      elim (Bool-cases (a == start_marker)) [
        | inr other ↦
            let next = record r { buffer = drop 1 r.buffer } in
            (again next, rw (long, first, l4, other), moves 0 next refl refl (omega arith))
        | inl marked ↦
            let (s, taken, p) = take_frame-Progresses clock e r w header (λ z. safe (record {
              long_enough = size;
              marked = first ∙ ap ok ((==_iff a start_marker).0 marked);
              header = (w, header, z);
            })) in
            (s, rw (long, first, l4, marked, l8) taken, p)
      ]
]

-- What the inner loop leaves: a suffix of the buffer, on which a further round would end at once.
pub record Drained (clock : ℕ → ℕ) (e : Endian) (r r' : Receiver) : Type 0 where
  pub dropped : ℕ
  pub suffix : r'.buffer ≡ drop dropped r.buffer
  pub at_rest : round clock e r' ≡ ok (done r')

-- One round in front of a loop that ends.
drain_after :
    (clock : ℕ → ℕ) (e : Endian) (fuel : ℕ) (r : Receiver) (s : Round)
    → round clock e r ≡ ok s
    → Progresses r s
    → ((next : Receiver) (k : ℕ)
        → next.buffer ≡ drop (suc k) r.buffer
        → suc k ≤ length r.buffer
        → (r' : Receiver) × (drain clock e fuel next ≡ ok r') × Drained clock e next r')
    → (r' : Receiver) × (drain clock e (suc fuel) r ≡ ok r') × Drained clock e r r'
unfolding drain
drain_after clock e fuel r s ran (ends stop) rest =
    (r, rw (ran, stop), record { dropped = 0; suffix = refl; at_rest = ran ∙ ap ok stop })
drain_after clock e fuel r s ran (moves k next go on size) rest =
    let (r', run, d) = rest next k on size in
    (
      r',
      rw (ran, go) run,
      record {
        dropped = suc k + d.dropped;
        suffix = d.suffix ∙ ap (drop d.dropped) on ∙ drop-drop d.dropped (suc k) r.buffer;
        at_rest = d.at_rest;
      },
    )

drain_total :
    (clock : ℕ → ℕ) (e : Endian) (fuel : ℕ) (r : Receiver)
    → length r.buffer < fuel
    → ((k : ℕ) → ¬ StartsEmptyFrame e (drop k r.buffer))
    → (r' : Receiver) × (drain clock e fuel r ≡ ok r') × Drained clock e r r'
drain_total clock e zero r fuelled safe = absurd (omega arith)
drain_total clock e (suc fuel) r fuelled safe =
    let (s, ran, p) = round-Progresses clock e r (safe 0) in
    drain_after clock e fuel r s ran p λ next k on size.
      drain_total clock e fuel next (omega (arith, ap length on, length-drop (suc k) r.buffer))
        (λ j h.
          safe (suc k + j)
            (subst (StartsEmptyFrame e) (ap (drop j) on ∙ drop-drop j (suc k) r.buffer) h))

-- Where no empty frame starts at any place of the buffer, the inner loop ends within the fuel
-- that `receive` gives it, with no exception, and leaves a suffix of the buffer on which a
-- further round would end at once.
pub drain-enough :
    (clock : ℕ → ℕ) (e : Endian) (r : Receiver)
    → ((k : ℕ) → ¬ StartsEmptyFrame e (drop k r.buffer))
    → (r' : Receiver) × (drain clock e (enough r) r ≡ ok r') × Drained clock e r r'
drain-enough clock e r safe = drain_total clock e (enough r) r (omega arith) safe
