-- ===== src/Relay/Receiver/Stream/Rounds.antt =====
-- The inner loop on a buffer that is the start of a stream of frames.
use public_trash.Base.{
  ℕ, zero, suc, ◌+◌, ◌*◌, ◌≤◌, ◌<◌, ◌≡◌, refl, sym, ap, ◌∙◌, inl, inr, true, Bool-cases, List, [],
  ◌∷◌, ◌++◌, map, length, take, drop, All, length-append, length-drop, take-append-drop,
  take-append, drop-append, take-append_of_le, drop-append_of_le, append_assoc, append-nil, ltb,
  leb, lt→ltb, tests, ok, Option, some, arith,
}
use mathlib.Core.List.{map-append}
use public_trash.Base.Bits.{bit_and-ones}
use public_trash.Base.Words.{Bytes, Endian, big, little, unpack_word, unpack_word-word_bytes}
use public_trash.Relay.Frame.{start_marker, count_field, validate_block}
use public_trash.Relay.Frame.Valid.{
  Fits, frame, length-frame, length_field-header, validate_block-frame,
}
use public_trash.Relay.Receiver.{
  Receiver, Message, valid_frame, done, again, count_valid, consume, round, drain,
}

-- A frame to come: its count and its payload.
abbrev pub Item : Type 0
Item = ℕ × List ℕ

abbrev pub size : Item → ℕ
size f = (length f.1 + 3) * 4

abbrev pub stream : Endian → List Item → Bytes
stream e [] = []
stream e (f ∷ fs) = frame e f.0 f.1 ++ stream e fs

-- The frames that the receiver can hold: no longer than the limit of its buffer.
pub record IsItem (f : Item) : Type 0 where
  pub fits : Fits f.0 f.1
  pub short : size f ≤ 16384

abbrev header : Item → ℕ
header f = size f * 65536 + f.0

-- The first two words of a frame.
head_words :
    (e : Endian) (f : Item) (rest : Bytes)
    → IsItem f
    → (unpack_word e (take 4 (frame e f.0 f.1 ++ rest)) ≡ ok start_marker)
      × (unpack_word e (take 4 (drop 4 (frame e f.0 f.1 ++ rest))) ≡ ok (header f))
head_words big f rest h = (
  unpack_word-word_bytes big start_marker (omega arith),
  unpack_word-word_bytes big (header f) (omega (arith, h.short, h.fits.count_fits)),
)
head_words little f rest h = (
  unpack_word-word_bytes little start_marker (omega arith),
  unpack_word-word_bytes little (header f) (omega (arith, h.short, h.fits.count_fits)),
)

-- The same words, read from any buffer of eight bytes at least that agrees with the stream.
read_words :
    (e : Endian) (f : Item) (b rest tail : Bytes)
    → IsItem f
    → b ++ rest ≡ frame e f.0 f.1 ++ tail
    → 8 ≤ length b
    → (unpack_word e (take 4 b) ≡ ok start_marker)
      × (unpack_word e (take 4 (drop 4 b)) ≡ ok (header f))
read_words e f b rest tail h same long =
    let (first, second) = head_words e f tail h in
    let front : take 4 b ≡ take 4 (frame e f.0 f.1 ++ tail) =
      sym (take-append_of_le b rest 4 (omega arith)) ∙ ap (take 4) same in
    let behind : take 4 (drop 4 b) ≡ take 4 (drop 4 (frame e f.0 f.1 ++ tail)) =
      sym (take-append_of_le (drop 4 b) rest 4 (omega (arith, length-drop 4 b)))
      ∙ ap (take 4) (sym (drop-append_of_le b rest 4 (omega arith)) ∙ ap (drop 4) same) in
    (ap (unpack_word e) front ∙ first, ap (unpack_word e) behind ∙ second)

abbrev pub accept : (ℕ → ℕ) → Item → Receiver → Receiver
accept clock f r = consume (size f) (count_valid clock (size f) (header f) r)

-- A whole frame at the front is counted as valid and removed.
round_whole :
    (clock : ℕ → ℕ) (e : Endian) (f : Item) (r : Receiver) (tail : Bytes)
    → IsItem f
    → r.buffer ≡ frame e f.0 f.1 ++ tail
    → round clock e r ≡ ok (again (accept clock f r))
unfolding round
round_whole clock e f r tail h eq =
    let total = ap length eq ∙ length-append (frame e f.0 f.1) tail in
    let bytes = length-frame e f.0 f.1 in
    let (first, second) =
      read_words e f r.buffer [] tail h (append-nil r.buffer ∙ eq) (omega (arith, total, bytes)) in
    let field = length_field-header (size f) f.0 h.fits.count_fits (omega (arith, h.short)) in
    let cut : take (size f) r.buffer ≡ frame e f.0 f.1 =
      ap (take (size f)) eq ∙ take-append (frame e f.0 f.1) tail (size f) (sym bytes) in
    let valid : validate_block e (take (size f) r.buffer) ≡ ok true =
      ap (validate_block e) cut ∙ validate_block-frame e h.fits in
    ground (arith, first, second, field, valid, total, bytes)

-- A part of a frame ends the loop.
round_part :
    (clock : ℕ → ℕ) (e : Endian) (f : Item) (r : Receiver) (rest tail : Bytes)
    → IsItem f
    → r.buffer ++ rest ≡ frame e f.0 f.1 ++ tail
    → length r.buffer < size f
    → round clock e r ≡ ok (done r)
unfolding round
round_part clock e f r rest tail h eq part = elim (Bool-cases (ltb (length r.buffer) 12)) [
  | inl short ↦ rw short
  | inr long ↦
      let (first, second) = read_words e f r.buffer rest tail h eq (ground arith) in
      let field = length_field-header (size f) f.0 h.fits.count_fits (omega (arith, h.short)) in
      ground (arith, first, second, field)
]

split_front :
    (f b rest tail : Bytes)
    → b ++ rest ≡ f ++ tail
    → length f ≤ length b
    → (b' : Bytes) × (b ≡ f ++ b') × (b' ++ rest ≡ tail)
split_front f b rest tail same long =
    let n = length f in
    let front : take n b ≡ f =
      sym (take-append_of_le b rest n long) ∙ ap (take n) same ∙ take-append f tail n refl in
    (
      drop n b,
      sym (take-append-drop n b) ∙ ap (λ x. x ++ drop n b) front,
      sym (drop-append_of_le b rest n long) ∙ ap (drop n) same ∙ drop-append f tail n refl,
    )

-- The counts of the frames that were reported as valid.
abbrev pub valid_counts : List Message → List ℕ
valid_counts [] = []
valid_counts (valid_frame c n ∷ ms) = c ∷ valid_counts ms
valid_counts (_ ∷ ms) = valid_counts ms

pub valid_counts-append :
    (ms ns : List Message) → valid_counts (ms ++ ns) ≡ valid_counts ms ++ valid_counts ns
valid_counts-append [] ns = refl
valid_counts-append (valid_frame c n ∷ ms) ns = ap (◌∷◌ c) (valid_counts-append ms ns)
valid_counts-append (_ ∷ ms) ns = valid_counts-append ms ns

abbrev pub last_count : List Item → Option ℕ → Option ℕ
last_count [] before = before
last_count (f ∷ fs) before = last_count fs (some f.0)

-- Between `r` and `r'` exactly the frames `fs` were received, in this order, and none was invalid.
pub record Took (fs : List Item) (r r' : Receiver) : Type 0 where
  pub received : r'.conn.stats.received_frames ≡ r.conn.stats.received_frames + length fs
  pub invalid : r'.conn.stats.invalid_frames ≡ r.conn.stats.invalid_frames
  pub last : r'.conn.last_received_count ≡ last_count fs r.conn.last_received_count
  pub counts : valid_counts r'.printed ≡ valid_counts r.printed ++ map (λ f. f.0) fs

pub Took-nil : (r : Receiver) → Took [] r r
Took-nil r = record {
  received = omega arith;
  invalid = refl;
  last = refl;
  counts = sym (append-nil _);
}

accept-Took :
    (clock : ℕ → ℕ) (f : Item) (fs : List Item) (r r' : Receiver)
    → IsItem f
    → Took fs (accept clock f r) r'
    → Took (f ∷ fs) r r'
accept-Took clock f fs r r' h t =
    let field : count_field (header f) ≡ f.0 =
      bit_and-ones 16 (header f) ∙ omega (arith, h.fits.count_fits) in
    record {
      received = omega (arith, t.received);
      invalid = t.invalid;
      last = t.last ∙ ap (λ c. last_count fs (some c)) field;
      counts =
          t.counts
          ∙ rw (valid_counts-append r.printed, field, append_assoc (valid_counts r.printed)) refl;
    }

last_count-append :
    (fs gs : List Item) (before : Option ℕ)
    → last_count (fs ++ gs) before ≡ last_count gs (last_count fs before)
last_count-append [] gs before = refl
last_count-append (f ∷ fs) gs before = last_count-append fs gs (some f.0)

pub Took-trans :
    (fs gs : List Item) (r s t : Receiver) → Took fs r s → Took gs s t → Took (fs ++ gs) r t
Took-trans fs gs r s t a b = record {
  received = omega (arith, a.received, b.received, length-append fs gs);
  invalid = b.invalid ∙ a.invalid;
  last = b.last ∙ ap (last_count gs) a.last ∙ sym (last_count-append fs gs _);
  counts =
      b.counts
      ∙ rw (a.counts, map-append (λ (f : Item). f.0) fs gs)
          (append_assoc (valid_counts r.printed) _ _);
}

-- The buffer holds less than the next frame.
abbrev pub Waits : Bytes → List Item → Type 0
Waits b [] = b ≡ []
Waits b (f ∷ fs) = length b < size f

pub record Progressed (e : Endian) (r : Receiver) (rest : Bytes) (fs : List Item) (r' : Receiver)
    : Type 0 where
  pub taken : List Item
  pub left : List Item
  pub all : fs ≡ taken ++ left
  pub same : r'.buffer ++ rest ≡ stream e left
  pub waits : Waits r'.buffer left
  pub took : Took taken r r'

no_bytes : (b : Bytes) → length b ≡ 0 → b ≡ []
no_bytes [] h = refl
no_bytes (x ∷ b) h = absurd (omega arith)

round_short :
    (clock : ℕ → ℕ) (e : Endian) (r : Receiver)
    → length r.buffer < 12
    → round clock e r ≡ ok (done r)
unfolding round
round_short clock e r h = rw (lt→ltb (length r.buffer) 12 h)

-- The inner loop takes every whole frame and stops in front of the next.
pub drain-stream :
    (clock : ℕ → ℕ) (e : Endian) (fs : List Item) (fuel : ℕ) (r : Receiver) (rest : Bytes)
    → All IsItem fs
    → r.buffer ++ rest ≡ stream e fs
    → length r.buffer < fuel
    → (r' : Receiver) × (drain clock e fuel r ≡ ok r') × Progressed e r rest fs r'
unfolding drain
drain-stream clock e fs zero r rest items same fuelled = absurd (omega arith)
drain-stream clock e [] (suc fuel) r rest items same fuelled =
    let none_left : length r.buffer ≡ 0 =
      omega (arith, ap length same, length-append r.buffer rest) in
    let empty : r.buffer ≡ [] = no_bytes r.buffer none_left in
    let stop : round clock e r ≡ ok (done r) = round_short clock e r (omega (arith, none_left)) in
    (
      r,
      rw stop,
      record { taken = []; left = []; all = refl; same = same; waits = empty; took = Took-nil r },
    )
drain-stream clock e (f ∷ fs) (suc fuel) r rest (item, items) same fuelled =
    elim (Bool-cases (leb (size f) (length r.buffer))) [
      | inr part ↦
          let stop = round_part clock e f r rest (stream e fs) item same (ground arith) in
          (
            r,
            rw stop,
            record {
              taken = [];
              left = f ∷ fs;
              all = refl;
              same = same;
              waits = ground arith;
              took = Took-nil r;
            },
          )
      | inl whole ↦
          let bytes = length-frame e f.0 f.1 in
          let (b, eq, same') =
            split_front (frame e f.0 f.1) r.buffer rest (stream e fs) same
              (omega (tests, bytes, whole)) in
          let go = round_whole clock e f r b item eq in
          let left_over : (accept clock f r).buffer ≡ b =
            ap (drop (size f)) eq ∙ drop-append (frame e f.0 f.1) b (size f) (sym bytes) in
          let (r', run, p) =
            drain-stream clock e fs fuel (accept clock f r) rest items (rw left_over same') (
              omega (
                arith,
                ap length left_over,
                ap length eq,
                length-append (frame e f.0 f.1) b,
                bytes,
              )) in
          (
            r',
            rw go run,
            record {
              taken = f ∷ p.taken;
              left = p.left;
              all = ap (◌∷◌ f) p.all;
              same = p.same;
              waits = p.waits;
              took = accept-Took clock f p.taken r r' item p.took;
            },
          )
    ]
