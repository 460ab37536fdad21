-- ===== src/Relay/Frame/Chunks.antt =====
-- What `create_data_chunks` returns: a frame, cut into at least two pieces.
use public_trash.Base.{
  ℕ, zero, suc, ◌+◌, ◌-◌, ◌*◌, ◌/◌, ◌%◌, ◌≤◌, min, bit_or, ◌≡◌, refl, sym, ap, ◌∙◌, true, List, [],
  ◌∷◌, ◌++◌, length, take, drop, join, All, All-append, length-append, length-take, length-drop,
  drop_all, take-append-drop, drop-drop, join-append, append_assoc, append-nil, ltb-false, ok,
  arith,
}
use public_trash.Base.Bits.{bit_and-ones, bit_or-fields}
use public_trash.Base.Words.{Bytes, IsU32, Endian, pack_words, pack_words-ok}
use public_trash.Relay.Frame.{
  start_marker, end_marker, Rng, draw, draw_words, max_words, split_loop, ensure_two, header_word,
  create_data_chunks, validate_block,
}
use public_trash.Relay.Frame.Valid.{Fits, frame, length-frame, validate_block-frame}

-- A chunk holds 1 to 1024 bytes.
abbrev pub IsChunk : Bytes → Type 0
IsChunk c = (1 ≤ length c) × (length c ≤ 1024)

-- The first chunk has 16 bytes at least.
abbrev pub StartsLong : List Bytes → Type 0
StartsLong [] = ⊥
StartsLong (c ∷ cs) = 16 ≤ length c

draw_ok : (rng : Rng) (i lo hi : ℕ) → lo ≤ hi → draw rng i lo hi ≡ ok (rng.randint i lo hi)
unfolding draw
draw_ok rng i lo hi h = rw (ltb-false hi lo h)

draw_words_ok :
    (rng : Rng) (i n : ℕ)
    → (ws : List ℕ) × (draw_words rng i n ≡ ok ws) × (length ws ≡ n) × All IsU32 ws
unfolding draw_words
draw_words_ok rng i zero = ([], refl, refl, tt)
draw_words_ok rng i (suc n) =
    let (ws, drawn, size, fits) = draw_words_ok rng (i + 1) n in
    (
      rng.randint i 0 0xFFFFFFFF ∷ ws,
      rw (draw_ok rng i 0 0xFFFFFFFF (omega arith), drawn),
      ap suc size,
      (omega (arith, rng.randint_bounds i 0 0xFFFFFFFF (omega arith)), fits),
    )

-- One round takes `size` bytes off what is left of the block.
take_piece :
    (size offset : ℕ) (block : Bytes)
    → take size (drop offset block) ++ drop (offset + size) block ≡ drop offset block
take_piece size offset block =
    ap (◌++◌ (take size (drop offset block))) (sym (drop-drop size offset block))
    ∙ take-append-drop size (drop offset block)

length_piece :
    (size offset r : ℕ) (block : Bytes)
    → offset + r ≡ length block
    → size ≤ r
    → length (take size (drop offset block)) ≡ size
length_piece size offset r block left h =
    omega (arith, length-take size (drop offset block), length-drop offset block)

join_piece :
    (cs : List Bytes) (p rest whole : Bytes)
    → p ++ rest ≡ whole
    → join (cs ++ p ∷ []) ++ rest ≡ join cs ++ whole
join_piece cs p rest whole h =
    rw (join-append cs (p ∷ []), append-nil p, append_assoc (join cs) p rest)
      (ap (◌++◌ (join cs)) h)

-- From the second chunk on the loop never fails, and every chunk is in range.
split_rest :
    (rng : Rng) (fuel i : ℕ) (block : Bytes) (c : Bytes) (cs : List Bytes) (offset r : ℕ)
    → r ≤ fuel
    → offset + r ≡ length block
    → All IsChunk (c ∷ cs)
    → 16 ≤ length c
    → (out : List Bytes) × (split_loop rng fuel i block (c ∷ cs) offset r ≡ ok out)
      × (join out ≡ join (c ∷ cs) ++ drop offset block)
      × All IsChunk out
      × StartsLong out
      × (length (c ∷ cs) + min 1 r ≤ length out)
unfolding split_loop
split_rest rng fuel i block c cs offset zero fuelled left all long = (
  c ∷ cs,
  refl,
  rw (drop_all offset block (omega arith)) (sym (append-nil _)),
  all,
  long,
  omega arith,
)
split_rest rng zero i block c cs offset (suc r) fuelled left all long = absurd (omega arith)
split_rest rng (suc fuel) i block c cs offset (suc r) fuelled left all long =
    let size = rng.randint i (min 16 (suc r)) (min 1024 (suc r)) in
    let bounds = rng.randint_bounds i (min 16 (suc r)) (min 1024 (suc r)) (omega arith) in
    let piece = take size (drop offset block) in
    let whole = length_piece size offset (suc r) block left (omega (arith, bounds)) in
    let (out, run, joined, chunks, first, many) =
      split_rest rng fuel (i + 1) block c (cs ++ piece ∷ []) (offset + size) (suc r - size)
        (omega (arith, bounds)) (omega (arith, bounds))
        (All-append IsChunk (c ∷ cs) (piece ∷ []) all (omega (arith, bounds, whole), tt)) long in
    (
      out,
      rw (draw_ok rng i (min 16 (suc r)) (min 1024 (suc r)) (omega arith)) run,
      joined ∙ join_piece (c ∷ cs) piece _ _ (take_piece size offset block),
      chunks,
      first,
      omega (arith, many, length-append cs (piece ∷ [])),
    )

-- The first round leaves 16 bytes at least, so a block of 32 bytes is cut into two chunks or more.
split_first :
    (rng : Rng) (i r : ℕ) (block : Bytes)
    → 31 ≤ r
    → length block ≡ suc r
    → (out : List Bytes) × (split_loop rng (suc r) i block [] 0 (suc r) ≡ ok out)
      × (join out ≡ block)
      × All IsChunk out
      × StartsLong out
      × (2 ≤ length out)
unfolding split_loop
split_first rng i r block long whole =
    let size = rng.randint i (min 16 (suc r)) (min 1024 (suc r - 16)) in
    let bounds = rng.randint_bounds i (min 16 (suc r)) (min 1024 (suc r - 16)) (omega arith) in
    let piece = take size (drop 0 block) in
    let fits = length_piece size 0 (suc r) block (omega arith) (omega (arith, bounds)) in
    let (out, run, joined, chunks, first, many) =
      split_rest rng r (i + 1) block piece [] (0 + size) (suc r - size) (omega (arith, bounds))
        (omega (arith, bounds)) (omega (arith, bounds, fits), tt) (omega (arith, bounds, fits)) in
    (
      out,
      rw (draw_ok rng i (min 16 (suc r)) (min 1024 (suc r - 16)) (omega arith)) run,
      joined ∙ join_piece [] piece _ _ (take_piece size 0 block),
      chunks,
      first,
      omega (arith, many, bounds),
    )

split_loop_ok :
    (rng : Rng) (i n : ℕ) (block : Bytes)
    → 32 ≤ n
    → length block ≡ n
    → (out : List Bytes) × (split_loop rng n i block [] 0 n ≡ ok out)
      × (join out ≡ block)
      × All IsChunk out
      × StartsLong out
      × (2 ≤ length out)
split_loop_ok rng i zero block long whole = absurd (omega arith)
split_loop_ok rng i (suc r) block long whole = split_first rng i r block (omega arith) whole

ensure_two_idle : (cs : List Bytes) → 2 ≤ length cs → ensure_two cs ≡ cs
ensure_two_idle [] h = refl
ensure_two_idle (c ∷ []) h = absurd (omega arith)
ensure_two_idle (c ∷ d ∷ cs) h = refl

header_word-sum : (n count : ℕ) → header_word n count ≡ n * 65536 + count % 65536
header_word-sum n count =
    ap (bit_or (n * 65536)) (bit_and-ones 16 count)
    ∙ bit_or-fields 16 n (count % 65536) (omega arith)

-- What holds of the chunks of a new frame with number `count`.
pub record Sends (e : Endian) (count : ℕ) (chunks : List Bytes) : Type 0 where
  pub payload : List ℕ
  pub fits : Fits (count % 65536) payload
  pub joined : join chunks ≡ frame e (count % 65536) payload
  pub in_range : All IsChunk chunks
  pub first_long : StartsLong chunks
  pub at_least_two : 2 ≤ length chunks
  pub length_bounds : (756 ≤ length (join chunks)) × (length (join chunks) ≤ 1500)

chunks_of_words :
    (rng : Rng) (e : Endian) (count i : ℕ) (ws : List ℕ)
    → All IsU32 ws
    → 186 ≤ length ws
    → length ws ≤ 372
    → let block = frame e (count % 65536) ws in
      (out : List Bytes) × (split_loop rng (length block) i block [] 0 (length block) ≡ ok out)
      × (ensure_two out ≡ out)
      × Sends e count out
chunks_of_words rng e count i ws fits lo hi =
    let block = frame e (count % 65536) ws in
    let size : length block ≡ (length ws + 3) * 4 = length-frame e (count % 65536) ws in
    let (out, run, joined, chunks, first, many) =
      split_loop_ok rng i (length block) block (omega (arith, size)) refl in
    (
      out,
      run,
      ensure_two_idle out many,
      record {
        payload = ws;
        fits = record { count_fits = omega arith; length_fits = omega arith; words_fit = fits };
        joined = joined;
        in_range = chunks;
        first_long = first;
        at_least_two = many;
        length_bounds = omega (arith, ap length joined, size);
      },
    )

pack_frame :
    (e : Endian) (count n : ℕ) (ws : List ℕ)
    → length ws ≡ n
    → n ≤ 372
    → All IsU32 ws
    → pack_words e (start_marker ∷ header_word ((n + 3) * 4) count ∷ (ws ++ end_marker ∷ []))
      ≡ ok (frame e (count % 65536) ws)
pack_frame e count n ws size hi fits =
    let header = (length ws + 3) * 4 * 65536 + count % 65536 in
    let same : header_word ((n + 3) * 4) count ≡ header =
      header_word-sum ((n + 3) * 4) count ∙ omega (arith, size) in
    rw same (
      pack_words-ok e (start_marker ∷ header ∷ (ws ++ end_marker ∷ [])) (
        omega arith,
        (omega (arith, size), All-append IsU32 ws (end_marker ∷ []) fits (omega arith, tt)),
      ))

-- `create_data_chunks` never fails, and its chunks join to a frame for `count` modulo 2 ** 16: at
-- least two chunks, none empty or over 1024 bytes, the first of 16 bytes at least, 756 to 1500
-- bytes in all.
pub create_data_chunks-Sends :
    (rng : Rng) (e : Endian) (count : ℕ)
    → (chunks : List Bytes) × (create_data_chunks rng e count ≡ ok chunks) × Sends e count chunks
unfolding create_data_chunks
create_data_chunks-Sends rng e count =
    let num_words = rng.randint 0 (max_words / 2) max_words in
    let bounds = rng.randint_bounds 0 (max_words / 2) max_words (omega arith) in
    let (ws, drawn, size, fits) = draw_words_ok rng 1 num_words in
    let packed = pack_frame e count num_words ws size (omega (arith, bounds)) fits in
    let (out, run, idle, sends) =
      chunks_of_words rng e count (1 + num_words) ws fits (omega (arith, bounds, size))
        (omega (arith, bounds, size)) in
    (out, rw drawn (rw packed (rw run (ap ok idle))), sends)

-- The chunks that `create_data_chunks` returns join to a block that `validate_block` accepts.
validate_block-create_data_chunks :
    (rng : Rng) (e : Endian) (count : ℕ) (chunks : List Bytes)
    → create_data_chunks rng e count ≡ ok chunks
    → validate_block e (join chunks) ≡ ok true
validate_block-create_data_chunks rng e count chunks h =
    let (out, run, sends) = create_data_chunks-Sends rng e count in
    let same : out ≡ chunks = cc (run, h) in
    rw (← same) (rw sends.joined (validate_block-frame e sends.fits))
