-- ===== src/Relay/Frame.antt =====
-- OLD/threaded_ether_relay.py: `create_data_chunks` and `validate_block`. What `random.randint`
-- returns is a parameter; the printed diagnostics are left out.
pub mod Valid
pub mod Chunks
use public_trash.Base.{
  ℕ, zero, suc, ◌+◌, ◌-◌, ◌*◌, ◌/◌, ◌%◌, ◌^◌, ◌≤◌, Bool, true, false, not, ◌==◌, if◌then◌else◌, ltb,
  List, [], ◌∷◌, ◌++◌, length, take, drop, min, bit_and, bit_or, Result, ok, raise, value_error,
  stuck, ◌>>=◌,
}
use public_trash.Base.Words.{Bytes, Endian, unpack_word, pack_words}

abbrev pub start_marker : ℕ
start_marker = 0xBAADF00D

abbrev pub end_marker : ℕ
end_marker = 0xDEADBEEF

-- `struct.unpack(endian + "2I", bs)`.
unfoldable pub unpack_two : Endian → Bytes → Result (ℕ × ℕ)
unpack_two e bs = do a ← unpack_word e (take 4 bs); b ← unpack_word e (drop 4 bs); ok (a, b)

-- `(length_count >> 16) & 0xFFFF` and `length_count & 0xFFFF`.
abbrev pub length_field : ℕ → ℕ
length_field w = bit_and (w / 2 ^ 16) 0xFFFF

abbrev pub count_field : ℕ → ℕ
count_field w = bit_and w 0xFFFF

abbrev last_four : Bytes → Bytes
last_four data' = drop (length data' - 4) data'

-- The check of the end marker, the last of `validate_block`.
unfoldable pub check_end : Endian → Bytes → Result Bool
check_end e block = do
  last ← unpack_word e (last_four block)
  if not (last == end_marker) then ok false else ok true

unfoldable pub validate_block : Endian → Bytes → Result Bool
unfolding unpack_two check_end
validate_block e block =
    if ltb (length block) 12 then ok false else if not (length block % 4 == 0) then ok false else do
      (first, length_count) ← unpack_two e (take 8 block)
      let in_frame = check_end e block
      if not (first == start_marker)
          then ok false
          else if not (length_field length_count == length block)
          then ok false
          else in_frame

-- `random.randint(lo, hi)`: the number drawn by the `i`-th call lies in the range that it was given.
pub record Rng : Type 0 where
  pub randint : ℕ → ℕ → ℕ → ℕ
  pub randint_bounds : (i lo hi : ℕ) → lo ≤ hi → (lo ≤ randint i lo hi) × (randint i lo hi ≤ hi)

-- An empty range raises.
unfoldable pub draw : Rng → ℕ → ℕ → ℕ → Result ℕ
draw rng i lo hi = if ltb hi lo then raise value_error else ok (rng.randint i lo hi)

-- The generator expression that draws the payload, from call `i` on.
unfoldable pub draw_words : Rng → ℕ → ℕ → Result (List ℕ)
draw_words rng i zero = ok []
draw_words rng i (suc n) = do
  w ← draw rng i 0 0xFFFFFFFF
  ws ← draw_words rng (i + 1) n
  ok (w ∷ ws)

-- `(1500 - 12) // 4`.
abbrev pub max_words : ℕ
max_words = 372

-- `if not chunks`: the first chunk leaves 16 bytes at least.
abbrev max_size : List Bytes → ℕ → ℕ
max_size [] remaining = min 1024 (remaining - 16)
max_size (c ∷ cs) remaining = min 1024 remaining

-- The `while remaining > 0` loop over `chunks`, `offset` and `remaining`.
unfoldable pub split_loop : Rng → ℕ → ℕ → Bytes → List Bytes → ℕ → ℕ → Result (List Bytes)
split_loop rng fuel i block chunks offset zero = ok chunks
split_loop rng zero i block chunks offset (suc r) = raise stuck
split_loop rng (suc fuel) i block chunks offset (suc r) = do
  size ← draw rng i (min 16 (suc r)) (max_size chunks (suc r))
  split_loop rng fuel (i + 1) block (chunks ++ take size (drop offset block) ∷ []) (offset + size)
      (suc r - size)

-- `if len(chunks) == 1: ...`.
abbrev ensure_two : List Bytes → List Bytes
ensure_two (c ∷ []) = take (length c / 2) c ∷ drop (length c / 2) c ∷ []
ensure_two cs = cs

-- `(total_length << 16) | (count & 0xFFFF)`.
abbrev pub header_word : ℕ → ℕ → ℕ
header_word total_length count = bit_or (total_length * 2 ^ 16) (bit_and count 0xFFFF)

unfoldable pub create_data_chunks : Rng → Endian → ℕ → Result (List Bytes)
unfolding draw draw_words split_loop
create_data_chunks rng e count = do
  num_words ← draw rng 0 (max_words / 2) max_words
  payload ← draw_words rng 1 num_words
  block ←
      pack_words e
        (start_marker ∷ header_word ((num_words + 3) * 4) count ∷ (payload ++ end_marker ∷ []))
  chunks ← split_loop rng (length block) (1 + num_words) block [] 0 (length block)
  ok (ensure_two chunks)
