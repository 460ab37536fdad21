-- ===== src/Relay/Frame/Valid.antt =====
-- `validate_block` accepts the frames, and nothing else.
use public_trash.Base.{
  ℕ, zero, suc, ◌+◌, ◌-◌, ◌*◌, ◌/◌, ◌%◌, ◌≤◌, ◌<◌, ◌≡◌, refl, sym, ap, ap₂, ◌∙◌, ◌↔◌, Bool, true,
  ◌&&◌, ◌==◌, List, [], ◌∷◌, ◌++◌, length, take, drop, All, length-append, drop-append,
  append_assoc, append-nil, ok, arith,
}
use public_trash.Base.Bits.{bit_and-ones}
use public_trash.Base.Words.{
  Bytes, IsByte, IsU32, Endian, big, little, word_bytes, words_bytes, unpack_word,
  length-word_bytes, length-words_bytes, unpack_word-word_bytes,
}
use public_trash.Relay.Frame.{start_marker, end_marker, unpack_two, length_field, validate_block}

-- The frame with sequence number `count` around the words of a payload.
abbrev pub frame : Endian → ℕ → List ℕ → Bytes
frame e count payload =
    words_bytes e
      (start_marker ∷ ((length payload + 3) * 4 * 65536 + count) ∷ (payload ++ end_marker ∷ []))

-- The fields fit: 16 bits for the count, and 16 for the length in bytes.
pub record Fits (count : ℕ) (payload : List ℕ) : Type 0 where
  pub count_fits : count < 65536
  pub length_fits : length payload ≤ 16380
  pub words_fit : All IsU32 payload

validate_block_parts :
    (e : Endian) (block : Bytes) (a b z : ℕ)
    → 12 ≤ length block
    → length block % 4 ≡ 0
    → unpack_two e (take 8 block) ≡ ok (a, b)
    → unpack_word e (drop (length block - 4) block) ≡ ok z
    → validate_block e block
      ≡ ok ((a == start_marker) && ((length_field b == length block) && (z == end_marker)))
unfolding validate_block
validate_block_parts e block a b z long whole head tail = ground arith

unpack_two-words :
    (e : Endian) (a b : ℕ) (rest : Bytes)
    → IsU32 a
    → IsU32 b
    → unpack_two e (take 8 (word_bytes e a ++ (word_bytes e b ++ rest))) ≡ ok (a, b)
unfolding unpack_two
unpack_two-words big a b rest ha hb =
    rw (unpack_word-word_bytes big a ha, unpack_word-word_bytes big b hb)
unpack_two-words little a b rest ha hb =
    rw (unpack_word-word_bytes little a ha, unpack_word-word_bytes little b hb)

pub words_bytes-append :
    (e : Endian) (xs ys : List ℕ) → words_bytes e (xs ++ ys) ≡ words_bytes e xs ++ words_bytes e ys
words_bytes-append e [] ys = refl
words_bytes-append e (x ∷ xs) ys =
    rw (words_bytes-append e xs ys) (sym (append_assoc (word_bytes e x) _ _))

last_word :
    (e : Endian) (ws : List ℕ) (z : ℕ)
    → drop (length (words_bytes e (ws ++ z ∷ [])) - 4) (words_bytes e (ws ++ z ∷ []))
      ≡ word_bytes e z ++ []
last_word e ws z = rw (words_bytes-append e ws (z ∷ [])) (
    drop-append (words_bytes e ws) (word_bytes e z ++ []) _ (
      omega (
        arith,
        length-append (words_bytes e ws) (word_bytes e z ++ []),
        length-append (word_bytes e z) [],
        length-word_bytes e z,
      )))

-- On any block of at least three words the result is the three tests.
pub validate_block-words :
    (e : Endian) (a b z : ℕ) (ws : List ℕ)
    → IsU32 a
    → IsU32 b
    → IsU32 z
    → validate_block e (words_bytes e (a ∷ b ∷ (ws ++ z ∷ [])))
      ≡ ok ((a == start_marker) && ((length_field b == (length ws + 3) * 4) && (z == end_marker)))
validate_block-words e a b z ws ha hb hz =
    let block = words_bytes e (a ∷ b ∷ (ws ++ z ∷ [])) in
    let size : length block ≡ (length ws + 3) * 4 =
      omega (arith, length-words_bytes e (a ∷ b ∷ (ws ++ z ∷ [])), length-append ws (z ∷ [])) in
    let tests : ℕ → Bool =
      λ n. (a == start_marker) && ((length_field b == n) && (z == end_marker)) in
    validate_block_parts e block a b z (omega arith) (omega arith) (unpack_two-words e a b _ ha hb)
      (ap (unpack_word e) (last_word e (a ∷ b ∷ ws) z)
        ∙ rw append-nil (unpack_word-word_bytes e z hz))
    ∙ ap (λ n. ok (tests n)) size

pub length_field-header :
    (n count : ℕ) → count < 65536 → n < 65536 → length_field (n * 65536 + count) ≡ n
length_field-header n count h k = bit_and-ones 16 ((n * 65536 + count) / 65536) ∙ omega arith

pub length-frame :
    (e : Endian) (count : ℕ) (payload : List ℕ)
    → length (frame e count payload) ≡ (length payload + 3) * 4
length-frame e count payload = omega (
  arith,
  length-words_bytes e
      (start_marker ∷ ((length payload + 3) * 4 * 65536 + count) ∷ (payload ++ end_marker ∷ [])),
  length-append payload (end_marker ∷ []),
)

pub validate_block-frame :
    (e : Endian) {count : ℕ} {payload : List ℕ}
    → Fits count payload
    → validate_block e (frame e count payload) ≡ ok true
validate_block-frame e {count} {payload} f =
    let size = (length payload + 3) * 4 in
    validate_block-words e start_marker (size * 65536 + count) end_marker payload (omega arith)
      (omega (arith, f.count_fits, f.length_fits)) (omega arith)
    ∙ rw (length_field-header size count f.count_fits (omega (arith, f.length_fits))) (ground arith)

-- Four bytes are the encoding of the word that they decode to.
word_of_bytes :
    (e : Endian) (a b c d : ℕ)
    → IsByte a
    → IsByte b
    → IsByte c
    → IsByte d
    → (w : ℕ) × IsU32 w × (a ∷ b ∷ c ∷ d ∷ [] ≡ word_bytes e w)
word_of_bytes big a b c d ha hb hc hd =
    (((a * 256 + b) * 256 + c) * 256 + d, omega arith, ground arith)
word_of_bytes little a b c d ha hb hc hd =
    (((d * 256 + c) * 256 + b) * 256 + a, omega arith, ground arith)

-- So a string of bytes whose length is a multiple of four is the encoding of its words.
words_of_bytes :
    (e : Endian) (n : ℕ) (bs : Bytes)
    → length bs ≡ 4 * n
    → All IsByte bs
    → (ws : List ℕ) × (length ws ≡ n) × All IsU32 ws × (bs ≡ words_bytes e ws)
words_of_bytes e zero [] h all = ([], refl, tt, refl)
words_of_bytes e (suc n) (a ∷ b ∷ c ∷ d ∷ bs) h (ha, (hb, (hc, (hd, all)))) =
    let (w, fits, same) = word_of_bytes e a b c d ha hb hc hd in
    let (ws, size, allw, eq) = words_of_bytes e n bs (omega arith) all in
    (w ∷ ws, ap suc size, (fits, allw), ap₂ ◌++◌ same eq)
words_of_bytes e zero (a ∷ bs) h all = absurd (omega arith)
words_of_bytes e (suc n) [] h all = absurd (omega arith)
words_of_bytes e (suc n) (a ∷ []) h all = absurd (omega arith)
words_of_bytes e (suc n) (a ∷ b ∷ []) h all = absurd (omega arith)
words_of_bytes e (suc n) (a ∷ b ∷ c ∷ []) h all = absurd (omega arith)

pub validate_block-long :
    (e : Endian) (block : Bytes)
    → validate_block e block ≡ ok true
    → (12 ≤ length block) × (length block % 4 ≡ 0)
unfolding validate_block
validate_block-long e block h = ground arith

-- A list of three elements at least is its first two, its middle and its last.
middle :
    (n : ℕ) (ws : List ℕ)
    → All IsU32 ws
    → length ws ≡ n + 1
    → (mid : List ℕ) × (z : ℕ) × (ws ≡ mid ++ z ∷ []) × All IsU32 mid × IsU32 z × (length mid ≡ n)
middle zero (z ∷ []) h e = ([], z, refl, tt, h.0, refl)
middle zero (x ∷ y ∷ ws) h e = absurd (omega arith)
middle n [] h e = absurd (omega arith)
middle (suc n) (x ∷ ws) h e =
    let (mid, z, eq, hm, hz, size) = middle n ws h.1 (omega arith) in
    (x ∷ mid, z, ap (◌∷◌ x) eq, (h.0, hm), hz, ap suc size)

accepted_tests :
    (a b z n : ℕ)
    → IsU32 b
    → ok ((a == start_marker) && ((length_field b == n) && (z == end_marker))) ≡ ok true
    → (a ≡ start_marker) × (b ≡ n * 65536 + b % 65536) × (z ≡ end_marker) × (n < 65536)
accepted_tests a b z n hb h = ground (arith, bit_and-ones 16 (b / 65536))

abbrev Framed : Endian → Bytes → Type 0
Framed e block =
    (count : ℕ) × (payload : List ℕ) × Fits count payload × (block ≡ frame e count payload)

frame_of_words :
    (e : Endian) (a b z : ℕ) (mid : List ℕ)
    → All IsU32 mid
    → IsU32 b
    → (a ≡ start_marker)
      × (b ≡ (length mid + 3) * 4 * 65536 + b % 65536)
      × (z ≡ end_marker)
      × ((length mid + 3) * 4 < 65536)
    → Framed e (words_bytes e (a ∷ b ∷ (mid ++ z ∷ [])))
frame_of_words e a b z mid hm hb t = (
  b % 65536,
  mid,
  record { count_fits = omega arith; length_fits = omega arith; words_fit = hm },
  ap (λ w. words_bytes e (w ∷ b ∷ (mid ++ z ∷ []))) t.0
      ∙ ap (λ w. words_bytes e (start_marker ∷ w ∷ (mid ++ z ∷ []))) t.1
      ∙ ap
          (λ w.
            words_bytes e
              (start_marker ∷ ((length mid + 3) * 4 * 65536 + b % 65536) ∷ (mid ++ w ∷ [])))
          t.2,
)

frame_of_accepted :
    (e : Endian) (n : ℕ) (ws : List ℕ)
    → length ws ≡ n + 3
    → All IsU32 ws
    → validate_block e (words_bytes e ws) ≡ ok true
    → Framed e (words_bytes e ws)
frame_of_accepted e n [] size all h = absurd (omega arith)
frame_of_accepted e n (a ∷ []) size all h = absurd (omega arith)
frame_of_accepted e n (a ∷ b ∷ ws) size (ha, (hb, all)) h =
    let (mid, z, eq, hm, hz, _) = middle n ws all (omega arith) in
    let block_eq = ap (λ vs. words_bytes e (a ∷ b ∷ vs)) eq in
    let tests = sym (validate_block-words e a b z mid ha hb hz) ∙ rw block_eq at h in
    rw block_eq (frame_of_words e a b z mid hm hb (accepted_tests a b z _ hb tests))

-- `validate_block` returns `True` on a string of bytes exactly when that is a whole frame: start
-- marker, header word with the length in bytes and a count, payload words, end marker.
pub validate_block_iff :
    (e : Endian) (block : Bytes)
    → All IsByte block
    → (validate_block e block ≡ ok true)
      ↔ ((count : ℕ) × (payload : List ℕ) × Fits count payload × (block ≡ frame e count payload))
validate_block_iff e block all = (
  λ h.
      let (long, whole) = validate_block-long e block h in
      let (ws, size, allw, eq) = words_of_bytes e (length block / 4) block (omega arith) all in
      rw eq (frame_of_accepted e (length block / 4 - 3) ws (omega arith) allw (rw eq at h)),
  λ f. rw f.3 (validate_block-frame e f.2),
)
