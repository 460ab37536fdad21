-- ===== src/Relay/HexDump/Layout.antt =====
-- The hex dump shows each byte once, in order, at its place in the stream.
use public_trash.Base.{
  ℕ, zero, suc, ◌+◌, ◌-◌, ◌*◌, ◌/◌, ◌%◌, ◌≤◌, ◌≡◌, refl, sym, ap, ap₂, ◌∙◌, Bool, ltb-false, lt→ltb,
  not, List, [], ◌∷◌, ◌++◌, append_assoc, length-append, map, length, replicate, arith,
}
use public_trash.Base.Words.{Bytes}
use public_trash.Relay.HexDump.{
  Text, hex_byte, dots, byte_at, format_byte, format_word, format_line, lines_from, Offsets,
  current_offset, print_hex_words,
}

-- A line of sixteen cells: two spaces, then four words of four cells with a space between words.
abbrev pub words_of_cells : List Text → List Text
words_of_cells (a ∷ b ∷ c ∷ d ∷ cells) = (a ++ (b ++ (c ++ d))) ∷ words_of_cells cells
words_of_cells _ = []

abbrev pub lines_of_words : List Text → List Text
lines_of_words (a ∷ b ∷ c ∷ d ∷ words) =
    (b' ' ∷ b' ' ∷ (a ++ (b' ' ∷ (b ++ (b' ' ∷ (c ++ (b' ' ∷ d))))))) ∷ lines_of_words words
lines_of_words _ = []

-- The cells of `n` positions from `pos` on.
cells_from : ℕ → ℕ → Bytes → ℕ → List Text
cells_from zero pos block offset = []
cells_from (suc n) pos block offset =
    format_byte pos block offset ∷ cells_from n (pos + 1) block offset

-- Four times a number, as a number that computes.
abbrev quad : ℕ → ℕ
quad zero = 0
quad (suc n) = suc (suc (suc (suc (quad n))))

quad-mul : (n : ℕ) → quad n ≡ 4 * n
quad-mul zero = refl
quad-mul (suc n) = omega (arith, quad-mul n)

words_from : ℕ → ℕ → Bytes → ℕ → List Text
words_from zero pos block offset = []
words_from (suc n) pos block offset =
    format_word pos block offset ∷ words_from n (pos + 4) block offset

words_from-cells :
    (n pos : ℕ) (block : Bytes) (offset : ℕ)
    → words_from n pos block offset ≡ words_of_cells (cells_from (quad n) pos block offset)
unfolding words_from cells_from format_word
words_from-cells zero pos block offset = refl
words_from-cells (suc n) pos block offset =
    let p2 : pos + 1 + 1 ≡ pos + 2 = omega arith in
    let p3 : pos + 2 + 1 ≡ pos + 3 = omega arith in
    let p4 : pos + 3 + 1 ≡ pos + 4 = omega arith in
    rw (p2, p3, p4)
      (ap (◌∷◌ (format_word pos block offset)) (words_from-cells n (pos + 4) block offset))

lines_from-words :
    (n pos : ℕ) (block : Bytes) (offset : ℕ)
    → lines_from n pos block offset ≡ lines_of_words (words_from (quad n) pos block offset)
unfolding lines_from words_from format_line
lines_from-words zero pos block offset = refl
lines_from-words (suc n) pos block offset =
    let p2 : pos + 4 + 4 ≡ pos + 8 = omega arith in
    let p3 : pos + 8 + 4 ≡ pos + 12 = omega arith in
    let p4 : pos + 12 + 4 ≡ pos + 16 = omega arith in
    rw (p2, p3, p4)
      (ap (◌∷◌ (format_line pos block offset)) (lines_from-words n (pos + 16) block offset))

lines_from-cells :
    (n pos : ℕ) (block : Bytes) (offset : ℕ)
    → lines_from n pos block offset
      ≡ lines_of_words (words_of_cells (cells_from (16 * n) pos block offset))
lines_from-cells n pos block offset =
    let count : quad (quad n) ≡ 16 * n = omega (arith, quad-mul (quad n), quad-mul n) in
    lines_from-words n pos block offset ∙ rw (words_from-cells (quad n) pos block offset, count)

-- Positions before the data show dots, then come the bytes, then dots again.
cells_after :
    (n pos : ℕ) (block : Bytes) (offset : ℕ)
    → offset + length block ≤ pos
    → cells_from n pos block offset ≡ replicate n dots
unfolding cells_from format_byte
cells_after zero pos block offset h = refl
cells_after (suc n) pos block offset h =
    rw (ltb-false pos offset (omega arith), ltb-false pos (offset + length block) h)
      (ap (◌∷◌ dots) (cells_after n (pos + 1) block offset (omega arith)))

-- Cells of two stretches.
cells_from-append :
    (k n pos : ℕ) (block : Bytes) (offset : ℕ)
    → cells_from (k + n) pos block offset
      ≡ cells_from k pos block offset ++ cells_from n (pos + k) block offset
unfolding cells_from
cells_from-append zero n pos block offset =
    ap₂ (λ m p. cells_from m p block offset) (omega arith) (omega arith)
cells_from-append (suc k) n pos block offset =
    let count : suc k + n ≡ suc (k + n) = omega arith in
    let shift : pos + 1 + k ≡ pos + suc k = omega arith in
    rw count (
      ap (◌∷◌ (format_byte pos block offset))
        (cells_from-append k n (pos + 1) block offset ∙ rw shift))

cells_before :
    (k pos : ℕ) (block : Bytes) (offset : ℕ)
    → pos + k ≤ offset
    → cells_from k pos block offset ≡ replicate k dots
unfolding cells_from format_byte
cells_before zero pos block offset h = refl
cells_before (suc k) pos block offset h =
    rw (lt→ltb pos offset (omega arith))
      (ap (◌∷◌ dots) (cells_before k (pos + 1) block offset (omega arith)))

byte_at-drop :
    (pre : Bytes) (b : ℕ) (rest : Bytes) (i : ℕ) → i ≡ length pre → byte_at (pre ++ b ∷ rest) i ≡ b
byte_at-drop [] b rest zero h = refl
byte_at-drop [] b rest (suc i) h = absurd (omega arith)
byte_at-drop (x ∷ pre) b rest zero h = absurd (omega arith)
byte_at-drop (x ∷ pre) b rest (suc i) h = byte_at-drop pre b rest i (omega arith)

-- The cells over the data that follows `pre` in the block.
cells_within :
    (pre rest : Bytes) (pos offset : ℕ)
    → pos ≡ offset + length pre
    → cells_from (length rest) pos (pre ++ rest) offset ≡ map hex_byte rest
unfolding cells_from format_byte
cells_within pre [] pos offset h = refl
cells_within pre (b ∷ rest) pos offset h =
    let total = length-append pre (b ∷ rest) in
    rw
      (
        ltb-false pos offset (omega arith),
        lt→ltb pos (offset + length (pre ++ b ∷ rest)) (omega (arith, total)),
        byte_at-drop pre b rest (pos - offset) (omega arith),
      )
      (ap (◌∷◌ (hex_byte b)) (
        rw (sym (append_assoc pre (b ∷ []) rest)) (
          cells_within (pre ++ b ∷ []) rest (pos + 1) offset
            (omega (arith, length-append pre (b ∷ []))))))

-- How much of the first line lies before the data, and of the last line behind it.
abbrev pub lead : ℕ → ℕ
lead offset = offset % 16

abbrev pub trail : ℕ → ℕ
trail n = (16 - n % 16) % 16

cells_layout :
    (block : Bytes) (offset k m pos : ℕ)
    → pos + k ≡ offset
    → cells_from (k + (length block + m)) pos block offset
      ≡ replicate k dots ++ (map hex_byte block ++ replicate m dots)
cells_layout block offset k m pos h =
    cells_from-append k (length block + m) pos block offset
    ∙ ap₂ ◌++◌ (cells_before k pos block offset (omega arith)) (
        cells_from-append (length block) m (pos + k) block offset
        ∙ ap₂ ◌++◌ (cells_within [] block (pos + k) offset (omega arith))
            (cells_after m (pos + k + length block) block offset (omega arith)))

lines_layout :
    (block : Bytes) (offset : ℕ)
    → let start_line = offset / 16 * 16 in
      lines_from
        (((offset + length block + 15) / 16 * 16 - start_line + 15) / 16)
        start_line
        block
        offset
      ≡ lines_of_words (
          words_of_cells (
            replicate (lead offset) dots
            ++ (map hex_byte block ++ replicate (trail (offset + length block)) dots)))
lines_layout block offset =
    let start_line = offset / 16 * 16 in
    let rounds = ((offset + length block + 15) / 16 * 16 - start_line + 15) / 16 in
    let m = trail (offset + length block) in
    let count : 16 * rounds ≡ lead offset + (length block + m) = omega arith in
    lines_from-cells rounds start_line block offset
    ∙ ap (λ cells. lines_of_words (words_of_cells cells))
        (ap (λ n. cells_from n start_line block offset) count
          ∙ cells_layout block offset (lead offset) m start_line (omega arith))

-- The lines that `print_hex_words` prints are the bytes of the chunk in order, two hex digits
-- each, with dots to the line borders before and behind; the offset of this direction grows by
-- the length of the chunk and the other stays.
pub print_hex_words-layout :
    (o : Offsets) (block : Bytes) (is_tx : Bool)
    → ((print_hex_words o block is_tx).0
        ≡ lines_of_words (
            words_of_cells (
              replicate (lead (current_offset o is_tx)) dots
              ++ (map hex_byte block
                  ++ replicate (trail (current_offset o is_tx + length block)) dots))))
      × (current_offset (print_hex_words o block is_tx).1 is_tx
          ≡ current_offset o is_tx + length block)
      × (current_offset (print_hex_words o block is_tx).1 (not is_tx)
          ≡ current_offset o (not is_tx))
unfolding print_hex_words
print_hex_words-layout o block is_tx =
    (lines_layout block (current_offset o is_tx), ground arith, ground arith)
