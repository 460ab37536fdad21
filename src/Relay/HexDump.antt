-- ===== src/Relay/HexDump.antt =====
-- OLD/threaded_ether_relay.py: `format_byte`, `format_word`, `format_line`, `print_hex_words` and
-- `reset_offsets`. A text is the list of its code points. The time stamp, mode prefix and colour
-- in front of a printed line are left out.
pub mod Layout
use public_trash.Base.{
  ℕ, zero, suc, ◌+◌, ◌-◌, ◌*◌, ◌/◌, ◌%◌, Bool, true, false, if◌then◌else◌, ltb, List, [], ◌∷◌, ◌++◌,
  length,
}
use public_trash.Base.Words.{Bytes}

abbrev pub Text : Type 0
Text = List ℕ

-- `"{:02X}".format(b)` of a byte.
abbrev pub hex_digit : ℕ → ℕ
hex_digit n = if ltb n 10 then b'0' + n else b'A' + n - 10

abbrev pub hex_byte : ℕ → Text
hex_byte b = hex_digit (b / 16) ∷ hex_digit (b % 16) ∷ []

abbrev pub dots : Text
dots = b'.' ∷ b'.' ∷ []

-- `data[i]`; the caller's guard keeps the index in range.
abbrev pub byte_at : Bytes → ℕ → ℕ
byte_at [] i = 0
byte_at (b ∷ bs) zero = b
byte_at (b ∷ bs) (suc i) = byte_at bs i

unfoldable pub format_byte : ℕ → Bytes → ℕ → Text
format_byte pos block offset =
    if ltb pos offset
    then dots
    else if ltb pos (offset + length block)
    then hex_byte (byte_at block (pos - offset))
    else dots

-- The comprehension over `range(word_pos, word_pos + 4)`, joined.
unfoldable pub format_word : ℕ → Bytes → ℕ → Text
format_word word_pos block offset =
    format_byte word_pos block offset
    ++ (format_byte (word_pos + 1) block offset
        ++ (format_byte (word_pos + 2) block offset ++ format_byte (word_pos + 3) block offset))

-- The words of `range(line_pos, line_pos + 16, 4)`, joined by a space, behind two spaces.
unfoldable pub format_line : ℕ → Bytes → ℕ → Text
format_line line_pos block offset =
    b' '
    ∷ b' '
    ∷ (format_word line_pos block offset
        ++ (b' '
            ∷ (format_word (line_pos + 4) block offset
                ++ (b' '
                    ∷ (format_word (line_pos + 8) block offset
                        ++ (b' ' ∷ format_word (line_pos + 12) block offset))))))

-- `for line_pos in range(start, end, 16)`, on the number of rounds left.
unfoldable pub lines_from : ℕ → ℕ → Bytes → ℕ → List Text
lines_from zero line_pos block offset = []
lines_from (suc n) line_pos block offset =
    format_line line_pos block offset ∷ lines_from n (line_pos + 16) block offset

pub record Offsets : Type 0 where
  pub tx_offset : ℕ
  pub rx_offset : ℕ

abbrev pub current_offset : Offsets → Bool → ℕ
current_offset o is_tx = if is_tx then o.tx_offset else o.rx_offset

-- The lines that are printed, and the new offsets.
unfoldable pub print_hex_words : Offsets → Bytes → Bool → List Text × Offsets
unfolding lines_from
print_hex_words o block is_tx =
    let offset = current_offset o is_tx in
    let start_line = offset / 16 * 16 in
    let end_line = (offset + length block + 15) / 16 * 16 in
    (
      lines_from ((end_line - start_line + 15) / 16) start_line block offset,
      if is_tx
          then record o { tx_offset = o.tx_offset + length block }
          else record o { rx_offset = o.rx_offset + length block },
    )

unfoldable pub reset_offsets : Offsets → Offsets
reset_offsets o = record { tx_offset = 0; rx_offset = 0 }
