-- ===== src/Certificates/Box.antt =====
-- OLD/check_certs.py: `draw_box`, the box round the lines of a report.
pub mod Wraps
pub mod Widths
use public_trash.Base.{
  ℕ, zero, suc, ◌+◌, ◌-◌, Bool, true, false, if◌then◌else◌, leb, ltb, List, [], ◌∷◌, ◌++◌, length,
  replicate, min, max,
}
use public_trash.Base.Texts.{Text, split, join_with}

-- `" ".join(parts)`.
abbrev pub spaced : List Text → Text
spaced parts = join_with (b' ' ∷ []) parts

abbrev pub sum_lengths : List Text → ℕ
sum_lengths [] = 0
sum_lengths (w ∷ ws) = length w + sum_lengths ws

abbrev pub last_line : List Text → List Text
last_line [] = []
last_line (w ∷ ws) = spaced (w ∷ ws) ∷ []

-- The loop over the words of a line, with `current`, and what is appended behind it.
unfoldable pub wrap_words : ℕ → List Text → List Text → List Text
wrap_words max_width current [] = last_line current
wrap_words max_width current (word ∷ words) =
    let broken = spaced current ∷ wrap_words max_width (word ∷ []) words in
    let longer = wrap_words max_width (current ++ word ∷ []) words in
    if ltb max_width (sum_lengths current + length current + length word) then broken else longer

unfoldable pub wrap_line : ℕ → Text → List Text
unfolding wrap_words
wrap_line max_width line =
    if leb (length line) max_width then line ∷ [] else wrap_words max_width [] (split b' ' line)

unfoldable pub wrapped : ℕ → List Text → List Text
unfolding wrap_line
wrapped max_width [] = []
wrapped max_width (line ∷ lines) = wrap_line max_width line ++ wrapped max_width lines

abbrev pub longest : List Text → ℕ
longest [] = 0
longest (s ∷ ss) = max (length s) (longest ss)

abbrev pub box_width : ℕ → List Text → ℕ
box_width max_width lines = min (longest lines) max_width

-- `s.ljust(width)`.
abbrev pub ljust : ℕ → Text → Text
ljust width s = s ++ replicate (width - length s) b' '

abbrev pub border : ℕ → Text
border width = b'+' ∷ (replicate (width + 2) b'-' ++ b'+' ∷ [])

abbrev pub box_rows : ℕ → List Text → List Text
box_rows width [] = []
box_rows width (s ∷ ss) = (b'|' ∷ b' ' ∷ (ljust width s ++ b' ' ∷ b'|' ∷ [])) ∷ box_rows width ss

-- The lines of the box: without a row the two borders follow one another.
abbrev pub box_lines : ℕ → List Text → List Text
box_lines width ss = border width ∷ (box_rows width ss ++ border width ∷ [])

unfoldable pub draw_box : List Text → ℕ → Text
unfolding wrapped
draw_box lines max_width =
    let ss = wrapped max_width lines in
    join_with (b'\n' ∷ []) (box_lines (box_width max_width ss) ss)
