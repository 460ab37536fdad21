-- ===== src/Certificates/Box/Widths.antt =====
-- The lines of a box are equally long and hold the words of the text.
use public_trash.Base.{
  ℕ, ◌+◌, ◌-◌, ◌≤◌, ◌≡◌, sym, subst, List, [], ◌∷◌, ◌++◌, length, length-append, length-replicate,
  replicate, max, All, All-append, All-replicate, ◌≢◌, arith,
}
use public_trash.Base.Texts.{Text, split, split-join_with, join_with-parts, join_with-All}
use public_trash.Certificates.Box.{
  spaced, wrapped, longest, box_width, ljust, border, box_rows, box_lines, draw_box,
}
use public_trash.Certificates.Box.Wraps.{Fitting, wrapped-Wraps}

length-ljust : (width : ℕ) (s : Text) → length s ≤ width → length (ljust width s) ≡ width
length-ljust width s fit = omega (
  arith,
  length-append s (replicate (width - length s) b' '),
  length-replicate {A = ℕ} (width - length s) b' ',
)

length-border : (width : ℕ) → length (border width) ≡ width + 4
length-border width = omega (
  arith,
  length-append {A = ℕ} (replicate (width + 2) b'-') (b'+' ∷ []),
  length-replicate {A = ℕ} (width + 2) b'-',
)

box_rows_even :
    (width : ℕ) (ss : List Text)
    → All (λ s. length s ≤ width) ss
    → All (λ row. length row ≡ width + 4) (box_rows width ss)
box_rows_even width [] h = tt
box_rows_even width (s ∷ ss) h = (
  omega (arith, length-append (ljust width s) (b' ' ∷ b'|' ∷ []), length-ljust width s h.0),
  box_rows_even width ss h.1,
)

box_lines_even :
    (width : ℕ) (ss : List Text)
    → All (λ s. length s ≤ width) ss
    → All (λ row. length row ≡ width + 4) (box_lines width ss)
box_lines_even width ss h = (
  length-border width,
  All-append (λ row. length row ≡ width + 4) (box_rows width ss) (border width ∷ [])
      (box_rows_even width ss h) (length-border width, tt),
)

below_longest : (ss : List Text) → All (λ s. length s ≤ longest ss) ss
below_longest [] = tt
below_longest (s ∷ ss) = (omega arith, weaken ss (below_longest ss))
  where
    weaken :
        (ts : List Text)
        → All (λ t. length t ≤ longest ss) ts
        → All (λ t. length t ≤ max (length s) (longest ss)) ts
    weaken [] h = tt
    weaken (t ∷ ts) h = (omega (arith, h.0), weaken ts h.1)

longest_le :
    (max_width : ℕ) (ss : List Text) → All (λ s. length s ≤ max_width) ss → longest ss ≤ max_width
longest_le max_width [] h = omega arith
longest_le max_width (s ∷ ss) h = omega (arith, h.0, longest_le max_width ss h.1)

unfoldable pub OneLine : Text → Type 0
OneLine = All (λ c. c ≢ b'\n')

box_rows-OneLine : (width : ℕ) (ss : List Text) → All OneLine ss → All OneLine (box_rows width ss)
unfolding OneLine
box_rows-OneLine width [] h = tt
box_rows-OneLine width (s ∷ ss) h = (
  (
    omega arith,
    (
      omega arith,
      All-append (λ c. c ≢ b'\n') (ljust width s) (b' ' ∷ b'|' ∷ [])
          (All-append (λ c. c ≢ b'\n') s (replicate (width - length s) b' ') h.0
            (All-replicate (λ c. c ≢ b'\n') (width - length s) b' ' (omega arith)))
          (omega arith, (omega arith, tt)),
    ),
  ),
  box_rows-OneLine width ss h.1,
)

border-OneLine : (width : ℕ) → OneLine (border width)
unfolding OneLine
border-OneLine width = (
  omega arith,
  All-append (λ c. c ≢ b'\n') (replicate (width + 2) b'-') (b'+' ∷ [])
      (All-replicate (λ c. c ≢ b'\n') (width + 2) b'-' (omega arith)) (omega arith, tt),
)

-- The printed box consists of these lines, when the text has no line break.
split-draw_box :
    (max_width : ℕ) (lines : List Text)
    → All OneLine (wrapped max_width lines)
    → split b'\n' (draw_box lines max_width)
      ≡ box_lines (box_width max_width (wrapped max_width lines)) (wrapped max_width lines)
unfolding draw_box
split-draw_box max_width lines h =
    let ss = wrapped max_width lines in
    let width = box_width max_width ss in
    split-join_with b'\n' (border width) (box_rows width ss ++ border width ∷ []) (
      unfold OneLine in
      (
        border-OneLine width,
        All-append (All (λ c. c ≢ b'\n')) (box_rows width ss) (border width ∷ [])
            (box_rows-OneLine width ss h) (border-OneLine width, tt),
      ))

-- What is promised of a box with some lines of text.
pub record IsEven (max_width : ℕ) (lines : List Text) : Type 0 where
  width : ℕ
  narrow : width ≤ max_width
  rows : All (λ row. length row ≡ width + 4) (split b'\n' (draw_box lines max_width))
  text : spaced (wrapped max_width lines) ≡ spaced lines

-- Of lines of text, at least one, where no word is longer than the maximum and there is no line
-- break, `draw_box` makes lines that are all four characters longer than a width of at most the
-- maximum, and the wrapped lines, joined by spaces, are the given ones, joined by spaces.
pub draw_box-IsEven :
    (max_width : ℕ) (line : Text) (lines : List Text)
    → All (Fitting max_width) (line ∷ lines)
    → All OneLine (line ∷ lines)
    → IsEven max_width (line ∷ lines)
draw_box-IsEven max_width line lines h no_break =
    let w = wrapped-Wraps max_width line lines h in
    let ss = wrapped max_width (line ∷ lines) in
    let exact : box_width max_width ss ≡ longest ss =
      omega (arith, longest_le max_width ss w.fits) in
    let joined : OneLine (spaced (line ∷ lines)) =
      unfold OneLine in
      join_with-All (λ c. c ≢ b'\n') (b' ' ∷ []) (line ∷ lines) (omega arith, tt) no_break in
    let still : All OneLine ss =
      unfold OneLine in
      join_with-parts (λ c. c ≢ b'\n') (b' ' ∷ []) ss
        (subst (All (λ c. c ≢ b'\n')) (sym w.text) joined) in
    record {
      width = box_width max_width ss;
      narrow = omega arith;
      rows =
          subst (All (λ row. length row ≡ box_width max_width ss + 4))
            (sym (split-draw_box max_width (line ∷ lines) still))
            (box_lines_even (box_width max_width ss) ss
              (subst (λ n. All (λ s. length s ≤ n) ss) (sym exact) (below_longest ss)));
      text = w.text;
    }
