-- ===== src/FileCompare/LineEnds.antt =====
-- `normalize_file_content` forgets how the lines of a text end.
use public_trash.Base.{
  ◌≡◌, ◌≢◌, refl, sym, ap, ◌∙◌, false, ◌==◌, List, [], ◌∷◌, ◌++◌, All, append-nil, arith,
}
use public_trash.Base.Texts.{Text, join_with}
use public_trash.FileCompare.{normalize}

-- A line holds neither of the two characters.
abbrev pub IsLine : Text → Type 0
IsLine = All (λ c. (c ≢ b'\r') × (c ≢ b'\n'))

-- In front of a text, a line is kept.
normalize-line : (p s : Text) → IsLine p → normalize (p ++ s) ≡ p ++ normalize s
unfolding normalize
normalize-line [] s h = refl
normalize-line (c ∷ []) [] h =
    let other : (c == b'\r') ≡ false = ground (arith, h.0.0) in rw other refl
normalize-line (c ∷ []) (d ∷ s) h =
    let other : (c == b'\r') ≡ false = ground (arith, h.0.0) in rw (other, other) refl
normalize-line (c ∷ d ∷ p) s h =
    let other : (c == b'\r') ≡ false = ground (arith, h.0.0) in
    rw (other, other) (ap (◌∷◌ c) (normalize-line (d ∷ p) s h.1))

normalize-crlf : (s : Text) → normalize (b'\r' ∷ b'\n' ∷ s) ≡ b'\n' ∷ normalize s
unfolding normalize
normalize-crlf s = refl

-- What a lone carriage return may stand in front of.
abbrev NoNewline : Text → Type 0
NoNewline [] = Unit {0}
NoNewline (c ∷ s) = c ≢ b'\n'

normalize-cr : (s : Text) → NoNewline s → normalize (b'\r' ∷ s) ≡ b'\n' ∷ normalize s
unfolding normalize
normalize-cr [] h = refl
normalize-cr (c ∷ s) h = let other : (c == b'\n') ≡ false = ground (arith, h) in rw other refl

join_cr-NoNewline :
    (lines : List Text) → All IsLine lines → NoNewline (join_with (b'\r' ∷ []) lines)
unfolding join_with
join_cr-NoNewline [] h = tt
join_cr-NoNewline ([] ∷ []) h = tt
join_cr-NoNewline ((c ∷ p) ∷ []) h = h.0.0.1
join_cr-NoNewline ([] ∷ q ∷ qs) h = omega arith
join_cr-NoNewline ((c ∷ p) ∷ q ∷ qs) h = h.0.0.1

last_line : (p : Text) → IsLine p → normalize p ≡ p
last_line p h =
    ap normalize (sym (append-nil p)) ∙ normalize-line p [] h ∙ unfold normalize in append-nil p

normalize-join_crlf :
    (lines : List Text)
    → All IsLine lines
    → normalize (join_with (b'\r' ∷ b'\n' ∷ []) lines) ≡ join_with (b'\n' ∷ []) lines
unfolding join_with
normalize-join_crlf [] h = unfold normalize in refl
normalize-join_crlf (p ∷ []) h = last_line p h.0
normalize-join_crlf (p ∷ q ∷ qs) h =
    normalize-line p (b'\r' ∷ b'\n' ∷ join_with (b'\r' ∷ b'\n' ∷ []) (q ∷ qs)) h.0
    ∙ ap (λ s. p ++ s)
        (normalize-crlf (join_with (b'\r' ∷ b'\n' ∷ []) (q ∷ qs))
          ∙ ap (◌∷◌ b'\n') (normalize-join_crlf (q ∷ qs) h.1))

normalize-join_cr :
    (lines : List Text)
    → All IsLine lines
    → normalize (join_with (b'\r' ∷ []) lines) ≡ join_with (b'\n' ∷ []) lines
unfolding join_with
normalize-join_cr [] h = unfold normalize in refl
normalize-join_cr (p ∷ []) h = last_line p h.0
normalize-join_cr (p ∷ q ∷ qs) h =
    normalize-line p (b'\r' ∷ join_with (b'\r' ∷ []) (q ∷ qs)) h.0
    ∙ ap (λ s. p ++ s)
        (normalize-cr (join_with (b'\r' ∷ []) (q ∷ qs)) (join_cr-NoNewline (q ∷ qs) h.1)
          ∙ ap (◌∷◌ b'\n') (normalize-join_cr (q ∷ qs) h.1))

normalize-newline : (s : Text) → normalize (b'\n' ∷ s) ≡ b'\n' ∷ normalize s
unfolding normalize
normalize-newline [] = refl
normalize-newline (c ∷ s) = refl

normalize-join_lf :
    (lines : List Text)
    → All IsLine lines
    → normalize (join_with (b'\n' ∷ []) lines) ≡ join_with (b'\n' ∷ []) lines
unfolding join_with
normalize-join_lf [] h = unfold normalize in refl
normalize-join_lf (p ∷ []) h = last_line p h.0
normalize-join_lf (p ∷ q ∷ qs) h =
    normalize-line p (b'\n' ∷ join_with (b'\n' ∷ []) (q ∷ qs)) h.0
    ∙ ap (λ s. p ++ s)
        (normalize-newline (join_with (b'\n' ∷ []) (q ∷ qs))
          ∙ ap (◌∷◌ b'\n') (normalize-join_lf (q ∷ qs) h.1))

-- Lines without line breaks are normalised to the same text when they are joined by the line end
-- of Windows, a lone carriage return, or a newline; that text is the one with newlines.
normalize-join :
    (lines : List Text)
    → All IsLine lines
    → (normalize (join_with (b'\r' ∷ b'\n' ∷ []) lines) ≡ join_with (b'\n' ∷ []) lines)
      × (normalize (join_with (b'\r' ∷ []) lines) ≡ join_with (b'\n' ∷ []) lines)
      × (normalize (join_with (b'\n' ∷ []) lines) ≡ join_with (b'\n' ∷ []) lines)
normalize-join lines h =
    (normalize-join_crlf lines h, normalize-join_cr lines h, normalize-join_lf lines h)
