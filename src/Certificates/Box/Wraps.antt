-- ===== src/Certificates/Box/Wraps.antt =====
-- The lines that `draw_box` wraps fit, and hold the words of the text.
use public_trash.Base.{
  ℕ, ◌+◌, ◌≤◌, ◌≡◌, refl, sym, ap, ap₂, ◌∙◌, Bool-cases, false, inl, inr, leb, ltb, List, [], ◌∷◌,
  ◌++◌, length, length-append, All, All-append, append_assoc, append-nil, arith,
}
use public_trash.Base.Texts.{Text, split, split_some, join_with, join_with-split}
use public_trash.Certificates.Box.{spaced, sum_lengths, wrap_words, wrap_line, wrapped}

length-spaced :
    (w : Text) (ws : List Text) → length (spaced (w ∷ ws)) ≡ sum_lengths (w ∷ ws) + length ws
unfolding join_with
length-spaced w [] = omega arith
length-spaced w (v ∷ vs) =
    omega (arith, length-append w (b' ' ∷ spaced (v ∷ vs)), length-spaced v vs)

spaced-append :
    (w : Text) (ws : List Text) (v : Text) (vs : List Text)
    → spaced ((w ∷ ws) ++ v ∷ vs) ≡ spaced (w ∷ ws) ++ b' ' ∷ spaced (v ∷ vs)
unfolding join_with
spaced-append w [] v vs = refl
spaced-append w (u ∷ us) v vs =
    ap (λ x. w ++ b' ' ∷ x) (spaced-append u us v vs)
    ∙ sym (append_assoc w (b' ' ∷ spaced (u ∷ us)) (b' ' ∷ spaced (v ∷ vs)))

-- What the loop appends, when each word fits: lines that fit, which are the words again.
pub record Wraps (max_width : ℕ) (words : List Text) (out : List Text) : Type 0 where
  pub fits : All (λ s. length s ≤ max_width) out
  pub text : spaced out ≡ spaced words
  pub some_line : 1 ≤ length out

wrap_words-Wraps :
    (max_width : ℕ) (w : Text) (ws words : List Text)
    → length (spaced (w ∷ ws)) ≤ max_width
    → All (λ s. length s ≤ max_width) words
    → Wraps max_width ((w ∷ ws) ++ words) (wrap_words max_width (w ∷ ws) words)
unfolding wrap_words join_with
wrap_words-Wraps max_width w ws [] fit h = record {
  fits = (fit, tt);
  text = ap spaced (sym (append-nil (w ∷ ws)));
  some_line = omega arith;
}
wrap_words-Wraps max_width w ws (word ∷ words) fit h =
    elim (Bool-cases (ltb max_width (sum_lengths (w ∷ ws) + length (w ∷ ws) + length word))) [
      | inl over ↦
          let rest = wrap_words-Wraps max_width word [] words (unfold join_with in h.0) h.1 in
          rw over record {
            fits = (fit, rest.fits);
            text =
                joined (spaced (w ∷ ws)) (wrap_words max_width (word ∷ []) words) rest.some_line
                ∙ ap (λ x. spaced (w ∷ ws) ++ b' ' ∷ x) rest.text
                ∙ sym (spaced-append w ws word words);
            some_line = omega arith;
          }
      | inr under ↦
          let rest =
            wrap_words-Wraps max_width w (ws ++ word ∷ []) words
              (ground (
                arith,
                under,
                length-spaced w (ws ++ word ∷ []),
                sum-append ws word,
                length-append ws (word ∷ []),
              ))
              h.1 in
          rw under (regroup rest)
    ]
  where
    joined :
        (s : Text) (out : List Text) → 1 ≤ length out → spaced (s ∷ out) ≡ s ++ b' ' ∷ spaced out
    joined s [] some_line = absurd (omega arith)
    joined s (t ∷ out) some_line = unfold join_with in refl

    sum-append :
        (ws : List Text) (word : Text)
        → sum_lengths (ws ++ word ∷ []) ≡ sum_lengths ws + length word
    sum-append [] word = omega arith
    sum-append (v ∷ vs) word = omega (arith, sum-append vs word)

    regroup :
        {out : List Text}
        → Wraps max_width ((w ∷ (ws ++ word ∷ [])) ++ words) out
        → Wraps max_width ((w ∷ ws) ++ word ∷ words) out
    regroup r = record {
      fits = r.fits;
      text = r.text ∙ ap (λ x. spaced (w ∷ x)) (append_assoc ws (word ∷ []) words);
      some_line = r.some_line;
    }

unfoldable pub Fitting : ℕ → Text → Type 0
Fitting max_width line = All (λ word. length word ≤ max_width) (split b' ' line)

wrap_line-Wraps :
    (max_width : ℕ) (line : Text)
    → Fitting max_width line
    → Wraps max_width (split b' ' line) (wrap_line max_width line)
unfolding wrap_line Fitting
wrap_line-Wraps max_width line h = elim (Bool-cases (leb (length line) max_width)) [
  | inl short ↦ rw short record {
    fits = (ground (arith, short), tt);
    text = unfold join_with in sym (join_with-split b' ' line);
    some_line = omega arith;
  }
  | inr long ↦ rw long (first_word (split b' ' line) (split_some b' ' line) h)
]
  where
    first_word :
        (words : List Text)
        → 1 ≤ length words
        → All (λ word. length word ≤ max_width) words
        → Wraps max_width words (wrap_words max_width [] words)
    first_word [] some_word h = absurd (omega arith)
    first_word (word ∷ words) some_word h =
        let under : ltb max_width (0 + 0 + length word) ≡ false = ground (arith, h.0) in
        unfold wrap_words in
        rw under (wrap_words-Wraps max_width word [] words (unfold join_with in h.0) h.1)

spaced-concat :
    (ss ts : List Text)
    → 1 ≤ length ss
    → 1 ≤ length ts
    → spaced (ss ++ ts) ≡ spaced ss ++ b' ' ∷ spaced ts
spaced-concat [] ts h k = absurd (omega arith)
spaced-concat (s ∷ ss) [] h k = absurd (omega arith)
spaced-concat (s ∷ ss) (t ∷ ts) h k = spaced-append s ss t ts

pub wrapped-Wraps :
    (max_width : ℕ) (line : Text) (lines : List Text)
    → All (Fitting max_width) (line ∷ lines)
    → Wraps max_width (line ∷ lines) (wrapped max_width (line ∷ lines))
unfolding wrapped join_with
wrapped-Wraps max_width line [] h =
    let r = wrap_line-Wraps max_width line h.0 in
    record {
      fits = All-append (λ s. length s ≤ max_width) (wrap_line max_width line) [] r.fits tt;
      text = ap spaced (append-nil (wrap_line max_width line)) ∙ r.text ∙ join_with-split b' ' line;
      some_line = omega (arith, length-append (wrap_line max_width line) [], r.some_line);
    }
wrapped-Wraps max_width line (next ∷ lines) h =
    let r = wrap_line-Wraps max_width line h.0 in
    let rest = wrapped-Wraps max_width next lines h.1 in
    let out = wrapped max_width (next ∷ lines) in
    record {
      fits = All-append (λ s. length s ≤ max_width) (wrap_line max_width line) out r.fits rest.fits;
      text =
          spaced-concat (wrap_line max_width line) out r.some_line rest.some_line
          ∙ ap₂ (λ x y. x ++ b' ' ∷ y) (r.text ∙ join_with-split b' ' line) rest.text;
      some_line = omega (arith, length-append (wrap_line max_width line) out, r.some_line);
    }
