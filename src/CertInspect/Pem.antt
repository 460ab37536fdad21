-- ===== src/CertInspect/Pem.antt =====
-- The PEM blocks of a text are found whole.
use public_trash.Base.{
  ℕ, zero, suc, ◌-◌, ◌≤◌, ◌≡◌, ◌≢◌, refl, ap, ◌∙◌, true, false, ◌==◌, List, [], ◌∷◌, ◌++◌, All,
  length, length-append, take, drop, take-append, drop-append, append_assoc, none, some, arith,
}
use public_trash.Base.Texts.{Text, codes, starts_with}
use public_trash.CertInspect.{
  is_label, label_run, dashes, match_marker, begin_front, end_front, marker, search, from_begin,
  until_end, split_from, split_pem_blocks,
}

-- A text without a dash, as that between the markers.
abbrev pub IsPlain : Text → Type 0
IsPlain = All (λ c. c ≢ b'-')

abbrev pub IsLabel : Text → Type 0
IsLabel [] = ⊥
IsLabel (c ∷ cs) = (is_label c ≡ true) × All (λ d. is_label d ≡ true) cs

starts_with-append : (s t : Text) → starts_with (s ++ t) s ≡ true
unfolding starts_with
starts_with-append [] t = unfold starts_with in refl
starts_with-append (c ∷ s) t =
    let here : (c == c) ≡ true = ground arith in rw (here, starts_with-append s t) refl

label_run-append :
    (label t : Text)
    → All (λ d. is_label d ≡ true) label
    → label_run (label ++ (dashes ++ t)) ≡ (label, dashes ++ t)
unfolding label_run
label_run-append [] t h = refl
label_run-append (c ∷ cs) t h = rw (label_run-append cs t h.1, h.0) refl

match-marker :
    (front label t : Text)
    → IsLabel label
    → match_marker front (front ++ (label ++ (dashes ++ t))) ≡ some (label, t)
unfolding match_marker
match-marker front [] t h = absurd h
match-marker front (c ∷ cs) t h =
    rw
      (
        starts_with-append front ((c ∷ cs) ++ (dashes ++ t)),
        drop-append front ((c ∷ cs) ++ (dashes ++ t)) (length front) refl,
        label_run-append (c ∷ cs) t h,
      )
      (unfold starts_with in refl)

match_marker-other :
    (front : Text) (c : ℕ) (s : Text)
    → (c == b'-') ≡ false
    → match_marker (b'-' ∷ front) (c ∷ s) ≡ none
unfolding match_marker starts_with
match_marker-other front c s other = rw other refl

search-marker :
    (front gap label t : Text)
    → IsPlain gap
    → IsLabel label
    → search (b'-' ∷ front) (gap ++ ((b'-' ∷ front) ++ (label ++ (dashes ++ t))))
      ≡ some (record { before = gap; label = label; after = t })
unfolding search
search-marker front [] label t plain h = rw (match-marker (b'-' ∷ front) label t h) refl
search-marker front (c ∷ gap) label t plain h =
    let other : (c == b'-') ≡ false = ground (arith, plain.0) in
    rw
      (
        match_marker-other front c (gap ++ ((b'-' ∷ front) ++ (label ++ (dashes ++ t)))) other,
        search-marker front gap label t plain.1 h,
      )
      refl

search-plain : (front s : Text) → IsPlain s → search (b'-' ∷ front) s ≡ none
unfolding search
search-plain front [] h = refl
search-plain front (c ∷ s) h =
    let other : (c == b'-') ≡ false = ground (arith, h.0) in
    rw (match_marker-other front c s other, search-plain front s h.1) refl

-- A block between other text: its two labels need not agree.
pub record Block : Type 0 where
  pub gap : Text
  pub label : Text
  pub body : Text
  pub end_label : Text

abbrev pub block_text : Block → Text
block_text b = marker begin_front b.label ++ (b.body ++ marker end_front b.end_label)

abbrev pub with_blocks : List Block → Text → Text
with_blocks [] last = last
with_blocks (b ∷ bs) last = b.gap ++ (block_text b ++ with_blocks bs last)

pub record IsBlock (b : Block) : Type 0 where
  pub gap : IsPlain b.gap
  pub label : IsLabel b.label
  pub body : IsPlain b.body
  pub end_label : IsLabel b.end_label

abbrev pub found : List Block → List (Text × Text)
found [] = []
found (b ∷ bs) = (b.label, block_text b) ∷ found bs

end_text :
    (b : Block) (t : Text)
    → (b.body ++ marker end_front b.end_label) ++ t
      ≡ b.body ++ (end_front ++ (b.end_label ++ (dashes ++ t)))
end_text b t =
    append_assoc b.body (marker end_front b.end_label) t
    ∙ ap (λ s. b.body ++ (end_front ++ s)) (append_assoc b.end_label dashes t)

begin_text :
    (b : Block) (t : Text)
    → block_text b ++ t
      ≡ begin_front
        ++ (b.label ++ (dashes ++ (b.body ++ (end_front ++ (b.end_label ++ (dashes ++ t))))))
begin_text b t =
    ap (λ s. begin_front ++ s)
      (ap (λ s. s ++ t) (append_assoc b.label dashes (b.body ++ marker end_front b.end_label))
        ∙ append_assoc b.label (dashes ++ (b.body ++ marker end_front b.end_label)) t)
    ∙ ap (λ s. begin_front ++ (b.label ++ (dashes ++ s))) (end_text b t)

-- One round of the loop: what it appends, and where it goes on.
split_from-block :
    (fuel : ℕ) (b : Block) (t : Text)
    → IsBlock b
    → split_from (suc fuel) (b.gap ++ (block_text b ++ t))
      ≡ (b.label, block_text b) ∷ split_from fuel t
unfolding split_from
split_from-block fuel b t h =
    let raw = b.gap ++ (block_text b ++ t) in
    let behind = b.body ++ (end_front ++ (b.end_label ++ (dashes ++ t))) in
    let begins : search begin_front raw
        ≡ some (record { before = b.gap; label = b.label; after = behind }) =
      ap (λ s. search begin_front (b.gap ++ s)) (begin_text b t)
      ∙ search-marker (codes "----BEGIN ") b.gap b.label behind h.gap h.label in
    let ends : search end_front behind
        ≡ some (record { before = b.body; label = b.end_label; after = t }) =
      search-marker (codes "----END ") b.body b.end_label t h.body h.end_label in
    let size : length raw - length b.gap - length t ≡ length (block_text b) =
      omega (arith, length-append b.gap (block_text b ++ t), length-append (block_text b) t) in
    let sliced : take (length raw - length b.gap - length t) (drop (length b.gap) raw)
        ≡ block_text b =
      ap (take (length raw - length b.gap - length t))
        (drop-append b.gap (block_text b ++ t) (length b.gap) refl)
      ∙ take-append (block_text b) t (length raw - length b.gap - length t) size in
    ap (from_begin (split_from fuel) raw) begins
    ∙ ap
        (until_end (split_from fuel) raw
          (record { before = b.gap; label = b.label; after = behind }))
        ends
    ∙ ap (λ s. (b.label, s) ∷ split_from fuel t) sliced

split_from-with_blocks :
    (fuel : ℕ) (bs : List Block) (last : Text)
    → length bs ≤ fuel
    → All IsBlock bs
    → IsPlain last
    → split_from fuel (with_blocks bs last) ≡ found bs
split_from-with_blocks zero [] last enough h plain = unfold split_from in refl
split_from-with_blocks zero (b ∷ bs) last enough h plain = absurd (omega arith)
split_from-with_blocks (suc fuel) [] last enough h plain =
    unfold split_from in
    ap (from_begin (split_from fuel) last) (search-plain (codes "----BEGIN ") last plain)
split_from-with_blocks (suc fuel) (b ∷ bs) last enough h plain =
    split_from-block fuel b (with_blocks bs last) h.0
    ∙ ap (◌∷◌ (b.label, block_text b)) (split_from-with_blocks fuel bs last (omega arith) h.1 plain)

length-with_blocks : (bs : List Block) (last : Text) → length bs ≤ length (with_blocks bs last)
length-with_blocks [] last = omega arith
length-with_blocks (b ∷ bs) last = omega (
  arith,
  length-append b.gap (block_text b ++ with_blocks bs last),
  length-append (block_text b) (with_blocks bs last),
  length-with_blocks bs last,
)

-- From a text with blocks, each between markers whose labels need not agree, where neither the
-- bodies nor the text between the blocks has a dash and the labels are not empty,
-- `split_pem_blocks` gives each block whole with its first label, in order.
pub split_pem_blocks-with_blocks :
    (bs : List Block) (last : Text)
    → All IsBlock bs
    → IsPlain last
    → split_pem_blocks (with_blocks bs last) ≡ found bs
unfolding split_pem_blocks
split_pem_blocks-with_blocks bs last h plain =
    split_from-with_blocks (length (with_blocks bs last)) bs last (length-with_blocks bs last) h
      plain
