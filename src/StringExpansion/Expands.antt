-- ===== src/StringExpansion/Expands.antt =====
-- What a name with numbers at its end is expanded to.
use public_trash.Base.{
  ℕ, ◌≡◌, ◌≢◌, refl, sym, ap, ◌∙◌, Bool, true, false, Bool-cases, inl, inr, ◌&&◌, ◌==◌, List, [],
  ◌∷◌, ◌++◌, map, All, arith,
}
use public_trash.Base.Texts.{Text, split, split-join_with}
use public_trash.StringExpansion.{
  last_or, but_last, all_digits, isdigit, is_octal, join_parts, put_part, cut_numeric, named,
  expand, process_parts, process_string,
}

abbrev pub IsNumber : (ℕ → Bool) → Text → Type 0
IsNumber digit p = isdigit digit p ≡ true

-- Parts that are not empty, and whose last one is no number, and those that are empty.
abbrev pub IsFront : (ℕ → Bool) → List Text → Type 0
IsFront digit [] = Unit
IsFront digit (p ∷ ps) = isdigit digit (last_or p ps) ≡ false

cut_numeric-numbers :
    (digit : ℕ → Bool) (ps : List Text) → All (IsNumber digit) ps → cut_numeric digit ps ≡ ([], ps)
unfolding cut_numeric
cut_numeric-numbers digit [] h = refl
cut_numeric-numbers digit (p ∷ ps) h = rw (h.0, cut_numeric-numbers digit ps h.1) refl

put_front :
    (b : Bool) (p q : Text) (qs ps : List Text) → put_part b p (q ∷ qs, ps) ≡ (p ∷ q ∷ qs, ps)
put_front true p q qs ps = refl
put_front false p q qs ps = refl

cut_numeric-front :
    (digit : ℕ → Bool) (front ps : List Text)
    → IsFront digit front
    → All (IsNumber digit) ps
    → cut_numeric digit (front ++ ps) ≡ (front, ps)
unfolding cut_numeric
cut_numeric-front digit [] ps f h = cut_numeric-numbers digit ps h
cut_numeric-front digit (p ∷ []) ps f h = rw (f, cut_numeric-numbers digit ps h) refl
cut_numeric-front digit (p ∷ q ∷ qs) ps f h =
    ap (put_part (isdigit digit p) p) (cut_numeric-front digit (q ∷ qs) ps f h)
    ∙ put_front (isdigit digit p) p q qs ps

last_or-append :
    (other : Text) (front : List Text) (p : Text) (ps : List Text)
    → last_or other (front ++ p ∷ ps) ≡ last_or p ps
last_or-append other [] p ps = refl
last_or-append other (q ∷ qs) p ps = last_or-append q qs p ps

and_true : {a b : Bool} → (a && b) ≡ true → (a ≡ true) × (b ≡ true)
and_true {a = true} h = (refl, h)
and_true {a = false} h = absurd (ground (arith, h))

last_digit :
    (digit : ℕ → Bool) (c : ℕ) (cs : Text)
    → digit c ≡ true
    → all_digits digit cs ≡ true
    → digit (last_or c cs) ≡ true
last_digit digit c [] h k = h
last_digit digit c (d ∷ ds) h k = let (first, rest) = and_true k in last_digit digit d ds first rest

number-last : (digit : ℕ → Bool) (p : Text) → IsNumber digit p → digit (last_or 0 p) ≡ true
unfolding isdigit
number-last digit [] h = absurd (ground (arith, h))
number-last digit (c ∷ cs) h = let (first, rest) = and_true h in last_digit digit c cs first rest

number-octal :
    (digit : ℕ → Bool) (p : Text) → digit b'x' ≡ false → IsNumber digit p → is_octal digit p ≡ false
unfolding is_octal
number-octal digit p no_x h = elim (Bool-cases (last_or 0 p == b'x')) [
  | inl here ↦
      let same : last_or 0 p ≡ b'x' = ground (arith, here) in
      let is_digit = sym (number-last digit p h) ∙ ap digit same ∙ no_x in
      absurd (ground (arith, is_digit))
  | inr other ↦ rw other refl
]

numbers-last :
    (digit : ℕ → Bool) (p : Text) (ps : List Text)
    → All (IsNumber digit) (p ∷ ps)
    → IsNumber digit (last_or p ps)
numbers-last digit p [] h = h.0
numbers-last digit p (q ∷ qs) h = numbers-last digit q qs h.1

process_parts-expands :
    (digit : ℕ → Bool) (s : Text) (front : List Text) (base n : Text) (ns : List Text)
    → digit b'x' ≡ false
    → IsFront digit front
    → All (IsNumber digit) (base ∷ n ∷ ns)
    → process_parts digit s (front ++ base ∷ n ∷ ns)
      ≡ named (join_parts front) base
        ∷ map (λ m. named (join_parts front) (but_last base ++ m)) (n ∷ ns)
unfolding process_parts expand
process_parts-expands digit s front base n ns no_x f h =
    rw
      (
        last_or-append [] front base (n ∷ ns),
        number-octal digit (last_or n ns) no_x (numbers-last digit n ns h.1),
        cut_numeric-front digit front (base ∷ n ∷ ns) f h,
      )
      refl

split-parts :
    (front : List Text) (p : Text) (ps : List Text)
    → All (All (λ c. c ≢ b'_')) (front ++ p ∷ ps)
    → split b'_' (join_parts (front ++ p ∷ ps)) ≡ front ++ p ∷ ps
split-parts [] p ps h = split-join_with b'_' p ps h
split-parts (q ∷ qs) p ps h = split-join_with b'_' q (qs ++ p ∷ ps) h

-- Where `x` is no digit: of parts without underscores that are joined by them, of which two or
-- more at the end are numbers and the one in front of these, if there is one, is not,
-- `process_string` makes the parts in front with the first number, and then with the first number
-- less its last character and each further number behind it.
pub process_string-expands :
    (digit : ℕ → Bool) (front : List Text) (base n : Text) (ns : List Text)
    → digit b'x' ≡ false
    → IsFront digit front
    → All (IsNumber digit) (base ∷ n ∷ ns)
    → All (All (λ c. c ≢ b'_')) (front ++ base ∷ n ∷ ns)
    → process_string digit (join_parts (front ++ base ∷ n ∷ ns))
      ≡ named (join_parts front) base
        ∷ map (λ m. named (join_parts front) (but_last base ++ m)) (n ∷ ns)
unfolding process_string
process_string-expands digit front base n ns no_x f h plain =
    let s = join_parts (front ++ base ∷ n ∷ ns) in
    ap (process_parts digit s) (split-parts front base (n ∷ ns) plain)
    ∙ process_parts-expands digit s front base n ns no_x f h
