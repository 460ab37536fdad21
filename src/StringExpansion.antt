-- ===== src/StringExpansion.antt =====
-- OLD/funny_strings.py: `process_string`. Which characters `str.isdigit` takes is given.
pub mod Expands
use public_trash.Base.{
  ℕ, zero, suc, ◌+◌, Bool, true, false, ◌&&◌, ◌==◌, if◌then◌else◌, List, [], ◌∷◌, ◌++◌, map,
}
use public_trash.Base.Texts.{Text, split, join_with}

-- The last element and what is in front of it, of a list that is not empty; `other` for one that is.
module _ {A : Type 0} where
  abbrev pub last_or : A → List A → A
  last_or other [] = other
  last_or other (x ∷ xs) = last_or x xs

  unfoldable pub but_last : List A → List A
  but_last [] = []
  but_last (x ∷ []) = []
  but_last (x ∷ y ∷ ys) = x ∷ but_last (y ∷ ys)

abbrev pub all_digits : (ℕ → Bool) → Text → Bool
all_digits digit [] = true
all_digits digit (c ∷ cs) = digit c && all_digits digit cs

-- `s.isdigit()`.
unfoldable pub isdigit : (ℕ → Bool) → Text → Bool
isdigit digit [] = false
isdigit digit (c ∷ cs) = digit c && all_digits digit cs

-- `part.endswith('x') and part[:-1].isdigit()`.
unfoldable pub is_octal : (ℕ → Bool) → Text → Bool
unfolding isdigit but_last
is_octal digit part = last_or 0 part == b'x' && isdigit digit (but_last part)

abbrev pub underscore : Text
underscore = b'_' ∷ []

abbrev pub join_parts : List Text → Text
join_parts parts = join_with underscore parts

-- The parts in front of the digits at the end, and these: a part is one of them if all behind it are.
abbrev pub put_part : Bool → Text → List Text × List Text → List Text × List Text
put_part true p ([], numeric) = ([], p ∷ numeric)
put_part true p (q ∷ front, numeric) = (p ∷ q ∷ front, numeric)
put_part false p (front, numeric) = (p ∷ front, numeric)

unfoldable pub cut_numeric : (ℕ → Bool) → List Text → List Text × List Text
unfolding isdigit
cut_numeric digit [] = ([], [])
cut_numeric digit (p ∷ ps) = put_part (isdigit digit p) p (cut_numeric digit ps)

-- `f"{prefix}_{name}"`.
abbrev pub named : Text → Text → Text
named prefix name = prefix ++ (underscore ++ name)

abbrev pub expand : Text → Text → List Text → List Text
unfolding but_last
expand s prefix [] = s ∷ []
expand s prefix (base ∷ []) = s ∷ []
expand s prefix (base ∷ n ∷ ns) =
    named prefix base ∷ map (λ m. named prefix (but_last base ++ m)) (n ∷ ns)

abbrev pub eight_digits : List ℕ
eight_digits = b'0' ∷ b'1' ∷ b'2' ∷ b'3' ∷ b'4' ∷ b'5' ∷ b'6' ∷ b'7' ∷ []

unfoldable pub process_parts : (ℕ → Bool) → Text → List Text → List Text
unfolding is_octal cut_numeric expand
process_parts digit s parts =
    let (front, numeric) = cut_numeric digit parts in
    if is_octal digit (last_or [] parts)
    then map (λ d. named (join_parts (but_last parts)) (but_last (last_or [] parts) ++ d ∷ []))
        eight_digits
    else expand s (join_parts front) numeric

unfoldable pub process_string : (ℕ → Bool) → Text → List Text
unfolding process_parts
process_string digit s = process_parts digit s (split b'_' s)

-- `process_strings`.
unfoldable pub process_strings : (ℕ → Bool) → List Text → List Text
unfolding process_string
process_strings digit [] = []
process_strings digit (s ∷ ss) = process_string digit s ++ process_strings digit ss
