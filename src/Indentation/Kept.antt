-- ===== src/Indentation/Kept.antt =====
-- `correct_indentation` changes white space only.
use public_trash.Base.{
  ◌*◌, ◌≡◌, refl, ap₂, ◌∙◌, Bool, false, Bool-cases, inl, inr, ◌&&◌, if◌then◌else◌, List, [], ◌∷◌,
  ◌++◌, map,
}
use public_trash.Base.Texts.{Text, strip}
use public_trash.Indentation.{
  ℤ, pos, negsuc, margin, Indent, is_class, place, is_blank, correct_lines,
}
use public_trash.Indentation.Strips.{strip-spaces, strip-strip}

-- The stripped lines without a blank one right behind a class; the flag is that a class is in front.
abbrev pub kept : Bool → List Text → List Text
kept behind_class [] = []
kept behind_class (s ∷ ss) =
    if behind_class && is_blank s then kept false ss else s ∷ kept (is_class s) ss

strip-margin : (level : ℤ) (s : Text) → strip (margin level ++ s) ≡ strip s
strip-margin (pos n) s = strip-spaces (n * 4) s
strip-margin (negsuc n) s = refl

-- From any state of the loop, the lines that `correct_indentation` writes are, stripped, the
-- given lines, stripped, without a blank one right behind a class.
pub strip-correct_lines :
    (i : Indent) (lines : List Text)
    → map strip (correct_lines i lines) ≡ kept i.was_class (map strip lines)
unfolding correct_lines
strip-correct_lines i [] = refl
strip-correct_lines i (line ∷ lines) = elim (Bool-cases (i.was_class && is_blank (strip line))) [
  | inl dropped ↦ rw dropped (strip-correct_lines (record i { was_class = false }) lines)
  | inr written ↦ rw written (
      ap₂ (◌∷◌) (strip-margin (place i (strip line)).0 (strip line) ∙ strip-strip line) (
        strip-correct_lines (record (place i (strip line)).1 { was_class = is_class (strip line) })
          lines))
]
