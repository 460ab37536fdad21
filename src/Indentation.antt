-- ===== src/Indentation.antt =====
-- OLD/fix_indentartion.py: `correct_indentation`, which indents the lines of a script anew. The white
-- space of `strip` is that of ASCII.
pub mod Strips
pub mod Kept
use public_trash.Base.{
  ℕ, zero, suc, ◌+◌, ◌*◌, Bool, true, false, ◌&&◌, ◌||◌, ◌==◌, if◌then◌else◌, leb, List, [], ◌∷◌,
  ◌++◌, replicate,
}
use public_trash.Base.Texts.{Text, codes, starts_with, strip, grow, join_with}

-- The line boundaries of `str.splitlines`.
abbrev is_boundary : ℕ → Bool
is_boundary c =
    (leb 10 c && leb c 13)
    || ((leb 28 c && leb c 30) || (c == 0x85 || (c == 0x2028 || c == 0x2029)))

unfoldable pub splitlines : Text → List Text
splitlines [] = []
splitlines (c ∷ []) = if is_boundary c then [] ∷ [] else (c ∷ []) ∷ []
splitlines (c ∷ d ∷ cs) =
    let both = [] ∷ splitlines cs in
    let rest = splitlines (d ∷ cs) in
    if c == b'\r' && d == b'\n' then both else if is_boundary c then [] ∷ rest else grow c rest

-- `indent_level`, an integer that may fall below zero.
pub data ℤ : Type 0 where
  pos negsuc : ℕ → ℤ

abbrev pub incr : ℤ → ℤ
incr (pos n) = pos (suc n)
incr (negsuc zero) = pos zero
incr (negsuc (suc n)) = negsuc n

abbrev pub decr : ℤ → ℤ
decr (pos (suc n)) = pos n
decr (pos zero) = negsuc zero
decr (negsuc n) = negsuc (suc n)

-- `'    ' * level`: nothing below zero.
abbrev pub margin : ℤ → Text
margin (pos n) = replicate (n * 4) b' '
margin (negsuc n) = []

pub record Indent : Type 0 where
  pub indent_level : ℤ
  pub inside_struct : Bool
  pub was_class : Bool

abbrev pub is_class : Text → Bool
is_class s = starts_with s (codes "class ")

-- The level at which a stripped line is written, and the state behind it.
unfoldable pub place : Indent → Text → ℤ × Indent
place i s =
    if is_class s
    then (pos 0, record i { indent_level = pos 0 })
    else if starts_with s (codes "parser")
    then (incr i.indent_level, record i { indent_level = incr i.indent_level })
    else if starts_with s (codes "struct_name")
    then (i.indent_level, i)
    else if starts_with s (codes "typedef struct")
    then (incr i.indent_level, record i { indent_level = incr i.indent_level })
    else if starts_with s (codes "{")
    then (i.indent_level, record i { inside_struct = true })
    else if starts_with s (codes "}")
    then (i.indent_level, record i { inside_struct = false })
    else if starts_with s (codes "'''")
    then (i.indent_level, record i { indent_level = decr i.indent_level })
    else if i.inside_struct
    then (incr i.indent_level, i)
    else (i.indent_level, i)

abbrev pub is_blank : Text → Bool
is_blank [] = true
is_blank (_ ∷ _) = false

-- The loop over the lines: a blank one right behind a class is left out.
unfoldable pub correct_lines : Indent → List Text → List Text
unfolding place
correct_lines i [] = []
correct_lines i (line ∷ lines) =
    let s = strip line in
    let (level, next) = place i s in
    let dropped = correct_lines (record i { was_class = false }) lines in
    let written =
      (margin level ++ s) ∷ correct_lines (record next { was_class = is_class s }) lines in
    if i.was_class && is_blank s then dropped else written

unfoldable pub correct_indentation : Text → Text
unfolding splitlines correct_lines
correct_indentation code = join_with (b'\n' ∷ []) (
    correct_lines (record { indent_level = pos 0; inside_struct = false; was_class = false })
      (splitlines code))
