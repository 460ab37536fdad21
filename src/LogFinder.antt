-- ===== src/LogFinder.antt =====
-- OLD/logs.py: `find_matching_logs`. The path of the argument is given in `pathlib`'s parts, and
-- what `iterdir` lists, in its order, by a function: `none` for a directory that is not there.
pub mod Newest
use public_trash.Base.{
  length, take, drop, ℕ, Bool, true, false, not, ◌&&◌, ◌||◌, ◌==◌, if◌then◌else◌, Option, none,
  some, List, [], ◌∷◌, ◌++◌,
}
use public_trash.Base.Texts.{Text, codes, text_eq, starts_with}
use public_trash.Base.Sorts.{StrictOrder, by_key, by_text, reversed, sort_by}

-- `os.path.splitext`: the last dot, unless there are only dots in front of it.
unfoldable pub only_dots : Text → Bool
only_dots [] = true
only_dots (c ∷ cs) = c == b'.' && only_dots cs

unfoldable pub has_dot : Text → Bool
has_dot [] = false
has_dot (c ∷ cs) = c == b'.' || has_dot cs

unfoldable pub split_last_dot : Text → Text → Text × Text
unfolding has_dot only_dots
split_last_dot front [] = (front, [])
split_last_dot front (c ∷ cs) =
    let further = split_last_dot (front ++ c ∷ []) cs in
    if c == b'.' && not (has_dot cs)
    then (if only_dots front then (front ++ c ∷ cs, []) else (front, c ∷ cs))
    else further

unfoldable pub splitext : Text → Text × Text
unfolding split_last_dot
splitext name = split_last_dot [] name

-- The digits of a time stamp, `none`, and the characters between them.
abbrev pub time_stamp : List (Option ℕ)
time_stamp =
    none
    ∷ none
    ∷ none
    ∷ none
    ∷ some b'.'
    ∷ none
    ∷ none
    ∷ some b'.'
    ∷ none
    ∷ none
    ∷ some b'_'
    ∷ none
    ∷ none
    ∷ some b'.'
    ∷ none
    ∷ none
    ∷ some b'.'
    ∷ none
    ∷ none
    ∷ []

-- `\d` takes every decimal digit of Unicode: which characters these are is given.
abbrev pub Digits : Type 0
Digits = ℕ → Bool

abbrev pub has_kind : Digits → Option ℕ → ℕ → Bool
has_kind is_digit none c = is_digit c
has_kind is_digit (some d) c = c == d

-- The shape at the front of a text.
unfoldable pub has_shape : Digits → List (Option ℕ) → Text → Bool
has_shape is_digit [] s = true
has_shape is_digit (p ∷ ps) [] = false
has_shape is_digit (p ∷ ps) (c ∷ cs) = has_kind is_digit p c && has_shape is_digit ps cs

-- `$` also stands in front of a line break at the end.
abbrev pub is_ending : Text → Text → Bool
is_ending ext s = text_eq s ext || text_eq s (ext ++ b'\n' ∷ [])

-- `pattern.match`.
unfoldable pub matches : Digits → Text → Text → Text → Bool
unfolding has_shape
matches is_digit stem ext name =
    let rest = drop (length stem) name in
    starts_with name stem
    && (starts_with rest (b'.' ∷ [])
        && (has_shape is_digit time_stamp (drop 1 rest) && is_ending ext (drop 20 rest)))

-- The test of the loop over the files.
unfoldable pub is_log : Digits → Text → Text → Bool
unfolding matches splitext
is_log is_digit base name =
    let (stem, ext) = splitext base in text_eq name base || matches is_digit stem ext name

-- A file as its directory and its name.
abbrev pub File : Type 0
File = Text × Text

abbrev pub Listing : Type 0
Listing = Text → Option (List Text)

unfoldable pub pick : (Text → Bool) → Text → List Text → List File
pick wanted directory [] = []
pick wanted directory (name ∷ names) =
    let rest = pick wanted directory names in if wanted name then (directory, name) ∷ rest else rest

abbrev pub pick_there : (Text → Bool) → Text → Option (List Text) → List File
pick_there wanted directory none = []
pick_there wanted directory (some names) = pick wanted directory names

unfoldable pub collect : (Text → Bool) → Listing → List Text → List File
unfolding pick
collect wanted listing [] = []
collect wanted listing (directory ∷ directories) =
    pick_there wanted directory (listing directory) ++ collect wanted listing directories

-- `re.search` for the time stamp, and what stands for it in a name without one.
unfoldable pub extract_timestamp : Digits → Text → Text
unfolding has_shape
extract_timestamp is_digit [] = codes "9999.99.99_99.99.99"
extract_timestamp is_digit (c ∷ cs) =
    let later = extract_timestamp is_digit cs in
    if has_shape is_digit time_stamp (c ∷ cs) then take 19 (c ∷ cs) else later

abbrev pub search_dirs : Text → List Text
search_dirs parent =
    if text_eq parent (b'.' ∷ []) then (b'.' ∷ []) ∷ codes "logs" ∷ [] else parent ∷ []

abbrev pub newest_first : Digits → StrictOrder File
newest_first is_digit = reversed (by_key (λ file. extract_timestamp is_digit file.1) by_text)

unfoldable pub find_matching_logs : Digits → Listing → Text → Text → List File
unfolding collect
find_matching_logs is_digit listing parent base_name =
    sort_by (newest_first is_digit)
      (collect (is_log is_digit base_name) listing (search_dirs parent))
