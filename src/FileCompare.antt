-- ===== src/FileCompare.antt =====
-- OLD/compare_files.py: files with the same text up to line ends. To open a file, read it and decode
-- it as UTF-8 without its mark is a parameter, which may raise.
pub mod LineEnds
pub mod Entries
pub mod Groups
pub mod Report
use public_trash.Base.{
  ℕ, Bool, true, false, ◌&&◌, ◌==◌, if◌then◌else◌, ltb, List, [], ◌∷◌, ◌++◌, length, Option, none,
  some, file_not_found, permission_error, Result, ok, raise, ◌>>=◌,
}
use public_trash.Base.Dicts.{Dict, lookup, insert}
use public_trash.Base.Texts.{Text, strip}

-- `text.replace("\r\n", "\n")`.
unfoldable pub replace_crlf : Text → Text
replace_crlf [] = []
replace_crlf (c ∷ []) = c ∷ []
replace_crlf (c ∷ d ∷ cs) =
    let both = b'\n' ∷ replace_crlf cs in
    let one = c ∷ replace_crlf (d ∷ cs) in if c == b'\r' && d == b'\n' then both else one

-- `text.replace("\r", "\n")`.
unfoldable pub replace_cr : Text → Text
replace_cr [] = []
replace_cr (c ∷ cs) = (if c == b'\r' then b'\n' else c) ∷ replace_cr cs

unfoldable pub normalize : Text → Text
unfolding replace_crlf replace_cr
normalize text = replace_cr (replace_crlf text)

-- The text of the file at a path.
abbrev pub Load : Type 0
Load = Text → Result Text

-- The two exceptions that are caught.
abbrev pub caught : {A : Type 0} → A → Result A → Result A
caught default (ok a) = ok a
caught default (raise file_not_found) = ok default
caught default (raise permission_error) = ok default
caught default (raise e) = raise e

unfoldable pub normalize_file_content : Load → Text → Result (Option Text)
normalize_file_content load path = caught none (load path >>= λ text. ok (some (normalize text)))

-- `[line.strip() for line in file if line.strip()]`.
unfoldable pub listed : List Text → List Text
listed [] = []
listed (line ∷ lines) = elim (strip line) [ [] ↦ listed lines | c ∷ cs ↦ (c ∷ cs) ∷ listed lines ]

unfoldable pub get_file_list : Result (List Text) → Result (List Text)
unfolding listed
get_file_list read = caught [] (read >>= λ lines. ok (listed lines))

-- `content_map[normalized_content].append(file_path)` on a `defaultdict(list)`.
abbrev pub or_nil : Option (List Text) → List Text
or_nil none = []
or_nil (some files) = files

unfoldable pub append_path : Text → Text → Dict (List Text) → Dict (List Text)
append_path content path d = insert content (or_nil (lookup content d) ++ path ∷ []) d

abbrev pub put : Text → Option Text → Dict (List Text) → Dict (List Text)
put path none d = d
put path (some content) d = append_path content path d

-- The loop over the files.
unfoldable pub gather : Load → List Text → Dict (List Text) → Result (Dict (List Text))
unfolding append_path
gather load [] d = ok d
gather load (path ∷ paths) d = do
  content ← normalize_file_content load path
  gather load paths (put path content d)

abbrev pub values : Dict (List Text) → List (List Text)
values [] = []
values ((_, files) ∷ d) = files ∷ values d

unfoldable pub identical_files : List (List Text) → List (List Text)
identical_files [] = []
identical_files (files ∷ rest) =
    let others = identical_files rest in if ltb 1 (length files) then files ∷ others else others

unfoldable pub unique_files : List (List Text) → List Text
unique_files [] = []
unique_files ((file ∷ []) ∷ rest) = file ∷ unique_files rest
unique_files (_ ∷ rest) = unique_files rest

abbrev pub compare_list : Load → List Text → Result (List (List Text) × List Text)
compare_list load [] = ok ([], [])
compare_list load (path ∷ paths) = do
  content_map ← gather load (path ∷ paths) []
  ok (identical_files (values content_map), unique_files (values content_map))

unfoldable pub compare_files : Load → Result (List Text) → Result (List (List Text) × List Text)
unfolding gather
compare_files load read = get_file_list read >>= compare_list load
