-- ===== src/FileCompare/Report.antt =====
-- OLD/compare_files.py: the lines that `main` prints.
use public_trash.Base.{List, [], ◌∷◌, ◌++◌, map, Result, ok, ◌>>=◌}
use public_trash.Base.Texts.{Text, codes, join_with}
use public_trash.FileCompare.{Load, compare_files}

abbrev pub or_nothing : List Text → List Text
or_nothing [] = codes "  None" ∷ []
or_nothing (l ∷ ls) = l ∷ ls

abbrev pub group_line : List Text → Text
group_line group = codes "  " ++ join_with (codes ", ") group

abbrev pub file_line : Text → Text
file_line file = codes "  " ++ file

unfoldable pub report : List (List Text) → List Text → List Text
report identical unique =
    codes "\nIdentical Files:"
    ∷ (or_nothing (map group_line identical)
        ++ codes "\nUnique Files:" ∷ or_nothing (map file_line unique))

unfoldable pub main : Load → Result (List Text) → Result (List Text)
unfolding report
main load lines = compare_files load lines >>= λ files. ok (report files.0 files.1)
