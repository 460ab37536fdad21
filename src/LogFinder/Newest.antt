-- ===== src/LogFinder/Newest.antt =====
-- Which files `find_matching_logs` returns, and in which order.
use public_trash.Base.{ℕ, ◌≡◌, ◌⊎◌, true, Option, List, [], ◌∷◌, ◌++◌}
use public_trash.Base.Texts.{Text}
use public_trash.LogFinder.{Digits, time_stamp, has_kind}

-- A text of this shape.
abbrev pub IsShaped : Digits → List (Option ℕ) → Text → Type 0
IsShaped is_digit [] [] = Unit
IsShaped is_digit [] (c ∷ cs) = ⊥
IsShaped is_digit (p ∷ ps) [] = ⊥
IsShaped is_digit (p ∷ ps) (c ∷ cs) = (has_kind is_digit p c ≡ true) × IsShaped is_digit ps cs

-- A log that was put aside: the stem, a dot, a time stamp, the extension, and perhaps a line break.
abbrev pub IsRotated : Digits → Text → Text → Text → Type 0
IsRotated is_digit stem ext name =
    (stamp : Text) × IsShaped is_digit time_stamp stamp
    × ((name ≡ stem ++ b'.' ∷ (stamp ++ ext))
        ⊎ (name ≡ stem ++ b'.' ∷ (stamp ++ (ext ++ b'\n' ∷ []))))
