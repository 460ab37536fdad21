-- ===== src/Examples/Folders.antt =====
-- Log files and the history of a repository at concrete inputs.
use public_trash.Base.{
  ℕ, Bool, true, ◌≡◌, refl, leb, ◌&&◌, if◌then◌else◌, List, [], ◌∷◌, get_elem?, none, some,
}
use public_trash.Base.Sorts.{sort_by, text_lt}
use public_trash.Base.Texts.{Text, codes, text_eq, starts_with}
use public_trash.LogFinder.{Listing, is_log, find_matching_logs, extract_timestamp}
use public_trash.HistoryRewriter.{Git, main}
use public_trash.HistoryRewriter.Safety.{Outcome, main-Outcome}

-- Two directories, with the log, two that were put aside, and another file.
abbrev is_ascii_digit : ℕ → Bool
is_ascii_digit c = leb 48 c && leb c 57

abbrev logs_listing : Listing
logs_listing directory =
    if text_eq directory (codes ".")
    then some (codes "client.2024.01.02_03.04.05.log" ∷ codes "client.log" ∷ [])
    else if text_eq directory (codes "logs")
    then some (codes "client.log.txt" ∷ codes "client.2025.01.02_03.04.05.log" ∷ [])
    else none

logs_found :
    find_matching_logs is_ascii_digit logs_listing (codes ".") (codes "client.log")
    ≡ (codes ".", codes "client.log")
      ∷ (codes "logs", codes "client.2025.01.02_03.04.05.log")
      ∷ (codes ".", codes "client.2024.01.02_03.04.05.log")
      ∷ []
unfolding find_matching_logs text_eq sort_by is_log starts_with text_lt extract_timestamp
logs_found = refl

-- A repository whose user is set.
abbrev answers : List Text
answers = codes "/work\n" ∷ codes "/work\n" ∷ codes "Ann\n" ∷ codes "ann@example.com\n" ∷ [] ∷ []

abbrev some_git : Git
some_git = record { which = true; answer = λ n call. get_elem? answers n }

main-Outcome_example : Outcome some_git (codes "/work/sub") (main some_git (codes "/work/sub") [])
main-Outcome_example = main-Outcome some_git (codes "/work/sub")
