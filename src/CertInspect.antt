-- ===== src/CertInspect.antt =====
-- OLD/cert_inspect.py: the objects of a file are found and shown. What the cryptography package loads
-- is given; what is printed of an object is its kind.
pub mod Pem
pub mod Load
pub mod Texts
use public_trash.Base.{
  ℕ, zero, suc, ◌+◌, Bool, true, false, not, ◌&&◌, ◌||◌, ◌==◌, if◌then◌else◌, leb, List, [], ◌∷◌,
  ◌++◌, length, take, drop, ◌-◌, Option, none, some,
}
use public_trash.Base.Texts.{Text, codes, starts_with, is_ascii_space}

-- `[A-Z0-9 ]`.
abbrev pub is_label : ℕ → Bool
is_label c = (leb b'A' c && leb c b'Z') || ((leb b'0' c && leb c b'9') || c == b' ')

-- The longest run of such characters, and what is behind it.
unfoldable pub label_run : Text → Text × Text
label_run [] = ([], [])
label_run (c ∷ cs) =
    let (run, rest) = label_run cs in if is_label c then (c ∷ run, rest) else ([], c ∷ cs)

abbrev pub dashes : Text
dashes = codes "-----"

-- Behind the words in front: a label that is not empty, and the text behind its dashes.
abbrev pub with_dashes : Text × Text → Option (Text × Text)
with_dashes ([], rest) = none
with_dashes (c ∷ cs, rest) = if starts_with rest dashes then some (c ∷ cs, drop 5 rest) else none

-- `-----BEGIN ([A-Z0-9 ]+)-----` and `-----END ([A-Z0-9 ]+)-----`, by the words in front.
unfoldable pub match_marker : Text → Text → Option (Text × Text)
unfolding label_run
match_marker front s =
    if starts_with s front then with_dashes (label_run (drop (length front) s)) else none

abbrev pub begin_front : Text
begin_front = codes "-----BEGIN "

abbrev pub end_front : Text
end_front = codes "-----END "

-- A match: what is in front of it, its label, and what is behind it.
pub record Match : Type 0 where
  pub before : Text
  pub label : Text
  pub after : Text

abbrev in_front : ℕ → Option Match → Option Match
in_front c none = none
in_front c (some m) = some (record m { before = c ∷ m.before })

abbrev match_here : Text → Text → Option (Text × Text) → Option Match → Option Match
match_here front s none later = later
match_here front s (some (label, after)) later =
    some (record { before = []; label = label; after = after })

-- `pattern.search`: the first place where the pattern matches.
unfoldable pub search : Text → Text → Option Match
unfolding match_marker
search front [] = none
search front (c ∷ cs) =
    match_here front (c ∷ cs) (match_marker front (c ∷ cs)) (in_front c (search front cs))

-- A marker as text.
abbrev pub marker : Text → Text → Text
marker front label = front ++ (label ++ dashes)

abbrev pub until_end :
    (Text → List (Text × Text)) → Text → Match → Option Match → List (Text × Text)
until_end again raw m none = []
until_end again raw m (some m_end) =
    (m.label, take (length raw - length m.before - length m_end.after) (drop (length m.before) raw))
    ∷ again m_end.after

abbrev pub from_begin : (Text → List (Text × Text)) → Text → Option Match → List (Text × Text)
from_begin again raw none = []
from_begin again raw (some m) = until_end again raw m (search end_front m.after)

-- The loop over the text behind `pos`, on fuel: a round takes a character at least.
unfoldable pub split_from : ℕ → Text → List (Text × Text)
unfolding search
split_from zero raw = []
split_from (suc fuel) raw = from_begin (split_from fuel) raw (search begin_front raw)

unfoldable pub split_pem_blocks : Text → List (Text × Text)
unfolding split_from
split_pem_blocks raw = split_from (length raw) raw

-- `bytes.strip`.
abbrev lstrip_bytes : Text → Text
lstrip_bytes [] = []
lstrip_bytes (c ∷ cs) = if is_ascii_space c then lstrip_bytes cs else c ∷ cs

abbrev trim_byte : ℕ → Text → Text
trim_byte c [] = if is_ascii_space c then [] else c ∷ []
trim_byte c (d ∷ ds) = c ∷ d ∷ ds

abbrev rstrip_bytes : Text → Text
rstrip_bytes [] = []
rstrip_bytes (c ∷ cs) = trim_byte c (rstrip_bytes cs)

unfoldable pub is_pem : Text → Bool
is_pem raw = starts_with (lstrip_bytes (rstrip_bytes raw)) (codes "-----BEGIN")
