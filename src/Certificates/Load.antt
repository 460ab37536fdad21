-- ===== src/Certificates/Load.antt =====
-- OLD/check_certs.py: the candidates of a file, from the blocks of its text or else from its bytes.
-- `base64.b64decode` and what the package loads are given; white space is that of an ASCII text.
pub mod Blocks
pub mod Errors
use public_trash.Base.{
  ℕ, zero, suc, Bool, true, false, if◌then◌else◌, List, [], ◌∷◌, ◌++◌, length, drop, Option, none,
  some, Exception, binascii_error, Result, ok, raise, ◌>>=◌,
}
use public_trash.Base.Words.{Bytes}
use public_trash.Base.Texts.{Text, codes, starts_with, is_space, strip}
use public_trash.Certificates.{Parser, File}

abbrev pub begin_mark : Text
begin_mark = codes "-----BEGIN CERTIFICATE-----"

abbrev pub end_mark : Text
end_mark = codes "-----END CERTIFICATE-----"

-- `\s*` and the mark: what is behind them.
unfoldable pub behind_end : Text → Option Text
behind_end [] = none
behind_end (c ∷ cs) =
    let later = behind_end cs in
    if starts_with (c ∷ cs) end_mark
    then some (drop (length end_mark) (c ∷ cs))
    else if is_space c
    then later
    else none

-- `\s+?` and the mark.
unfoldable pub behind_space : Text → Option Text
unfolding behind_end
behind_space [] = none
behind_space (c ∷ cs) = if is_space c then behind_end cs else none

-- The group, `.+?`, and what is behind the match. What is in front of the first place where the end
-- matches is the group, one character at least.
abbrev pub cut_here : ℕ → Option Text → Option (Text × Text) → Option (Text × Text)
cut_here c (some rest) later = some (c ∷ [], rest)
cut_here c none none = none
cut_here c none (some (body, rest)) = some (c ∷ body, rest)

unfoldable pub match_body : Text → Option (Text × Text)
unfolding behind_space
match_body [] = none
match_body (c ∷ cs) = let later = match_body cs in cut_here c (behind_space cs) later

abbrev pub match_space : Text → Option (Text × Text)
match_space [] = none
match_space (c ∷ cs) = if is_space c then match_body cs else none

-- `PEM_BLOCK_RE` at the front of a text.
unfoldable pub match_block : Text → Option (Text × Text)
unfolding match_body
match_block s = if starts_with s begin_mark then match_space (drop (length begin_mark) s) else none

-- `PEM_BLOCK_RE.finditer`, on fuel: each step leaves a shorter text, so its length plus one is
-- enough.
unfoldable pub find_blocks : ℕ → Text → List Text
unfolding match_block
find_blocks zero s = []
find_blocks (suc fuel) [] = []
find_blocks (suc fuel) (c ∷ cs) =
    let next = find_blocks fuel cs in
    elim (match_block (c ∷ cs)) [ none ↦ next | some (body, rest) ↦ body ∷ find_blocks fuel rest ]

unfoldable pub pem_blocks : Text → List Text
unfolding find_blocks
pem_blocks text = find_blocks (suc (length text)) text

-- `base64.b64decode`: `binascii.Error` is caught, any other exception is not.
abbrev pub Decoder : Type 0
Decoder = Text → Result Bytes

abbrev pub is_malformed : Exception → Bool
is_malformed binascii_error = true
is_malformed _ = false

abbrev pub add_decoded : Result (List Bytes) → Result Bytes → Result (List Bytes)
add_decoded ders (ok der) = ders >>= λ rest. ok (der ∷ rest)
add_decoded ders (raise problem) = if is_malformed problem then ders else raise problem

unfoldable pub decode_blocks : Decoder → List Text → Result (List Bytes)
decode_blocks b64decode [] = ok []
decode_blocks b64decode (block ∷ bs) =
    add_decoded (decode_blocks b64decode bs) (b64decode (strip block))

unfoldable pub load_der_candidates_from_pem_text : Decoder → Text → Result (List Bytes)
unfolding pem_blocks decode_blocks
load_der_candidates_from_pem_text b64decode text = decode_blocks b64decode (pem_blocks text)

abbrev pub if_parsed {ℓ} : {A : Type ℓ} → Bytes → Option A → Option Bytes
if_parsed blob none = none
if_parsed blob (some c) = some blob

unfoldable pub try_load_single_der : Parser → Bytes → Option Bytes
try_load_single_der parse blob = if_parsed blob (parse blob)

-- A file of the walk: its path, the text it is read as, `[]` where that raises, and its bytes.
pub record Found : Type 0 where
  pub path : Text
  pub text : Text
  pub bytes : Option Bytes

abbrev pub option_list {ℓ} : {A : Type ℓ} → Option A → List A
option_list none = []
option_list (some a) = a ∷ []

abbrev pub from_bytes : Parser → Option Bytes → List Bytes
unfolding try_load_single_der
from_bytes parse none = []
from_bytes parse (some blob) = option_list (try_load_single_der parse blob)

-- The bytes are tried where the text has no candidate.
abbrev pub or_bytes : Parser → Option Bytes → List Bytes → List Bytes
or_bytes parse bytes (der ∷ ders) = der ∷ ders
or_bytes parse bytes [] = from_bytes parse bytes

unfoldable pub candidates : Decoder → Parser → Found → Result (List Bytes)
unfolding load_der_candidates_from_pem_text from_bytes
candidates b64decode parse f =
    load_der_candidates_from_pem_text b64decode f.text >>= λ ders. ok (or_bytes parse f.bytes ders)

-- The walk over the files, up to the certificates that are parsed.
unfoldable pub load_files : Decoder → Parser → List Found → Result (List File)
unfolding candidates
load_files b64decode parse [] = ok []
load_files b64decode parse (f ∷ fs) =
    let others = load_files b64decode parse fs in
    candidates b64decode parse f >>= λ ders. others >>= λ rest. ok ((f.path, ders) ∷ rest)
