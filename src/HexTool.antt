-- ===== src/HexTool.antt =====
-- OLD/connect.py: `hex_to_bytes` and `format_bytes_in_32bit_blocks`. The texts are ASCII.
pub mod RoundTrip
pub mod Session
use public_trash.Base.{
  ℕ, zero, suc, ◌+◌, ◌-◌, ◌*◌, ◌/◌, ◌%◌, Bool, true, false, ◌&&◌, ◌||◌, if◌then◌else◌, leb, ltb,
  List, [], ◌∷◌, ◌++◌, length, take, drop, value_error, Result, ok, raise, ◌>>=◌,
}
use public_trash.Base.Texts.{Text, codes, is_ascii_space, starts_with, join_with}
use public_trash.Base.Words.{Bytes}

-- `[0-9A-Fa-f]`, and the value of such a digit.
abbrev pub is_hex : ℕ → Bool
is_hex c = (leb b'0' c && leb c b'9') || ((leb b'A' c && leb c b'F') || (leb b'a' c && leb c b'f'))

abbrev pub hex_value : ℕ → ℕ
hex_value c = if leb c b'9' then c - b'0' else if leb c b'F' then c - b'A' + 10 else c - b'a' + 10

-- The longest run of hex digits in front, and what is behind it.
unfoldable pub hex_run : Text → Text
hex_run [] = []
hex_run (c ∷ cs) = if is_hex c then c ∷ hex_run cs else []

unfoldable pub behind_run : Text → Text
behind_run [] = []
behind_run (c ∷ cs) = if is_hex c then behind_run cs else c ∷ cs

abbrev pub is_empty : Text → Bool
is_empty [] = true
is_empty (c ∷ cs) = false

-- The text in which the group of `(?:0x)?([0-9A-Fa-f]+)` starts: behind an `0x`, if a digit is there.
unfoldable pub group_text : Text → Text
unfolding hex_run
group_text s =
    if starts_with s (b'0' ∷ b'x' ∷ [])
    then if is_empty (hex_run (drop 2 s)) then s else drop 2 s
    else s

-- `re.findall`, on fuel: each round takes a character at least.
unfoldable pub find_groups : ℕ → Text → List Text
unfolding group_text behind_run
find_groups zero s = []
find_groups (suc fuel) [] = []
find_groups (suc fuel) (c ∷ cs) =
    let group = hex_run (group_text (c ∷ cs)) in
    let skipped = find_groups fuel cs in
    let found = group ∷ find_groups fuel (behind_run (group_text (c ∷ cs))) in
    if is_empty group then skipped else found

-- `bytes.fromhex`: white space may stand between the pairs of digits.
unfoldable pub from_hex : Text → Result Bytes
from_hex [] = ok []
from_hex (c ∷ []) = if is_ascii_space c then ok [] else raise value_error
from_hex (c ∷ d ∷ cs) =
    let skipped = from_hex (d ∷ cs) in
    let paired = from_hex cs >>= λ bytes. ok ((hex_value c * 16 + hex_value d) ∷ bytes) in
    if is_ascii_space c then skipped else if is_hex c && is_hex d then paired else raise value_error

unfoldable pub hex_to_bytes : Text → Result Bytes
unfolding find_groups from_hex
hex_to_bytes s = from_hex (join_with (b' ' ∷ []) (find_groups (length s) s))

-- `"{:02x}".format(b)` for a byte.
abbrev pub hex_digit : ℕ → ℕ
hex_digit v = if ltb v 10 then b'0' + v else b'a' + (v - 10)

abbrev pub hex_byte : ℕ → Text
hex_byte b = hex_digit (b / 16) ∷ hex_digit (b % 16) ∷ []

abbrev pub hex_block : Bytes → Text
hex_block [] = []
hex_block (b ∷ bs) = hex_byte b ++ hex_block bs

-- The loop over `range(0, len(data), 4)`, on fuel: a round takes a byte at least.
unfoldable pub groups_from : ℕ → Bytes → List Text
groups_from zero bytes = []
groups_from (suc fuel) [] = []
groups_from (suc fuel) (b ∷ bs) =
    (b'0' ∷ b'x' ∷ hex_block (take 4 (b ∷ bs))) ∷ groups_from fuel (drop 4 (b ∷ bs))

unfoldable pub format_bytes_in_32bit_blocks : Bytes → Text
unfolding groups_from
format_bytes_in_32bit_blocks bytes = join_with (b' ' ∷ []) (groups_from (length bytes) bytes)
