-- ===== src/HexTool/RoundTrip.antt =====
-- The text of some bytes is read back; an `0x` behind digits is not.
use public_trash.Base.{
  ℕ, zero, suc, ◌+◌, ◌*◌, ◌/◌, ◌%◌, ◌≤◌, ◌<◌, ◌≡◌, refl, sym, ap, ◌∙◌, true, false, Bool-cases, inl,
  inr, if◌then◌else◌, List, [], ◌∷◌, ◌++◌, length, join, length-append, take, drop,
  take-append-drop, length-drop, All, All-append, All-take, All-drop, append_assoc, append-nil,
  value_error, ok, raise, arith,
}
use public_trash.Base.Texts.{Text, is_ascii_space, starts_with, join_with}
use public_trash.Base.Words.{Bytes, IsByte}
use public_trash.HexTool.{
  is_hex, hex_value, hex_run, behind_run, is_empty, group_text, find_groups, from_hex, hex_to_bytes,
  hex_digit, hex_block, groups_from, format_bytes_in_32bit_blocks,
}

abbrev pub IsHexDigit : ℕ → Type 0
IsHexDigit c = is_hex c ≡ true

-- A text that does not start with a hex digit.
abbrev NoDigit : Text → Type 0
NoDigit [] = Unit {0}
NoDigit (c ∷ cs) = is_hex c ≡ false

hex_run-append : (a t : Text) → All IsHexDigit a → NoDigit t → hex_run (a ++ t) ≡ a
unfolding hex_run
hex_run-append [] [] h n = refl
hex_run-append [] (c ∷ t) h n = rw n refl
hex_run-append (c ∷ a) t h n = rw (h.0, hex_run-append a t h.1 n) refl

behind_run-append : (a t : Text) → All IsHexDigit a → NoDigit t → behind_run (a ++ t) ≡ t
unfolding behind_run
behind_run-append [] [] h n = refl
behind_run-append [] (c ∷ t) h n = rw n refl
behind_run-append (c ∷ a) t h n = rw (h.0) (behind_run-append a t h.1 n)

-- An `0x` and digits in front.
find_prefixed :
    (fuel d : ℕ) (a t : Text)
    → All IsHexDigit (d ∷ a)
    → NoDigit t
    → find_groups (suc fuel) (b'0' ∷ b'x' ∷ d ∷ (a ++ t)) ≡ (d ∷ a) ∷ find_groups fuel t
unfolding find_groups group_text starts_with
find_prefixed fuel d a t h n = simp (h.0, hex_run-append a t h.1 n, behind_run-append a t h.1 n)

-- A space is skipped.
find_space : (fuel : ℕ) (t : Text) → find_groups (suc fuel) (b' ' ∷ t) ≡ find_groups fuel t
unfolding find_groups group_text starts_with hex_run
find_space fuel t = refl

abbrev prefixed : List Text → List Text
prefixed [] = []
prefixed (g ∷ gs) = (b'0' ∷ b'x' ∷ g) ∷ prefixed gs

-- Hex digits, at least one.
abbrev IsGroup : Text → Type 0
IsGroup g = All IsHexDigit g × (1 ≤ length g)

find_joined :
    (fuel : ℕ) (gs : List Text)
    → All IsGroup gs
    → length (join_with (b' ' ∷ []) (prefixed gs)) ≤ fuel
    → find_groups fuel (join_with (b' ' ∷ []) (prefixed gs)) ≡ gs
unfolding join_with
find_joined zero [] h enough = unfold find_groups in refl
find_joined (suc fuel) [] h enough = unfold find_groups in refl
find_joined fuel ([] ∷ gs) h enough = absurd (omega (arith, h.0.1))
find_joined zero ((d ∷ a) ∷ []) h enough = absurd (omega arith)
find_joined zero ((d ∷ a) ∷ g ∷ gs) h enough = absurd (omega arith)
find_joined (suc fuel) ((d ∷ a) ∷ []) h enough =
    ap (λ x. find_groups (suc fuel) (b'0' ∷ b'x' ∷ d ∷ x)) (sym (append-nil a))
    ∙ find_prefixed fuel d a [] h.0.0 tt
    ∙ ap (◌∷◌ (d ∷ a)) (no_groups fuel)
  where
    no_groups : (n : ℕ) → find_groups n [] ≡ []
    no_groups zero = unfold find_groups in refl
    no_groups (suc n) = unfold find_groups in refl
find_joined (suc zero) ((d ∷ a) ∷ g ∷ gs) h enough = absurd (omega arith)
find_joined (suc (suc fuel)) ((d ∷ a) ∷ g ∷ gs) h enough =
    let behind = join_with (b' ' ∷ []) (prefixed (g ∷ gs)) in
    find_prefixed (suc fuel) d a (b' ' ∷ behind) h.0.0 refl
    ∙ ap (◌∷◌ (d ∷ a)) (
        find_space fuel behind
        ∙ find_joined fuel (g ∷ gs) h.1 (omega (arith, enough, length-append a (b' ' ∷ behind))))

digit_facts :
    (v : ℕ)
    → v < 16
    → (is_hex (hex_digit v) ≡ true)
      × (hex_value (hex_digit v) ≡ v)
      × (is_ascii_space (hex_digit v) ≡ false)
digit_facts v h = (ground arith, ground arith, ground arith)

hex_block-IsHexDigit : (bs : Bytes) → All IsByte bs → All IsHexDigit (hex_block bs)
hex_block-IsHexDigit [] h = tt
hex_block-IsHexDigit (b ∷ bs) h = (
  (digit_facts (b / 16) (omega (arith, h.0))).0,
  ((digit_facts (b % 16) (omega arith)).0, hex_block-IsHexDigit bs h.1),
)

-- The digits of some bytes in front.
from_hex-hex_block :
    (bs : Bytes) (t : Text) (r : Bytes)
    → All IsByte bs
    → from_hex t ≡ ok r
    → from_hex (hex_block bs ++ t) ≡ ok (bs ++ r)
unfolding from_hex
from_hex-hex_block [] t r h e = e
from_hex-hex_block (b ∷ bs) t r h e =
    let hi = digit_facts (b / 16) (omega (arith, h.0)) in
    let lo = digit_facts (b % 16) (omega arith) in
    let whole : b / 16 * 16 + b % 16 ≡ b = omega arith in
    rw (hi.2, hi.0, lo.0, from_hex-hex_block bs t r h.1 e, hi.1, lo.1, whole) refl

from_hex-space : (t : Text) → from_hex (b' ' ∷ t) ≡ from_hex t
unfolding from_hex
from_hex-space [] = refl
from_hex-space (c ∷ t) = refl

abbrev digits_of : List Bytes → List Text
digits_of [] = []
digits_of (b ∷ bs) = hex_block b ∷ digits_of bs

from_hex-joined :
    (blocks : List Bytes)
    → All (All IsByte) blocks
    → from_hex (join_with (b' ' ∷ []) (digits_of blocks)) ≡ ok (join blocks)
unfolding join_with
from_hex-joined [] h = unfold from_hex in refl
from_hex-joined (b ∷ []) h =
    ap from_hex (sym (append-nil (hex_block b)))
    ∙ from_hex-hex_block b [] [] h.0 (unfold from_hex in refl)
from_hex-joined (b ∷ c ∷ blocks) h =
    from_hex-hex_block b (b' ' ∷ join_with (b' ' ∷ []) (digits_of (c ∷ blocks))) (join (c ∷ blocks))
      h.0
      (from_hex-space (join_with (b' ' ∷ []) (digits_of (c ∷ blocks)))
        ∙ from_hex-joined (c ∷ blocks) h.1)

-- The blocks of four bytes.
abbrev blocks_from : ℕ → Bytes → List Bytes
blocks_from zero bs = []
blocks_from (suc fuel) [] = []
blocks_from (suc fuel) (b ∷ bs) = take 4 (b ∷ bs) ∷ blocks_from fuel (drop 4 (b ∷ bs))

groups_from-blocks :
    (fuel : ℕ) (bs : Bytes) → groups_from fuel bs ≡ prefixed (digits_of (blocks_from fuel bs))
unfolding groups_from
groups_from-blocks zero bs = refl
groups_from-blocks (suc fuel) [] = refl
groups_from-blocks (suc fuel) (b ∷ bs) = rw (groups_from-blocks fuel (drop 3 bs)) refl

join-blocks_from : (fuel : ℕ) (bs : Bytes) → length bs ≤ fuel → join (blocks_from fuel bs) ≡ bs
join-blocks_from zero [] h = refl
join-blocks_from zero (b ∷ bs) h = absurd (omega arith)
join-blocks_from (suc fuel) [] h = refl
join-blocks_from (suc fuel) (b ∷ bs) h =
    ap (◌++◌ (take 4 (b ∷ bs)))
      (join-blocks_from fuel (drop 3 bs) (omega (arith, length-drop 3 bs)))
    ∙ take-append-drop 4 (b ∷ bs)

blocks_from-IsByte :
    (fuel : ℕ) (bs : Bytes) → All IsByte bs → All (All IsByte) (blocks_from fuel bs)
blocks_from-IsByte zero bs h = tt
blocks_from-IsByte (suc fuel) [] h = tt
blocks_from-IsByte (suc fuel) (b ∷ bs) h =
    (All-take IsByte 4 (b ∷ bs) h, blocks_from-IsByte fuel (drop 3 bs) (All-drop IsByte 3 bs h.1))

blocks_from-IsGroup :
    (fuel : ℕ) (bs : Bytes) → All IsByte bs → All IsGroup (digits_of (blocks_from fuel bs))
blocks_from-IsGroup zero bs h = tt
blocks_from-IsGroup (suc fuel) [] h = tt
blocks_from-IsGroup (suc fuel) (b ∷ bs) h = (
  (hex_block-IsHexDigit (take 4 (b ∷ bs)) (All-take IsByte 4 (b ∷ bs) h), omega arith),
  blocks_from-IsGroup fuel (drop 3 bs) (All-drop IsByte 3 bs h.1),
)

-- Bytes that are written in blocks of 32 bits are read back by `hex_to_bytes`.
pub hex_to_bytes-format_bytes_in_32bit_blocks :
    (bytes : Bytes)
    → All IsByte bytes
    → hex_to_bytes (format_bytes_in_32bit_blocks bytes) ≡ ok bytes
unfolding hex_to_bytes format_bytes_in_32bit_blocks
hex_to_bytes-format_bytes_in_32bit_blocks bytes h =
    let blocks = blocks_from (length bytes) bytes in
    rw
      (
        groups_from-blocks (length bytes) bytes,
        find_joined (length (join_with (b' ' ∷ []) (prefixed (digits_of blocks))))
            (digits_of blocks) (blocks_from-IsGroup (length bytes) bytes h) (omega arith),
      )
      (from_hex-joined blocks (blocks_from-IsByte (length bytes) bytes h)
        ∙ ap ok (join-blocks_from (length bytes) bytes (omega arith)))

-- White space is no digit.
space_no_digit : (c : ℕ) → is_hex c ≡ true → is_ascii_space c ≡ false
space_no_digit c h = ground arith

-- Pairs of digits in front of a lone one.
lone_digit :
    (n : ℕ) (a : Text) (c : ℕ) (t : Text)
    → All IsHexDigit a
    → length a ≡ n * 2
    → IsHexDigit c
    → from_hex (a ++ c ∷ b' ' ∷ t) ≡ raise value_error
unfolding from_hex
lone_digit n [] c t h even hc = rw (space_no_digit c hc, hc) refl
lone_digit n (x ∷ []) c t h even hc = absurd (omega arith)
lone_digit zero (x ∷ y ∷ a) c t h even hc = absurd (omega arith)
lone_digit (suc n) (x ∷ y ∷ a) c t h even hc =
    rw (space_no_digit x h.0, h.0, h.1.0, lone_digit n a c t h.1.1 (omega arith) hc) refl

group_text_some :
    (c : ℕ) (t : Text) → IsHexDigit c → is_empty (hex_run (group_text (c ∷ t))) ≡ false
unfolding group_text
group_text_some c t h = elim (Bool-cases (starts_with (c ∷ t) (b'0' ∷ b'x' ∷ []))) [
  | inr plain ↦ rw plain (some_run c t h)
  | inl prefix ↦ elim (Bool-cases (is_empty (hex_run (drop 2 (c ∷ t))))) [
    | inl no_run ↦ rw (prefix, no_run) (some_run c t h)
    | inr run ↦ rw (prefix, run) run
  ]
]
  where
    some_run : (c : ℕ) (t : Text) → is_hex c ≡ true → is_empty (hex_run (c ∷ t)) ≡ false
    some_run c t h = rw h refl

-- A digit behind an `x` that is behind other digits starts a group.
find_behind_x :
    (fuel c : ℕ) (t : Text)
    → IsHexDigit c
    → (g : Text) × (gs : List Text) × (find_groups (suc (suc fuel)) (b'x' ∷ c ∷ t) ≡ g ∷ gs)
unfolding find_groups starts_with
find_behind_x fuel c t h = (
  hex_run (group_text (c ∷ t)),
  find_groups fuel (behind_run (group_text (c ∷ t))),
  ap
      (λ b.
        if b
        then find_groups fuel t
        else hex_run (group_text (c ∷ t)) ∷ find_groups fuel (behind_run (group_text (c ∷ t))))
      (group_text_some c t h),
)

-- Both words, with the first split as the regular expression does.
joined_groups :
    (d : ℕ) (a : Text) (c : ℕ) (t : Text) (fuel : ℕ)
    → All IsHexDigit (d ∷ a)
    → IsHexDigit c
    → (g : Text) × (gs : List Text) × (find_groups
          (suc (suc (suc fuel)))
          (b'0' ∷ b'x' ∷ d ∷ (a ++ b'x' ∷ c ∷ t))
        ≡ (d ∷ a) ∷ g ∷ gs)
joined_groups d a c t fuel h hc =
    let (g, gs, run) = find_behind_x fuel c t hc in
    (g, gs, find_prefixed (suc (suc fuel)) d a (b'x' ∷ c ∷ t) h refl ∙ ap (◌∷◌ (d ∷ a)) run)

-- `0x`, an even number of hex digits, `0x` and a hex digit, with nothing between them and
-- anything behind, raise `ValueError`.
pub hex_to_bytes_joined :
    (m : ℕ) (a : Text) (c : ℕ) (t : Text)
    → All IsHexDigit a
    → length a ≡ m * 2
    → IsHexDigit c
    → hex_to_bytes (b'0' ∷ b'x' ∷ (a ++ b'0' ∷ b'x' ∷ c ∷ t)) ≡ raise value_error
unfolding hex_to_bytes join_with
hex_to_bytes_joined m [] c t ha even hc =
    let (g, gs, run) = joined_groups b'0' [] c t (suc (suc (length t))) (refl, tt) hc in
    rw run (lone_digit 0 [] b'0' (join_with (b' ' ∷ []) (g ∷ gs)) tt refl refl)
hex_to_bytes_joined m (x ∷ a) c t ha even hc =
    let (g, gs, run) =
      joined_groups x (a ++ b'0' ∷ []) c t (length (a ++ b'0' ∷ b'x' ∷ c ∷ t))
        (ha.0, All-append IsHexDigit a (b'0' ∷ []) ha.1 (refl, tt)) hc in
    let behind = join_with (b' ' ∷ []) (g ∷ gs) in
    ap
      (λ y. from_hex (
        join_with (b' ' ∷ []) (
          find_groups (suc (suc (suc (length (a ++ b'0' ∷ b'x' ∷ c ∷ t))))) (b'0' ∷ b'x' ∷ x ∷ y))))
      (sym (append_assoc a (b'0' ∷ []) (b'x' ∷ c ∷ t)))
    ∙ rw run (
        ap (λ y. from_hex (x ∷ y)) (append_assoc a (b'0' ∷ []) (b' ' ∷ behind))
        ∙ lone_digit m (x ∷ a) b'0' behind ha even refl)
