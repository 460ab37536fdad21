-- ===== src/Certificates/Load/Blocks.antt =====
-- The blocks that a text was written with are found again.
use public_trash.Base.{
  ℕ, zero, suc, ◌<◌, ◌≡◌, ◌≢◌, refl, ap, ◌∙◌, Bool, true, false, if◌then◌else◌, List, [], ◌∷◌, ◌++◌,
  map, length, length-append, drop, drop-append, All, Option, none, some, arith,
}
use public_trash.Base.Texts.{Text, starts_with, is_space}
use public_trash.Certificates.Load.{
  begin_mark, end_mark, behind_end, behind_space, match_body, match_block, find_blocks, pem_blocks,
}

-- A block as it is written, with what stands in front of it; the last character of the body is
-- apart.
pub record Written : Type 0 where
  pub before : Text
  pub first_part : Text
  pub last : ℕ

abbrev pub body : Written → Text
body b = b.first_part ++ b.last ∷ []

abbrev pub IsPlain : Text → Type 0
IsPlain s = All (λ c. c ≢ b'-') s

-- No dash inside or in front, and no white space at the end of the body.
abbrev pub IsBlock : Written → Type 0
IsBlock b = IsPlain b.before × IsPlain b.first_part × (b.last ≢ b'-') × (is_space b.last ≡ false)

abbrev pub with_end : Written → Text → Text
with_end b rest = b.first_part ++ b.last ∷ b'\n' ∷ (end_mark ++ rest)

abbrev pub written : List Written → Text → Text
written [] tail = tail
written (b ∷ bs) tail = b.before ++ (begin_mark ++ b'\n' ∷ with_end b (written bs tail))

plain_start : (c : ℕ) (cs mark : Text) → c ≢ b'-' → starts_with (c ∷ cs) (b'-' ∷ mark) ≡ false
unfolding starts_with
plain_start c cs mark h = ground (arith, h)

starts_with-append : (s t : Text) → starts_with (s ++ t) s ≡ true
unfolding starts_with
starts_with-append [] t = refl
starts_with-append (c ∷ cs) t = ground (arith, starts_with-append cs t)

either_none : (b : Bool) {o : Option Text} → o ≡ none → (if b then o else none) ≡ none
either_none true h = h
either_none false h = refl

-- Inside a body the end does not match.
behind_end-inside :
    (s : Text) (c : ℕ) (rest : Text)
    → IsPlain s
    → c ≢ b'-'
    → is_space c ≡ false
    → behind_end (s ++ c ∷ rest) ≡ none
unfolding behind_end
behind_end-inside [] c rest h plain solid =
    rw (plain_start c rest (drop 1 end_mark) plain, solid) refl
behind_end-inside (d ∷ ds) c rest h plain solid =
    rw (plain_start d (ds ++ c ∷ rest) (drop 1 end_mark) h.0)
      (either_none (is_space d) (behind_end-inside ds c rest h.1 plain solid))

behind_space-inside :
    (s : Text) (c : ℕ) (rest : Text)
    → IsPlain s
    → c ≢ b'-'
    → is_space c ≡ false
    → behind_space (s ++ c ∷ rest) ≡ none
unfolding behind_space
behind_space-inside [] c rest h plain solid = rw solid refl
behind_space-inside (d ∷ ds) c rest h plain solid =
    either_none (is_space d) (behind_end-inside ds c rest h.1 plain solid)

behind_end-mark : (rest : Text) → behind_end (end_mark ++ rest) ≡ some rest
unfolding behind_end
behind_end-mark rest =
    rw (starts_with-append end_mark rest, drop-append end_mark rest (length end_mark) refl) refl

match_body-end :
    (s : Text) (c : ℕ) (rest : Text)
    → IsPlain s
    → c ≢ b'-'
    → is_space c ≡ false
    → match_body (s ++ c ∷ b'\n' ∷ (end_mark ++ rest)) ≡ some (s ++ c ∷ [], rest)
unfolding match_body
match_body-end [] c rest h plain solid =
    let here : behind_space (b'\n' ∷ (end_mark ++ rest)) ≡ some rest =
      unfold behind_space in behind_end-mark rest in
    rw here refl
match_body-end (d ∷ ds) c rest h plain solid =
    rw
      (
        behind_space-inside ds c (b'\n' ∷ (end_mark ++ rest)) h.1 plain solid,
        match_body-end ds c rest h.1 plain solid,
      )
      refl

match_block-written :
    (b : Written) (rest : Text)
    → IsBlock b
    → match_block (begin_mark ++ b'\n' ∷ with_end b rest) ≡ some (body b, rest)
unfolding match_block
match_block-written b rest (before, first_part, plain, solid) =
    rw (starts_with-append begin_mark (b'\n' ∷ with_end b rest))
      (match_body-end b.first_part b.last rest first_part plain solid)

match_block-plain : (c : ℕ) (cs : Text) → c ≢ b'-' → match_block (c ∷ cs) ≡ none
unfolding match_block
match_block-plain c cs h = rw (plain_start c cs (drop 1 begin_mark) h) refl

find_blocks-none :
    (fuel c : ℕ) (cs : Text)
    → match_block (c ∷ cs) ≡ none
    → find_blocks (suc fuel) (c ∷ cs) ≡ find_blocks fuel cs
unfolding find_blocks
find_blocks-none fuel c cs h =
    ap (λ o. elim o [ none ↦ find_blocks fuel cs | some (b, r) ↦ b ∷ find_blocks fuel r ]) h

find_blocks-some :
    (fuel c : ℕ) (cs : Text) {found rest : Text}
    → match_block (c ∷ cs) ≡ some (found, rest)
    → find_blocks (suc fuel) (c ∷ cs) ≡ found ∷ find_blocks fuel rest
unfolding find_blocks
find_blocks-some fuel c cs h =
    ap (λ o. elim o [ none ↦ find_blocks fuel cs | some (b, r) ↦ b ∷ find_blocks fuel r ]) h

-- What stands in front of a block is passed over.
find_blocks-plain :
    (s t : Text) (fuel : ℕ)
    → IsPlain s
    → length (s ++ t) < fuel
    → (left : ℕ) × (length t < left) × (find_blocks fuel (s ++ t) ≡ find_blocks left t)
find_blocks-plain [] t fuel h enough = (fuel, enough, refl)
find_blocks-plain (c ∷ cs) t zero h enough = absurd (omega arith)
find_blocks-plain (c ∷ cs) t (suc fuel) h enough =
    let (left, more, e) = find_blocks-plain cs t fuel h.1 (omega arith) in
    (left, more, find_blocks-none fuel c (cs ++ t) (match_block-plain c (cs ++ t) h.0) ∙ e)

length-with_end : (b : Written) (rest : Text) → length rest < length (with_end b rest)
length-with_end b rest = omega (
  arith,
  length-append b.first_part (b.last ∷ b'\n' ∷ (end_mark ++ rest)),
  length-append end_mark rest,
)

find_blocks-block :
    (b : Written) (rest : Text) (fuel : ℕ)
    → IsBlock b
    → length (begin_mark ++ b'\n' ∷ with_end b rest) < fuel
    → (left : ℕ) × (length rest < left)
      × (find_blocks fuel (begin_mark ++ b'\n' ∷ with_end b rest) ≡ body b ∷ find_blocks left rest)
find_blocks-block b rest zero h enough = absurd (omega arith)
find_blocks-block b rest (suc fuel) h enough = (
  fuel,
  omega (arith, enough, length-append begin_mark (b'\n' ∷ with_end b rest), length-with_end b rest),
  find_blocks-some fuel b'-' (drop 1 begin_mark ++ b'\n' ∷ with_end b rest)
      (match_block-written b rest h),
)

find_blocks-tail : (s : Text) (fuel : ℕ) → IsPlain s → find_blocks fuel s ≡ []
find_blocks-tail s zero h = unfold find_blocks in refl
find_blocks-tail [] (suc fuel) h = unfold find_blocks in refl
find_blocks-tail (c ∷ cs) (suc fuel) h =
    find_blocks-none fuel c cs (match_block-plain c cs h.0) ∙ find_blocks-tail cs fuel h.1

find_blocks-written :
    (bs : List Written) (tail : Text) (fuel : ℕ)
    → All IsBlock bs
    → IsPlain tail
    → length (written bs tail) < fuel
    → find_blocks fuel (written bs tail) ≡ map body bs
find_blocks-written [] tail fuel h plain enough = find_blocks-tail tail fuel plain
find_blocks-written (b ∷ bs) tail fuel h plain enough =
    let rest = written bs tail in
    let (left, more, e) =
      find_blocks-plain b.before (begin_mark ++ b'\n' ∷ with_end b rest) fuel h.0.0 enough in
    let (next, some_more, f) = find_blocks-block b rest left h.0 more in
    e ∙ f ∙ ap (λ found. body b ∷ found) (find_blocks-written bs tail next h.1 plain some_more)

-- A text of blocks, whose bodies have no dash and do not end in white space, with line breaks
-- between the marks and the bodies and any text without dashes in front of each block and behind
-- the last, gives back the bodies.
pub pem_blocks-written :
    (bs : List Written) (tail : Text)
    → All IsBlock bs
    → IsPlain tail
    → pem_blocks (written bs tail) ≡ map body bs
unfolding pem_blocks
pem_blocks-written bs tail h plain =
    find_blocks-written bs tail (suc (length (written bs tail))) h plain (omega arith)
