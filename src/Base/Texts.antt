-- ===== src/Base/Texts.antt =====
-- Python's `str` as the list of its code points, with the methods that the programs call.
use Prim.Native.Nat.{ℕ, ◌≤◌}
use Prim.Native.Char.{code}
use Prim.Native.String.{String}
use mathlib.Core.Path.{◌≡◌, refl, ap, ◌∙◌}
use mathlib.Core.Logic.{◌≢◌, ◌↔◌, inl, inr}
use mathlib.Core.Bool.{Bool, true, false, ◌&&◌, ◌||◌}
use mathlib.Core.List.{List, [], ◌∷◌, ◌++◌}
use native.Mathlib.Omega.{arith}
use public_trash.Base.Lists.{length, All, All-append, All-append_left, All-append_right}
use public_trash.Base.Tests.{leb, ◌==◌, if◌then◌else◌, Bool-cases}

abbrev pub Text : Type 0
Text = List ℕ

-- The code points of a literal.
abbrev pub codes : String → Text
codes String.[] = []
codes (String.◌∷◌ c s) = code c ∷ codes s

-- `==` on texts.
unfoldable pub text_eq : Text → Text → Bool
text_eq [] [] = true
text_eq (c ∷ cs) (d ∷ ds) = c == d && text_eq cs ds
text_eq _ _ = false

pub text_eq_iff : (s t : Text) → (text_eq s t ≡ true) ↔ (s ≡ t)
unfolding text_eq
text_eq_iff [] [] = ground arith
text_eq_iff [] (d ∷ ds) = ground arith
text_eq_iff (c ∷ cs) [] = ground arith
text_eq_iff (c ∷ cs) (d ∷ ds) = ground (arith, text_eq_iff cs ds)

pub text_eq_self : (s : Text) → text_eq s s ≡ true
text_eq_self s = (text_eq_iff s s).1 refl

-- `s.startswith(t)`.
unfoldable pub starts_with : Text → Text → Bool
starts_with s [] = true
starts_with [] (d ∷ ds) = false
starts_with (c ∷ cs) (d ∷ ds) = c == d && starts_with cs ds

-- The white space of an ASCII text, for `str.strip`.
abbrev pub is_space : ℕ → Bool
is_space c = (leb 9 c && leb c 13) || ((leb 28 c && leb c 31) || c == 32)

-- The white space of `bytes.strip` and `bytes.fromhex`.
abbrev pub is_ascii_space : ℕ → Bool
is_ascii_space c = (leb 9 c && leb c 13) || c == 32

unfoldable pub lstrip : Text → Text
lstrip [] = []
lstrip (c ∷ cs) = if is_space c then lstrip cs else c ∷ cs

abbrev pub trim : ℕ → Text → Text
trim c [] = if is_space c then [] else c ∷ []
trim c (d ∷ ds) = c ∷ d ∷ ds

unfoldable pub rstrip : Text → Text
rstrip [] = []
rstrip (c ∷ cs) = trim c (rstrip cs)

unfoldable pub strip : Text → Text
unfolding lstrip rstrip
strip s = lstrip (rstrip s)

-- `s.split(sep)` for one character: the first part grows by the character in front.
abbrev pub grow : ℕ → List Text → List Text
grow c [] = (c ∷ []) ∷ []
grow c (p ∷ ps) = (c ∷ p) ∷ ps

unfoldable pub split : ℕ → Text → List Text
split sep [] = [] ∷ []
split sep (c ∷ cs) = if c == sep then [] ∷ split sep cs else grow c (split sep cs)

-- `sep.join(parts)`.
unfoldable pub join_with : Text → List Text → Text
join_with sep [] = []
join_with sep (p ∷ []) = p
join_with sep (p ∷ q ∷ qs) = p ++ (sep ++ join_with sep (q ∷ qs))

pub split_some : (sep : ℕ) (s : Text) → 1 ≤ length (split sep s)
unfolding split
split_some sep [] = omega arith
split_some sep (c ∷ cs) = elim (Bool-cases (c == sep)) [
  | inl here ↦ rw here (omega arith)
  | inr other ↦ rw other (grown (split sep cs))
]
  where
    grown : (ps : List Text) → 1 ≤ length (grow c ps)
    grown [] = omega arith
    grown (p ∷ ps) = omega arith

join-grow : (sep : Text) (c : ℕ) (ps : List Text) → join_with sep (grow c ps) ≡ c ∷ join_with sep ps
unfolding join_with
join-grow sep c [] = refl
join-grow sep c (p ∷ []) = refl
join-grow sep c (p ∷ q ∷ qs) = refl

join-nil :
    (sep : Text) (ps : List Text)
    → 1 ≤ length ps
    → join_with sep ([] ∷ ps) ≡ sep ++ join_with sep ps
unfolding join_with
join-nil sep [] h = absurd (omega arith)
join-nil sep (p ∷ ps) h = refl

-- The parts of a split are joined to the text again.
pub join_with-split : (sep : ℕ) (s : Text) → join_with (sep ∷ []) (split sep s) ≡ s
unfolding split
join_with-split sep [] = unfold join_with in refl
join_with-split sep (c ∷ cs) = elim (Bool-cases (c == sep)) [
  | inl here ↦ rw here (
      join-nil (sep ∷ []) (split sep cs) (split_some sep cs)
      ∙ ap (◌∷◌ sep) (join_with-split sep cs)
      ∙ ap (λ d. d ∷ cs) (ground (arith, here)))
  | inr other ↦
      rw other (join-grow (sep ∷ []) c (split sep cs) ∙ ap (◌∷◌ c) (join_with-split sep cs))
]

-- A text without this character is one part; behind it the next part starts.
pub split_one : (sep : ℕ) (s : Text) → All (λ c. c ≢ sep) s → split sep s ≡ s ∷ []
unfolding split
split_one sep [] h = refl
split_one sep (c ∷ cs) h =
    let other : (c == sep) ≡ false = ground (arith, h.0) in rw (other, split_one sep cs h.1) refl

pub split-append :
    (sep : ℕ) (s t : Text) → All (λ c. c ≢ sep) s → split sep (s ++ sep ∷ t) ≡ s ∷ split sep t
unfolding split
split-append sep [] t h = let here : (sep == sep) ≡ true = ground arith in rw here refl
split-append sep (c ∷ cs) t h =
    let other : (c == sep) ≡ false = ground (arith, h.0) in
    rw (other, split-append sep cs t h.1) refl

-- Parts without the separator are split again behind a join.
pub split-join_with :
    (sep : ℕ) (p : Text) (ps : List Text)
    → All (All (λ c. c ≢ sep)) (p ∷ ps)
    → split sep (join_with (sep ∷ []) (p ∷ ps)) ≡ p ∷ ps
unfolding join_with
split-join_with sep p [] h = split_one sep p h.0
split-join_with sep p (q ∷ qs) h =
    split-append sep p (join_with (sep ∷ []) (q ∷ qs)) h.0
    ∙ ap (◌∷◌ p) (split-join_with sep q qs h.1)

-- A predicate on the characters of a joined text holds of those of the parts, and back.
pub join_with-parts {κ} :
    (P : ℕ → Type κ) (sep : Text) (ps : List Text) → All P (join_with sep ps) → All (All P) ps
unfolding join_with
join_with-parts P sep [] h = tt
join_with-parts P sep (p ∷ []) h = (h, tt)
join_with-parts P sep (p ∷ q ∷ qs) h = (
  All-append_left P p (sep ++ join_with sep (q ∷ qs)) h,
  join_with-parts P sep (q ∷ qs) (
      All-append_right P sep (join_with sep (q ∷ qs))
        (All-append_right P p (sep ++ join_with sep (q ∷ qs)) h)),
)

pub join_with-All {κ} :
    (P : ℕ → Type κ) (sep : Text) (ps : List Text)
    → All P sep
    → All (All P) ps
    → All P (join_with sep ps)
unfolding join_with
join_with-All P sep [] k h = tt
join_with-All P sep (p ∷ []) k h = h.0
join_with-All P sep (p ∷ q ∷ qs) k h =
    All-append P p (sep ++ join_with sep (q ∷ qs)) h.0
      (All-append P sep (join_with sep (q ∷ qs)) k (join_with-All P sep (q ∷ qs) k h.1))
