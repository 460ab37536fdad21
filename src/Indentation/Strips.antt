-- ===== src/Indentation/Strips.antt =====
-- `strip` of a text that is stripped, and of one behind spaces.
use public_trash.Base.{
  ℕ, zero, suc, ◌≡◌, refl, ap, ◌∙◌, Bool-cases, inl, inr, [], ◌∷◌, ◌++◌, replicate, arith,
}
use public_trash.Base.Texts.{Text, is_space, lstrip, trim, rstrip, strip}

lstrip-trim_space : (y : Text) → lstrip (trim b' ' y) ≡ lstrip y
unfolding lstrip
lstrip-trim_space [] = refl
lstrip-trim_space (d ∷ ds) = refl

-- Behind spaces.
pub strip-spaces : (n : ℕ) (s : Text) → strip (replicate n b' ' ++ s) ≡ strip s
unfolding strip rstrip
strip-spaces zero s = refl
strip-spaces (suc n) s = lstrip-trim_space (rstrip (replicate n b' ' ++ s)) ∙ strip-spaces n s

lstrip-lstrip : (s : Text) → lstrip (lstrip s) ≡ lstrip s
unfolding lstrip
lstrip-lstrip [] = refl
lstrip-lstrip (c ∷ cs) = elim (Bool-cases (is_space c)) [
  | inl space ↦ rw space (lstrip-lstrip cs)
  | inr other ↦ rw (other, other) refl
]

trim-trim : (c : ℕ) (y : Text) → rstrip y ≡ y → rstrip (trim c y) ≡ trim c y
unfolding rstrip
trim-trim c [] h = elim (Bool-cases (is_space c)) [
  | inl space ↦ rw space refl
  | inr other ↦ rw (other, other) refl
]
trim-trim c (d ∷ ds) h = ap (trim c) h

rstrip-rstrip : (s : Text) → rstrip (rstrip s) ≡ rstrip s
unfolding rstrip
rstrip-rstrip [] = refl
rstrip-rstrip (c ∷ cs) = trim-trim c (rstrip cs) (rstrip-rstrip cs)

abbrev tail : Text → Text
tail [] = []
tail (c ∷ cs) = cs

-- A text with no space behind has none behind its first character.
trim_tail : (c : ℕ) (y cs : Text) → trim c y ≡ c ∷ cs → y ≡ cs
trim_tail c (d ∷ ds) cs h = ap tail h
trim_tail c [] cs h = elim (Bool-cases (is_space c)) [
  | inl space ↦ absurd (ground (arith, rw space at h))
  | inr other ↦ ap tail (rw other at h)
]

rstrip-lstrip : (s : Text) → rstrip s ≡ s → rstrip (lstrip s) ≡ lstrip s
unfolding lstrip
rstrip-lstrip [] h = unfold rstrip in refl
rstrip-lstrip (c ∷ cs) h = elim (Bool-cases (is_space c)) [
  | inl space ↦ rw space (rstrip-lstrip cs (trim_tail c (rstrip cs) cs (unfold rstrip in h)))
  | inr other ↦ rw other h
]

-- A second time.
pub strip-strip : (s : Text) → strip (strip s) ≡ strip s
unfolding strip
strip-strip s = ap lstrip (rstrip-lstrip (rstrip s) (rstrip-rstrip s)) ∙ lstrip-lstrip (rstrip s)
