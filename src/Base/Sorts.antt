-- ===== src/Base/Sorts.antt =====
-- Python's `sorted`, stable and by a key, over any strict order, and the orders of the keys.
use mathlib.Core.Path.{◌≡◌, refl}
use mathlib.Core.Logic.{inl, inr}
use mathlib.Core.Bool.{Bool, true, false, ◌&&◌, ◌||◌, not}
use mathlib.Core.List.{List, [], ◌∷◌, Perm}
use mathlib.Core.List.Perm
use Prim.Native.Nat.{ℕ}
use native.Mathlib.Omega.{arith}
use public_trash.Base.Lists.{All}
use public_trash.Base.Tests.{ltb, if◌then◌else◌, Bool-cases}
use public_trash.Base.Texts.{Text}

-- `lt a b` is `a < b`; what is not less is transitive.
pub record StrictOrder {ℓ} (A : Type ℓ) : Type ℓ where
  pub lt : A → A → Bool
  pub asym : (a b : A) → lt a b ≡ true → lt b a ≡ false
  pub trans : (a b c : A) → lt b a ≡ false → lt c b ≡ false → lt c a ≡ false

pub ltb-asym : (a b : ℕ) → ltb a b ≡ true → ltb b a ≡ false
ltb-asym a b h = ground arith

pub ltb_trans : (a b c : ℕ) → ltb b a ≡ false → ltb c b ≡ false → ltb c a ≡ false
ltb_trans a b c h k = ground arith

abbrev pub by_number : StrictOrder ℕ
by_number = record { lt = ltb; asym = ltb-asym; trans = ltb_trans }

-- `key=f`, and `reverse=True`, which keeps the order of what compares equal.
module _ {ℓ κ} {A : Type ℓ} {B : Type κ} where
  abbrev pub by_key : (A → B) → StrictOrder B → StrictOrder A
  by_key f o = record {
    lt = λ a b. o.lt (f a) (f b);
    asym = λ a b. o.asym (f a) (f b);
    trans = λ a b c. o.trans (f a) (f b) (f c);
  }

  -- Pairs are compared by the first of their parts that differ.
  abbrev pub pair_lt : StrictOrder A → StrictOrder B → A × B → A × B → Bool
  pair_lt o p a b = o.lt a.0 b.0 || (not (o.lt b.0 a.0) && p.lt a.1 b.1)

  pub pair_lt-asym :
      (o : StrictOrder A) (p : StrictOrder B) (a b : A × B)
      → pair_lt o p a b ≡ true
      → pair_lt o p b a ≡ false
  pair_lt-asym o p a b h = ground (arith, o.asym a.0 b.0, o.asym b.0 a.0, p.asym a.1 b.1)

  pub pair_lt_trans :
      (o : StrictOrder A) (p : StrictOrder B) (a b c : A × B)
      → pair_lt o p b a ≡ false
      → pair_lt o p c b ≡ false
      → pair_lt o p c a ≡ false
  pair_lt_trans o p a b c h k =
      ground
        (arith, o.trans a.0 b.0 c.0, o.trans b.0 c.0 a.0, o.trans c.0 a.0 b.0, p.trans a.1 b.1 c.1)

  abbrev pub by_pair : StrictOrder A → StrictOrder B → StrictOrder (A × B)
  by_pair o p = record { lt = pair_lt o p; asym = pair_lt-asym o p; trans = pair_lt_trans o p }

abbrev pub reversed {ℓ} : {A : Type ℓ} → StrictOrder A → StrictOrder A
reversed o = record {
  lt = λ a b. o.lt b a;
  asym = λ a b. o.asym b a;
  trans = λ a b c h k. o.trans c b a k h;
}

-- `<` on texts, by their code points.
unfoldable pub text_lt : Text → Text → Bool
text_lt s [] = false
text_lt [] (d ∷ ds) = true
text_lt (c ∷ cs) (d ∷ ds) = ltb c d || (not (ltb d c) && text_lt cs ds)

pub text_lt-asym : (s t : Text) → text_lt s t ≡ true → text_lt t s ≡ false
unfolding text_lt
text_lt-asym s [] h = absurd (ground (arith, h))
text_lt-asym [] (d ∷ ds) h = refl
text_lt-asym (c ∷ cs) (d ∷ ds) h = ground (arith, text_lt-asym cs ds)

pub text_lt_trans : (s t u : Text) → text_lt t s ≡ false → text_lt u t ≡ false → text_lt u s ≡ false
unfolding text_lt
text_lt_trans [] t u h k = nothing_less u
  where
    nothing_less : (u : Text) → text_lt u [] ≡ false
    nothing_less u = refl
text_lt_trans (c ∷ cs) [] u h k = absurd (ground (arith, h))
text_lt_trans (c ∷ cs) (d ∷ ds) [] h k = absurd (ground (arith, k))
text_lt_trans (c ∷ cs) (d ∷ ds) (e ∷ es) h k = ground (arith, text_lt_trans cs ds es)

abbrev pub by_text : StrictOrder Text
by_text = record { lt = text_lt; asym = text_lt-asym; trans = text_lt_trans }

module _ {ℓ} {A : Type ℓ} where
  -- What comes first of two that compare equal stays first.
  unfoldable pub insert_sorted : StrictOrder A → A → List A → List A
  insert_sorted o a [] = a ∷ []
  insert_sorted o a (b ∷ bs) =
      let rest = insert_sorted o a bs in if o.lt b a then b ∷ rest else a ∷ b ∷ bs

  unfoldable pub sort_by : StrictOrder A → List A → List A
  unfolding insert_sorted
  sort_by o [] = []
  sort_by o (a ∷ as_) = insert_sorted o a (sort_by o as_)

  -- Nothing is less than what stands in front of it.
  abbrev pub IsSorted : StrictOrder A → List A → Type ℓ
  IsSorted o [] = Unit {ℓ}
  IsSorted o (a ∷ bs) = All (λ b. o.lt b a ≡ false) bs × IsSorted o bs

  insert_sorted-perm :
      (o : StrictOrder A) (a : A) (bs : List A) → Perm (insert_sorted o a bs) (a ∷ bs)
  unfolding insert_sorted
  insert_sorted-perm o a [] = Perm.rfl
  insert_sorted-perm o a (b ∷ bs) = elim (Bool-cases (o.lt b a)) [
    | inl less ↦ rw less (Perm.trans (Perm.cons b (insert_sorted-perm o a bs)) (Perm.swap a b bs))
    | inr not_less ↦ rw not_less Perm.rfl
  ]

  pub sort_by-perm : (o : StrictOrder A) (bs : List A) → Perm (sort_by o bs) bs
  unfolding sort_by
  sort_by-perm o [] = Perm.rfl
  sort_by-perm o (b ∷ bs) =
      Perm.trans (insert_sorted-perm o b (sort_by o bs)) (Perm.cons b (sort_by-perm o bs))

  All-insert_sorted :
      (o : StrictOrder A) (c a : A) (bs : List A)
      → o.lt a c ≡ false
      → All (λ b. o.lt b c ≡ false) bs
      → All (λ b. o.lt b c ≡ false) (insert_sorted o a bs)
  unfolding insert_sorted
  All-insert_sorted o c a [] h hs = (h, tt)
  All-insert_sorted o c a (b ∷ bs) h hs = elim (Bool-cases (o.lt b a)) [
    | inl less ↦ rw less (hs.0, All-insert_sorted o c a bs h hs.1)
    | inr not_less ↦ rw not_less (h, hs)
  ]

  All-above :
      (o : StrictOrder A) (a b : A) (bs : List A)
      → o.lt b a ≡ false
      → All (λ c. o.lt c b ≡ false) bs
      → All (λ c. o.lt c a ≡ false) bs
  All-above o a b [] h hs = tt
  All-above o a b (c ∷ cs) h hs = (o.trans a b c h hs.0, All-above o a b cs h hs.1)

  insert_sorted-IsSorted :
      (o : StrictOrder A) (a : A) (bs : List A) → IsSorted o bs → IsSorted o (insert_sorted o a bs)
  unfolding insert_sorted
  insert_sorted-IsSorted o a [] h = (tt, tt)
  insert_sorted-IsSorted o a (b ∷ bs) h = elim (Bool-cases (o.lt b a)) [
    | inl less ↦
        rw less
          (All-insert_sorted o b a bs (o.asym b a less) h.0, insert_sorted-IsSorted o a bs h.1)
    | inr not_less ↦ rw not_less ((not_less, All-above o a b bs not_less h.0), h)
  ]

  pub sort_by-IsSorted : (o : StrictOrder A) (bs : List A) → IsSorted o (sort_by o bs)
  unfolding sort_by
  sort_by-IsSorted o [] = tt
  sort_by-IsSorted o (b ∷ bs) = insert_sorted-IsSorted o b (sort_by o bs) (sort_by-IsSorted o bs)
