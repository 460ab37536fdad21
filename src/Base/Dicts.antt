-- ===== src/Base/Dicts.antt =====
-- Python's `dict` with texts as keys, in the order of insertion.
use mathlib.Core.Path.{◌≡◌, refl}
use mathlib.Core.Logic.{inl, inr}
use mathlib.Core.Bool.{Bool, true, false}
use mathlib.Core.Option.{Option, none, some}
use mathlib.Core.List.{List, [], ◌∷◌}
use native.Mathlib.Omega.{arith}
use public_trash.Base.Lists.{All}
use public_trash.Base.Tests.{if◌then◌else◌, Bool-cases}
use public_trash.Base.Texts.{Text, text_eq, text_eq_iff}

abbrev pub Dict {ℓ} : Type ℓ → Type ℓ
Dict V = List (Text × V)

module _ {ℓ} {V : Type ℓ} where
  unfoldable pub lookup : Text → Dict V → Option V
  lookup k [] = none
  lookup k ((j, v) ∷ d) = if text_eq j k then some v else lookup k d

  -- `d[k] = v`: a key that is there keeps its place.
  unfoldable pub insert : Text → V → Dict V → Dict V
  insert k v [] = (k, v) ∷ []
  insert k v ((j, w) ∷ d) = if text_eq j k then (j, v) ∷ d else (j, w) ∷ insert k v d

  -- `k in d`.
  unfoldable pub contains : Text → Dict V → Bool
  unfolding lookup
  contains k d = elim (lookup k d) [ none ↦ false | some _ ↦ true ]

  pub lookup-insert :
      (k j : Text) (v : V) (d : Dict V)
      → lookup j (insert k v d) ≡ (if text_eq k j then some v else lookup j d)
  unfolding lookup insert
  lookup-insert k j v [] = refl
  lookup-insert k j v ((i, w) ∷ d) =
      ground (arith, text_eq_iff k j, text_eq_iff i k, text_eq_iff i j, lookup-insert k j v d)

  -- What holds of every entry, and of a new one.
  pub All-insert {κ} :
      (P : Text × V → Type κ) (k : Text) (v : V) (d : Dict V)
      → ((j : Text) → P (j, v))
      → All P d
      → All P (insert k v d)
  unfolding insert
  All-insert P k v [] new h = (new k, tt)
  All-insert P k v ((j, w) ∷ d) new h = elim (Bool-cases (text_eq j k)) [
    | inl here ↦ rw here (new j, h.1)
    | inr other ↦ rw other (h.0, All-insert P k v d new h.1)
  ]
