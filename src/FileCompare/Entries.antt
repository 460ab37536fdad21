-- ===== src/FileCompare/Entries.antt =====
-- Dictionaries with a group for each of some texts.
use public_trash.Base.{
  ◌≡◌, refl, sym, ap, ap₂, subst, ◌∙◌, Bool, false, Bool-cases, inl, inr, ◌||◌, if◌then◌else◌, List,
  [], ◌∷◌, ◌++◌, none, some, arith,
}
use public_trash.Base.Dicts.{Dict, lookup, insert}
use public_trash.Base.Texts.{Text, text_eq, text_eq_iff}
use public_trash.FileCompare.{values}

abbrev pub member : Text → List Text → Bool
member c [] = false
member c (d ∷ ds) = text_eq d c || member c ds

abbrev pub add_new : Text → List Text → List Text
add_new c seen = if member c seen then seen else seen ++ c ∷ []

abbrev pub each : (Text → List Text) → List Text → List (List Text)
each f [] = []
each f (c ∷ cs) = f c ∷ each f cs

abbrev pub entries : (Text → List Text) → List Text → Dict (List Text)
entries f [] = []
entries f (c ∷ cs) = (c, f c) ∷ entries f cs

pub values-entries : (f : Text → List Text) (cs : List Text) → values (entries f cs) ≡ each f cs
values-entries f [] = refl
values-entries f (c ∷ cs) = ap (◌∷◌ (f c)) (values-entries f cs)

abbrev pub IsDistinct : List Text → Type 0
IsDistinct [] = Unit {0}
IsDistinct (c ∷ cs) = (member c cs ≡ false) × IsDistinct cs

pub member-append :
    (c d : Text) (cs : List Text) → member c (cs ++ d ∷ []) ≡ (member c cs || text_eq d c)
member-append c d [] = ground arith
member-append c d (e ∷ cs) = ground (arith, member-append c d cs)

append-IsDistinct :
    (c : Text) (cs : List Text) → member c cs ≡ false → IsDistinct cs → IsDistinct (cs ++ c ∷ [])
append-IsDistinct c [] new h = (refl, tt)
append-IsDistinct c (d ∷ cs) new h = (
  ground (arith, member-append d c cs, new, h.0, text_eq_iff c d, text_eq_iff d c),
  append-IsDistinct c cs (ground (arith, new)) h.1,
)

pub add_new-IsDistinct : (c : Text) (cs : List Text) → IsDistinct cs → IsDistinct (add_new c cs)
add_new-IsDistinct c cs h = elim (Bool-cases (member c cs)) [
  | inl old ↦ rw old h
  | inr new ↦ rw new (append-IsDistinct c cs new h)
]

-- How a dictionary of groups takes one more path.
pub lookup-entries :
    (f : Text → List Text) (c : Text) (cs : List Text)
    → lookup c (entries f cs) ≡ (if member c cs then some (f c) else none)
unfolding lookup
lookup-entries f c [] = refl
lookup-entries f c (d ∷ cs) = elim (Bool-cases (text_eq d c)) [
  | inl same ↦ rw (same, (text_eq_iff d c).0 same) refl
  | inr other ↦ rw other (lookup-entries f c cs)
]

same_entries :
    (f g : Text → List Text) (c : Text) (cs : List Text)
    → ((k : Text) → text_eq c k ≡ false → g k ≡ f k)
    → member c cs ≡ false
    → entries g cs ≡ entries f cs
same_entries f g c [] agree new = refl
same_entries f g c (d ∷ cs) agree new =
    ap₂ (λ x xs. (d, x) ∷ xs) (agree d (ground (arith, new, text_eq_iff c d, text_eq_iff d c)))
      (same_entries f g c cs agree (ground (arith, new)))

pub insert-entries :
    (f g : Text → List Text) (c : Text) (cs : List Text)
    → IsDistinct cs
    → ((k : Text) → text_eq c k ≡ false → g k ≡ f k)
    → insert c (g c) (entries f cs) ≡ entries g (add_new c cs)
unfolding insert
insert-entries f g c [] h agree = refl
insert-entries f g c (d ∷ cs) h agree = elim (Bool-cases (text_eq d c)) [
  | inl same ↦
      let e : d ≡ c = (text_eq_iff d c).0 same in
      rw same (
        ap₂ (λ x xs. (d, x) ∷ xs) (ap g (sym e))
          (sym (same_entries f g c cs agree (subst (λ k. member k cs ≡ false) e h.0))))
  | inr other ↦
      let rest = insert-entries f g c cs h.1 agree in
      let here : f d ≡ g d =
        sym (agree d (ground (arith, other, text_eq_iff c d, text_eq_iff d c))) in
      let kept : add_new c (d ∷ cs) ≡ d ∷ add_new c cs = elim (Bool-cases (member c cs)) [
        | inl old ↦ rw (other, old) refl
        | inr new ↦ rw (other, new) refl
      ] in
      let passed : insert c (g c) (entries f (d ∷ cs)) ≡ (d, f d) ∷ insert c (g c) (entries f cs) =
        rw other refl in
      passed ∙ ap₂ (λ x xs. (d, x) ∷ xs) here rest ∙ ap (entries g) (sym kept)
]
