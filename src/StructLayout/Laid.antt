-- ===== src/StructLayout/Laid.antt =====
-- Where the fields of a layout lie: inside the structure, aligned, apart from one another.
use native.Mathlib.Nat.{mod-add-mod, mod_self, mod-lt}
use public_trash.Base.{
  ℕ, ◌+◌, ◌-◌, ◌%◌, ◌≤◌, ◌<◌, ◌≡◌, ◌≢◌, refl, sym, ap, ◌∙◌, ◌⊎◌, inl, inr, true, Bool-cases, ◌==◌,
  List, [], ◌∷◌, All, Option, none, some, Result, ok, raise, ◌>>=◌, zero_division_error, arith,
}
use public_trash.Base.Dicts.{Dict, lookup, insert, All-insert}
use public_trash.Base.Texts.{Text, text_eq}
use public_trash.StructLayout.{
  Kind, bit_field, primitive, nested, undefined, Field, Layout, Parsing, BitMatch, NormalMatch,
  mask_of, add_bit_field, align, array_of, times_array, add_nested, add_primitive, add_undefined,
  add_unnested, add_typed, add_new, add_normal_field, bit_fields, normal_fields, type_sizes,
}

-- The bits that a field takes.
abbrev pub extent_of : Kind → ℕ → Option ℕ → ℕ
extent_of bit_field size array = size
extent_of primitive size array = times_array size array
extent_of (nested _ _) size array = size
extent_of (undefined _) size array = size

abbrev pub extent : Field → ℕ
extent f = extent_of f.kind f.size f.array_length

-- A field of a primitive type starts at a multiple of the element's size, a nested one at a
-- multiple of the nested structure's.
abbrev pub IsAligned : Kind → (size offset : ℕ) → Type 0
IsAligned bit_field size offset = Unit {0}
IsAligned primitive size offset = offset % size ≡ 0
IsAligned (nested _ unit) size offset = offset % unit ≡ 0
IsAligned (undefined _) size offset = Unit {0}

pub record IsLaid (total_bits : ℕ) (f : Field) : Type 0 where
  pub within : f.bit_offset + extent f ≤ total_bits
  pub aligned : IsAligned f.kind f.size f.bit_offset
  pub mask : f.mask ≡ mask_of (extent f) f.bit_offset

abbrev pub Apart : Field → Field → Type 0
Apart f g = (f.bit_offset + extent f ≤ g.bit_offset) ⊎ (g.bit_offset + extent g ≤ f.bit_offset)

-- Every field is laid in the bits so far, apart from every other.
abbrev pub AllApart : Dict Field → Type 0
AllApart [] = Unit {0}
AllApart (e ∷ d) = All (λ e'. Apart e.1 e'.1) d × AllApart d

pub record IsParsing (p : Parsing) : Type 0 where
  pub laid : All (λ e. IsLaid p.total_bits e.1) p.fields
  pub apart : AllApart p.fields

All-weaken :
    (m n : ℕ) (d : Dict Field) → m ≤ n → All (λ e. IsLaid m e.1) d → All (λ e. IsLaid n e.1) d
All-weaken m n [] le h = tt
All-weaken m n (e ∷ d) le h = (
  record { within = omega (arith, h.0.within); aligned = h.0.aligned; mask = h.0.mask },
  All-weaken m n d le h.1,
)

-- A field behind the bits so far is apart from all fields.
Apart-All :
    (total : ℕ) (f : Field) (d : Dict Field)
    → total ≤ f.bit_offset
    → All (λ e. IsLaid total e.1) d
    → All (λ e. Apart f e.1) d
Apart-All total f [] le h = tt
Apart-All total f (e ∷ d) le h = (inr (omega (arith, h.0.within)), Apart-All total f d le h.1)

All-insert-Apart :
    (g : Field) (name : Text) (f : Field) (d : Dict Field)
    → Apart g f
    → All (λ e. Apart g e.1) d
    → All (λ e. Apart g e.1) (insert name f d)
All-insert-Apart g name f d new h = All-insert (λ e. Apart g e.1) name f d (λ j. new) h

insert-apart :
    (total : ℕ) (name : Text) (f : Field) (d : Dict Field)
    → total ≤ f.bit_offset
    → All (λ e. IsLaid total e.1) d
    → AllApart d
    → AllApart (insert name f d)
unfolding insert
insert-apart total name f [] le h apart = (tt, tt)
insert-apart total name f ((j, g) ∷ d) le h apart = elim (Bool-cases (text_eq j name)) [
  | inl here ↦ rw here (Apart-All total f d le h.1, apart.1)
  | inr other ↦ rw other (
    All-insert-Apart g name f d (inl (omega (arith, h.0.within))) apart.0,
    insert-apart total name f d le h.1 apart.1,
  )
]

-- A new field from `offset` on, behind the padding.
add-IsParsing :
    (p : Parsing) (name : Text) (f : Field)
    → p.total_bits ≤ f.bit_offset
    → IsAligned f.kind f.size f.bit_offset
    → f.mask ≡ mask_of (extent f) f.bit_offset
    → IsParsing p
    → IsParsing (record { total_bits = f.bit_offset + extent f; fields = insert name f p.fields })
add-IsParsing p name f le aligned mask h =
    let end = f.bit_offset + extent f in
    record {
      laid =
          All-insert (λ e. IsLaid end e.1) name f p.fields
            (λ j. record { within = omega arith; aligned = aligned; mask = mask })
            (All-weaken p.total_bits end p.fields (omega arith) h.laid);
      apart = insert-apart p.total_bits name f p.fields le h.laid h.apart;
    }

-- The padding ends at a multiple of the unit.
pub align_lem :
    (total unit : ℕ)
    → unit ≢ 0
    → (offset : ℕ) × (align total unit ≡ ok offset) × (total ≤ offset) × (offset % unit ≡ 0)
unfolding align
align_lem total unit h =
    let rest : total % unit < unit = mod-lt total (omega arith) in
    let padded : (total + (unit - total % unit)) % unit ≡ 0 =
      sym (mod-add-mod total unit (unit - total % unit))
      ∙ ap (λ (x : ℕ). x % unit) (omega arith)
      ∙ mod_self unit in
    elim (Bool-cases (total % unit == 0)) [
      | inl fits ↦ (total, ground (arith, fits), omega arith, ground (arith, fits))
      | inr pads ↦ (total + (unit - total % unit), ground (arith, pads), omega arith, padded)
    ]

bit_field-IsParsing : (p : Parsing) (m : BitMatch) → IsParsing p → IsParsing (add_bit_field p m)
unfolding add_bit_field
bit_field-IsParsing p (dtype, name, size) h = add-IsParsing p name _ (omega arith) tt refl h

pub bit_fields-IsParsing :
    (p : Parsing) (ms : List BitMatch) → IsParsing p → IsParsing (bit_fields p ms)
unfolding bit_fields
bit_fields-IsParsing p [] h = h
bit_fields-IsParsing p (m ∷ ms) h =
    bit_fields-IsParsing (add_bit_field p m) ms (bit_field-IsParsing p m h)

-- A computation that only gives what satisfies `P`.
abbrev pub Gives {ℓ} : {A : Type ℓ} → (A → Type 0) → Result A → Type 0
Gives P (ok a) = P a
Gives P (raise e) = Unit {0}

pub bind-Gives {ℓ κ} :
    {A : Type ℓ} {B : Type κ} (P : A → Type 0) (Q : B → Type 0) (m : Result A) (f : A → Result B)
    → Gives P m
    → ((a : A) → P a → Gives Q (f a))
    → Gives Q (m >>= f)
bind-Gives P Q (ok a) f h next = next a h
bind-Gives P Q (raise e) f h next = tt

pub align_zero :
    (total unit : ℕ) → (unit == 0) ≡ true → align total unit ≡ raise zero_division_error
unfolding align
align_zero total unit h = rw h refl

align-Gives :
    (total unit : ℕ) → Gives (λ offset. (total ≤ offset) × (offset % unit ≡ 0)) (align total unit)
align-Gives total unit = elim (Bool-cases (unit == 0)) [
  | inl zero_unit ↦ rw (align_zero total unit zero_unit) tt
  | inr positive ↦
      let (offset, run, le, aligned) = align_lem total unit (ground (arith, positive)) in
      rw run (le, aligned)
]

pub Gives-any {ℓ} : {A : Type ℓ} (r : Result A) → Gives (λ _. Unit {0}) r
Gives-any (ok a) = tt
Gives-any (raise e) = tt

add_primitive-Gives :
    (p : Parsing) (m : NormalMatch) (base_size : ℕ)
    → IsParsing p
    → Gives IsParsing (add_primitive p m base_size)
unfolding add_primitive
add_primitive-Gives p m base_size h =
    bind-Gives (λ _. Unit {0}) IsParsing (array_of m.array_part) _
      (Gives-any (array_of m.array_part))
      λ array _.
        bind-Gives _ IsParsing (align p.total_bits base_size) _ (align-Gives p.total_bits base_size)
          λ offset fits. add-IsParsing p m.name _ fits.0 fits.1 refl h

add_nested-Gives :
    (p : Parsing) (m : NormalMatch) (layout : Layout)
    → IsParsing p
    → Gives IsParsing (add_nested p m layout)
unfolding add_nested
add_nested-Gives p m layout h =
    bind-Gives (λ _. Unit {0}) IsParsing (array_of m.array_part) _
      (Gives-any (array_of m.array_part))
      λ array _.
        bind-Gives _ IsParsing (align p.total_bits layout.total_bits) _
          (align-Gives p.total_bits layout.total_bits)
          λ offset fits. add-IsParsing p m.name _ fits.0 fits.1 refl h

add_undefined-IsParsing :
    (p : Parsing) (m : NormalMatch) → IsParsing p → IsParsing (add_undefined p m)
add_undefined-IsParsing p m h = record {
  laid =
      All-insert (λ e. IsLaid p.total_bits e.1) m.name _ p.fields
        (λ j. record { within = omega arith; aligned = tt; mask = omega arith }) h.laid;
  apart = insert-apart p.total_bits m.name _ p.fields (omega arith) h.laid h.apart;
}

add_unnested-Gives :
    (p : Parsing) (m : NormalMatch) (base_size : Option ℕ)
    → IsParsing p
    → Gives IsParsing (add_unnested p m base_size)
add_unnested-Gives p m none h = add_undefined-IsParsing p m h
add_unnested-Gives p m (some base_size) h = add_primitive-Gives p m base_size h

add_typed-Gives :
    (p : Parsing) (m : NormalMatch) (layout : Option Layout)
    → IsParsing p
    → Gives IsParsing (add_typed p m layout)
add_typed-Gives p m none h = add_unnested-Gives p m (lookup m.dtype type_sizes) h
add_typed-Gives p m (some layout) h = add_nested-Gives p m layout h

add_new-Gives :
    (registry : Dict Layout) (p : Parsing) (m : NormalMatch) (old : Option Field)
    → IsParsing p
    → Gives IsParsing (add_new registry p m old)
add_new-Gives registry p m (some f) h = h
add_new-Gives registry p m none h = add_typed-Gives p m (lookup m.dtype registry) h

pub normal_fields-Gives :
    (registry : Dict Layout) (p : Parsing) (ms : List NormalMatch)
    → IsParsing p
    → Gives IsParsing (normal_fields registry p ms)
unfolding normal_fields add_normal_field
normal_fields-Gives registry p [] h = h
normal_fields-Gives registry p (m ∷ ms) h =
    bind-Gives IsParsing IsParsing (add_normal_field registry p m) _
      (add_new-Gives registry p m (lookup m.name p.fields) h)
      (λ p' h'. normal_fields-Gives registry p' ms h')
