-- ===== src/StructLayout/Masks.antt =====
-- The masks of a structure of 64 bits at most.
use public_trash.Base.{
  ℕ, ◌+◌, ◌≤◌, ◌<◌, ◌≡◌, refl, ◌⊎◌, inl, inr, Bool-cases, ◌&&◌, if◌then◌else◌, leb, ltb, [], ◌∷◌,
  All, some, ok, arith,
}
use public_trash.Base.Bits.{bit_of, bit_of-mask}
use public_trash.Base.Dicts.{Dict}
use public_trash.StructLayout.{FieldInfo, Layout, Definition, parse_fields}
use public_trash.StructLayout.Infos.{
  or_zero, bits, IsPlaced, ApartInfo, AllApartInfo, parse_fields-IsLaidOut,
}

-- How many of the masks have bit `k`.
abbrev pub owners : ℕ → Dict FieldInfo → ℕ
owners k [] = 0
owners k (e ∷ d) = bit_of (or_zero e.1.mask) k + owners k d

-- A mask that is shown has the bits of its field.
mask_bits :
    (total k : ℕ) (i : FieldInfo)
    → total ≤ 64
    → IsPlaced total i
    → bit_of (or_zero i.mask) k
      ≡ (if leb i.bit_offset k && ltb k (i.bit_offset + bits i) then 1 else 0)
mask_bits total k i small h = elim h.mask [
  | inl hidden ↦ absurd (omega (arith, hidden.0, small))
  | inr shown ↦ rw shown (bit_of-mask (bits i) i.bit_offset k)
]

-- The fields apart from one that has the bit do not have it.
owners_apart :
    (total k : ℕ) (i : FieldInfo) (d : Dict FieldInfo)
    → total ≤ 64
    → (i.bit_offset ≤ k) × (k < i.bit_offset + bits i)
    → All (λ e. ApartInfo i e.1) d
    → All (λ e. IsPlaced total e.1) d
    → owners k d ≡ 0
owners_apart total k i [] small inside apart h = refl
owners_apart total k i (e ∷ d) small inside apart h = ground (
  arith,
  mask_bits total k e.1 small h.0,
  apart.0,
  owners_apart total k i d small inside apart.1 h.1,
)

-- At most one mask has a bit, and none has one behind the end.
owners_bounds :
    (total k : ℕ) (d : Dict FieldInfo)
    → total ≤ 64
    → All (λ e. IsPlaced total e.1) d
    → AllApartInfo d
    → (owners k d ≤ 1) × ((k < total) ⊎ (owners k d ≡ 0))
owners_bounds total k [] small h apart = (omega arith, inr refl)
owners_bounds total k (e ∷ d) small h apart =
    let (rest, outside) = owners_bounds total k d small h.1 apart.1 in
    let here = mask_bits total k e.1 small h.0 in
    let none_else = owners_apart total k e.1 d small in
    elim (Bool-cases (leb e.1.bit_offset k && ltb k (e.1.bit_offset + bits e.1))) [
      | inl inside ↦
          let inside' : (e.1.bit_offset ≤ k) × (k < e.1.bit_offset + bits e.1) =
            ground (arith, inside) in
          (
            ground (arith, here, inside, none_else inside' apart.0 h.1),
            inl (omega (arith, inside', h.0.within)),
          )
      | inr not_inside ↦
          (ground (arith, here, not_inside, rest), ground (arith, here, not_inside, outside))
    ]

-- In a layout of at most 64 bits that `_parse_struct` returns, every bit is in at most one mask,
-- and one behind the end of the structure in none.
pub parse_fields-owners :
    (registry : Dict Layout) (d : Definition) (layout : Layout) (k : ℕ)
    → parse_fields registry d ≡ ok layout
    → layout.total_bits ≤ 64
    → (fields : Dict FieldInfo) × (layout.fields_by_name ≡ some fields)
      × ((owners k fields ≤ 1) × ((k < layout.total_bits) ⊎ (owners k fields ≡ 0)))
parse_fields-owners registry d layout k parsed small =
    let laid = parse_fields-IsLaidOut registry d layout parsed in
    (
      laid.fields,
      laid.named,
      owners_bounds layout.total_bits k laid.fields small laid.placed laid.apart,
    )
