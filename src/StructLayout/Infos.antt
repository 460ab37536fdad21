-- ===== src/StructLayout/Infos.antt =====
-- What a parsed layout tells of its fields.
use public_trash.Base.{
  ℕ, ◌+◌, ◌≤◌, ◌<◌, ◌≡◌, refl, ap, subst, ◌∙◌, ◌⊎◌, inl, inr, Bool-cases, if◌then◌else◌, leb, [],
  ◌∷◌, All, Option, none, some, ok, arith,
}
use public_trash.Base.Dicts.{Dict}
use public_trash.Base.Texts.{Text}
use public_trash.StructLayout.{
  Kind, bit_field, primitive, nested, undefined, Field, FieldInfo, Layout, Parsing, mask_of,
  bit_fields, normal_fields, field_info, field_infos, info_of_kind, common_info, Definition,
  extract_struct_name, parse_fields,
}
use public_trash.StructLayout.Laid.{
  extent_of, IsAligned, IsLaid, Apart, AllApart, IsParsing, Gives, Gives-any, bind-Gives,
  bit_fields-IsParsing, normal_fields-Gives,
}

abbrev pub or_zero : Option ℕ → ℕ
or_zero none = 0
or_zero (some n) = n

-- The bits that a field takes, and the unit of its elements, by the keys of its `field_info`.
abbrev pub bits : FieldInfo → ℕ
bits i = elim i.kind [
  | bit_field ↦ or_zero i.bit_width
  | primitive ↦ elim i.array_length [ none ↦ or_zero i.size | some n ↦ or_zero i.total_bits ]
  | nested _ _ ↦ or_zero i.total_bits
  | undefined _ ↦ or_zero i.total_bits
]

abbrev pub unit : FieldInfo → ℕ
unit i = elim i.array_length [ none ↦ or_zero i.size | some n ↦ or_zero i.element_size ]

pub record IsPlaced (total_bits : ℕ) (i : FieldInfo) : Type 0 where
  pub within : i.bit_offset + bits i ≤ total_bits
  pub aligned : IsAligned i.kind (unit i) i.bit_offset
  pub mask : ((64 < total_bits) × (i.mask ≡ none)) ⊎ (i.mask ≡ some (mask_of (bits i) i.bit_offset))

abbrev pub ApartInfo : FieldInfo → FieldInfo → Type 0
ApartInfo i j = (i.bit_offset + bits i ≤ j.bit_offset) ⊎ (j.bit_offset + bits j ≤ i.bit_offset)

abbrev pub AllApartInfo : Dict FieldInfo → Type 0
AllApartInfo [] = Unit {0}
AllApartInfo (e ∷ d) = All (λ e'. ApartInfo e.1 e'.1) d × AllApartInfo d

-- Every field is placed, and any two are apart.
pub record IsLaidOut (layout : Layout) : Type 0 where
  pub fields : Dict FieldInfo
  pub named : layout.fields_by_name ≡ some fields
  pub placed : All (λ e. IsPlaced layout.total_bits e.1) fields
  pub apart : AllApartInfo fields

abbrev HasMask : ℕ → ℕ → Option ℕ → Type 0
HasMask total mask shown = ((64 < total) × (shown ≡ none)) ⊎ (shown ≡ some mask)

common_mask : (total mask : ℕ) → HasMask total mask (if leb total 64 then some mask else none)
common_mask total mask = elim (Bool-cases (leb total 64)) [
  | inl small ↦ rw small (inr refl)
  | inr large ↦ rw large (inl (ground (arith, large), refl))
]

-- What a `field_info` tells of a field of this kind and array.
record Shows (total : ℕ) (f : Field) (k : Kind) (a : Option ℕ) (i : FieldInfo) : Type 0 where
  offset : i.bit_offset ≡ f.bit_offset
  takes : bits i ≡ extent_of k f.size a
  aligned : IsAligned k f.size f.bit_offset → IsAligned i.kind (unit i) i.bit_offset
  masked : HasMask total f.mask i.mask

module _ (total : ℕ) (name : Text) (f : Field) where
  common_shown : HasMask total f.mask (if leb total 64 then some f.mask else none)
  common_shown = common_mask total f.mask

  info_of_kind-Shows :
      (k : Kind) (a : Option ℕ)
      → Shows total f k a (info_of_kind (record (common_info total name f) { kind = k }) f k a)
  info_of_kind-Shows bit_field a = record {
    offset = refl;
    takes = refl;
    aligned = λ h. h;
    masked = inr refl;
  }
  info_of_kind-Shows primitive none = record {
    offset = refl;
    takes = refl;
    aligned = λ h. h;
    masked = common_shown;
  }
  info_of_kind-Shows primitive (some n) = record {
    offset = refl;
    takes = refl;
    aligned = λ h. h;
    masked = common_shown;
  }
  info_of_kind-Shows (nested s n) a = record {
    offset = refl;
    takes = refl;
    aligned = λ h. h;
    masked = common_shown;
  }
  info_of_kind-Shows (undefined s) a = record {
    offset = refl;
    takes = refl;
    aligned = λ h. h;
    masked = common_shown;
  }

  field_info-Shows : Shows total f f.kind f.array_length (field_info total name f)
  unfolding field_info
  field_info-Shows = info_of_kind-Shows f.kind f.array_length

  field_info-IsPlaced : IsLaid total f → IsPlaced total (field_info total name f)
  field_info-IsPlaced h =
      let shows = field_info-Shows in
      record {
        within = omega (arith, shows.offset, shows.takes, h.within);
        aligned = shows.aligned h.aligned;
        mask = elim shows.masked [
          | inl hidden ↦ inl hidden
          | inr shown ↦ inr (shown ∙ ap some (h.mask ∙ rw (shows.takes, shows.offset) refl))
        ];
      }

field_info-ApartInfo :
    (total : ℕ) (m n : Text) (f g : Field)
    → Apart f g
    → ApartInfo (field_info total m f) (field_info total n g)
field_info-ApartInfo total m n f g h =
    let sf = field_info-Shows total m f in
    let sg = field_info-Shows total n g in
    elim h [
      | inl before ↦ inl (omega (arith, sf.offset, sf.takes, sg.offset, before))
      | inr behind ↦ inr (omega (arith, sf.offset, sg.offset, sg.takes, behind))
    ]

field_infos-All-Apart :
    (total : ℕ) (name : Text) (f : Field) (d : Dict Field)
    → All (λ e. Apart f e.1) d
    → All (λ e. ApartInfo (field_info total name f) e.1) (field_infos total d)
field_infos-All-Apart total name f [] h = tt
field_infos-All-Apart total name f ((n, g) ∷ d) h =
    (field_info-ApartInfo total name n f g h.0, field_infos-All-Apart total name f d h.1)

field_infos-AllApartInfo :
    (total : ℕ) (d : Dict Field) → AllApart d → AllApartInfo (field_infos total d)
field_infos-AllApartInfo total [] h = tt
field_infos-AllApartInfo total ((n, f) ∷ d) h =
    (field_infos-All-Apart total n f d h.0, field_infos-AllApartInfo total d h.1)

field_infos-IsPlaced :
    (total : ℕ) (d : Dict Field)
    → All (λ e. IsLaid total e.1) d
    → All (λ e. IsPlaced total e.1) (field_infos total d)
field_infos-IsPlaced total [] h = tt
field_infos-IsPlaced total ((n, f) ∷ d) h =
    (field_info-IsPlaced total n f h.0, field_infos-IsPlaced total d h.1)

parse_fields-Gives :
    (registry : Dict Layout) (d : Definition) → Gives IsLaidOut (parse_fields registry d)
unfolding parse_fields
parse_fields-Gives registry d =
    let start : Parsing = record { total_bits = 0; fields = [] } in
    bind-Gives IsParsing IsLaidOut
      (normal_fields registry (bit_fields start d.bit_matches) d.normal_matches) _
      (normal_fields-Gives registry (bit_fields start d.bit_matches) d.normal_matches
        (bit_fields-IsParsing start d.bit_matches (record { laid = tt; apart = tt })))
      λ p h.
        bind-Gives (λ _. Unit {0}) IsLaidOut (extract_struct_name d.name_match) _
          (Gives-any (extract_struct_name d.name_match))
          λ name _. record {
            fields = field_infos p.total_bits p.fields;
            named = refl;
            placed = field_infos-IsPlaced p.total_bits p.fields h.laid;
            apart = field_infos-AllApartInfo p.total_bits p.fields h.apart;
          }

-- Whatever the registry and the definition: in a layout that `_parse_struct` returns, every field
-- lies within the bits of the structure, starts at a multiple of its unit when it is primitive or
-- nested, and shows the mask of its bits, or none in a structure of more than 64 bits; no two
-- fields share a bit.
pub parse_fields-IsLaidOut :
    (registry : Dict Layout) (d : Definition) (layout : Layout)
    → parse_fields registry d ≡ ok layout
    → IsLaidOut layout
parse_fields-IsLaidOut registry d layout h =
    subst (Gives IsLaidOut) h (parse_fields-Gives registry d)
