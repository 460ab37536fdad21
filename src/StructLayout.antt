-- ===== src/StructLayout.antt =====
-- OLD/bit_field_scanner.py: the class `StructParser`, the layout of bit fields in a C structure.
-- The texts that the regular expressions find in a definition are given. Of a nested layout a field
-- keeps the name and the size; the JSON texts of `to_json` and `import_from_json` are layouts.
pub mod Laid
pub mod Infos
pub mod Masks
pub mod Registry
use public_trash.Base.{
  ℕ, ◌+◌, ◌-◌, ◌*◌, ◌/◌, ◌%◌, ◌^◌, Bool, true, false, ◌==◌, if◌then◌else◌, leb, List, [], ◌∷◌, ◌++◌,
  Option, none, some, zero_division_error, struct_parser_error, Result, ok, raise, ◌>>=◌,
}
use public_trash.Base.Dicts.{Dict, lookup, insert}
use public_trash.Base.Texts.{Text, codes, split}

-- `TYPE_SIZES`.
unfoldable pub type_sizes : Dict ℕ
type_sizes = (codes "char", 8) ∷ (codes "short", 16) ∷ (codes "int", 32) ∷ (codes "long", 64) ∷ []

-- What the fields of a normal or nested kind add to the common entries of a `field_info`.
pub data Kind : Type 0 where
  bit_field primitive : Kind
  nested : (struct_name : Text) (total_bits : ℕ) → Kind
  undefined : (struct_name : Text) → Kind

-- One entry of the dictionaries of `_parse_struct`, which have the same keys; `size` is the width
-- of a bit field, the size of an element of a primitive one, and all of a nested one.
pub record Field : Type 0 where
  pub dtype : Text
  pub kind : Kind
  pub size : ℕ
  pub array_length : Option ℕ
  pub mask : ℕ
  pub bit_offset : ℕ

-- A `field_info`: `none` for a key that is not there.
pub record FieldInfo : Type 0 where
  pub name : Text
  pub dtype : Text
  pub bit_offset : ℕ
  pub kind : Kind
  pub array_length : Option ℕ
  pub total_bits : Option ℕ
  pub bit_width : Option ℕ
  pub element_size : Option ℕ
  pub size : Option ℕ
  pub mask : Option ℕ

pub record Layout : Type 0 where
  pub struct_name : Text
  pub total_bits : ℕ
  pub total_bytes : ℕ
  pub fields_by_name : Option (Dict FieldInfo)

-- The variables of the loops of `_parse_struct`.
pub record Parsing : Type 0 where
  pub total_bits : ℕ
  pub fields : Dict Field

-- What `bit_field_pattern` finds: type, name and width.
abbrev pub BitMatch : Type 0
BitMatch = Text × Text × ℕ

-- What `normal_field_pattern` finds: type, name, and `int` of the text between the brackets, which
-- may raise; a negative number is left out.
pub record NormalMatch : Type 0 where
  pub dtype : Text
  pub name : Text
  pub array_part : Option (Result ℕ)

-- `((1 << bits) - 1) << offset`.
abbrev pub mask_of : ℕ → ℕ → ℕ
mask_of bits offset = (2 ^ bits - 1) * 2 ^ offset

unfoldable pub add_bit_field : Parsing → BitMatch → Parsing
add_bit_field p (dtype, name, size) = record {
  total_bits = p.total_bits + size;
  fields =
      insert name
        (record {
          dtype = dtype;
          kind = bit_field;
          size = size;
          array_length = none;
          mask = mask_of size p.total_bits;
          bit_offset = p.total_bits;
        })
        p.fields;
}

-- `total_bits` behind the padding to a multiple of the unit; `%` by zero raises.
unfoldable pub align : ℕ → ℕ → Result ℕ
align total_bits unit =
    if unit == 0
    then raise zero_division_error
    else if total_bits % unit == 0
    then ok total_bits
    else ok (total_bits + (unit - total_bits % unit))

abbrev pub array_of : Option (Result ℕ) → Result (Option ℕ)
array_of none = ok none
array_of (some r) = r >>= λ n. ok (some n)

-- `unit * array_length`, or `unit`.
abbrev pub times_array : ℕ → Option ℕ → ℕ
times_array unit none = unit
times_array unit (some n) = unit * n

abbrev pub add_field :
    Parsing → NormalMatch → Kind → (size : ℕ) → Option ℕ → (bits offset : ℕ) → Parsing
add_field p m kind size array_length bits offset = record {
  total_bits = offset + bits;
  fields =
      insert m.name
        (record {
          dtype = m.dtype;
          kind = kind;
          size = size;
          array_length = array_length;
          mask = mask_of bits offset;
          bit_offset = offset;
        })
        p.fields;
}

unfoldable pub add_nested : Parsing → NormalMatch → Layout → Result Parsing
unfolding align
add_nested p m layout = do
  array_length ← array_of m.array_part
  offset ← align p.total_bits layout.total_bits
  let bits = times_array layout.total_bits array_length
  ok (add_field p m (nested layout.struct_name layout.total_bits) bits array_length bits offset)

unfoldable pub add_primitive : Parsing → NormalMatch → ℕ → Result Parsing
unfolding align
add_primitive p m base_size = do
  array_length ← array_of m.array_part
  offset ← align p.total_bits base_size
  ok (add_field p m primitive base_size array_length (times_array base_size array_length) offset)

-- The placeholder of an undefined nested structure.
abbrev pub add_undefined : Parsing → NormalMatch → Parsing
add_undefined p m = record p {
  fields =
      insert m.name
        (record {
          dtype = m.dtype;
          kind = undefined m.dtype;
          size = 0;
          array_length = none;
          mask = 0;
          bit_offset = p.total_bits;
        })
        p.fields;
}

-- `dtype in TYPE_SIZES` and `dtype in self.struct_registry` decide.
abbrev pub add_unnested : Parsing → NormalMatch → Option ℕ → Result Parsing
add_unnested p m none = ok (add_undefined p m)
add_unnested p m (some base_size) = add_primitive p m base_size

abbrev pub add_typed : Parsing → NormalMatch → Option Layout → Result Parsing
add_typed p m none = add_unnested p m (lookup m.dtype type_sizes)
add_typed p m (some layout) = add_nested p m layout

-- A name that is there already is skipped.
abbrev pub add_new : Dict Layout → Parsing → NormalMatch → Option Field → Result Parsing
add_new registry p m (some _) = ok p
add_new registry p m none = add_typed p m (lookup m.dtype registry)

unfoldable pub add_normal_field : Dict Layout → Parsing → NormalMatch → Result Parsing
unfolding add_nested add_primitive type_sizes
add_normal_field registry p m = add_new registry p m (lookup m.name p.fields)

unfoldable pub bit_fields : Parsing → List BitMatch → Parsing
unfolding add_bit_field
bit_fields p [] = p
bit_fields p (m ∷ ms) = bit_fields (add_bit_field p m) ms

unfoldable pub normal_fields : Dict Layout → Parsing → List NormalMatch → Result Parsing
normal_fields registry p [] = ok p
normal_fields registry p (m ∷ ms) = do
  p' ← add_normal_field registry p m
  normal_fields registry p' ms

-- The keys that every `field_info` has, with the mask of a structure of 64 bits at most.
abbrev pub common_info : ℕ → Text → Field → FieldInfo
common_info total_bits name f = record {
  name = name;
  dtype = f.dtype;
  bit_offset = f.bit_offset;
  kind = f.kind;
  array_length = none;
  total_bits = none;
  bit_width = none;
  element_size = none;
  size = none;
  mask = if leb total_bits 64 then some f.mask else none;
}

abbrev pub info_of_kind : FieldInfo → Field → Kind → Option ℕ → FieldInfo
info_of_kind i f (nested _ _) array = record i { array_length = array; total_bits = some f.size }
info_of_kind i f (undefined _) array = record i { array_length = array; total_bits = some f.size }
info_of_kind i f bit_field array = record i { bit_width = some f.size; mask = some f.mask }
info_of_kind i f primitive none = record i { size = some f.size }
info_of_kind i f primitive (some n) = record i {
  array_length = some n;
  element_size = some f.size;
  total_bits = some (f.size * n);
}

unfoldable pub field_info : ℕ → Text → Field → FieldInfo
field_info total_bits name f = info_of_kind (common_info total_bits name f) f f.kind f.array_length

abbrev pub field_infos : ℕ → Dict Field → Dict FieldInfo
field_infos total_bits [] = []
field_infos total_bits ((name, f) ∷ fs) =
    (name, field_info total_bits name f) ∷ field_infos total_bits fs

-- What the regular expressions find; `none` where `_extract_struct_name` finds nothing.
pub record Definition : Type 0 where
  pub bit_matches : List BitMatch
  pub normal_matches : List NormalMatch
  pub name_match : Option Text

abbrev pub extract_struct_name : Option Text → Result Text
extract_struct_name none = raise struct_parser_error
extract_struct_name (some name) = ok name

unfoldable pub parse_fields : Dict Layout → Definition → Result Layout
unfolding bit_fields normal_fields field_info
parse_fields registry d = do
  p ←
      normal_fields registry (bit_fields (record { total_bits = 0; fields = [] }) d.bit_matches)
        d.normal_matches
  struct_name ← extract_struct_name d.name_match
  ok (record {
    struct_name = struct_name;
    total_bits = p.total_bits;
    total_bytes = (p.total_bits + 7) / 8;
    fields_by_name = some (field_infos p.total_bits p.fields);
  })
