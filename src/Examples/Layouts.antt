-- ===== src/Examples/Layouts.antt =====
-- Layouts of structures at concrete definitions.
use public_trash.Base.{◌≤◌, ◌<◌, ◌≡◌, refl, ◌⊎◌, [], ◌∷◌, none, some, Result, ok, raise, arith}
use public_trash.Base.Dicts.{Dict, lookup, insert}
use public_trash.Base.Texts.{text_eq, codes}
use public_trash.StructLayout.{FieldInfo, Layout, Definition, add_normal_field, parse_fields}
use public_trash.StructLayout.Infos.{IsLaidOut, parse_fields-IsLaidOut}
use public_trash.StructLayout.Masks.{owners, parse_fields-owners}
use public_trash.StructLayout.Registry.{
  StructParser, parse_struct, field_key, found, get_field, get_field_by_path,
}
use public_trash.StructLayout.Registry.Laws.{get_field_by_path-parse_struct}

-- struct word { char a : 3; char b : 5; char c; short d[2]; };
abbrev word : Definition
word = record {
  bit_matches = (codes "char", codes "a", 3) ∷ (codes "char", codes "b", 5) ∷ [];
  normal_matches =
      (record { dtype = codes "char"; name = codes "c"; array_part = none })
      ∷ (record { dtype = codes "short"; name = codes "d"; array_part = some (ok 2) })
      ∷ [];
  name_match = some (codes "word");
}

-- struct outer { int n; struct word w; };
abbrev outer : Definition
outer = record {
  bit_matches = [];
  normal_matches =
      (record { dtype = codes "int"; name = codes "n"; array_part = none })
      ∷ (record { dtype = codes "word"; name = codes "w"; array_part = none })
      ∷ [];
  name_match = some (codes "outer");
}

abbrev layout_of : Result Layout → Layout
layout_of (ok layout) = layout
layout_of (raise e) = record {
  struct_name = [];
  total_bits = 0;
  total_bytes = 0;
  fields_by_name = none;
}

abbrev word_layout : Layout
unfolding parse_fields
word_layout = layout_of (parse_fields [] word)

word_layout_bits : word_layout.total_bits ≡ 48
unfolding word_layout add_normal_field lookup insert text_eq
word_layout_bits = refl

word_parsed : parse_fields [] word ≡ ok word_layout
unfolding parse_fields word_layout add_normal_field lookup insert text_eq
word_parsed = refl

parse_fields-IsLaidOut_example : IsLaidOut word_layout
parse_fields-IsLaidOut_example = parse_fields-IsLaidOut [] word word_layout word_parsed

parse_fields-owners_example :
    (fields : Dict FieldInfo) × (word_layout.fields_by_name ≡ some fields)
    × ((owners 20 fields ≤ 1) × ((20 < word_layout.total_bits) ⊎ (owners 20 fields ≡ 0)))
parse_fields-owners_example =
    parse_fields-owners [] word word_layout 20 word_parsed (omega (arith, word_layout_bits))

-- A parser with the structure `word`, and the same behind `outer`.
abbrev parser : StructParser
parser = record {
  preproc_defs = [];
  struct_registry = (codes "word", word_layout) ∷ [];
  field_symbols = [];
}

abbrev outer_layout : Layout
unfolding parse_fields
outer_layout = layout_of (parse_fields parser.struct_registry outer)

abbrev outer_parser : StructParser
outer_parser = record parser {
  struct_registry = insert (codes "outer") outer_layout parser.struct_registry;
}

outer_parsed : parse_struct parser [] outer ≡ ok (codes "outer", outer_parser)
unfolding parse_struct parse_fields outer_layout word_layout add_normal_field lookup insert text_eq
outer_parsed = refl

get_field_by_path-parse_struct_example :
    (layout : Layout) × (fields : Dict FieldInfo) × (parse_fields parser.struct_registry outer
      ≡ ok layout)
    × (layout.fields_by_name ≡ some fields)
    × (get_field_by_path outer_parser (field_key (codes "outer") (codes "w"))
        ≡ found (lookup (codes "w") fields))
    × (get_field outer_parser (codes "word") (codes "w")
        ≡ get_field parser (codes "word") (codes "w"))
get_field_by_path-parse_struct_example =
    get_field_by_path-parse_struct parser [] outer (codes "outer") outer_parser (codes "w")
      (codes "word") outer_parsed (ground arith) (ground arith) (λ h. ground (arith, h))

-- struct holder { struct none_at_all e; };
abbrev holder : Definition
holder = record {
  bit_matches = [];
  normal_matches =
      (record { dtype = codes "none_at_all"; name = codes "e"; array_part = none }) ∷ [];
  name_match = some (codes "holder");
}
