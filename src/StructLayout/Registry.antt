-- ===== src/StructLayout/Registry.antt =====
-- OLD/bit_field_scanner.py: the state of `StructParser` and its methods. Symbolic values are numbers
-- that are not negative; what the regular expressions find in a definition is given for the
-- definition behind the substitution of the constants.
pub mod Laws
use public_trash.Base.{
  ℕ, ◌+◌, Bool, true, false, ◌==◌, if◌then◌else◌, ltb, List, [], ◌∷◌, ◌++◌, length, Option, none,
  some, struct_parser_error, Result, ok, raise, ◌>>=◌,
}
use public_trash.Base.Dicts.{Dict, lookup, insert, contains}
use public_trash.Base.Texts.{Text, split}
use public_trash.StructLayout.{FieldInfo, Layout, Definition, parse_fields}

-- A `Dict[int, str]`, and its look-up.
abbrev pub Symbols : Type 0
Symbols = List (ℕ × Text)

abbrev pub symbol_of : ℕ → Symbols → Option Text
symbol_of value [] = none
symbol_of value ((v, symbol) ∷ symbols) =
    if v == value then some symbol else symbol_of value symbols

pub record StructParser : Type 0 where
  pub preproc_defs : Dict ℕ
  pub struct_registry : Dict Layout
  pub field_symbols : Dict Symbols

-- `dict.update`.
unfoldable pub update : Dict ℕ → Dict ℕ → Dict ℕ
update d [] = d
update d ((key, value) ∷ defs) = update (insert key value d) defs

unfoldable pub update_definitions : StructParser → Dict ℕ → StructParser
unfolding update
update_definitions p defs = record p { preproc_defs = update p.preproc_defs defs }

-- `_preprocess_definition` raises when tokens in brackets are not resolved.
abbrev pub preprocess : List Text → Result (Unit {0})
preprocess [] = ok tt
preprocess (token ∷ tokens) = raise struct_parser_error

-- `parse_struct`, for the tokens that are left and what is found.
unfoldable pub parse_struct : StructParser → List Text → Definition → Result (Text × StructParser)
parse_struct p unresolved d = do
  _ ← preprocess unresolved
  layout ← parse_fields p.struct_registry d
  ok (
    layout.struct_name,
    record p { struct_registry = insert layout.struct_name layout p.struct_registry },
  )

abbrev pub found : {A : Type 0} → Option A → Result A
found none = raise struct_parser_error
found (some a) = ok a

unfoldable pub to_json : StructParser → Text → Result Layout
to_json p struct_name = found (lookup struct_name p.struct_registry)

unfoldable pub import_from_json : StructParser → Layout → StructParser
import_from_json p layout = record p {
  struct_registry = insert layout.struct_name layout p.struct_registry;
}

-- `f"{struct_name}.{field_name}"`.
abbrev pub field_key : Text → Text → Text
field_key struct_name field_name = struct_name ++ b'.' ∷ field_name

-- `if symbol not in self.preproc_defs`.
abbrev pub define : Dict ℕ → Text → ℕ → Dict ℕ
define d symbol value = if contains symbol d then d else insert symbol value d

unfoldable pub define_symbols : Dict ℕ → Symbols → Dict ℕ
define_symbols d [] = d
define_symbols d ((value, symbol) ∷ symbols) = define_symbols (define d symbol value) symbols

unfoldable pub associate_field_symbols : StructParser → Text → Text → Symbols → StructParser
unfolding define_symbols
associate_field_symbols p struct_name field_name symbols = record p {
  field_symbols = insert (field_key struct_name field_name) symbols p.field_symbols;
  preproc_defs = define_symbols p.preproc_defs symbols;
}

abbrev pub symbol_in : ℕ → Option Symbols → Option Text
symbol_in value none = none
symbol_in value (some symbols) = symbol_of value symbols

unfoldable pub get_symbol : StructParser → Text → Text → ℕ → Result Text
get_symbol p struct_name field_name value =
    found (symbol_in value (lookup (field_key struct_name field_name) p.field_symbols))

unfoldable pub get_field : StructParser → Text → Text → Result FieldInfo
get_field p struct_name field_name = do
  layout ← found (lookup struct_name p.struct_registry)
  fields ← found layout.fields_by_name
  found (lookup field_name fields)

abbrev pub get_field_of : StructParser → List Text → Result FieldInfo
get_field_of p [] = raise struct_parser_error
get_field_of p (struct_name ∷ []) = raise struct_parser_error
get_field_of p (struct_name ∷ field_name ∷ rest) = get_field p struct_name field_name

unfoldable pub get_field_by_path : StructParser → Text → Result FieldInfo
unfolding get_field
get_field_by_path p field_path = get_field_of p (split b'.' field_path)
