-- ===== src/StructLayout/Registry/Laws.antt =====
-- What `StructParser` finds in its registries.
use public_trash.Base.{
  ◌≡◌, ◌≢◌, refl, sym, ap, ◌∙◌, false, List, [], ◌∷◌, All, none, some, zero_division_error, Result,
  ok, raise, ◌>>=◌, arith,
}
use public_trash.Base.Dicts.{Dict, lookup, insert, lookup-insert}
use public_trash.Base.Texts.{Text, text_eq, text_eq_iff, text_eq_self, split_one, split-append}
use public_trash.StructLayout.{
  FieldInfo, Layout, Definition, NormalMatch, Parsing, bit_fields, normal_fields, parse_fields,
  add_normal_field, add_nested,
}
use public_trash.StructLayout.Infos.{parse_fields-IsLaidOut}
use public_trash.StructLayout.Registry.{
  StructParser, parse_struct, preprocess, found, get_field, get_field_by_path, field_key,
}

-- A bind that succeeds.
>>=-eq-ok {ℓ κ} :
    {A : Type ℓ} {B : Type κ} (m : Result A) (f : A → Result B) (b : B)
    → (m >>= f) ≡ ok b
    → (a : A) × (m ≡ ok a) × (f a ≡ ok b)
>>=-eq-ok (ok a) f b h = (a, refl, h)
>>=-eq-ok (raise e) f b h = absurd (ground (arith, h))

-- What a `parse_struct` that succeeds does.
record Registers (p : StructParser) (d : Definition) (name : Text) (p' : StructParser)
    : Type 0 where
  layout : Layout
  parsed : parse_fields p.struct_registry d ≡ ok layout
  named : layout.struct_name ≡ name
  registry : p'.struct_registry ≡ insert name layout p.struct_registry

parse_struct-Registers :
    (p : StructParser) (unresolved : List Text) (d : Definition) (name : Text) (p' : StructParser)
    → parse_struct p unresolved d ≡ ok (name, p')
    → Registers p d name p'
unfolding parse_struct
parse_struct-Registers p unresolved d name p' h =
    let (_, _, rest) = >>=-eq-ok (preprocess unresolved) _ (name, p') h in
    let (layout, parsed, last) = >>=-eq-ok (parse_fields p.struct_registry d) _ (name, p') rest in
    let same : Path (Text × StructParser)
        (
          layout.struct_name,
          record p { struct_registry = insert layout.struct_name layout p.struct_registry },
        )
        (name, p') =
      ground (arith, last) in
    let named : layout.struct_name ≡ name = ap (λ r. r.0) same in
    record {
      layout = layout;
      parsed = parsed;
      named = named;
      registry =
          sym (ap (λ r. r.1.struct_registry) same)
          ∙ ap (λ n. insert n layout p.struct_registry) named;
    }

get_field-path :
    (p : StructParser) (struct_name field_name : Text)
    → All (λ c. c ≢ b'.') struct_name
    → All (λ c. c ≢ b'.') field_name
    → get_field_by_path p (field_key struct_name field_name) ≡ get_field p struct_name field_name
unfolding get_field_by_path
get_field-path p struct_name field_name hs hf =
    rw (split-append b'.' struct_name field_name hs, split_one b'.' field_name hf) refl

-- After a `parse_struct` that succeeds, where neither name has a dot, the path to a field of the
-- structure gives what its new layout has under that name, and the fields of every other
-- structure are found as before.
pub get_field_by_path-parse_struct :
    (p : StructParser) (unresolved : List Text) (d : Definition) (name : Text) (p' : StructParser)
    (field other : Text)
    → parse_struct p unresolved d ≡ ok (name, p')
    → All (λ c. c ≢ b'.') name
    → All (λ c. c ≢ b'.') field
    → name ≢ other
    → (layout : Layout) × (fields : Dict FieldInfo) × (parse_fields p.struct_registry d ≡ ok layout)
      × (layout.fields_by_name ≡ some fields)
      × (get_field_by_path p' (field_key name field) ≡ found (lookup field fields))
      × (get_field p' other field ≡ get_field p other field)
unfolding get_field
get_field_by_path-parse_struct p unresolved d name p' field other parsed hn hf ne =
    let r = parse_struct-Registers p unresolved d name p' parsed in
    let laid = parse_fields-IsLaidOut p.struct_registry d r.layout r.parsed in
    let mine : lookup name p'.struct_registry ≡ some r.layout =
      ap (lookup name) r.registry
      ∙ lookup-insert name name r.layout p.struct_registry
      ∙ rw (text_eq_self name) refl in
    let differ : text_eq name other ≡ false = ground (arith, text_eq_iff name other, ne) in
    let theirs : lookup other p'.struct_registry ≡ lookup other p.struct_registry =
      ap (lookup other) r.registry
      ∙ lookup-insert name other r.layout p.struct_registry
      ∙ rw differ refl in
    (
      r.layout,
      laid.fields,
      r.parsed,
      laid.named,
      get_field-path p' name field hn hf ∙ rw (mine, laid.named) refl,
      rw theirs refl,
    )

abbrev pub empty_struct : Text → Definition
empty_struct name = record { bit_matches = []; normal_matches = []; name_match = some name }

add_nested_empty :
    (q : Parsing) (m : NormalMatch) (layout : Layout)
    → m.array_part ≡ none
    → layout.total_bits ≡ 0
    → add_nested q m layout ≡ raise zero_division_error
unfolding add_nested
add_nested_empty q m layout no_array none_bits = rw (no_array, none_bits) refl

-- A structure without fields is registered, and a definition whose first field behind the bit
-- fields has it as its type, is no array and has a new name, raises `ZeroDivisionError`.
parse_struct-empty :
    (p : StructParser) (name : Text) (d : Definition) (m : NormalMatch) (ms : List NormalMatch)
    → d.normal_matches ≡ m ∷ ms
    → m.dtype ≡ name
    → m.array_part ≡ none
    → lookup m.name (bit_fields (record { total_bits = 0; fields = [] }) d.bit_matches).fields
      ≡ none
    → (p' : StructParser) × (parse_struct p [] (empty_struct name) ≡ ok (name, p'))
      × (parse_struct p' [] d ≡ raise zero_division_error)
unfolding parse_struct parse_fields normal_fields add_normal_field
parse_struct-empty p name d m ms first dtype no_array new =
    let layout : Layout = record {
      struct_name = name;
      total_bits = 0;
      total_bytes = 0;
      fields_by_name = some [];
    } in
    let mine : lookup m.dtype (insert name layout p.struct_registry) ≡ some layout =
      ap (λ n. lookup n (insert name layout p.struct_registry)) dtype
      ∙ lookup-insert name name layout p.struct_registry
      ∙ rw (text_eq_self name) refl in
    (
      record p { struct_registry = insert name layout p.struct_registry },
      refl,
      rw
          (
            first,
            new,
            mine,
            add_nested_empty (bit_fields (record { total_bits = 0; fields = [] }) d.bit_matches) m
                layout no_array refl,
          )
          refl,
    )
