-- ===== src/Validation/FieldMap.antt =====
-- validation/field_map.go: the sources of the fields of a value, under their Go namespaces. `room` is
-- maxFieldMapDepth less the depth of the walk.
pub mod Complete
use arnon.Prelude.{
  ℕ, zero, suc, ◌+◌, Bool, true, false, Option, none, some, List, [], ◌∷◌, ◌++◌, if◌then◌else◌,
}
use arnon.Prelude.Strings.{Text, codes, same, decimal}
use arnon.Problem.{ValidationLocation, body, path, query, header, ValidationSource}
use arnon.Reflect.{
  deeper, StructField, Structs, Value, string_value, leaf_value, nil_pointer, pointer_to,
  struct_value, slice_value, map_value, Values, no_values, and_value, Entries, no_entries,
  and_entry,
}
use arnon.Validation.{extend_pointer, body_source, resolve_validation_source}

-- The assignments to the map, in their order.
abbrev pub FieldMap : Type 0
FieldMap = List (Text × ValidationSource)

-- What the map holds under a namespace: the last assignment.
unfoldable pub find_source : Text → FieldMap → Option ValidationSource
find_source namespace [] = none
find_source namespace ((name, source) ∷ rest) = elim (find_source namespace rest) [
  | some later ↦ some later
  | none ↦ if same name namespace then some source else none
]

abbrev pub max_field_map_depth : ℕ
max_field_map_depth = 16

unfoldable pub field_namespace : Text → Text → Text
field_namespace [] name = name
field_namespace (c ∷ prefix) name = (c ∷ prefix) ++ b'.' ∷ name

unfoldable pub element_namespace : Text → Text → Text
element_namespace namespace key = namespace ++ b'[' ∷ key ++ b']' ∷ []

-- A body field's nested entries; other fields have none.
unfoldable pub if_body : ValidationLocation → FieldMap → FieldMap
if_body body nested = nested
if_body path nested = []
if_body query nested = []
if_body header nested = []

module _ (structs : Structs) where
  unfoldable mutual
    unfolding field_namespace element_namespace if_body

    -- `populateFieldMap` on the fields of a struct that is not too deep
    pub populate_fields : Values → List StructField → Text → Text → ℕ → FieldMap
    populate_fields no_values fields namespace pointer room = []
    populate_fields (and_value v vs) [] namespace pointer room = []
    populate_fields (and_value v vs) (f ∷ fs) namespace pointer room =
        let source = resolve_validation_source f pointer in
        let name = field_namespace namespace f.name in
        let nested = populate_nested v name source.field room in
        (name, source) ∷ if_body source.location nested
        ++ populate_fields vs fs namespace pointer room

    -- `populateNestedFieldMap`: a struct is walked if there is room for it.
    pub populate_nested : Value → Text → Text → ℕ → FieldMap
    populate_nested (string_value s) namespace pointer room = []
    populate_nested leaf_value namespace pointer room = []
    populate_nested nil_pointer namespace pointer room = []
    populate_nested (pointer_to v) namespace pointer room = populate_nested v namespace pointer room
    populate_nested (struct_value name vs) namespace pointer zero = []
    populate_nested (struct_value name vs) namespace pointer (suc zero) = []
    populate_nested (struct_value name vs) namespace pointer (suc (suc room)) =
        populate_fields vs (structs name) namespace pointer (suc room)
    populate_nested (slice_value vs) namespace pointer room =
        populate_elements vs 0 namespace pointer (deeper room)
    populate_nested (map_value true es) namespace pointer room =
        populate_entries es namespace pointer (deeper room)
    populate_nested (map_value false es) namespace pointer room = []

    pub populate_elements : Values → ℕ → Text → Text → ℕ → FieldMap
    populate_elements no_values index namespace pointer room = []
    populate_elements (and_value v vs) index namespace pointer room =
        let name = element_namespace namespace (decimal index) in
        let inner = pointer ++ b'/' ∷ decimal index in
        (name, body_source inner) ∷ populate_nested v name inner room
        ++ populate_elements vs (suc index) namespace pointer room

    pub populate_entries : Entries → Text → Text → ℕ → FieldMap
    populate_entries no_entries namespace pointer room = []
    populate_entries (and_entry key v es) namespace pointer room =
        let name = element_namespace namespace key in
        let inner = extend_pointer pointer key in
        (name, body_source inner) ∷ populate_nested v name inner room
        ++ populate_entries es namespace pointer room

  -- `buildFieldMap`
  unfoldable pub build_field_map : Value → FieldMap
  unfolding populate_nested
  build_field_map (struct_value name vs) =
      populate_fields vs (structs name) [] [] max_field_map_depth
  build_field_map (pointer_to v) = build_field_map v
  build_field_map other = []
