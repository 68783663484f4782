-- ===== src/Validation/FieldMap/Complete.antt =====
-- What `buildFieldMap` says of the parts of a request body: paths through a value, as Go writes them in
-- a namespace and as a JSON pointer writes them, and the entries that the map has for them.
use arnon.Prelude.{
  ℕ, zero, suc, ◌≤◌, ◌≡◌, ◌≢◌, refl, sym, ap, ◌∙◌, true, false, Bool-cases, inl, inr, List, [], ◌∷◌,
  ◌++◌, map, arith, length, any, ◌==◌,
}
use mathlib.Core.List.{Memᴰ}
use mathlib.Core.List.Memᴰ
use arnon.Prelude.Strings.{Text, codes, same, same_iff, split, decimal}
use arnon.Prelude.Strings.Laws.{split_first, split_one_any}
use arnon.Problem.{ValidationSource}
use arnon.Reflect.{
  StructField, Structs, Value, pointer_to, struct_value, slice_value, map_value, Values, and_value,
  Entries, and_entry,
}
use arnon.Validation.{
  extend_pointer, body_source, not_empty, resolve_validation_source, normalize_json_field,
  first_part,
}
use arnon.Validation.Pointers.{
  parse_pointer, pointer_below, parse-pointer_below, extend_pointer-decimal,
}
use arnon.Validation.FieldMap.{
  FieldMap, max_field_map_depth, field_namespace, element_namespace, populate_fields,
  populate_nested, populate_elements, populate_entries, build_field_map,
}

-- A `json` tag that gives a name: the name alone, or before a comma and options. A name has no comma,
-- is not empty, and is not "-".
pub data IsNamed (name tag : Text) : Type 0 where
  alone : tag ≡ name → IsNamed name tag
  with_options : (options : Text) → tag ≡ name ++ b',' ∷ options → IsNamed name tag

-- A field that is bound from the body, under a name in JSON.
pub record InBody (f : StructField) (name : Text) : Type 0 where
  pub no_path : not_empty (f.tag "path") ≡ false
  pub no_query : not_empty (f.tag "query") ≡ false
  pub no_header : not_empty (f.tag "header") ≡ false
  pub named : IsNamed name (f.tag "json")
  pub no_comma : any (λ c. c == b',') name ≡ false
  pub filled : name ≢ []
  pub no_dash : name ≢ codes "-"

-- One step into a value; a field has its name in JSON with it.
pub data Step : Type 0 where
  at_field : StructField → Text → Step
  at_index : ℕ → Step
  at_key : Text → Step

-- The token of a step in a JSON pointer.
unfoldable pub token_of : Step → Text
token_of (at_field f name) = name
token_of (at_index i) = decimal i
token_of (at_key key) = key

-- The Go namespace behind a prefix.
unfoldable pub namespace_after : Text → Step → Text
namespace_after prefix (at_field f name) = field_namespace prefix f.name
namespace_after prefix (at_index i) = element_namespace prefix (decimal i)
namespace_after prefix (at_key key) = element_namespace prefix key

unfoldable pub namespace_of : Text → List Step → Text
unfolding namespace_after
namespace_of prefix [] = prefix
namespace_of prefix (s ∷ steps) = namespace_of (namespace_after prefix s) steps

-- Paths of one step or more into a value, pointers followed, that only take fields of the body.
mutual
  pub data Reaches (structs : Structs) : Value → List Step → Type 0 where
    through :
        {v : Value} {steps : List Step}
        → Reaches structs v steps
        → Reaches structs (pointer_to v) steps
    in_struct :
        {name : Text} {vs : Values} {steps : List Step}
        → AtField structs vs (structs name) steps
        → Reaches structs (struct_value name vs) steps
    in_slice :
        {vs : Values} {steps : List Step}
        → AtElement structs vs 0 steps
        → Reaches structs (slice_value vs) steps
    in_map :
        {es : Entries} {steps : List Step}
        → AtEntry structs es steps
        → Reaches structs (map_value true es) steps

  -- Nothing more, or a path.
  pub data Ends (structs : Structs) : Value → List Step → Type 0 where
    here : {v : Value} → Ends structs v []
    deep : {v : Value} {steps : List Step} → Reaches structs v steps → Ends structs v steps

  pub data AtField (structs : Structs) : Values → List StructField → List Step → Type 0 where
    this_field :
        {v : Value} {vs : Values} {f : StructField} {fs : List StructField} {name : Text}
        {steps : List Step}
        → InBody f name
        → Ends structs v steps
        → AtField structs (and_value v vs) (f ∷ fs) (at_field f name ∷ steps)
    next_field :
        {v : Value} {vs : Values} {f : StructField} {fs : List StructField} {steps : List Step}
        → AtField structs vs fs steps
        → AtField structs (and_value v vs) (f ∷ fs) steps

  pub data AtElement (structs : Structs) : Values → ℕ → List Step → Type 0 where
    this_element :
        {v : Value} {vs : Values} {i : ℕ} {steps : List Step}
        → Ends structs v steps
        → AtElement structs (and_value v vs) i (at_index i ∷ steps)
    next_element :
        {v : Value} {vs : Values} {i : ℕ} {steps : List Step}
        → AtElement structs vs (suc i) steps
        → AtElement structs (and_value v vs) i steps

  pub data AtEntry (structs : Structs) : Entries → List Step → Type 0 where
    this_entry :
        {key : Text} {v : Value} {es : Entries} {steps : List Step}
        → Ends structs v steps
        → AtEntry structs (and_entry key v es) (at_key key ∷ steps)
    next_entry :
        {key : Text} {v : Value} {es : Entries} {steps : List Step}
        → AtEntry structs es steps
        → AtEntry structs (and_entry key v es) steps

-- The name without the options.
first_part_of :
    (name tag : Text)
    → any (λ c. c == b',') name ≡ false
    → IsNamed name tag
    → first_part (split b',' tag) ≡ name
unfolding first_part
first_part_of name tag no_comma (alone e) =
    ap (λ t. first_part (split b',' t)) e ∙ ap first_part (split_one_any b',' name no_comma)
first_part_of name tag no_comma (with_options options e) =
    ap (λ t. first_part (split b',' t)) e ∙ ap first_part (split_first b',' name options no_comma)

normalize-named :
    (name tag : Text)
    → any (λ c. c == b',') name ≡ false
    → name ≢ codes "-"
    → IsNamed name tag
    → normalize_json_field tag ≡ name
unfolding normalize_json_field
normalize-named name tag no_comma no_dash named =
    rw (first_part_of name tag no_comma named) (elim (Bool-cases (same name (codes "-"))) [
      | inl dash ↦ absurd (no_dash ((same_iff name (codes "-")).0 dash))
      | inr other ↦ rw other refl
    ])

resolve_body :
    (f : StructField) (name pointer : Text)
    → InBody f name
    → resolve_validation_source f pointer ≡ body_source (extend_pointer pointer name)
unfolding resolve_validation_source
resolve_body f name pointer b =
    rw
      (
        b.no_path,
        b.no_query,
        b.no_header,
        normalize-named name (f.tag "json") b.no_comma b.no_dash b.named,
      )
      refl

-- The entry of a path, behind a namespace and a pointer.
abbrev entry_of : Text → Text → List Step → Text × ValidationSource
entry_of namespace pointer steps =
    (namespace_of namespace steps, body_source (pointer_below pointer (map token_of steps)))

module _ (structs : Structs) where
  field_nonempty :
      {vs : Values} {fs : List StructField} {steps : List Step}
      → AtField structs vs fs steps
      → ¬ (length steps ≤ 0)
  field_nonempty (this_field b e) h = omega arith
  field_nonempty (next_field a) h = field_nonempty a h

  element_nonempty :
      {vs : Values} {i : ℕ} {steps : List Step}
      → AtElement structs vs i steps
      → ¬ (length steps ≤ 0)
  element_nonempty (this_element e) h = omega arith
  element_nonempty (next_element a) h = element_nonempty a h

  entry_nonempty :
      {es : Entries} {steps : List Step} → AtEntry structs es steps → ¬ (length steps ≤ 0)
  entry_nonempty (this_entry e) h = omega arith
  entry_nonempty (next_entry a) h = entry_nonempty a h

  mutual
    unfolding populate_nested namespace_of token_of pointer_below namespace_after

    nested-entry :
        {v : Value} {steps : List Step} (r : Reaches structs v steps) (namespace pointer : Text)
        (room : ℕ)
        → length steps ≤ room
        → Memᴰ
            (entry_of namespace pointer steps)
            (populate_nested structs v namespace pointer (suc room))
    nested-entry (through r) namespace pointer room h = nested-entry r namespace pointer room h
    nested-entry (in_struct a) namespace pointer zero h = absurd (field_nonempty a h)
    nested-entry (in_struct a) namespace pointer (suc room) h =
        field-entry a namespace pointer room h
    nested-entry (in_slice a) namespace pointer zero h = absurd (element_nonempty a h)
    nested-entry (in_slice a) namespace pointer (suc room) h =
        element-entry a namespace pointer room h
    nested-entry (in_map a) namespace pointer zero h = absurd (entry_nonempty a h)
    nested-entry (in_map a) namespace pointer (suc room) h = entry-entry a namespace pointer room h

    ends-entry :
        {v : Value} {steps : List Step} (e : Ends structs v steps) (namespace pointer : Text)
        (room : ℕ) (rest : FieldMap)
        → length steps ≤ room
        → Memᴰ (entry_of namespace pointer steps) (
            (namespace, body_source pointer)
              ∷ populate_nested structs v namespace pointer (suc room)
            ++ rest)
    ends-entry here namespace pointer room rest h = Memᴰ.head refl
    ends-entry (deep r) namespace pointer room rest h =
        Memᴰ.tail (Memᴰ.append_left rest (nested-entry r namespace pointer room h))

    field-entry :
        {vs : Values} {fs : List StructField} {steps : List Step} (a : AtField structs vs fs steps)
        (namespace pointer : Text) (room : ℕ)
        → length steps ≤ suc room
        → Memᴰ
            (entry_of namespace pointer steps)
            (populate_fields structs vs fs namespace pointer (suc room))
    field-entry (this_field {v} {vs} {f} {fs} {name} b e) namespace pointer room h =
        rw (resolve_body f name pointer b) (
          ends-entry e (field_namespace namespace f.name) (extend_pointer pointer name) room
            (populate_fields structs vs fs namespace pointer (suc room)) (omega arith))
    field-entry (next_field a) namespace pointer room h =
        Memᴰ.tail (Memᴰ.append_right _ (field-entry a namespace pointer room h))

    element-entry :
        {vs : Values} {i : ℕ} {steps : List Step} (a : AtElement structs vs i steps)
        (namespace pointer : Text) (room : ℕ)
        → length steps ≤ suc room
        → Memᴰ
            (entry_of namespace pointer steps)
            (populate_elements structs vs i namespace pointer (suc room))
    element-entry (this_element {v} {vs} {i} e) namespace pointer room h =
        rw (sym (extend_pointer-decimal pointer i)) (
          ends-entry e (element_namespace namespace (decimal i))
            (extend_pointer pointer (decimal i)) room
            (populate_elements structs vs (suc i) namespace pointer (suc room)) (omega arith))
    element-entry (next_element a) namespace pointer room h =
        Memᴰ.tail (Memᴰ.append_right _ (element-entry a namespace pointer room h))

    entry-entry :
        {es : Entries} {steps : List Step} (a : AtEntry structs es steps) (namespace pointer : Text)
        (room : ℕ)
        → length steps ≤ suc room
        → Memᴰ
            (entry_of namespace pointer steps)
            (populate_entries structs es namespace pointer (suc room))
    entry-entry (this_entry {key} {v} {es} e) namespace pointer room h =
        ends-entry e (element_namespace namespace key) (extend_pointer pointer key) room
          (populate_entries structs es namespace pointer (suc room)) (omega arith)
    entry-entry (next_entry a) namespace pointer room h =
        Memᴰ.tail (Memᴰ.append_right _ (entry-entry a namespace pointer room h))

  -- A path of at most sixteen steps into a request, through fields of the body that their `json` tags name, has an entry in the
  -- field map: under its Go namespace, in the body, at a JSON pointer that reads as these names, the
  -- indices and the keys of its steps.
  pub build_field_map_complete :
      {name : Text} {vs : Values} {steps : List Step}
      → AtField structs vs (structs name) steps
      → length steps ≤ max_field_map_depth
      → (pointer : Text) × Memᴰ
          (namespace_of [] steps, body_source pointer)
          (build_field_map structs (struct_value name vs))
        × (parse_pointer pointer ≡ map token_of steps)
  unfolding build_field_map
  build_field_map_complete {name} {vs} {steps} a h = (
    pointer_below [] (map token_of steps),
    field-entry a [] [] 15 h,
    parse-pointer_below (map token_of steps),
  )
