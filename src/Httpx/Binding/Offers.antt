-- ===== src/Httpx/Binding/Offers.antt =====
-- What the path, the query and the header have for a field, and the errors of what does not parse: the description
-- that `Decode` is held against.
use arnon.Prelude.{String, ◌||◌, Option, none, some, List, [], ◌∷◌, ◌++◌, if◌then◌else◌}
use arnon.Prelude.Strings.{Text, codes, same}
use arnon.Problem.{ValidationError, new_path_error, new_query_error, validation_code_invalid_type}
use arnon.Httpx.Binding.{
  Slot, string_slot, int_slot, bool_slot, strings_slot, slice_slot, other_slot, Inputs, Parsers,
  first_value, header_values, type_meta,
}

-- What a value under a tag gives: nothing where the one or the other is empty.
unfoldable pub given : {A : Type 0} → Text → Text → Option A → Option A
given tag value offer = if same tag [] || same value [] then none else offer

abbrev pub or_else : {A : Type 0} → Option A → A → A
or_else none a = a
or_else (some b) a = b

abbrev pub refused : {A : Type 0} → Text → Text → Option A → ValidationError → List ValidationError
refused tag value (some a) e = []
refused tag value none e = if same tag [] || same value [] then [] else e ∷ []

abbrev pub each {ℓ} : {A B : Type ℓ} → (A → List B) → List A → List B
each f [] = []
each f (x ∷ xs) = f x ++ each f xs

abbrev pub as_slot : {A N : Type 0} → (A → Slot N) → Option A → Option (Slot N)
as_slot f none = none
as_slot f (some a) = some (f a)

abbrev pub listed : {N : Type 0} → List Text → Option (Slot N)
listed [] = none
listed (v ∷ vs) = some (strings_slot (v ∷ vs))

module _ {N : Type 0} (parsers : Parsers N) (inputs : Inputs) where
  -- What the path, the query and the header have for a field of a kind, under its tags.
  unfoldable pub from_path : (String → Text) → Slot N → Option (Slot N)
  unfolding given
  from_path tag (string_slot s) =
      given (tag "path") (inputs.path_value (tag "path"))
        (some (string_slot (inputs.path_value (tag "path"))))
  from_path tag (int_slot n) =
      given (tag "path") (inputs.path_value (tag "path"))
        (as_slot int_slot (parsers.atoi (inputs.path_value (tag "path"))))
  from_path tag (bool_slot b) = none
  from_path tag (strings_slot vs) = none
  from_path tag slice_slot = none
  from_path tag other_slot = none

  abbrev pub query_text : (String → Text) → Text
  query_text tag = first_value (inputs.query_values (tag "query"))

  unfoldable pub from_query : (String → Text) → Slot N → Option (Slot N)
  unfolding given
  from_query tag (string_slot s) =
      given (tag "query") (query_text tag) (some (string_slot (query_text tag)))
  from_query tag (int_slot n) =
      given (tag "query") (query_text tag) (as_slot int_slot (parsers.atoi (query_text tag)))
  from_query tag (bool_slot b) =
      given (tag "query") (query_text tag) (as_slot bool_slot (parsers.parse_bool (query_text tag)))
  from_query tag (strings_slot vs) =
      if same (tag "query") [] then none else listed (inputs.query_values (tag "query"))
  from_query tag slice_slot = none
  from_query tag other_slot = none

  unfoldable pub from_header : (String → Text) → Slot N → Option (Slot N)
  unfolding given
  from_header tag (string_slot s) =
      given (tag "header") (first_value (inputs.header_lines (tag "header")))
        (some (string_slot (first_value (inputs.header_lines (tag "header")))))
  from_header tag (strings_slot vs) =
      if same (tag "header") []
      then none
      else listed (header_values (inputs.header_lines (tag "header")))
  from_header tag (int_slot n) = none
  from_header tag (bool_slot b) = none
  from_header tag slice_slot = none
  from_header tag other_slot = none

  -- The errors: a value that is there and does not parse.
  unfoldable pub path_refusal : (String → Text) → Slot N → List ValidationError
  path_refusal tag (int_slot n) =
      refused (tag "path") (inputs.path_value (tag "path"))
        (parsers.atoi (inputs.path_value (tag "path")))
        (new_path_error (codes "invalid type") (tag "path") validation_code_invalid_type
          (type_meta "integer" (inputs.path_value (tag "path"))))
  path_refusal tag (string_slot s) = []
  path_refusal tag (bool_slot b) = []
  path_refusal tag (strings_slot vs) = []
  path_refusal tag slice_slot = []
  path_refusal tag other_slot = []

  unfoldable pub query_refusal : (String → Text) → Slot N → List ValidationError
  query_refusal tag (int_slot n) =
      refused (tag "query") (query_text tag) (parsers.atoi (query_text tag)) (
        new_query_error (codes "invalid type") (tag "query") validation_code_invalid_type
          (type_meta "integer" (query_text tag)))
  query_refusal tag (bool_slot b) =
      refused (tag "query") (query_text tag) (parsers.parse_bool (query_text tag)) (
        new_query_error (codes "invalid type") (tag "query") validation_code_invalid_type
          (type_meta "boolean" (query_text tag)))
  query_refusal tag (string_slot s) = []
  query_refusal tag (strings_slot vs) = []
  query_refusal tag slice_slot = []
  query_refusal tag other_slot = []
