-- ===== src/Validation.antt =====
-- The package validation: source.go, field_map.go, mapper.go, rule.go, registry.go and playground.go.
-- The validator of go-playground is a parameter: what it reports is a list of `FieldError`s.
pub mod Pointers
pub mod FieldMap
pub mod Rules
pub mod Mapper
use arnon.Prelude.{
  ℕ, String, Bool, true, false, ◌&&◌, ◌||◌, Option, none, some, List, [], ◌∷◌, ◌++◌, Result, ok,
  err, ◌==◌, if◌then◌else◌,
}
use arnon.Prelude.Strings.{Text, codes, same, split}
use arnon.Problem.{
  ValidationErrorCode, ValidationLocation, body, path, query, header, ValidationSource,
}
use arnon.Reflect.{StructField}

-- One character of a token under the replacer of `escapeJSONPointerToken`, which does not look at
-- what it has put in.
unfoldable pub escape_char : ℕ → Text
escape_char c =
    if c == b'~' then b'~' ∷ b'0' ∷ [] else if c == b'/' then b'~' ∷ b'1' ∷ [] else c ∷ []

-- `escapeJSONPointerToken`
unfoldable pub escape_json_pointer_token : Text → Text
unfolding escape_char
escape_json_pointer_token [] = []
escape_json_pointer_token (c ∷ s) = escape_char c ++ escape_json_pointer_token s

first_part : List Text → Text
first_part [] = []
first_part (part ∷ parts) = part

-- `normalizeJSONField`
unfoldable pub normalize_json_field : Text → Text
unfolding first_part
normalize_json_field tag =
    let name = first_part (split b',' tag) in if same name (codes "-") then [] else name

-- A JSON pointer with one more token.
unfoldable pub extend_pointer : Text → Text → Text
unfolding escape_json_pointer_token
extend_pointer pointer token = pointer ++ b'/' ∷ escape_json_pointer_token token

abbrev pub not_empty : Text → Bool
not_empty [] = false
not_empty (c ∷ s) = true

abbrev pub body_source : Text → ValidationSource
body_source pointer = record { location = body; field = pointer }

-- `resolveValidationSource`
unfoldable pub resolve_validation_source : StructField → Text → ValidationSource
unfolding extend_pointer normalize_json_field
resolve_validation_source f pointer =
    if not_empty (f.tag "path")
    then record { location = path; field = f.tag "path" }
    else if not_empty (f.tag "query")
    then record { location = query; field = f.tag "query" }
    else if not_empty (f.tag "header")
    then record { location = header; field = f.tag "header" }
    else body_source (extend_pointer pointer (normalize_json_field (f.tag "json")))
