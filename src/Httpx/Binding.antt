-- ===== src/Httpx/Binding.antt =====
-- The package httpx/binding: decoder.go, path.go, query.go, header.go and json.go. What encoding/json makes
-- of a body, and strconv, are parameters; a target that is not a struct is not modelled.
pub mod Offers
pub mod Sources
pub mod Lists
use arnon.Prelude.{
  ℕ, String, Bool, true, false, ◌||◌, Option, none, some, List, [], ◌∷◌, ◌++◌, if◌then◌else◌,
  str_eq,
}
use arnon.Prelude.Strings.{Text, codes, same, trim_space, split}
use arnon.Http.{Header}
use arnon.Problem.{
  Json, string, number, ValidationError, new_body_error, new_path_error, new_query_error,
  validation_code_invalid_type, validation_code_malformed_json, validation_code_payload_too_large,
}

-- A field's value, by its kind: other kinds are left alone by all sources but the body.
pub data Slot (N : Type 0) : Type 0 where
  string_slot : Text → Slot N
  int_slot : N → Slot N
  bool_slot : Bool → Slot N
  strings_slot : List Text → Slot N
  slice_slot other_slot : Slot N

pub record Field (N : Type 0) : Type 0 where
  pub name : Text
  pub tag : String → Text
  pub slot : Slot N

-- The target of `Decode`: a struct's fields in their order.
abbrev pub Dto : Type 0 → Type 0
Dto N = List (Field N)

-- What the sources read of a request, with `PathValue` and the parsed query.
pub record Inputs : Type 0 where
  pub path_value : Text → Text
  pub query_values : Text → List Text
  pub header_lines : Text → List Text

-- strconv.Atoi and strconv.ParseBool
pub record Parsers (N : Type 0) : Type 0 where
  pub atoi : Text → Option N
  pub parse_bool : Text → Option Bool

-- url.Values.Get and Header.Get: the first value, "" where there is none.
unfoldable pub first_value : List Text → Text
first_value [] = []
first_value (value ∷ rest) = value

-- The parts of one line, trimmed, those that are empty left out.
unfoldable pub nonempty_parts : List Text → List Text
nonempty_parts [] = []
nonempty_parts (part ∷ parts) =
    let rest = nonempty_parts parts in
    let trimmed = trim_space part in if same trimmed [] then rest else trimmed ∷ rest

-- `headerValues`
unfoldable pub header_values : List Text → List Text
unfolding nonempty_parts
header_values [] = []
header_values (line ∷ lines) = nonempty_parts (split b',' line) ++ header_values lines

abbrev type_meta : String → Text → List (Text × Json)
type_meta expected value =
    (codes "expected", string (codes expected)) ∷ (codes "actual", string value) ∷ []

-- A field that a source has looked at, with the errors it gave.
abbrev pub Bound : Type 0 → Type 0
Bound N = Field N × List ValidationError

unfoldable pub fill : {N : Type 0} → Field N → Slot N → Bound N
fill f slot = (record f { slot = slot }, [])

module _ {N : Type 0} (parsers : Parsers N) where
  unfoldable pub path_int : Field N → Text → Text → Option N → Bound N
  path_int f tag value (some n) = fill f (int_slot n)
  path_int f tag value none = (
    f,
    new_path_error (codes "invalid type") tag validation_code_invalid_type
          (type_meta "integer" value)
        ∷ [],
  )

  unfoldable pub path_into : Field N → Text → Text → Slot N → Bound N
  unfolding path_int
  path_into f tag value (string_slot s) = fill f (string_slot value)
  path_into f tag value (int_slot n) = path_int f tag value (parsers.atoi value)
  path_into f tag value (bool_slot b) = (f, [])
  path_into f tag value (strings_slot values) = (f, [])
  path_into f tag value slice_slot = (f, [])
  path_into f tag value other_slot = (f, [])

  -- One round of the loop of `bindPath`
  unfoldable pub path_field : Inputs → Field N → Bound N
  unfolding path_into
  path_field inputs f =
      let tag = f.tag "path" in
      if same tag [] || same (inputs.path_value tag) []
      then (f, [])
      else path_into f tag (inputs.path_value tag) f.slot

  unfoldable pub query_int : Field N → Text → Text → Option N → Bound N
  query_int f tag value (some n) = fill f (int_slot n)
  query_int f tag value none = (
    f,
    new_query_error (codes "invalid type") tag validation_code_invalid_type
          (type_meta "integer" value)
        ∷ [],
  )

  unfoldable pub query_bool : Field N → Text → Text → Option Bool → Bound N
  query_bool f tag value (some b) = fill f (bool_slot b)
  query_bool f tag value none = (
    f,
    new_query_error (codes "invalid type") tag validation_code_invalid_type
          (type_meta "boolean" value)
        ∷ [],
  )

  -- A string-valued source and a list of strings, for the query and the header: nothing where it is empty.
  unfoldable pub strings_into : Field N → List Text → Bound N
  strings_into f [] = (f, [])
  strings_into f (value ∷ rest) = fill f (strings_slot (value ∷ rest))

  unfoldable pub query_into : Field N → Text → List Text → Slot N → Bound N
  unfolding query_int query_bool strings_into first_value
  query_into f tag values (strings_slot old) = strings_into f values
  query_into f tag values slice_slot = (f, [])
  query_into f tag values other_slot = (f, [])
  query_into f tag values (string_slot s) =
      if same (first_value values) [] then (f, []) else fill f (string_slot (first_value values))
  query_into f tag values (int_slot n) =
      if same (first_value values) []
      then (f, [])
      else query_int f tag (first_value values) (parsers.atoi (first_value values))
  query_into f tag values (bool_slot b) =
      if same (first_value values) []
      then (f, [])
      else query_bool f tag (first_value values) (parsers.parse_bool (first_value values))

  -- One round of the loop of `bindQuery`
  unfoldable pub query_field : Inputs → Field N → Bound N
  unfolding query_into
  query_field inputs f =
      let tag = f.tag "query" in
      if same tag [] then (f, []) else query_into f tag (inputs.query_values tag) f.slot

  unfoldable pub header_into : Field N → List Text → Slot N → Bound N
  unfolding strings_into first_value header_values
  header_into f lines (string_slot s) =
      if same (first_value lines) [] then (f, []) else fill f (string_slot (first_value lines))
  header_into f lines (strings_slot old) = strings_into f (header_values lines)
  header_into f lines (int_slot n) = (f, [])
  header_into f lines (bool_slot b) = (f, [])
  header_into f lines slice_slot = (f, [])
  header_into f lines other_slot = (f, [])

  -- One round of the loop of `bindHeader`
  unfoldable pub header_field : Inputs → Field N → Bound N
  unfolding header_into
  header_field inputs f =
      let tag = f.tag "header" in
      if same tag [] then (f, []) else header_into f (inputs.header_lines tag) f.slot

-- The loop over the fields of a target.
unfoldable pub bind_fields :
    {N : Type 0} → (Field N → Bound N) → Dto N → Dto N × List ValidationError
bind_fields bind [] = ([], [])
bind_fields bind (f ∷ fs) =
    let (bound, errors) = bind f in
    let (rest, more) = bind_fields bind fs in (bound ∷ rest, errors ++ more)

-- The errors that `mapJSONError` tells apart along the chain of Unwrap.
pub data JsonError : Type 0 where
  max_bytes_error : ℕ → JsonError
  syntax_error_at : ℕ → JsonError
  unmarshal_type_error_in : Text → Text → Text → JsonError
  end_of_file : JsonError
  other_json_error : Text → JsonError

-- `mapJSONError`; the quotes of `%q` are written for a name with nothing to escape.
unfoldable pub map_json_error : JsonError → List ValidationError
map_json_error (max_bytes_error limit) =
    new_body_error (codes "request body exceeds the maximum allowed size") (codes "/")
      validation_code_payload_too_large ((codes "limit", number limit) ∷ [])
    ∷ []
map_json_error (syntax_error_at offset) =
    new_body_error (codes "request body contains invalid JSON") (codes "/")
      validation_code_malformed_json ((codes "offset", number offset) ∷ [])
    ∷ []
map_json_error (unmarshal_type_error_in field expected actual) =
    new_body_error (codes "invalid type for field \"" ++ (field ++ codes "\"")) (b'/' ∷ field)
      validation_code_invalid_type
      ((codes "expected", string expected) ∷ (codes "actual", string actual) ∷ [])
    ∷ []
map_json_error end_of_file = []
map_json_error (other_json_error message) =
    new_body_error message (codes "/") validation_code_invalid_type
      ((codes "reason", string (codes "invalid JSON value type")) ∷ [])
    ∷ []

-- What the decoder made of a target: with an error it may have filled some of it.
abbrev pub JsonDecoder : Type 0 → Type 0
JsonDecoder N = Dto N → Dto N × Option JsonError

-- `bindJSON` with the decoder on the request's body, `none` where the body is nil.
unfoldable pub bind_json :
    {N : Type 0} → Option (JsonDecoder N) → Dto N → Dto N × List ValidationError
unfolding map_json_error
bind_json none dto = (dto, [])
bind_json (some decoder) dto =
    let (decoded, e) = decoder dto in
    (decoded, elim e [ none ↦ [] | some error ↦ map_json_error error ])

-- `Decode` into the zero value `dto`
unfoldable pub decode :
    {N : Type 0}
    → Parsers N
    → Inputs
    → Option (JsonDecoder N)
    → Dto N
    → Dto N × List ValidationError
unfolding bind_json bind_fields path_field query_field header_field
decode parsers inputs body dto =
    let (with_path, path_errors) = bind_fields (path_field parsers inputs) dto in
    let (with_query, query_errors) = bind_fields (query_field parsers inputs) with_path in
    let (with_header, header_errors) = bind_fields (header_field parsers inputs) with_query in
    let (with_json, json_errors) = bind_json body with_header in
    (with_json, path_errors ++ (query_errors ++ (header_errors ++ json_errors)))
