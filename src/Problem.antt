-- ===== src/Problem.antt =====
-- The package problem: the problem document, its builders and its members in JSON.
pub mod Kinds
pub mod Extensions
pub mod Document
pub mod Reading
use arnon.Prelude.{
  ℕ, String, Bool, true, false, Option, none, some, List, [], ◌∷◌, ◌++◌, Result, ok, err, any, ◌==◌,
  if◌then◌else◌, str_eq,
}
use arnon.Prelude.Strings.{Text, codes, same, trim_space}

-- The values that `any` holds in extension members and in `Meta`: what encoding/json renders, over
-- natural numbers, and the values that it rejects (functions, channels).
mutual
  pub data Json : Type 0 where
    null unencodable : Json
    boolean : Bool → Json
    number : ℕ → Json
    string : Text → Json
    array : Items → Json
    object : Fields → Json

  pub data Items : Type 0 where
    no_items : Items
    item : Json → Items → Items

  pub data Fields : Type 0 where
    no_fields : Fields
    entry : Text → Json → Fields → Fields

-- `ValidationErrorCode` is an open set of strings.
abbrev pub ValidationErrorCode : Type 0
ValidationErrorCode = String

abbrev pub validation_code_required : ValidationErrorCode
validation_code_required = "required"

abbrev pub validation_code_min_length : ValidationErrorCode
validation_code_min_length = "min_length"

abbrev pub validation_code_max_length : ValidationErrorCode
validation_code_max_length = "max_length"

abbrev pub validation_code_greater_than : ValidationErrorCode
validation_code_greater_than = "greater_than"

abbrev pub validation_code_greater_than_or_equal : ValidationErrorCode
validation_code_greater_than_or_equal = "greater_than_or_equal"

abbrev pub validation_code_less_than : ValidationErrorCode
validation_code_less_than = "less_than"

abbrev pub validation_code_less_than_or_equal : ValidationErrorCode
validation_code_less_than_or_equal = "less_than_or_equal"

abbrev pub validation_code_exact_length : ValidationErrorCode
validation_code_exact_length = "exact_length"

abbrev pub validation_code_invalid_value : ValidationErrorCode
validation_code_invalid_value = "invalid_value"

abbrev pub validation_code_equal : ValidationErrorCode
validation_code_equal = "equal"

abbrev pub validation_code_not_equal : ValidationErrorCode
validation_code_not_equal = "not_equal"

abbrev pub validation_code_invalid_uuid : ValidationErrorCode
validation_code_invalid_uuid = "invalid_uuid"

abbrev pub validation_code_invalid_email : ValidationErrorCode
validation_code_invalid_email = "invalid_email"

abbrev pub validation_code_invalid_url : ValidationErrorCode
validation_code_invalid_url = "invalid_url"

abbrev pub validation_code_validation_failed : ValidationErrorCode
validation_code_validation_failed = "validation_failed"

abbrev pub validation_code_invalid_type : ValidationErrorCode
validation_code_invalid_type = "invalid_type"

abbrev pub validation_code_malformed_json : ValidationErrorCode
validation_code_malformed_json = "malformed_json"

abbrev pub validation_code_payload_too_large : ValidationErrorCode
validation_code_payload_too_large = "payload_too_large"

unfoldable pub status_override : ValidationErrorCode → ℕ
status_override code = if str_eq code validation_code_payload_too_large then 413 else 0

pub data ValidationLocation : Type 0 where
  body path query header : ValidationLocation

pub record ValidationSource : Type 0 where
  pub location : ValidationLocation
  pub field : Text

pub record ValidationError : Type 0 where
  pub detail : Text
  pub code : ValidationErrorCode
  pub source : ValidationSource
  pub meta : List (Text × Json)

new_validation_error :
    Text → ValidationLocation → Text → ValidationErrorCode → List (Text × Json) → ValidationError
new_validation_error detail location field code meta = record {
  detail = detail;
  code = code;
  source = record { location = location; field = field };
  meta = meta;
}

unfoldable pub new_body_error :
    Text → Text → ValidationErrorCode → List (Text × Json) → ValidationError
unfolding new_validation_error
new_body_error detail field code meta = new_validation_error detail body field code meta

unfoldable pub new_path_error :
    Text → Text → ValidationErrorCode → List (Text × Json) → ValidationError
unfolding new_validation_error
new_path_error detail field code meta = new_validation_error detail path field code meta

unfoldable pub new_query_error :
    Text → Text → ValidationErrorCode → List (Text × Json) → ValidationError
unfolding new_validation_error
new_query_error detail field code meta = new_validation_error detail query field code meta

unfoldable pub new_header_error :
    Text → Text → ValidationErrorCode → List (Text × Json) → ValidationError
unfolding new_validation_error
new_header_error detail field code meta = new_validation_error detail header field code meta

-- The fields of a `Problem` but `Err`.
pub record Details : Type 0 where
  pub type_uri : Text
  pub title : Text
  pub status : ℕ
  pub detail : Text
  pub instance_uri : Text
  pub errors : List ValidationError
  pub extensions : List (Text × Json)

-- The `error` values that the program tells apart: nil, an error with no cause, one that wraps
-- another (`%w`), the two of encoding/json, and a `*Problem` with its `Err`.
pub data Error : Type 0 where
  nil : Error
  plain : Text → Error
  wrapped : Text → Error → Error
  syntax_error : Error
  unmarshal_type_error : Text → Text → Text → Error
  problem_error : Details → Error → Error

pub record Problem : Type 0 where
  pub details : Details
  pub open details use *
  pub cause : Error

-- A `*Problem` returned as an `error`.
abbrev pub as_error : Problem → Error
as_error p = problem_error p.details p.cause

unfoldable pub new : ℕ → Text → Text → Problem
new status title detail = record {
  details = record {
    type_uri = [];
    title = title;
    status = status;
    detail = detail;
    instance_uri = [];
    errors = [];
    extensions = [];
  };
  cause = nil;
}

unfoldable pub status_code : Problem → ℕ
status_code p = if p.status == 0 then 500 else p.status

unfoldable pub with_type : Text → Problem → Problem
with_type value p = record p { details = record p.details { type_uri = value } }

unfoldable pub with_instance : Text → Problem → Problem
with_instance value p = record p { details = record p.details { instance_uri = value } }

unfoldable pub with_error : Error → Problem → Problem
with_error e p = record p { cause = e }

unfoldable pub add_error : ValidationError → Problem → Problem
add_error e p = record p { details = record p.details { errors = p.errors ++ e ∷ [] } }

-- `isReservedField`
unfoldable pub is_reserved_field : Text → Bool
is_reserved_field key =
    any (λ f. same f key)
      (codes "type"
        ∷ codes "title"
        ∷ codes "status"
        ∷ codes "detail"
        ∷ codes "instance"
        ∷ codes "errors"
        ∷ [])

-- The two panics of `With`.
pub data ExtensionPanic : Type 0 where
  empty_extension_key : ExtensionPanic
  reserved_extension_key : Text → ExtensionPanic

-- `m[key] = value`
unfoldable pub assign : Text → Json → List (Text × Json) → List (Text × Json)
assign key value [] = (key, value) ∷ []
assign key value ((k, v) ∷ rest) =
    if same k key then (key, value) ∷ rest else (k, v) ∷ assign key value rest

-- `m[key]` with its presence
unfoldable pub member : Text → List (Text × Json) → Option Json
member key [] = none
member key ((k, v) ∷ rest) = if same k key then some v else member key rest

unfoldable pub with_extension : Text → Json → Problem → Result ExtensionPanic Problem
with_extension key value p =
    let trimmed = trim_space key in
    if same trimmed []
    then err empty_extension_key
    else if is_reserved_field trimmed
    then err (reserved_extension_key trimmed)
    else ok
        (record p { details = record p.details { extensions = assign trimmed value p.extensions } })

unfoldable pub extension : Text → Problem → Option Json
extension key p = member (trim_space key) p.extensions
