-- ===== src/Validation/Mapper.antt =====
-- validation/mapper.go and playground.go: the validation errors that the reports of the validator give.
-- The validator of go-playground is a parameter, and so is `strings.ToLower`.
pub mod Located
use arnon.Prelude.{
  ℕ, String, Bool, true, false, ◌≡◌, refl, Option, none, some, List, [], ◌∷◌, ◌++◌, map, Result, ok,
  err, str_eq, if◌then◌else◌,
}
use arnon.Prelude.Strings.{Text, codes, same, is_space, cut, join}
use arnon.Problem.{
  Json, string, array, Items, no_items, item, ValidationErrorCode, ValidationLocation, body, path,
  query, header, ValidationSource, ValidationError, new_body_error, new_path_error, new_query_error,
  new_header_error, validation_code_required, validation_code_min_length,
  validation_code_max_length, validation_code_greater_than, validation_code_greater_than_or_equal,
  validation_code_less_than, validation_code_less_than_or_equal, validation_code_exact_length,
  validation_code_invalid_value, validation_code_equal, validation_code_not_equal,
  validation_code_invalid_uuid, validation_code_invalid_email, validation_code_invalid_url,
  validation_code_validation_failed, validation_code_invalid_type,
}
use arnon.Reflect.{Structs, Value}
use arnon.Validation.{escape_json_pointer_token, body_source}
use arnon.Validation.FieldMap.{find_source, build_field_map}
use arnon.Validation.Rules.{RuleFunc, CustomRule, CustomRules, lookup_custom_rule}

-- What the mapper reads of a validator/v10 FieldError.
pub record FieldError : Type 0 where
  pub tag : Text
  pub param : Text
  pub struct_namespace : Text
  pub field : Text

-- What `Validate.Struct` returns: nil, its ValidationErrors (wrapped or not), or an error that wraps none.
pub data CheckResult : Type 0 where
  valid : CheckResult
  field_errors : List FieldError → CheckResult
  other_error : Text → CheckResult

abbrev Meta : Type 0
Meta = List (Text × Json)

-- `buildValidationError`: every location of the model has its builder.
unfoldable pub build_validation_error :
    ValidationSource → Text → ValidationErrorCode → List (Text × Json) → ValidationError
build_validation_error source detail code meta = elim source.location [
  | body ↦ new_body_error detail source.field code meta
  | path ↦ new_path_error detail source.field code meta
  | query ↦ new_query_error detail source.field code meta
  | header ↦ new_header_error detail source.field code meta
]

-- A word that ends, before the others: no word is empty.
word_then : Text → List Text → List Text
word_then [] words = words
word_then (c ∷ word) words = (c ∷ word) ∷ words

fields_after : Text → Text → List Text
unfolding word_then
fields_after word [] = word_then word []
fields_after word (c ∷ s) =
    let words = fields_after (if is_space c then [] else word ++ c ∷ []) s in
    if is_space c then word_then word words else words

-- strings.Fields
unfoldable pub fields : Text → List Text
unfolding fields_after
fields s = fields_after [] s

strings : List Text → Items
strings [] = no_items
strings (s ∷ rest) = item (string s) (strings rest)

-- The message of a rule, or the general one.
rule_detail : Option (Text → Text) → Text → Text
rule_detail none param = codes "validation failed"
rule_detail (some message) param = message param

-- `buildCustomRuleError`
unfoldable pub build_custom_rule_error :
    FieldError → ValidationSource → CustomRule → ValidationError
unfolding build_validation_error rule_detail
build_custom_rule_error e source rule =
    build_validation_error source (rule_detail rule.message e.param)
      (if str_eq rule.code "" then validation_code_validation_failed else rule.code)
      ((codes "rule", string rule.tag) ∷ (codes "param", string e.param) ∷ [])

-- `default:` of the switch
unfoldable pub map_other_tag : CustomRules → FieldError → ValidationSource → ValidationError
unfolding build_custom_rule_error build_validation_error
map_other_tag rules e source = elim (lookup_custom_rule e.tag rules) [
  | some rule ↦ build_custom_rule_error e source rule
  | none ↦
      build_validation_error source (codes "validation failed") validation_code_validation_failed
        ((codes "rule", string e.tag) ∷ (codes "param", string e.param) ∷ [])
]

abbrev value_meta : FieldError → List (Text × Json)
value_meta e = (codes "value", string e.param) ∷ []

-- The tags of the switch with the detail, the code and the meta of each.
unfoldable pub built_in : FieldError → Option (Text × ValidationErrorCode × List (Text × Json))
unfolding fields strings
built_in e =
    let is = λ (tag : String). same e.tag (codes tag) in
    if is "required"
    then some (codes "field is required", validation_code_required, [])
    else if is "min"
    then some (
      codes "must contain at least " ++ e.param ++ codes " characters",
      validation_code_min_length,
      (codes "min", string e.param) ∷ [],
    )
    else if is "max"
    then some (
      codes "must contain at most " ++ e.param ++ codes " characters",
      validation_code_max_length,
      (codes "max", string e.param) ∷ [],
    )
    else if is "gt"
    then some (codes "must be greater than " ++ e.param, validation_code_greater_than, value_meta e)
    else if is "gte"
    then some (
      codes "must be greater than or equal to " ++ e.param,
      validation_code_greater_than_or_equal,
      value_meta e,
    )
    else if is "lt"
    then some (codes "must be less than " ++ e.param, validation_code_less_than, value_meta e)
    else if is "lte"
    then some (
      codes "must be less than or equal to " ++ e.param,
      validation_code_less_than_or_equal,
      value_meta e,
    )
    else if is "len"
    then some (codes "must match length " ++ e.param, validation_code_exact_length, value_meta e)
    else if is "oneof"
    then some (
      codes "must be one of: " ++ join (codes ", ") (fields e.param),
      validation_code_invalid_value,
      (codes "allowed", array (strings (fields e.param))) ∷ [],
    )
    else if is "eq"
    then some (codes "must equal " ++ e.param, validation_code_equal, value_meta e)
    else if is "ne"
    then some (codes "must not equal " ++ e.param, validation_code_not_equal, value_meta e)
    else if is "uuid"
    then some (codes "invalid UUID", validation_code_invalid_uuid, [])
    else if is "email"
    then some (codes "invalid email", validation_code_invalid_email, [])
    else if is "url"
    then some (codes "invalid URL", validation_code_invalid_url, [])
    else none

-- `mapFieldError`
unfoldable pub map_field_error : CustomRules → FieldError → ValidationSource → ValidationError
unfolding built_in map_other_tag build_validation_error
map_field_error rules e source = elim (built_in e) [
  | some (detail, code, meta) ↦ build_validation_error source detail code meta
  | none ↦ map_other_tag rules e source
]

-- `structFieldNamespace`
unfoldable pub struct_field_namespace : FieldError → Text
struct_field_namespace e = elim (cut b'.' e.struct_namespace) [
  | some (type_name, rest) ↦ rest
  | none ↦ e.struct_namespace
]

module _ (structs : Structs) (lower_case : Text → Text) (rules : CustomRules) where
  -- Where a report is located.
  unfoldable pub source_of : Value → FieldError → ValidationSource
  unfolding struct_field_namespace
  source_of v e = elim (find_source (struct_field_namespace e) (build_field_map structs v)) [
    | some source ↦ source
    | none ↦ body_source (b'/' ∷ escape_json_pointer_token (lower_case e.field))
  ]

  -- `mapValidationErrors` on an error, and `Validate` on the result of the validator: no error is nil.
  unfoldable pub map_validation_errors : Value → List FieldError → List ValidationError
  unfolding map_field_error source_of
  map_validation_errors v [] = []
  map_validation_errors v (e ∷ rest) =
      map_field_error rules e (source_of v e) ∷ map_validation_errors v rest

  unfoldable pub validate : (Value → CheckResult) → Value → List ValidationError
  unfolding map_validation_errors
  validate struct_check v = elim (struct_check v) [
    | valid ↦ []
    | field_errors errors ↦ map_validation_errors v errors
    | other_error message ↦ new_body_error message (codes "/") validation_code_invalid_type [] ∷ []
  ]
