-- ===== src/Tests/Bodies.antt =====
-- Runs of the packages sanitize and validation on a request body with nested fields.
use arnon.Prelude.{
  String, true, false, ◌≡◌, refl, sym, ap, ◌∙◌, Bool-cases, ◌⊎◌, All, inl, inr, Option, none, some,
  List, [], ◌∷◌, arith, str_eq, if◌then◌else◌,
}
use mathlib.Core.List.{Memᴰ}
use arnon.Prelude.Strings.{Text, codes, same, same_iff, split, decimal}
use arnon.Problem.{ValidationSource, ValidationError, body, new_body_error}
use arnon.Reflect.{
  Ty, string_type, slice_type, struct_type, pointer_type, StructField, Structs, Value, string_value,
  pointer_to, struct_value, slice_value, Values, no_values, and_value, HasType,
}
use arnon.Sanitize.{Sanitizer, trim, apply, prepare, prepare_field, parse_tag}
use arnon.Sanitize.Prepared.{apply_prepared}
use arnon.Sanitize.Reached.{
  to_target, to_field, to_element, string_at, run_each, Tagged, Under, FieldUnder, ElementUnder,
  apply-run_each,
}
use arnon.Validation.{body_source, resolve_validation_source, normalize_json_field}
use arnon.Validation.Pointers.{parse_pointer}
use arnon.Validation.FieldMap.{element_namespace, field_namespace, FieldMap, build_field_map}
use arnon.Validation.FieldMap.Complete.{
  with_options, InBody, Step, at_field, at_index, token_of, namespace_of, in_slice, here, deep,
  AtField, this_field, next_field, this_element, next_element,
}
use arnon.Validation.Rules.{lookup_custom_rule, CustomRule, register_custom_rule}
use arnon.Validation.Mapper.{
  FieldError, field_errors, map_field_error, map_validation_errors, validate,
  build_custom_rule_error, built_in,
}
use arnon.Validation.Mapper.Located.{
  OneSource, Registered, by_rule_error, validate-located, register_custom_rule-map_field_error,
}

-- Struct tags with "json", "sanitize" and none else.
tags : String → String → String → Text
tags json sanitize key =
    if str_eq key "json" then codes json else if str_eq key "sanitize" then codes sanitize else []

abbrev name_field : StructField
name_field = record {
  name = codes "Name";
  tag = tags "name,omitempty" "trim";
  is_exported = true;
  type = string_type;
}

abbrev labels_field : StructField
labels_field = record {
  name = codes "Labels";
  tag = tags "a/b,omitempty" "dive,trim";
  is_exported = true;
  type = slice_type string_type;
}

abbrev structs : Structs
structs name = name_field ∷ labels_field ∷ []

abbrev labels : Values
labels = and_value (string_value (codes " x ")) (and_value (string_value (codes "y")) no_values)

abbrev user_fields : Values
user_fields = and_value (string_value (codes " Ada ")) (and_value (slice_value labels) no_values)

abbrev user : Value
user = struct_value (codes "User") user_fields

abbrev user_type : Ty
user_type = struct_type (codes "User")

abbrev only_trim : Text → Option Sanitizer
only_trim tag = if same tag (codes "trim") then some trim else none

abbrev with_upper : Text → Option Sanitizer
with_upper tag = if same tag (codes "upper") then some (λ s. []) else only_trim tag

abbrev user-HasType : HasType structs (pointer_to user) (pointer_type user_type)
user-HasType =
    unfold HasType in
    (user_type, refl, (refl, (refl, ((string_type, refl, (refl, (refl, tt))), tt))))

extends : (tag : Text) (f : Sanitizer) → only_trim tag ≡ some f → with_upper tag ≡ some f
unfolding same
extends tag f h = elim (Bool-cases (same tag (codes "trim"))) [
  | inl e ↦
      let name : tag ≡ codes "trim" = (same_iff tag (codes "trim")).0 e in
      rw (ap (λ t. same t (codes "upper")) name, e) (rw e at h)
  | inr e ↦ absurd (cc (rw e at h))
]

apply_prepared_example :
    apply structs with_upper (pointer_to user) ≡ apply structs only_trim (pointer_to user)
apply_prepared_example =
    apply_prepared structs only_trim with_upper (pointer_to user) (pointer_type user_type) extends
      user-HasType (unfold prepare prepare_field tags split parse_tag same in refl)

labels-Tagged : Tagged (labels_field.tag "sanitize") (codes "trim" ∷ []) true
unfolding tags split
labels-Tagged = Tagged.for_elements (codes "trim" ∷ []) refl

apply-run_each_example :
    string_at
      (to_target ∷ to_field 1 ∷ to_element 0 ∷ [])
      (apply structs only_trim (pointer_to user))
    ≡ some (run_each only_trim (codes "trim" ∷ []) (codes " x "))
apply-run_each_example =
    apply-run_each structs only_trim {name = codes "User"} {vs = user_fields} {n = 1} (
      FieldUnder.next_field (
        FieldUnder.this_field refl labels-Tagged
          (Under.in_slice (ElementUnder.this_element Under.the_string))))

abbrev second_label : List Step
second_label = at_field labels_field (codes "a/b") ∷ at_index 1 ∷ []

labels-InBody : InBody labels_field (codes "a/b")
unfolding tags
labels-InBody = record {
  no_path = refl;
  no_query = refl;
  no_header = refl;
  named = with_options (codes "omitempty") refl;
  no_comma = refl;
  filled = λ e. absurd (cc e);
  no_dash = λ e. absurd (cc ((same_iff (codes "a/b") (codes "-")).1 e));
}

second_label-reached : AtField structs user_fields (structs (codes "User")) second_label
second_label-reached =
    next_field (this_field labels-InBody (deep (in_slice (next_element (this_element here)))))

abbrev label_error : FieldError
label_error = record {
  tag = codes "oneof";
  param = codes "y z";
  struct_namespace = codes "User.Labels[1]";
  field = codes "Labels[1]";
}

at_source :
    {namespace : Text} {source : ValidationSource} (m : FieldMap)
    → All (λ e. (same e.0 namespace ≡ false) ⊎ (e.1 ≡ source)) m
    → (s : ValidationSource) → Memᴰ (namespace, s) m
    → s ≡ source
at_source [] all s h = elim h [ ]
at_source (e ∷ m) (p, all) s (Memᴰ.tail h) = at_source m all s h
at_source {namespace} ((name, found) ∷ m) (p, all) s (Memᴰ.head e) = elim p [
  | inl other ↦
      let names : namespace ≡ name = ap (λ (q : Text × ValidationSource). q.0) e in
      absurd (cc (sym other ∙ (same_iff name namespace).1 (sym names)))
  | inr at ↦ ap (λ (q : Text × ValidationSource). q.1) e ∙ at
]

-- The source of all entries under a namespace, by a test of each.
one_source :
    (namespace : Text) (source : ValidationSource) (m : FieldMap)
    → All (λ e. (same e.0 namespace ≡ false) ⊎ (e.1 ≡ source)) m
    → OneSource namespace m
one_source namespace source m all s t h k = at_source m all s h ∙ sym (at_source m all t k)

label-OneSource : OneSource (namespace_of [] second_label) (build_field_map structs user)
unfolding build_field_map namespace_of token_of resolve_validation_source tags same decimal split
    normalize_json_field
label-OneSource =
    one_source (namespace_of [] second_label) (body_source (codes "/a~1b/1"))
      (build_field_map structs user) (inl refl, (inl refl, (inl refl, (inr refl, tt))))

validate-located_example :
    (error : ValidationError) × (validate structs
        (λ s. s)
        []
        (λ v. field_errors (label_error ∷ []))
        user
      ≡ error ∷ [])
    × (error.source.location ≡ body)
    × (parse_pointer error.source.field ≡ codes "a/b" ∷ codes "1" ∷ [])
unfolding map_validation_errors token_of normalize_json_field decimal same split tags namespace_of
    element_namespace field_namespace
validate-located_example =
    validate-located structs (λ s. s) [] (λ v. field_errors (label_error ∷ [])) (codes "User") []
      label_error [] second_label-reached (omega arith) label-OneSource refl refl refl

abbrev cpf_rule : CustomRule
cpf_rule = record {
  tag = codes "cpf";
  func = some (λ context. false);
  schema = none;
  code = "invalid_cpf";
  message = some (λ param. codes "invalid CPF");
}

abbrev cpf_error : FieldError
cpf_error = record {
  tag = codes "cpf";
  param = [];
  struct_namespace = codes "User.Name";
  field = codes "Name";
}

register_custom_rule-map_field_error_example :
    Registered cpf_rule [] cpf_error
      (body_source (codes "/name"))
      (map_field_error (cpf_rule ∷ []) cpf_error (body_source (codes "/name")))
register_custom_rule-map_field_error_example =
    register_custom_rule-map_field_error cpf_rule [] (cpf_rule ∷ []) cpf_error
      (body_source (codes "/name")) (unfold register_custom_rule same in refl)

-- The rule's message and code are in the error.
cpf_run :
    map_field_error (cpf_rule ∷ []) cpf_error (body_source (codes "/name"))
    ≡ by_rule_error cpf_rule cpf_error (body_source (codes "/name"))
unfolding map_field_error build_custom_rule_error same built_in lookup_custom_rule new_body_error
cpf_run = refl
