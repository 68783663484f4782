-- ===== src/Validation/Mapper/Located.antt =====
-- What the errors of `Validate` say: where they are, and what a custom rule makes of them.
use arnon.Prelude.{
  ℕ, ◌≤◌, ◌≡◌, refl, sym, ap, ◌∙◌, Bool, true, false, not, ◌&&◌, Bool-cases, Option-cases, inl, inr,
  Option, none, some, List, [], ◌∷◌, ◌++◌, map, ok, arith, any, length, ◌==◌, if◌then◌else◌, str_eq,
}
use mathlib.Core.List.{Memᴰ}
use arnon.Prelude.Strings.{Text, codes, same, same_iff, cut}
use arnon.Problem.{
  ValidationErrorCode, ValidationLocation, body, path, query, header, ValidationSource,
  ValidationError, new_body_error, new_path_error, new_query_error, new_header_error, Json, string,
}
use arnon.Reflect.{Structs, Value, struct_value, Values}
use arnon.Validation.{body_source}
use arnon.Validation.Pointers.{parse_pointer}
use arnon.Validation.FieldMap.{FieldMap, max_field_map_depth, find_source, build_field_map}
use arnon.Validation.FieldMap.Complete.{
  Step, token_of, namespace_of, AtField, build_field_map_complete,
}
use arnon.Validation.Rules.{
  CustomRule, CustomRules, lookup_custom_rule, register_custom_rule, lookup-put, register-ok,
}
use arnon.Validation.Mapper.{
  FieldError, CheckResult, rule_detail, field_errors, build_validation_error,
  build_custom_rule_error, map_other_tag, built_in, map_field_error, struct_field_namespace,
  source_of, map_validation_errors, validate,
}

cut_first :
    (sep : ℕ) (s t : Text) → any (λ c. c == sep) s ≡ false → cut sep (s ++ sep ∷ t) ≡ some (s, t)
unfolding cut
cut_first sep [] t h = let here : (sep == sep) ≡ true = ground arith in rw here refl
cut_first sep (c ∷ s) t h =
    let other : (c == sep) ≡ false = ground arith in
    let later : any (λ d. d == sep) s ≡ false = ground arith in
    rw (other, cut_first sep s t later) refl

pair_lem :
    {name namespace : Text} {s source : ValidationSource}
    → name ≡ namespace
    → ◌≡◌ {A = Option ValidationSource} (some source) (some s)
    → ◌≡◌ {A = Text × ValidationSource} (namespace, s) (name, source)
pair_lem h k = cc

found :
    (namespace : Text) (s : ValidationSource) (m : FieldMap)
    → find_source namespace m ≡ some s
    → Memᴰ (namespace, s) m
unfolding find_source
found namespace s [] h = absurd (cc)
found namespace s ((name, source) ∷ rest) h = elim (Option-cases (find_source namespace rest)) [
  | inr (t, e) ↦ Memᴰ.tail (found namespace s rest (e ∙ (rw e at h)))
  | inl e ↦ elim (Bool-cases (same name namespace)) [
    | inl k ↦ Memᴰ.head (pair_lem ((same_iff name namespace).0 k) (rw (e, k) at h))
    | inr k ↦ absurd (cc (rw (e, k) at h))
  ]
]

is_found :
    (namespace : Text) (s : ValidationSource) (m : FieldMap)
    → Memᴰ (namespace, s) m
    → (t : ValidationSource) × (find_source namespace m ≡ some t)
unfolding find_source
is_found namespace s [] h = elim h [ ]
is_found namespace s ((name, source) ∷ rest) (Memᴰ.head e) =
    elim (Option-cases (find_source namespace rest)) [
      | inr (t, k) ↦ (t, rw k refl)
      | inl k ↦ (
        source,
        rw (k, (same_iff name namespace).1 (sym (ap (λ (p : Text × ValidationSource). p.0) e)))
            refl,
      )
    ]
is_found namespace s ((name, source) ∷ rest) (Memᴰ.tail m) =
    let (t, e) = is_found namespace s rest m in (t, rw e refl)

-- All entries under a namespace have one source.
abbrev pub OneSource : Text → FieldMap → Type 0
OneSource namespace m =
    (s t : ValidationSource) → Memᴰ (namespace, s) m → Memᴰ (namespace, t) m → s ≡ t

find_source-member :
    (namespace : Text) (s : ValidationSource) (m : FieldMap)
    → OneSource namespace m
    → Memᴰ (namespace, s) m
    → find_source namespace m ≡ some s
find_source-member namespace s m one h =
    let (t, e) = is_found namespace s m h in e ∙ ap some (one t s (found namespace t m e) h)

built_at :
    (location : ValidationLocation) (field detail : Text) (code : ValidationErrorCode)
    (meta : List (Text × Json))
    → build_validation_error (record { location = location; field = field }) detail code meta
      ≡ record {
        detail = detail;
        code = code;
        source = record { location = location; field = field };
        meta = meta;
      }
unfolding build_validation_error new_body_error new_path_error new_query_error new_header_error
built_at body field detail code meta = refl
built_at path field detail code meta = refl
built_at query field detail code meta = refl
built_at header field detail code meta = refl

abbrev source_of_error : ValidationError → ValidationSource
source_of_error error = error.source

other-source :
    (rules : CustomRules) (e : FieldError) (source : ValidationSource)
    → (map_other_tag rules e source).source ≡ source
unfolding map_other_tag build_custom_rule_error
other-source rules e source = elim (Option-cases (lookup_custom_rule e.tag rules)) [
  | inl k ↦ rw (k, map_other_tag) (ap source_of_error (built_at source.location source.field _ _ _))
  | inr (rule, k) ↦
      rw (k, map_other_tag) (ap source_of_error (built_at source.location source.field _ _ _))
]

-- An error is where the field map says.
map_field_error-source :
    (rules : CustomRules) (e : FieldError) (source : ValidationSource)
    → (map_field_error rules e source).source ≡ source
unfolding map_field_error
map_field_error-source rules e source = elim (Option-cases (built_in e)) [
  | inl k ↦ rw (k, map_field_error) (other-source rules e source)
  | inr ((detail, code, meta), k) ↦
      rw (k, map_field_error)
        (ap source_of_error (built_at source.location source.field detail code meta))
]

map_validation_errors-append :
    (structs : Structs) (lower_case : Text → Text) (rules : CustomRules) (v : Value)
    (es fs : List FieldError)
    → map_validation_errors structs lower_case rules v (es ++ fs)
      ≡ map_validation_errors structs lower_case rules v es
        ++ map_validation_errors structs lower_case rules v fs
unfolding map_validation_errors
map_validation_errors-append structs lower_case rules v [] fs = refl
map_validation_errors-append structs lower_case rules v (e ∷ es) fs =
    rw (map_validation_errors-append structs lower_case rules v es fs) refl

-- Where the validator reports, among others, a field error whose namespace is a type's name and the Go
-- namespace of a path of at most sixteen steps through fields of the body that are named by their `json` tags,
-- with or without options, and no other field has that namespace, `Validate` gives at the same place among its
-- errors one that is in the body, at a JSON pointer that reads as those names without the options, the indices
-- and the keys of the path.
pub validate-located :
    (structs : Structs) (lower_case : Text → Text) (rules : CustomRules)
    (struct_check : Value → CheckResult) {name : Text} (type_name : Text) {vs : Values}
    {steps : List Step} (before : List FieldError) (e : FieldError) (after : List FieldError)
    → AtField structs vs (structs name) steps
    → length steps ≤ max_field_map_depth
    → OneSource (namespace_of [] steps) (build_field_map structs (struct_value name vs))
    → any (λ c. c == b'.') type_name ≡ false
    → e.struct_namespace ≡ type_name ++ b'.' ∷ namespace_of [] steps
    → struct_check (struct_value name vs) ≡ field_errors (before ++ e ∷ after)
    → (error : ValidationError) × (validate structs lower_case rules struct_check
          (struct_value name vs)
        ≡ map_validation_errors structs lower_case rules (struct_value name vs) before
          ++ error ∷ map_validation_errors structs lower_case rules (struct_value name vs) after)
      × (error.source.location ≡ body)
      × (parse_pointer error.source.field ≡ map token_of steps)
unfolding validate source_of struct_field_namespace map_validation_errors
validate-located structs lower_case rules struct_check {name} type_name {vs} {steps} before e after
      at short one plain ns check =
    let v : Value = struct_value name vs in
    let (pointer, entry, tokens) = build_field_map_complete structs at short in
    let cutting : cut b'.' e.struct_namespace ≡ some (type_name, namespace_of [] steps) =
      ap (cut b'.') ns ∙ cut_first b'.' type_name (namespace_of [] steps) plain in
    let finding : source_of structs lower_case rules v e ≡ body_source pointer =
      rw
        (
          source_of,
          struct_field_namespace,
          cutting,
          find_source-member (namespace_of [] steps) (body_source pointer)
              (build_field_map structs v) one entry,
        )
        refl in
    let there : (map_field_error rules e (source_of structs lower_case rules v e)).source
        ≡ body_source pointer =
      map_field_error-source rules e (source_of structs lower_case rules v e) ∙ finding in
    (
      map_field_error rules e (source_of structs lower_case rules v e),
      rw (validate, check)
          (map_validation_errors-append structs lower_case rules v before (e ∷ after)),
      ap (λ (s : ValidationSource). s.location) there,
      ap (λ (s : ValidationSource). parse_pointer s.field) there ∙ tokens,
    )

abbrev pub is_some {ℓ} : {A : Type ℓ} → Option A → Bool
is_some none = false
is_some (some a) = true

abbrev message_of : Option (Text → Text) → Text → Text
message_of none param = codes "validation failed"
message_of (some message) param = message param

-- What a rule makes of a report: its message on the report's parameter, or the general one where it has none;
-- its code, or the general one where that is empty; the rule's tag and the parameter; and the place.
abbrev pub by_rule_error : CustomRule → FieldError → ValidationSource → ValidationError
by_rule_error rule e source = record {
  detail = message_of rule.message e.param;
  code = if str_eq rule.code "" then "validation_failed" else rule.code;
  source = source;
  meta = (codes "rule", string rule.tag) ∷ (codes "param", string e.param) ∷ [];
}

detail_lem :
    (message : Option (Text → Text)) (param : Text)
    → rule_detail message param ≡ message_of message param
unfolding rule_detail
detail_lem none param = refl
detail_lem (some message) param = refl

by_rule_lem :
    (e : FieldError) (source : ValidationSource) (rule : CustomRule)
    → build_custom_rule_error e source rule ≡ by_rule_error rule e source
unfolding build_custom_rule_error
by_rule_lem e source rule =
    built_at source.location source.field _ _ _ ∙ rw (detail_lem rule.message e.param) refl

-- The errors of a report after a rule's registration.
pub data Registered (rule : CustomRule) (rules : CustomRules) (e : FieldError)
    (source : ValidationSource) (error : ValidationError) : Type 0 where
  by_rule :
      rule.tag ≡ e.tag
      → built_in e ≡ none
      → error ≡ by_rule_error rule e source
      → Registered rule rules e source error
  as_before :
      (same rule.tag e.tag && not (is_some (built_in e)) ≡ false)
      → error ≡ map_field_error rules e source
      → Registered rule rules e source error

none_of : {A : Type 0} (o : Option A) → not (is_some o) ≡ true → o ≡ none
none_of none h = refl
none_of (some a) h = absurd (cc)

map_field_error-after :
    (rule : CustomRule) (rules after : CustomRules) (e : FieldError) (source : ValidationSource)
    → register_custom_rule rule rules ≡ ok after
    → map_field_error after e source ≡ (
        if same rule.tag e.tag && not (is_some (built_in e))
        then build_custom_rule_error e source rule
        else map_field_error rules e source)
unfolding map_field_error map_other_tag
map_field_error-after rule rules after e source h =
    rw (register-ok rule rules after h) (elim (Option-cases (built_in e)) [
      | inr (row, k) ↦ elim (Bool-cases (same rule.tag e.tag)) [
        | inl t ↦ rw (map_field_error, k, t) refl
        | inr t ↦ rw (map_field_error, k, t) refl
      ]
      | inl k ↦ elim (Bool-cases (same rule.tag e.tag)) [
        | inl t ↦ rw (k, map_field_error, map_other_tag, lookup-put rule rules e.tag, t) refl
        | inr t ↦ rw (k, map_field_error, map_other_tag, lookup-put rule rules e.tag, t) refl
      ]
    ])

-- After a registration that succeeds, an error under the rule's tag, which the package does not translate
-- itself, has the rule's message on the parameter ("validation failed" if it has none), the rule's code
-- ("validation_failed" if it is empty), its tag and the parameter, at the place of the report, whatever was
-- registered before; all other errors are what they were.
pub register_custom_rule-map_field_error :
    (rule : CustomRule) (rules after : CustomRules) (e : FieldError) (source : ValidationSource)
    → register_custom_rule rule rules ≡ ok after
    → Registered rule rules e source (map_field_error after e source)
register_custom_rule-map_field_error rule rules after e source h =
    let known = map_field_error-after rule rules after e source h in
    elim (Bool-cases (same rule.tag e.tag && not (is_some (built_in e)))) [
      | inl own ↦
          by_rule ((same_iff rule.tag e.tag).0 (ground arith)) (none_of (built_in e) (ground arith))
            (known ∙ rw own (by_rule_lem e source rule))
      | inr other ↦ as_before other (known ∙ rw other refl)
    ]
