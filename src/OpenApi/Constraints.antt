-- ===== src/OpenApi/Constraints.antt =====
-- openapi/validation.go: what a `validate` tag does to a field's schema. strconv is a parameter; of a schema
-- there is what the tags change, and the schema of its items.
pub mod Dive
use arnon.Prelude.{
  ℕ, String, Bool, true, false, not, ◌&&◌, Option, none, some, List, [], ◌∷◌, ◌++◌, if◌then◌else◌,
}
use arnon.Prelude.Strings.{Text, codes, same, split, cut}
use arnon.Validation.Rules.{SchemaEffect, CustomRule, CustomRules, lookup_custom_rule}
use arnon.Validation.Mapper.{fields}

-- The fields of `Schema` that the tags change; an unset pointer is `none`. `N` is int and `F` is float64.
pub record Constraints (N F : Type 0) : Type 0 where
  pub type : Text
  pub format : Text
  pub pattern : Text
  pub min_length : Option N
  pub max_length : Option N
  pub min_items : Option N
  pub max_items : Option N
  pub minimum : Option F
  pub maximum : Option F
  pub exclusive_minimum : Option F
  pub exclusive_maximum : Option F
  pub enum : List Text

-- A schema without `Items` or with them.
pub data Schema (N F : Type 0) : Type 0 where
  plain : Constraints N F → Schema N F
  of_items : Constraints N F → Schema N F → Schema N F

-- strconv.Atoi, the conversion of an int, and strconv.ParseFloat
pub record Numbers (N F : Type 0) : Type 0 where
  pub atoi : Text → Option N
  pub to_float : N → F
  pub parse_float : Text → Option F

-- strings.Cut at "=": the name, the value, whether there is one.
pub record Tag : Type 0 where
  pub name : Text
  pub value : Text
  pub has_value : Bool

unfoldable pub tag_of : Text → Tag
tag_of tag = elim (cut b'=' tag) [
  | none ↦ record { name = tag; value = []; has_value = false }
  | some (name, value) ↦ record { name = name; value = value; has_value = true }
]

unfoldable pub on_constraints :
    {N F : Type 0} → (Constraints N F → Constraints N F) → Schema N F → Schema N F
on_constraints f (plain c) = plain (f c)
on_constraints f (of_items c items) = of_items (f c) items

-- What the tags after a "dive" do: to the items where there are any, and to the schema otherwise.
unfoldable pub into_items : {N F : Type 0} → (Schema N F → Schema N F) → Schema N F → Schema N F
into_items f (plain c) = f (plain c)
into_items f (of_items c items) = of_items c (f items)

unfoldable pub is_dive : Text → Bool
unfolding tag_of
is_dive tag = same (tag_of tag).name (codes "dive")

unfoldable pub is_required : Text → Bool
unfolding tag_of
is_required tag = same (tag_of tag).name (codes "required")

-- The loop's work on the list of the required names; `dived` is the loop's variable.
unfoldable pub require : Text → Bool → List Text → List Text
require field_name dived [] = []
require field_name dived (tag ∷ rest) =
    let later = require field_name (if is_dive tag then true else dived) rest in
    if is_required tag && not dived then field_name ∷ later else later

-- A number that parses is put in its place.
unfoldable pub with_number :
    {N F A : Type 0} → Option A → (A → Constraints N F) → Constraints N F → Constraints N F
with_number none put c = c
with_number (some n) put c = put n

module _ {N F : Type 0} (numbers : Numbers N F) where
  unfoldable pub put_min : Constraints N F → N → Constraints N F
  put_min c n =
      if same c.type (codes "string")
      then record c { min_length = some n }
      else if same c.type (codes "array")
      then record c { min_items = some n }
      else record c { minimum = some (numbers.to_float n) }

  unfoldable pub apply_min : Text → Constraints N F → Constraints N F
  unfolding with_number put_min
  apply_min value c = with_number (numbers.atoi value) (put_min c) c

  unfoldable pub put_max : Constraints N F → N → Constraints N F
  put_max c n =
      if same c.type (codes "string")
      then record c { max_length = some n }
      else if same c.type (codes "array")
      then record c { max_items = some n }
      else record c { maximum = some (numbers.to_float n) }

  unfoldable pub apply_max : Text → Constraints N F → Constraints N F
  unfolding with_number put_max
  apply_max value c = with_number (numbers.atoi value) (put_max c) c

  unfoldable pub apply_gt : Text → Constraints N F → Constraints N F
  unfolding with_number
  apply_gt value c =
      with_number (numbers.parse_float value) (λ x. record c { exclusive_minimum = some x }) c

  unfoldable pub apply_gte : Text → Constraints N F → Constraints N F
  unfolding with_number
  apply_gte value c = with_number (numbers.parse_float value) (λ x. record c { minimum = some x }) c

  unfoldable pub apply_lt : Text → Constraints N F → Constraints N F
  unfolding with_number
  apply_lt value c =
      with_number (numbers.parse_float value) (λ x. record c { exclusive_maximum = some x }) c

  unfoldable pub apply_lte : Text → Constraints N F → Constraints N F
  unfolding with_number
  apply_lte value c = with_number (numbers.parse_float value) (λ x. record c { maximum = some x }) c

  unfoldable pub put_len : Constraints N F → N → Constraints N F
  put_len c n =
      if same c.type (codes "string")
      then record c { min_length = some n; max_length = some n }
      else if same c.type (codes "array")
      then record c { min_items = some n; max_items = some n }
      else c

  unfoldable pub apply_len : Text → Constraints N F → Constraints N F
  unfolding with_number put_len
  apply_len value c = with_number (numbers.atoi value) (put_len c) c

  unfoldable pub apply_one_of : Text → Constraints N F → Constraints N F
  apply_one_of value c = if same value [] then c else record c { enum = fields value }

  -- The effect of a rule on the schema: what it leaves empty stays.
  unfoldable pub put_effect : SchemaEffect → Constraints N F → Constraints N F
  put_effect effect c = record c {
    format = if same effect.format [] then c.format else effect.format;
    pattern = if same effect.pattern [] then c.pattern else effect.pattern;
  }

  module _ (rules : CustomRules) where
    unfoldable pub apply_custom_rule : Text → Constraints N F → Constraints N F
    unfolding put_effect
    apply_custom_rule name c = elim (lookup_custom_rule name rules) [
      | none ↦ c
      | some rule ↦ elim rule.schema [ none ↦ c | some effect ↦ put_effect effect c ]
    ]

    -- The switch, but for "required".
    unfoldable pub apply_tag : Tag → Constraints N F → Constraints N F
    unfolding apply_min apply_max apply_gt apply_gte apply_lt apply_lte apply_len apply_one_of
        apply_custom_rule
    apply_tag tag c =
        let is = λ (name : String). same tag.name (codes name) in
        if is "required"
        then c
        else if is "min"
        then apply_min tag.value c
        else if is "max"
        then apply_max tag.value c
        else if is "gt"
        then apply_gt tag.value c
        else if is "gte"
        then apply_gte tag.value c
        else if is "lt"
        then apply_lt tag.value c
        else if is "lte"
        then apply_lte tag.value c
        else if is "len"
        then apply_len tag.value c
        else if is "oneof"
        then (if tag.has_value then apply_one_of tag.value c else c)
        else if is "email"
        then record c { format = codes "email" }
        else if is "uuid"
        then record c { format = codes "uuid" }
        else if is "url"
        then record c { format = codes "uri" }
        else apply_custom_rule tag.name c

    -- The loop's work on the schema.
    unfoldable pub constrain : List Text → Schema N F → Schema N F
    unfolding on_constraints into_items apply_tag
    constrain [] schema = schema
    constrain (tag ∷ rest) schema = elim (is_dive tag) [
      | true ↦ into_items (constrain rest) schema
      | false ↦ constrain rest (on_constraints (apply_tag (tag_of tag)) schema)
    ]

    -- `applyValidationTags`: the schema, and the names that are added to `required`.
    unfoldable pub apply_validation_tags : Text → Text → Schema N F → Schema N F × List Text
    unfolding constrain require
    apply_validation_tags tag_value field_name schema =
        if same tag_value [] then (schema, []) else (
          constrain (split b',' tag_value) schema,
          require field_name false (split b',' tag_value),
        )
