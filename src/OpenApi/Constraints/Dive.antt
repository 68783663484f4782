-- ===== src/OpenApi/Constraints/Dive.antt =====
-- openapi/validation.go: which schema a tag constrains, before a "dive" and after it.
use arnon.Prelude.{
  Bool, true, false, ◌||◌, List, [], ◌∷◌, ◌++◌, ◌≡◌, refl, ap, ◌∙◌, Bool-cases, inl, inr,
}
use arnon.Prelude.Strings.{Text, codes, same, split, cut}
use arnon.Validation.Rules.{CustomRules}
use arnon.OpenApi.Constraints.{
  Constraints, Schema, of_items, Numbers, tag_of, apply_tag, on_constraints, into_items, is_dive,
  is_required, constrain, require, apply_validation_tags,
}

-- Whether a "dive" is among the tags.
unfoldable pub has_dive : List Text → Bool
has_dive [] = false
has_dive (tag ∷ rest) = is_dive tag || has_dive rest

abbrev pub dive : Text
dive = codes "dive"

-- Without a "dive" there is none at the head and none behind it.
has_dive-parts :
    (tag : Text) (rest : List Text)
    → has_dive (tag ∷ rest) ≡ false
    → (is_dive tag ≡ false) × (has_dive rest ≡ false)
unfolding has_dive
has_dive-parts tag rest free = elim (Bool-cases (is_dive tag)) [
  | inl d ↦ absurd (cc (rw d at free))
  | inr d ↦ (d, (rw d at free))
]

is_dive-dive : is_dive dive ≡ true
unfolding is_dive tag_of same cut
is_dive-dive = refl

is_required-dive : is_required dive ≡ false
unfolding is_required tag_of same cut
is_required-dive = refl

require-dived : (name : Text) (tags : List Text) → require name true tags ≡ []
unfolding require
require-dived name [] = refl
require-dived name (tag ∷ rest) = elim (Bool-cases (is_required tag)) [
  | inl e ↦ elim (Bool-cases (is_dive tag)) [
    | inl d ↦ rw e (rw d (require-dived name rest))
    | inr d ↦ rw e (rw d (require-dived name rest))
  ]
  | inr e ↦ elim (Bool-cases (is_dive tag)) [
    | inl d ↦ rw e (rw d (require-dived name rest))
    | inr d ↦ rw e (rw d (require-dived name rest))
  ]
]

-- The tags after a "dive" never make the field required.
require-dive :
    (name : Text) (before after : List Text)
    → has_dive before ≡ false
    → require name false (before ++ dive ∷ after) ≡ require name false before
unfolding require has_dive
require-dive name [] after free = rw is_required-dive (rw is_dive-dive (require-dived name after))
require-dive name (tag ∷ rest) after free =
    let parts = has_dive-parts tag rest free in
    rw parts.0 (rw (require-dive name rest after parts.1) refl)

-- The parts of an empty text have no "dive".
split-not_dive :
    (before after : List Text) → split b',' [] ≡ before ++ dive ∷ after → same [] [] ≡ false
unfolding split
split-not_dive [] after parts = absurd (cc)
split-not_dive (tag ∷ []) after parts = absurd (cc)
split-not_dive (tag ∷ next ∷ rest) after parts = absurd (cc)

value-not_empty :
    (value : Text) (before after : List Text)
    → split b',' value ≡ before ++ dive ∷ after
    → same value [] ≡ false
unfolding same
value-not_empty [] before after parts = split-not_dive before after parts
value-not_empty (letter ∷ letters) before after parts = refl

module _ {N F : Type 0} (numbers : Numbers N F) (rules : CustomRules) where
  -- The tags in their order, all on the same constraints.
  unfoldable pub apply_tags : List Text → Constraints N F → Constraints N F
  apply_tags [] c = c
  apply_tags (tag ∷ rest) c = apply_tags rest (apply_tag numbers rules (tag_of tag) c)

  -- One turn of the loop, by what the tag is.
  constrain-turn :
      (tag : Text) (rest : List Text) (schema : Schema N F) {b : Bool}
      → is_dive tag ≡ b
      → constrain numbers rules (tag ∷ rest) schema ≡ elim b [
        | true ↦ into_items (constrain numbers rules rest) schema
        | false ↦
            constrain numbers rules rest
              (on_constraints (apply_tag numbers rules (tag_of tag)) schema)
      ]
  unfolding constrain
  constrain-turn tag rest schema = ap (λ (d : Bool). elim d [
    | true ↦ into_items (constrain numbers rules rest) schema
    | false ↦
        constrain numbers rules rest (on_constraints (apply_tag numbers rules (tag_of tag)) schema)
  ])

  constrain-dive :
      (before after : List Text) (c : Constraints N F) (items : Schema N F)
      → has_dive before ≡ false
      → constrain numbers rules (before ++ dive ∷ after) (of_items c items)
        ≡ of_items (apply_tags before c) (constrain numbers rules after items)
  unfolding apply_tags on_constraints into_items
  constrain-dive [] after c items free = constrain-turn dive after (of_items c items) is_dive-dive
  constrain-dive (tag ∷ rest) after c items free =
      let parts = has_dive-parts tag rest free in
      constrain-turn tag (rest ++ dive ∷ after) (of_items c items) parts.0
      ∙ constrain-dive rest after (apply_tag numbers rules (tag_of tag) c) items parts.1

  -- Of the tags of a field, "dive" among them, those before the first "dive" constrain the field's own
  -- schema, each in its turn, those after it constrain the schema of its items as the tags of a field of their own would,
  -- and only those before it can make the field required.
  pub apply_validation_tags-dive :
      (value name : Text) (before after : List Text) (c : Constraints N F) (items : Schema N F)
      → split b',' value ≡ before ++ dive ∷ after
      → has_dive before ≡ false
      → apply_validation_tags numbers rules value name (of_items c items) ≡ (
        of_items (apply_tags before c) (constrain numbers rules after items),
        require name false before,
      )
  unfolding apply_validation_tags
  apply_validation_tags-dive value name before after c items tags free =
      rw (value-not_empty value before after tags) (
        rw tags (
          rw (constrain-dive before after c items free)
            (rw (require-dive name before after free) refl)))
