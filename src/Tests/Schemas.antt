-- ===== src/Tests/Schemas.antt =====
-- Runs of the package openapi.
use arnon.Prelude.{
  ℕ, String, ◌-◌, ◌≡◌, refl, ◌&&◌, false, Option, none, some, List, [], ◌∷◌, if◌then◌else◌, leb,
}
use arnon.Prelude.Strings.{Text, codes, same, split, cut}
use arnon.OpenApi.Constraints.{
  Constraints, plain, of_items, Numbers, is_dive, is_required, constrain, require,
  apply_validation_tags,
}
use arnon.OpenApi.Constraints.Dive.{has_dive, apply_tags, apply_validation_tags-dive}

abbrev digit : Text → Option ℕ
digit (c ∷ []) = if leb b'0' c && leb c b'9' then some (c - b'0') else none
digit _ = none

abbrev digits : Numbers ℕ ℕ
digits = record { atoi = digit; to_float = λ n. n; parse_float = digit }

-- The schema of a type, with no constraint.
abbrev of_type : String → Constraints ℕ ℕ
of_type type = record {
  type = codes type;
  format = [];
  pattern = [];
  min_length = none;
  max_length = none;
  min_items = none;
  max_items = none;
  minimum = none;
  maximum = none;
  exclusive_minimum = none;
  exclusive_maximum = none;
  enum = [];
}

abbrev names_tag : Text
names_tag = codes "required,min=1,dive,min=2"

abbrev before_dive : List Text
before_dive = codes "required" ∷ codes "min=1" ∷ []

apply_validation_tags-dive_example :
    apply_validation_tags digits [] names_tag
      (codes "names")
      (of_items (of_type "array") (plain (of_type "string")))
    ≡ (
      of_items
          (apply_tags digits [] before_dive (of_type "array"))
          (constrain digits [] (codes "min=2" ∷ []) (plain (of_type "string"))),
      require (codes "names") false before_dive,
    )
apply_validation_tags-dive_example =
    apply_validation_tags-dive digits [] names_tag (codes "names") before_dive (codes "min=2" ∷ [])
      (of_type "array") (plain (of_type "string")) (unfold split in refl)
      (unfold has_dive is_dive same cut in refl)

-- The items' length is bounded below by 2, the list's by 1.
names_run :
    apply_validation_tags digits [] names_tag
      (codes "names")
      (of_items (of_type "array") (plain (of_type "string")))
    ≡ (
      of_items
          (record (of_type "array") { min_items = some 1 })
          (plain (record (of_type "string") { min_length = some 2 })),
      codes "names" ∷ [],
    )
unfolding split apply_validation_tags is_dive is_required same cut
names_run = refl
