-- ===== src/Httpx/Accept.antt =====
-- httpx/accept.go: whether an Accept header admits application/json.
pub mod Decisive
use arnon.Prelude.{
  ℕ, Bool, true, false, Option, none, some, List, [], ◌∷◌, ◌++◌, ltb, if◌then◌else◌,
}
use arnon.Prelude.Strings.{Text, codes, same, trim_space, split, cut, to_lower}

-- The float64 numbers, as far as the program looks at a quality: its two constants, the test
-- `> 0`, and `strconv.ParseFloat`, which may fail.
pub record Float64 (F : Type 0) : Type 0 where
  pub zero_quality : F
  pub one_quality : F
  pub is_positive : F → Bool
  pub parse_float : Text → Option F

-- `matchSpecificity`; `none` is its `false`.
unfoldable pub match_specificity : Text → Text → Option ℕ
match_specificity media_range target =
    if same media_range target
    then some 2
    else if same media_range (codes "*/*")
    then some 0
    else elim (cut b'/' target) [
      | none ↦ none
      | some (target_type, subtype) ↦
          if same media_range (target_type ++ codes "/*") then some 1 else none
    ]

module _ {F : Type 0} (fl : Float64 F) where
  -- The value of a parameter `name=value`, where it is "q" and parses.
  quality_of : Option (Text × Text) → F → F
  quality_of none quality = quality
  quality_of (some (name, value)) quality =
      if same (trim_space (to_lower name)) (codes "q")
      then (elim (fl.parse_float (trim_space value)) [ none ↦ quality | some parsed ↦ parsed ])
      else quality

  -- The loop over the parameters: the last "q" counts.
  unfoldable pub quality_from : List Text → F → F
  unfolding quality_of
  quality_from [] quality = quality
  quality_from (parameter ∷ rest) quality =
      quality_from rest (quality_of (cut b'=' parameter) quality)

  range_of : List Text → Option (Text × F)
  range_of [] = none
  range_of (name ∷ parameters) =
      let media_type = to_lower (trim_space name) in
      if same media_type [] then none else some (media_type, quality_from parameters fl.one_quality)

  unfoldable pub parse_media_range : Text → Option (Text × F)
  unfolding range_of quality_from
  parse_media_range entry = range_of (split b';' entry)

  -- An entry's specificity for application/json with its quality; `none` where the loop goes on.
  unfoldable pub applicable : Text → Option (ℕ × F)
  unfolding parse_media_range match_specificity
  applicable entry = elim (parse_media_range entry) [
    | none ↦ none
    | some (media_type, quality) ↦ elim (match_specificity media_type (codes "application/json")) [
      | none ↦ none
      | some specificity ↦ some (specificity, quality)
    ]
  ]

  -- `bestSpecificity` and `bestQuality`; `none` is the initial -1.
  improve : Option (ℕ × F) → Option (ℕ × F) → Option (ℕ × F)
  improve best none = best
  improve none (some found) = some found
  improve (some best) (some found) = if ltb best.0 found.0 then some found else some best

  unfoldable pub best_range : List Text → Option (ℕ × F) → Option (ℕ × F)
  unfolding improve
  best_range [] best = best
  best_range (entry ∷ rest) best = best_range rest (improve best (applicable entry))

  unfoldable pub accepts_json : Text → Bool
  unfolding applicable best_range
  accepts_json accept =
      let trimmed = trim_space accept in
      if same trimmed [] then true else elim (best_range (split b',' trimmed) none) [
        | none ↦ false
        | some (specificity, quality) ↦ fl.is_positive quality
      ]
