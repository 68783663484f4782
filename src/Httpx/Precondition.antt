-- ===== src/Httpx/Precondition.antt =====
-- httpx/precondition/precondition.go: If-Match and If-Unmodified-Since against a resource's state.
-- Instants are nanoseconds since Go's zero time, which is 0; `parse_time` is http.ParseTime.
pub mod Permission
pub mod Commas
use arnon.Prelude.{
  ℕ, ◌-◌, ◌%◌, ◌^◌, Bool, true, false, not, ◌&&◌, ◌||◌, Option, none, some, List, [], ◌∷◌, any, leb,
  ◌==◌, if◌then◌else◌,
}
use arnon.Prelude.Strings.{Text, codes, same, has_prefix, trim_space, split}
use arnon.Http.{Request, get}
use arnon.Problem.{Problem}
use arnon.Problem.Kinds.{new_precondition_failed, new_precondition_required}

pub record Headers : Type 0 where
  pub if_match : Text
  pub if_unmodified_since : Text

pub record State : Type 0 where
  pub etag : Text
  pub last_modified : ℕ

pub record Config : Type 0 where
  pub require : Bool

abbrev pub second : ℕ
second = 1_000_000_000

-- One candidate of the list: a weak one never matches.
abbrev pub candidate_matches : Text → Text → Bool
candidate_matches etag candidate =
    let trimmed = trim_space candidate in
    if has_prefix trimmed (codes "W/") then false else same trimmed etag

unfoldable pub if_match_matches : Text → Text → Bool
if_match_matches header etag =
    if same header (codes "*")
    then not (same etag [])
    else if same etag [] || has_prefix etag (codes "W/")
    then false
    else any (candidate_matches etag) (split b',' header)

abbrev pub required_detail : Text
required_detail = codes "this request requires an If-Match or If-Unmodified-Since header"

abbrev pub match_detail : Text
match_detail = codes "the resource's current state does not match If-Match"

abbrev pub modified_detail : Text
modified_detail = codes "the resource has been modified since If-Unmodified-Since"

module _ (parse_time : Text → Option ℕ) where
  unfoldable pub unmodified_since : Text → ℕ → Bool
  unmodified_since header last_modified =
      if last_modified == 0 then true else elim (parse_time header) [
        | none ↦ true
        | some parsed ↦ leb (last_modified - last_modified % second) parsed
      ]

  -- `Check`; `none` is nil.
  unfoldable pub check : Headers → State → Config → Option Problem
  unfolding if_match_matches unmodified_since
  check client current config =
      let if_match = trim_space client.if_match in
      let since = trim_space client.if_unmodified_since in
      if same if_match [] && same since []
      then (if config.require then some (new_precondition_required required_detail) else none)
      else if not (same if_match [])
      then (if if_match_matches if_match current.etag
          then none
          else some (new_precondition_failed match_detail))
      else if unmodified_since since current.last_modified
      then none
      else some (new_precondition_failed modified_detail)

  unfoldable pub check_request : Request → State → Config → Option Problem
  unfolding check
  check_request request current config =
      check
        (record {
          if_match = get "If-Match" request.header;
          if_unmodified_since = get "If-Unmodified-Since" request.header;
        })
        current config
