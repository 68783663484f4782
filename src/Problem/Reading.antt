-- ===== src/Problem/Reading.antt =====
-- `UnmarshalJSON` and `unmarshalMember` of problem/problem.go. How encoding/json reads the errors' array, and
-- a value into an `any` (a number becomes a float64), are parameters; Go goes through the members in any order, so they are a list in some order.
pub mod Keys
pub mod Steps
pub mod RoundTrip
use arnon.Prelude.{ℕ, Option, none, some, List, [], ◌∷◌, Result, ok, err, if◌then◌else◌}
use arnon.Prelude.Strings.{Text, codes, same}
use arnon.Problem.{
  Json, null, unencodable, boolean, number, string, array, object, ValidationError, Details,
  Problem, nil, assign,
}
use arnon.Problem.Document.{Member}

-- `Problem{}`
abbrev pub zero_details : Details
zero_details = record {
  type_uri = [];
  title = [];
  status = 0;
  detail = [];
  instance_uri = [];
  errors = [];
  extensions = [];
}

-- json.Unmarshal into a string that holds one, and into an int: null changes nothing.
unfoldable pub read_text : Json → Text → Option Text
read_text (string s) old = some s
read_text null old = some old
read_text unencodable old = none
read_text (boolean b) old = none
read_text (number n) old = none
read_text (array items) old = none
read_text (object inner) old = none

unfoldable pub read_number : Json → ℕ → Option ℕ
read_number (number n) old = some n
read_number null old = some old
read_number unencodable old = none
read_number (boolean b) old = none
read_number (string s) old = none
read_number (array items) old = none
read_number (object inner) old = none

-- A field that has been read, put in its place; an error names the member.
place : {A : Type 0} → Text → (A → Details) → Option A → Result Text Details
place key put none = err key
place key put (some a) = ok (put a)

module _ (read_errors : Json → Option (List ValidationError)) (read_any : Json → Option Json) where
  -- `unmarshalMember`
  unfoldable pub unmarshal_member : Text → Json → Details → Result Text Details
  unfolding place
  unmarshal_member key raw d =
      if same key (codes "type")
      then place key (λ s. record d { type_uri = s }) (read_text raw d.type_uri)
      else if same key (codes "title")
      then place key (λ s. record d { title = s }) (read_text raw d.title)
      else if same key (codes "status")
      then place key (λ n. record d { status = n }) (read_number raw d.status)
      else if same key (codes "detail")
      then place key (λ s. record d { detail = s }) (read_text raw d.detail)
      else if same key (codes "instance")
      then place key (λ s. record d { instance_uri = s }) (read_text raw d.instance_uri)
      else if same key (codes "errors")
      then place key (λ es. record d { errors = es }) (read_errors raw)
      else place key (λ value. record d { extensions = assign key value d.extensions })
          (read_any raw)

  unfoldable pub unmarshal_members : List Member → Details → Result Text Details
  unfolding unmarshal_member
  unmarshal_members [] d = ok d
  unmarshal_members ((key, raw) ∷ rest) d = elim (unmarshal_member key raw d) [
    | err e ↦ err e
    | ok read ↦ unmarshal_members rest read
  ]

  -- `UnmarshalJSON` of an object's members: `Err` is not populated.
  unfoldable pub unmarshal_json : List Member → Result Text Problem
  unfolding unmarshal_members
  unmarshal_json ms = elim (unmarshal_members ms zero_details) [
    | err e ↦ err e
    | ok d ↦ ok (record { details = d; cause = nil })
  ]
