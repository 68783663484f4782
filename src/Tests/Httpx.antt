-- ===== src/Tests/Httpx.antt =====
-- Runs of the package httpx.
use arnon.Prelude.{
  ℕ, ◌+◌, ◌-◌, ◌*◌, ◌≡◌, ◌≢◌, inl, inr, refl, true, false, Option, none, some, List, [], ◌∷◌, ◌++◌,
  Result, ok, err, any, ltb, ◌==◌, if◌then◌else◌,
}
use mathlib.Core.Bool.{false≢true}
use arnon.Prelude.Strings.{Text, codes, same, same_iff, is_space, has_prefix, trim_space, split}
use arnon.Http.{Request, fresh, get}
use arnon.Problem.{
  Json, string, ValidationError, syntax_error, Problem, new, with_error, as_error, new_body_error,
  validation_code_required, validation_code_payload_too_large, status_code,
}
use arnon.Problem.Kinds.{new_precondition_failed}
use arnon.Httpx.Accept.{Float64, accepts_json}
use arnon.Httpx.Respond.{json_content_type, write_problem, default_problem_mapper}
use arnon.Httpx.Respond.Mapping.{wrap_all, default_problem_mapper-masks}
use arnon.Httpx.Respond.Written.{IsResponse, ProblemSent, write_problem-ProblemSent}
use arnon.Httpx.Endpoint.{Settings, Stages, validation_problem, endpoint}
use arnon.Httpx.Endpoint.Statuses.{is_too_large, validation_problem_lem}
use arnon.Httpx.Endpoint.Pipeline.{Succeeds, endpoint-Succeeds, endpoint-delivers}
use arnon.Httpx.Precondition.{Headers, State, Config, match_detail, if_match_matches, check}
use arnon.Httpx.Precondition.Commas.{if_match_matches-comma}

-- Qualities in tenths.
tenths : Text → Option ℕ
tenths (whole ∷ dot ∷ d ∷ []) =
    if dot == b'.' then some (10 * (whole - b'0') + (d - b'0')) else none
tenths (d ∷ []) = some (10 * (d - b'0'))
tenths other = none

abbrev tenth_floats : Float64 ℕ
tenth_floats = record {
  zero_quality = 0;
  one_quality = 10;
  is_positive = λ q. ltb 0 q;
  parse_float = tenths;
}

-- Strings alone are encoded.
abbrev encode : Json → Result Text Text
encode (string s) = ok (b'"' ∷ (s ++ b'"' ∷ []))
encode other = err (codes "unsupported")

abbrev greet_stages : Stages Text Text
greet_stages = record {
  decode = λ request. (codes " ann ", []);
  sanitize = trim_space;
  handle = λ name. ok name;
  to_json = λ name. string name;
}

abbrev greet_settings : Settings Text
greet_settings = record {
  validate = λ name.
      if same name []
      then new_body_error (codes "name is required") (codes "/name") validation_code_required []
        ∷ []
      else [];
  map_error = default_problem_mapper;
  success_status = 201;
}

abbrev greeting : Request
greeting = record {
  method = "POST";
  path = codes "/greet";
  header = [];
  remote_addr = codes "10.0.0.7:5000";
  context = record { real_ip = []; request_id = [] };
}

greeting-accepted : accepts_json tenth_floats (get "Accept" greeting.header) ≡ true
greeting-accepted = unfold accepts_json trim_space same get in refl

endpoint-delivers_example :
    IsResponse 201 json_content_type
      (codes "\"ann\"")
      (endpoint tenth_floats encode greet_stages greet_settings greeting fresh)
unfolding same trim_space is_space
endpoint-delivers_example =
    endpoint-delivers tenth_floats encode greet_stages greet_settings greeting (codes "ann")
      (codes "\"ann\"") greeting-accepted refl refl refl refl

endpoint-Succeeds_example :
    Succeeds tenth_floats encode greet_stages greet_settings greeting
      (endpoint tenth_floats encode greet_stages greet_settings greeting fresh)
endpoint-Succeeds_example =
    endpoint-Succeeds tenth_floats encode greet_stages greet_settings greeting
      endpoint-delivers_example.type_sent

abbrev missing : Problem
missing = new 404 (codes "Not Found") (codes "no such page")

write_problem-ProblemSent_example :
    ProblemSent encode missing greeting (write_problem encode missing greeting fresh)
write_problem-ProblemSent_example = write_problem-ProblemSent encode missing greeting

abbrev too_large : List ValidationError
too_large =
    new_body_error (codes "name is required") (codes "/name") validation_code_required []
    ∷ new_body_error (codes "the body is too large") [] validation_code_payload_too_large []
    ∷ []

validation_problem_lem_example :
    ((validation_problem too_large).errors ≡ too_large)
    × (status_code (validation_problem too_large)
        ≡ (if any is_too_large too_large then 413 else 400))
validation_problem_lem_example = validation_problem_lem too_large

abbrev upstream : Problem
upstream =
    with_error syntax_error
      (new 502 (codes "Bad Gateway") (codes "the upstream's answer is no JSON"))

default_problem_mapper-masks_example :
    default_problem_mapper (wrap_all [] (as_error upstream))
    ≡ new 400 (codes "Malformed request body") (codes "Request body contains invalid JSON")
default_problem_mapper-masks_example =
    default_problem_mapper-masks [] upstream (unfold with_error in tt)

abbrev no_dates : Text → Option ℕ
no_dates header = none

abbrev stale : Headers
stale = record { if_match = codes "\"v1\""; if_unmodified_since = [] }

abbrev current : State
current = record { etag = codes "\"v2\""; last_modified = 0 }

abbrev relaxed : Config
relaxed = record { require = false }

abbrev refusal : Problem
refusal = new_precondition_failed match_detail

stale-refused : check no_dates stale current relaxed ≡ some refusal
stale-refused = unfold check trim_space same is_space if_match_matches has_prefix split in refl

abbrev tag_with_comma : Text
tag_with_comma = codes "\"a,b\""

tag_with_comma-ne-star : tag_with_comma ≢ codes "*"
unfolding same
tag_with_comma-ne-star e = false≢true ((same_iff tag_with_comma (codes "*")).1 e)

if_match_matches-comma_example : if_match_matches tag_with_comma tag_with_comma ≡ false
if_match_matches-comma_example =
    if_match_matches-comma tag_with_comma tag_with_comma (inr (inr (inl refl)))
      tag_with_comma-ne-star
