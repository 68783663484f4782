-- ===== src/Httpx/Endpoint.antt =====
-- httpx/endpoint.go: the typed handler, from the request to the response that it writes.
pub mod Pipeline
pub mod Statuses
use arnon.Prelude.{
  ℕ, Bool, true, false, Option, none, some, Result, ok, err, List, [], ◌∷◌, ◌==◌, if◌then◌else◌,
}
use arnon.Prelude.Strings.{Text, codes}
use arnon.Http.{Request, Writer, Handler, get}
use arnon.Problem.{Json, Error, ValidationError, Problem, new, add_error, status_override}
use arnon.Problem.Kinds.{new_not_acceptable}
use arnon.Httpx.Accept.{Float64, accepts_json}
use arnon.Httpx.Respond.{write_json, write_problem, default_problem_mapper}

-- `EndpointConfig` without its OpenAPI operation; `none` is a nil field.
pub record EndpointConfig (Request' : Type 0) : Type 0 where
  pub validator : Option (Request' → List ValidationError)
  pub problem_mapper : Option (Error → Problem)
  pub success_status : ℕ

-- `EndpointConfig` after `WithDefaults`.
pub record Settings (Request' : Type 0) : Type 0 where
  pub validate : Request' → List ValidationError
  pub map_error : Error → Problem
  pub success_status : ℕ

abbrev or_default {ℓ} : {A : Type ℓ} → Option A → A → A
or_default none d = d
or_default (some a) d = a

unfoldable pub with_defaults :
    {Request' : Type 0}
    → (Request' → List ValidationError)
    → EndpointConfig Request'
    → Settings Request'
with_defaults default_validate config = record {
  validate = or_default config.validator default_validate;
  map_error = or_default config.problem_mapper default_problem_mapper;
  success_status = if config.success_status == 0 then 200 else config.success_status;
}

-- The stages that an endpoint composes for its types: `binding.Decode`, `sanitize.Apply`, the typed
-- handler, and the value that encoding/json renders for a response.
pub record Stages (Request' Response' : Type 0) : Type 0 where
  pub decode : Request → Request' × List ValidationError
  pub sanitize : Request' → Request'
  pub handle : Request' → Result Error Response'
  pub to_json : Response' → Json

-- The loop over `StatusOverride` in `writeValidationProblem`.
unfoldable pub validation_status : List ValidationError → ℕ
validation_status [] = 400
validation_status (e ∷ rest) =
    if status_override e.code == 0 then validation_status rest else status_override e.code

add_all : List ValidationError → Problem → Problem
add_all [] p = p
add_all (e ∷ rest) p = add_all rest (add_error e p)

abbrev pub request_validation_failed : Text
request_validation_failed = codes "Request validation failed"

unfoldable pub validation_problem : List ValidationError → Problem
unfolding validation_status add_all
validation_problem errors =
    add_all errors
      (new (validation_status errors) request_validation_failed request_validation_failed)

abbrev pub serialization_failure : Problem
serialization_failure =
    new 500 (codes "Response serialization failure") (codes "Failed to encode response")

module _ {F : Type 0} (fl : Float64 F) (encode : Json → Result Text Text)
    {Request' Response' : Type 0} (stages : Stages Request' Response') where
  -- The end of the handler, after the typed handler has answered.
  finish : Settings Request' → Result Error Response' → Handler
  finish settings (err e) request w = write_problem encode (settings.map_error e) request w
  finish settings (ok response) request w =
      elim (write_json encode settings.success_status (stages.to_json response) w) [
        | ok written ↦ written
        | err message ↦ write_problem encode serialization_failure request w
      ]

  validated : Settings Request' → Request' → List ValidationError → Handler
  unfolding finish
  validated settings dto (e ∷ rest) request w =
      write_problem encode (validation_problem (e ∷ rest)) request w
  validated settings dto [] request w = finish settings (stages.handle dto) request w

  decoded : Settings Request' → Request' → List ValidationError → Handler
  unfolding validated
  decoded settings dto (e ∷ rest) request w =
      write_problem encode (validation_problem (e ∷ rest)) request w
  decoded settings dto [] request w =
      let clean = stages.sanitize dto in
      validated settings clean (settings.validate clean) request w

  -- The handler that `Endpoint` builds.
  unfoldable pub endpoint : Settings Request' → Handler
  unfolding decoded
  endpoint settings request w =
      if accepts_json fl (get "Accept" request.header)
      then decoded settings (stages.decode request).0 (stages.decode request).1 request w
      else write_problem encode
          (new_not_acceptable (codes "this endpoint only produces application/json")) request w
