-- ===== src/Httpx/Endpoint/Pipeline.antt =====
-- When an endpoint answers with a success document, and when it rejects.
use arnon.Prelude.{
  ◌≡◌, ◌≢◌, refl, sym, ◌∙◌, true, false, Result, ok, err, List, [], ◌∷◌, arith, Bool-cases,
  Result-cases, List-cases, inl, inr,
}
use mathlib.Core.Bool.{false≢true}
use arnon.Prelude.Strings.{Text, same, same_iff}
use arnon.Http.{Request, Writer, fresh, get}
use arnon.Problem.{Json, Error, Problem, ValidationError}
use arnon.Httpx.Accept.{Float64, accepts_json}
use arnon.Httpx.Respond.{json_content_type, problem_content_type, plain_content_type, write_problem}
use arnon.Httpx.Respond.Written.{
  content_type, IsResponse, ProblemSent, document, fallback, write_problem-ProblemSent,
  write_json_sent, write_json_failed,
}
use arnon.Httpx.Endpoint.{
  Settings, Stages, validation_problem, serialization_failure, finish, endpoint,
}

problem-ne-json : problem_content_type ≢ json_content_type
unfolding same
problem-ne-json e = false≢true ((same_iff problem_content_type json_content_type).1 e)

plain-ne-json : plain_content_type ≢ json_content_type
unfolding same
plain-ne-json e = false≢true ((same_iff plain_content_type json_content_type).1 e)

-- A problem response is not typed as a success document.
problem_type :
    {encode : Json → Result Text Text} {p : Problem} {request : Request} {w : Writer}
    → ProblemSent encode p request w
    → content_type w ≢ json_content_type
problem_type (document q rendered shown e r) h = problem-ne-json (sym r.type_sent ∙ h)
problem_type (fallback q message body shown e r) h = plain-ne-json (sym r.type_sent ∙ h)

module _ {F : Type 0} (fl : Float64 F) (encode : Json → Result Text Text)
    {Request' Response' : Type 0} (stages : Stages Request' Response')
    (settings : Settings Request') where
  -- A request that went through every stage, and the response that it got.
  pub record Succeeds (request : Request) (w : Writer) : Type 0 where
    pub bound : Request'
    pub response : Response'
    pub rendered : Text
    pub acceptable : accepts_json fl (get "Accept" request.header) ≡ true
    pub is_bound : (stages.decode request).0 ≡ bound
    pub no_binding_errors : (stages.decode request).1 ≡ []
    pub is_valid : settings.validate (stages.sanitize bound) ≡ []
    pub handled : stages.handle (stages.sanitize bound) ≡ ok response
    pub is_rendered : encode (stages.to_json response) ≡ ok rendered
    pub sent : IsResponse settings.success_status json_content_type rendered w

  not_success :
      (p : Problem) (request : Request)
      → content_type (write_problem encode p request fresh) ≢ json_content_type
  not_success p request = problem_type (write_problem-ProblemSent encode p request)

  -- The end of the pipeline, by what the typed handler and the encoder answered.
  record IsFinished (result : Result Error Response') (w : Writer) : Type 0 where
    response : Response'
    rendered : Text
    handled : result ≡ ok response
    is_rendered : encode (stages.to_json response) ≡ ok rendered
    sent : IsResponse settings.success_status json_content_type rendered w

  finish_success :
      (request : Request) (result : Result Error Response')
      → content_type (finish fl encode stages settings result request fresh) ≡ json_content_type
      → IsFinished result (finish fl encode stages settings result request fresh)
  unfolding finish
  finish_success request (err e) h = absurd (not_success (settings.map_error e) request h)
  finish_success request (ok response) h =
      let value = stages.to_json response in
      elim (Result-cases (encode value)) [
        | inl (rendered, e) ↦
            let (w, written, sent) =
              write_json_sent encode settings.success_status value rendered e in
            rw (written, finish)
              (record {
                response = response;
                rendered = rendered;
                handled = refl;
                is_rendered = e;
                sent = sent;
              })
        | inr (message, e) ↦
            let failed = write_json_failed encode settings.success_status value message e in
            absurd (not_success serialization_failure request (rw (failed, finish) at h))
      ]

  abbrev answer : Request → Writer
  answer request = endpoint fl encode stages settings request fresh

  -- The stages before the typed handler have nothing to report.
  reaches_handler :
      (request : Request)
      → accepts_json fl (get "Accept" request.header) ≡ true
      → (stages.decode request).1 ≡ []
      → settings.validate (stages.sanitize (stages.decode request).0) ≡ []
      → answer request
        ≡ finish fl encode stages settings
            (stages.handle (stages.sanitize (stages.decode request).0))
            request
            fresh
  unfolding endpoint
  reaches_handler request a b v = ground arith

  -- The three stages that reject.
  rejects_accept :
      (request : Request)
      → accepts_json fl (get "Accept" request.header) ≡ false
      → content_type (answer request) ≢ json_content_type
  unfolding endpoint
  rejects_accept request a h = not_success _ request (rw (a, endpoint) at h)

  rejects_binding :
      (request : Request) (e : ValidationError) (rest : List ValidationError)
      → accepts_json fl (get "Accept" request.header) ≡ true
      → (stages.decode request).1 ≡ e ∷ rest
      → content_type (answer request) ≢ json_content_type
  unfolding endpoint
  rejects_binding request e rest a b h =
      not_success (validation_problem (e ∷ rest)) request (rw (a, b, endpoint) at h)

  rejects_invalid :
      (request : Request) (e : ValidationError) (rest : List ValidationError)
      → accepts_json fl (get "Accept" request.header) ≡ true
      → (stages.decode request).1 ≡ []
      → settings.validate (stages.sanitize (stages.decode request).0) ≡ e ∷ rest
      → content_type (answer request) ≢ json_content_type
  unfolding endpoint
  rejects_invalid request e rest a b v h =
      not_success (validation_problem (e ∷ rest)) request (rw (a, b, v, endpoint) at h)

  -- A success document is sent only for a request that accepts JSON, binds and validates with no
  -- error, after sanitizing, and whose typed handler answered with no error: it is that answer's
  -- encoding, under the configured status.
  pub endpoint-Succeeds :
      (request : Request)
      → content_type (answer request) ≡ json_content_type
      → Succeeds request (answer request)
  endpoint-Succeeds request h =
      let dto = (stages.decode request).0 in
      elim (Bool-cases (accepts_json fl (get "Accept" request.header))) [
        | inr refused ↦ absurd (rejects_accept request refused h)
        | inl a ↦ elim (List-cases (stages.decode request).1) [
          | inr (e, rest, b) ↦ absurd (rejects_binding request e rest a b h)
          | inl b ↦ elim (List-cases (settings.validate (stages.sanitize dto))) [
            | inr (e, rest, v) ↦ absurd (rejects_invalid request e rest a b v h)
            | inl v ↦
                let path = reaches_handler request a b v in
                let done = finish_success request _ (rw path at h) in
                record {
                  bound = dto;
                  response = done.response;
                  rendered = done.rendered;
                  acceptable = a;
                  is_bound = refl;
                  no_binding_errors = b;
                  is_valid = v;
                  handled = done.handled;
                  is_rendered = done.is_rendered;
                  sent = rw path done.sent;
                }
          ]
        ]
      ]

  -- A request that accepts JSON, binds and validates with no error, after sanitizing, and whose typed
  -- handler answers with a value that can be encoded gets that encoding, under the configured status.
  pub endpoint-delivers :
      (request : Request) (response : Response') (rendered : Text)
      → accepts_json fl (get "Accept" request.header) ≡ true
      → (stages.decode request).1 ≡ []
      → settings.validate (stages.sanitize (stages.decode request).0) ≡ []
      → stages.handle (stages.sanitize (stages.decode request).0) ≡ ok response
      → encode (stages.to_json response) ≡ ok rendered
      → IsResponse settings.success_status json_content_type rendered (answer request)
  unfolding finish
  endpoint-delivers request response rendered a b v handled e =
      let (w, written, sent) =
        write_json_sent encode settings.success_status (stages.to_json response) rendered e in
      rw (reaches_handler request a b v, handled, written, finish) sent
