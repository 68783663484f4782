-- ===== src/Httpx/Respond/Written.antt =====
-- What a client receives from `WriteProblem` and `WriteJSON`.
use arnon.Prelude.{
  ℕ, ◌≡◌, ◌≢◌, refl, ◌∙◌, Bool-cases, inl, inr, some, Result, ok, err, [], ◌++◌, arith,
}
use arnon.Prelude.Strings.{Text, codes, same, same_iff}
use arnon.Http.{Request, Writer, fresh, get, write_header, write}
use arnon.Http.Headers.{get-set_header}
use arnon.Problem.{Json, Problem, status_code, with_instance}
use arnon.Problem.Document.{marshal_json}
use arnon.Httpx.Respond.{
  json_content_type, problem_content_type, plain_content_type, http_error, write_encoded,
  write_json, located, write_problem,
}

-- The content type that a client sees.
abbrev pub content_type : Writer → Text
content_type w = get "Content-Type" w.sent

-- A response with this status, type and body, and nothing after it.
pub record IsResponse (status : ℕ) (type : Text) (body : Text) (w : Writer) : Type 0 where
  pub status_sent : w.status ≡ some status
  pub type_sent : content_type w ≡ type
  pub body_sent : w.body ≡ body

http_error-IsResponse :
    (message : Text) (code : ℕ)
    → IsResponse code plain_content_type (message ++ codes "\n") (http_error message code fresh)
unfolding http_error write write_header
http_error-IsResponse message code = record {
  status_sent = refl;
  type_sent =
      get-set_header "Content-Type" "X-Content-Type-Options" (codes "nosniff") _
      ∙ get-set_header "Content-Type" "Content-Type" plain_content_type _;
  body_sent = refl;
}

pub status_code-located :
    (request : Request) (p : Problem) → status_code (located request p) ≡ status_code p
unfolding status_code located with_instance
status_code-located request p = ground arith

-- The problem that is shown to the client: the one that was given, but for an empty instance, in whose place
-- there is the request's path.
pub data Shown (p : Problem) (request : Request) (q : Problem) : Type 0 where
  own_instance : p.instance_uri ≢ [] → q ≡ p → Shown p request q
  path_instance :
      p.instance_uri ≡ []
      → q ≡ record { details = record p.details { instance_uri = request.path }; cause = p.cause }
      → Shown p request q

located-Shown : (p : Problem) (request : Request) → Shown p request (located request p)
unfolding located with_instance
located-Shown p request = elim (Bool-cases (same p.instance_uri [])) [
  | inl e ↦ path_instance ((same_iff p.instance_uri []).0 e) (rw e refl)
  | inr e ↦
      own_instance (λ empty. absurd (cc ((same_iff p.instance_uri []).1 empty, e))) (rw e refl)
]

-- What `WriteProblem` may have sent.
pub data ProblemSent (encode : Json → Result Text Text) (p : Problem) (request : Request)
    (w : Writer) : Type 0 where
  document :
      (q : Problem) (rendered : Text)
      → Shown p request q
      → encode (marshal_json q) ≡ ok rendered
      → IsResponse (status_code p) problem_content_type rendered w
      → ProblemSent encode p request w
  fallback :
      (q : Problem) (message body : Text)
      → Shown p request q
      → encode (marshal_json q) ≡ err message
      → IsResponse 500 plain_content_type body w
      → ProblemSent encode p request w

module _ (encode : Json → Result Text Text) where
  write_encoded-IsResponse :
      (type : Text) (code : ℕ) (rendered : Text)
      → IsResponse code type rendered (write_encoded encode type code rendered fresh)
  unfolding write_encoded write write_header
  write_encoded-IsResponse type code rendered = record {
    status_sent = refl;
    type_sent = get-set_header "Content-Type" "Content-Type" type [];
    body_sent = refl;
  }

  write_problem_sent :
      (p : Problem) (request : Request) (result : Result Text Text)
      → encode (marshal_json (located request p)) ≡ result
      → ProblemSent encode p request (write_problem encode p request fresh)
  unfolding write_problem
  write_problem_sent p request (ok rendered) e =
      rw (e, write_problem)
        (ProblemSent.document (located request p) rendered (located-Shown p request) e (
          rw (← status_code-located request p) (
            write_encoded-IsResponse problem_content_type (status_code (located request p))
              rendered)))
  write_problem_sent p request (err message) e =
      rw (e, write_problem)
        (ProblemSent.fallback (located request p) message _ (located-Shown p request) e
          (http_error-IsResponse (codes "problem encode failure: " ++ message) 500))

  pub write_json_sent :
      (code : ℕ) (value : Json) (rendered : Text)
      → encode value ≡ ok rendered
      → (w : Writer) × (write_json encode code value fresh ≡ ok w)
        × IsResponse code json_content_type rendered w
  unfolding write_json
  write_json_sent code value rendered e = (
    write_encoded encode json_content_type code rendered fresh,
    ground arith,
    write_encoded-IsResponse json_content_type code rendered,
  )

  pub write_json_failed :
      (code : ℕ) (value : Json) (message : Text)
      → encode value ≡ err message
      → write_json encode code value fresh ≡ err message
  unfolding write_json
  write_json_failed code value message e = ground arith

-- On a fresh writer, `WriteProblem` sends the problem's status code with its document, its instance
-- the request's path where it was empty and kept where it was not; if the document cannot be encoded it sends a
-- plain 500.
pub write_problem-ProblemSent :
    (encode : Json → Result Text Text) (p : Problem) (request : Request)
    → ProblemSent encode p request (write_problem encode p request fresh)
write_problem-ProblemSent encode p request =
    write_problem_sent encode p request (encode (marshal_json (located request p))) refl
