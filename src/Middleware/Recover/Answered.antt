-- ===== src/Middleware/Recover/Answered.antt =====
-- What a client gets from a handler that panics.
use arnon.Prelude.{ℕ, ◌≡◌, ap, ◌∙◌, Option, none, some, [], ◌++◌, Result, ok, arith}
use arnon.Prelude.Strings.{Text}
use arnon.Http.{
  Header, Request, Writer, set_header, write_header, write, Program, run_server, Ending, panics,
}
use arnon.Problem.{Json, Problem, status_code, with_instance}
use arnon.Problem.Kinds.{new_internal}
use arnon.Problem.Document.{marshal_json}
use arnon.Httpx.Respond.{located, write_problem, problem_content_type}
use arnon.Middleware.Recover.{recover}

abbrev pub internal : Request → Problem
internal request = located request (new_internal [])

-- The status and the header that are sent, where a response may have begun.
abbrev pub begun_status : Option ℕ → ℕ → ℕ
begun_status none code = code
begun_status (some earlier) code = earlier

abbrev pub begun_header : Option ℕ → Header → Header → Header
begun_header none sent header = header
begun_header (some earlier) sent header = sent

answered :
    (encode : Json → Result Text Text) (p : Problem) (request : Request) (rendered : Text)
    (w : Writer)
    → encode (marshal_json (located request p)) ≡ ok rendered
    → ((write_problem encode p request w).status
        ≡ some (begun_status w.status (status_code (located request p))))
      × ((write_problem encode p request w).sent
          ≡ begun_header w.status w.sent (set_header "Content-Type" problem_content_type w.header))
      × ((write_problem encode p request w).body ≡ w.body ++ rendered)
unfolding write_problem write write_header
answered encode p request rendered w h = rw (write_problem, h) (ground arith)

internal-status : (request : Request) → status_code (internal request) ≡ 500
unfolding status_code located with_instance new_internal
internal-status request = ground arith

-- Where the handler panics, the client gets the problem 500 if nothing was sent yet; if a response has
-- begun, its status and its header stay, and the problem's text comes behind what was sent of its body.
pub recover-panic :
    (encode : Json → Result Text Text) (next : Request → Program) (ends : Request → Ending)
    (request : Request) (start : Writer) (value rendered : Text)
    → ends request ≡ panics value
    → encode (marshal_json (internal request)) ≡ ok rendered
    → ((recover encode next ends request start).status
        ≡ some (begun_status (run_server (next request) start).status 500))
      × ((recover encode next ends request start).sent
          ≡ begun_header
              (run_server (next request) start).status
              (run_server (next request) start).sent
              (set_header "Content-Type" problem_content_type
                (run_server (next request) start).header))
      × ((recover encode next ends request start).body
          ≡ (run_server (next request) start).body ++ rendered)
unfolding recover
recover-panic encode next ends request start value rendered e h =
    let (status, sent, body) =
      answered encode (new_internal []) request rendered (run_server (next request) start) h in
    rw e (
      status
          ∙ ap (λ code. some (begun_status (run_server (next request) start).status code))
              (internal-status request),
      sent,
      body,
    )
