-- ===== src/Middleware/Recover.antt =====
-- httpx/middleware/recover.go: a panic of the handler becomes a problem. The line in the log is not modelled.
pub mod Answered
use arnon.Prelude.{ℕ, List, [], ◌∷◌, Result}
use arnon.Prelude.Strings.{Text}
use arnon.Http.{Request, Writer, Program, run_server, Ending, returns, panics}
use arnon.Problem.{Json}
use arnon.Problem.Kinds.{new_internal}
use arnon.Httpx.Respond.{write_problem}

module _ (encode : Json → Result Text Text) where
  -- The deferred function, with what recover() gives it.
  unfoldable pub answer_panic : Ending → Request → Writer → Writer
  answer_panic returns request w = w
  answer_panic (panics value) request w = write_problem encode (new_internal []) request w

  -- `Recover` around a handler, given by its program for a request and its end.
  unfoldable pub recover : (Request → Program) → (Request → Ending) → Request → Writer → Writer
  unfolding answer_panic
  recover next ends request w = answer_panic (ends request) request (run_server (next request) w)
