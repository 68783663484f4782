-- ===== src/Httpx/Respond.antt =====
-- httpx/responder.go, problem_writer.go and problem_mapper.go: how responses are written.
pub mod Kept
pub mod Mapping
pub mod Written
use arnon.Prelude.{
  ℕ, Bool, true, false, Option, none, some, Result, ok, err, List, [], ◌∷◌, ◌++◌, if◌then◌else◌,
}
use arnon.Prelude.Strings.{Text, codes, same}
use arnon.Http.{Request, Writer, edit, set_header, del, write_header, write}
use arnon.Problem.{
  Json, string, Error, nil, plain, wrapped, syntax_error, unmarshal_type_error, problem_error,
  validation_code_invalid_type, new_body_error, Problem, new, add_error, with_instance, status_code,
}
use arnon.Problem.Kinds.{status_text}
use arnon.Problem.Document.{marshal_json}

abbrev pub json_content_type : Text
json_content_type = codes "application/json; charset=utf-8"

abbrev pub problem_content_type : Text
problem_content_type = codes "application/problem+json; charset=utf-8"

abbrev pub plain_content_type : Text
plain_content_type = codes "text/plain; charset=utf-8"

-- http.Error
http_error : Text → ℕ → Writer → Writer
http_error message code w = write (message ++ codes "\n") (
    write_header code (
      edit
        (λ h.
          set_header "X-Content-Type-Options" (codes "nosniff")
            (set_header "Content-Type" plain_content_type (del "Content-Length" h)))
        w))

-- The first step of `WriteProblem`.
unfoldable pub located : Request → Problem → Problem
located request p = if same p.instance_uri [] then with_instance request.path p else p

-- The encoder of encoding/json is `encode`; it fails with a message.
module _ (encode : Json → Result Text Text) where
  write_encoded : Text → ℕ → Text → Writer → Writer
  write_encoded content_type code rendered w =
      write rendered (write_header code (edit (set_header "Content-Type" content_type) w))

  -- `WriteJSON`: an error leaves the writer alone.
  unfoldable pub write_json : ℕ → Json → Writer → Result Text Writer
  unfolding write_encoded
  write_json code value w = elim (encode value) [
    | err message ↦ err message
    | ok rendered ↦ ok (write_encoded json_content_type code rendered w)
  ]

  -- `WriteProblem`
  unfoldable pub write_problem : Problem → Request → Writer → Writer
  unfolding write_encoded located http_error
  write_problem p request w =
      let placed = located request p in
      elim (encode (marshal_json placed)) [
        | err message ↦ http_error (codes "problem encode failure: " ++ message) 500 w
        | ok rendered ↦ write_encoded problem_content_type (status_code placed) rendered w
      ]

-- errors.As for a `*json.SyntaxError`, along the chain of Unwrap.
as_syntax_error : Error → Bool
as_syntax_error nil = false
as_syntax_error (plain message) = false
as_syntax_error (wrapped message e) = as_syntax_error e
as_syntax_error syntax_error = true
as_syntax_error (unmarshal_type_error field expected actual) = false
as_syntax_error (problem_error details cause) = as_syntax_error cause

-- errors.As for a `*json.UnmarshalTypeError`: its field, expected type and value.
as_unmarshal_error : Error → Option (Text × Text × Text)
as_unmarshal_error nil = none
as_unmarshal_error (plain message) = none
as_unmarshal_error (wrapped message e) = as_unmarshal_error e
as_unmarshal_error syntax_error = none
as_unmarshal_error (unmarshal_type_error field expected actual) = some (field, expected, actual)
as_unmarshal_error (problem_error details cause) = as_unmarshal_error cause

-- errors.As for a `*problem.Problem`.
as_problem : Error → Option Problem
as_problem nil = none
as_problem (plain message) = none
as_problem (wrapped message e) = as_problem e
as_problem syntax_error = none
as_problem (unmarshal_type_error field expected actual) = none
as_problem (problem_error details cause) = some (record { details = details; cause = cause })

invalid_values : Text × Text × Text → Problem
invalid_values (field, expected, actual) =
    add_error
      (new_body_error (codes "invalid type") (b'/' ∷ field) validation_code_invalid_type
        ((codes "expected", string expected) ∷ (codes "actual", string actual) ∷ []))
      (new 400 (codes "Invalid request body") (codes "Request body contains invalid values"))

-- `DefaultProblemMapper.Map`
unfoldable pub default_problem_mapper : Error → Problem
unfolding as_syntax_error as_unmarshal_error as_problem invalid_values
default_problem_mapper e =
    if as_syntax_error e
    then new 400 (codes "Malformed request body") (codes "Request body contains invalid JSON")
    else elim (as_unmarshal_error e) [
      | some found ↦ invalid_values found
      | none ↦ elim (as_problem e) [
        | some p ↦ p
        | none ↦ new 500 (status_text 500) (codes "Unexpected error")
      ]
    ]
