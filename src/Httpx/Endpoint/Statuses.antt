-- ===== src/Httpx/Endpoint/Statuses.antt =====
-- The problem that rejected requests get: its status and its list of errors.
use arnon.Prelude.{
  ◌≡◌, refl, sym, ◌∙◌, Bool, List, [], ◌∷◌, ◌++◌, arith, any, if◌then◌else◌, str_eq,
}
use mathlib.Core.List.{append_assoc, append-nil}
use arnon.Problem.{
  ValidationError, Problem, validation_code_payload_too_large, new, add_error, status_override,
  status_code,
}
use arnon.Httpx.Endpoint.{validation_status, add_all, request_validation_failed, validation_problem}

abbrev pub is_too_large : ValidationError → Bool
is_too_large e = str_eq e.code validation_code_payload_too_large

validation_status-any :
    (errors : List ValidationError)
    → validation_status errors ≡ (if any is_too_large errors then 413 else 400)
unfolding validation_status status_override
validation_status-any [] = refl
validation_status-any (e ∷ rest) = ground (arith, validation_status-any rest)

errors-add_all :
    (errors : List ValidationError) (p : Problem) → (add_all errors p).errors ≡ p.errors ++ errors
unfolding add_all add_error
errors-add_all [] p = sym (append-nil p.errors)
errors-add_all (e ∷ rest) p =
    errors-add_all rest (add_error e p) ∙ append_assoc p.errors (e ∷ []) rest

status-add_all :
    (errors : List ValidationError) (p : Problem) → (add_all errors p).status ≡ p.status
unfolding add_all add_error
status-add_all [] p = refl
status-add_all (e ∷ rest) p = status-add_all rest (add_error e p)

-- The problem written for a rejected request lists all errors in their order, and its status is 413
-- if one of them says that the body is too large, wherever it stands among them, and 400 otherwise.
pub validation_problem_lem :
    (errors : List ValidationError)
    → ((validation_problem errors).errors ≡ errors)
      × (status_code (validation_problem errors) ≡ (if any is_too_large errors then 413 else 400))
unfolding validation_problem new
validation_problem_lem errors =
    let start =
      new (validation_status errors) request_validation_failed request_validation_failed in
    (
      errors-add_all errors start,
      unfold status_code in
          ground (arith, status-add_all errors start, validation_status-any errors),
    )
