-- ===== src/Problem/Kinds.antt =====
-- problem/errors.go: a constructor for each status that the library answers with.
use arnon.Prelude.{ℕ, [], ◌==◌, if◌then◌else◌}
use arnon.Prelude.Strings.{Text, codes, same}
use arnon.Problem.{Problem, new}

-- http.StatusText, for the statuses that the program names.
unfoldable pub status_text : ℕ → Text
status_text code =
    if code == 400
    then codes "Bad Request"
    else if code == 401
    then codes "Unauthorized"
    else if code == 403
    then codes "Forbidden"
    else if code == 404
    then codes "Not Found"
    else if code == 406
    then codes "Not Acceptable"
    else if code == 409
    then codes "Conflict"
    else if code == 422
    then codes "Unprocessable Entity"
    else if code == 412
    then codes "Precondition Failed"
    else if code == 428
    then codes "Precondition Required"
    else if code == 429
    then codes "Too Many Requests"
    else if code == 500
    then codes "Internal Server Error"
    else if code == 503
    then codes "Service Unavailable"
    else []

abbrev default_unexpected_detail : Text
default_unexpected_detail = codes "An unexpected error occurred"

unfoldable pub new_bad_request : Text → Problem
unfolding new status_text
new_bad_request detail = new 400 (status_text 400) detail

unfoldable pub new_unauthorized : Text → Problem
unfolding new status_text
new_unauthorized detail = new 401 (status_text 401) detail

unfoldable pub new_forbidden : Text → Problem
unfolding new status_text
new_forbidden detail = new 403 (status_text 403) detail

unfoldable pub new_not_found : Text → Problem
unfolding new status_text
new_not_found detail = new 404 (status_text 404) detail

unfoldable pub new_not_acceptable : Text → Problem
unfolding new status_text
new_not_acceptable detail = new 406 (status_text 406) detail

unfoldable pub new_conflict : Text → Problem
unfolding new status_text
new_conflict detail = new 409 (status_text 409) detail

unfoldable pub new_unprocessable_entity : Text → Problem
unfolding new status_text
new_unprocessable_entity detail = new 422 (status_text 422) detail

unfoldable pub new_precondition_failed : Text → Problem
unfolding new status_text
new_precondition_failed detail = new 412 (status_text 412) detail

unfoldable pub new_precondition_required : Text → Problem
unfolding new status_text
new_precondition_required detail = new 428 (status_text 428) detail

unfoldable pub new_too_many_requests : Text → Problem
unfolding new status_text
new_too_many_requests detail = new 429 (status_text 429) detail

unfoldable pub new_internal : Text → Problem
unfolding new status_text
new_internal detail =
    new 500 (status_text 500) (if same detail [] then default_unexpected_detail else detail)

unfoldable pub new_service_unavailable : Text → Problem
unfolding new status_text
new_service_unavailable detail = new 503 (status_text 503) detail
