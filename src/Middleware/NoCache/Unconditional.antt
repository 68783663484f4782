-- ===== src/Middleware/NoCache/Unconditional.antt =====
-- What is left of a conditional request behind the middleware.
use arnon.Prelude.{
  ℕ, ◌≡◌, refl, ap, ◌∙◌, String, Bool, true, false, ◌||◌, Option, none, some, List, [], ◌∷◌, any,
  if◌then◌else◌, str_eq,
}
use arnon.Prelude.Strings.{Text, same, trim_space}
use arnon.Http.{Header, Request, get, del}
use arnon.Http.Headers.{get-del}
use arnon.Problem.Kinds.{new_precondition_required}
use arnon.Httpx.Precondition.{State, Config, required_detail, check, check_request}
use arnon.Middleware.NoCache.{conditional_request_headers, del_each, unconditional}

both :
    (a b : Bool) (t : Text) → (if a then [] else (if b then [] else t)) ≡ (if b || a then [] else t)
both true true t = refl
both true false t = refl
both false true t = refl
both false false t = refl

get-del_each :
    (name : String) (names : List String) (h : Header)
    → get name (del_each names h) ≡ (if any (λ n. str_eq n name) names then [] else get name h)
unfolding del_each
get-del_each name [] h = refl
get-del_each name (n ∷ names) h =
    get-del_each name names (del n h)
    ∙ ap (λ t. if any (λ m. str_eq m name) names then [] else t) (get-del name n h)
    ∙ both (any (λ m. str_eq m name) names) (str_eq n name) (get name h)

blank : same (trim_space []) [] ≡ true
unfolding trim_space same
blank = refl

-- Behind `NoCache` no write is guarded by If-Match or If-Unmodified-Since: whatever the client sends,
-- `CheckRequest` lets the write proceed, or, where one of the headers is required, refuses it as one
-- that has neither.
pub check_request-unconditional :
    (parse_time : Text → Option ℕ) (request : Request) (current : State) (config : Config)
    → check_request parse_time (unconditional request) current config
      ≡ (if config.require then some (new_precondition_required required_detail) else none)
unfolding check_request check unconditional
check_request-unconditional parse_time request current config =
    rw
      (
        get-del_each "If-Match" conditional_request_headers request.header,
        get-del_each "If-Unmodified-Since" conditional_request_headers request.header,
        blank,
      )
      refl
