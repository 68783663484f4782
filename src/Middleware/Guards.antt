-- ===== src/Middleware/Guards.antt =====
-- httpx/middleware/content_type.go and body_limit.go: the requests that do not reach the handler.
-- mime.ParseMediaType is a parameter: a media type, or an error.
pub mod Limits
use arnon.Prelude.{
  ℕ, Bool, true, false, Option, none, some, List, [], ◌∷◌, ◌++◌, Result, any, ltb, if◌then◌else◌,
}
use arnon.Prelude.Strings.{Text, codes, same, decimal}
use arnon.Http.{Request, Writer, Handler, get, Body, max_bytes_reader}
use arnon.Problem.{Json, Problem, new}
use arnon.Httpx.Respond.{write_problem}

abbrev pub malformed_content_type : Problem
malformed_content_type =
    new 400 (codes "Malformed Content-Type")
      (codes "Request Content-Type header could not be parsed")

-- The quotes of `%q`: a media type has no character to escape.
unfoldable pub unsupported_media_type : Text → Problem
unfolding new
unsupported_media_type media_type =
    new 415 (codes "Unsupported Media Type")
      (codes "Content-Type \"" ++ (media_type ++ codes "\" is not supported"))

unfoldable pub payload_too_large : ℕ → Problem
unfolding new
payload_too_large max_bytes = new 413 (codes "Payload Too Large") (
    codes "request body exceeds the maximum allowed size of "
    ++ (decimal max_bytes ++ codes " bytes"))

-- `request.ContentLength > maxBytes`
unfoldable pub declares_more : ℕ → Option ℕ → Bool
declares_more max_bytes none = false
declares_more max_bytes (some n) = ltb max_bytes n

-- `if request.Body != nil`
unfoldable pub limited : ℕ → Body → Body
limited max_bytes body = elim body.content [
  | none ↦ body
  | some bytes ↦ max_bytes_reader max_bytes body
]

module _ (encode : Json → Result Text Text) where
  -- The handler behind the Content-Type's check.
  unfoldable pub check_media_type : List Text → Handler → Option Text → Handler
  unfolding unsupported_media_type
  check_media_type allowed next none request w =
      write_problem encode malformed_content_type request w
  check_media_type allowed next (some media_type) request w =
      if any (same media_type) allowed
      then next request w
      else write_problem encode (unsupported_media_type media_type) request w

  -- `AllowContentType`
  unfoldable pub allow_content_type : (Text → Option Text) → List Text → Handler → Handler
  unfolding check_media_type
  allow_content_type parse_media_type allowed next request w =
      let raw = get "Content-Type" request.header in
      if same raw []
      then next request w
      else check_media_type allowed next (parse_media_type raw) request w

  -- `MaxBodyBytes` around a handler of a request and its body.
  unfoldable pub max_body_bytes :
      ℕ → (Request → Body → Writer → Writer) → Request → Body → Writer → Writer
  unfolding declares_more limited payload_too_large
  max_body_bytes max_bytes next request body w =
      if declares_more max_bytes body.content_length
      then write_problem encode (payload_too_large max_bytes) request w
      else next request (limited max_bytes body) w
