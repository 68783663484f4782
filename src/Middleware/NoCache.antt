-- ===== src/Middleware/NoCache.antt =====
-- httpx/middleware/nocache.go. The order in which a map is iterated does not matter: its keys differ.
pub mod Unconditional
use arnon.Prelude.{String, List, [], ◌∷◌}
use arnon.Prelude.Strings.{Text, codes}
use arnon.Http.{Header, Request, Writer, Handler, edit, del, set_header}

abbrev pub no_cache_headers : List (String × Text)
no_cache_headers =
    ("Expires", codes "Thu, 01 Jan 1970 00:00:00 GMT")
    ∷ (
      "Cache-Control",
      codes "no-cache, no-store, no-transform, must-revalidate, private, max-age=0",
    )
    ∷ ("Pragma", codes "no-cache")
    ∷ ("X-Accel-Expires", codes "0")
    ∷ []

-- Under canonical names
abbrev pub conditional_request_headers : List String
conditional_request_headers =
    "Etag" ∷ "If-Modified-Since" ∷ "If-Match" ∷ "If-None-Match" ∷ "If-Range" ∷ "If-Unmodified-Since"
    ∷ []

unfoldable pub del_each : List String → Header → Header
del_each [] header = header
del_each (name ∷ rest) header = del_each rest (del name header)

unfoldable pub set_each : List (String × Text) → Header → Header
set_each [] header = header
set_each ((name, value) ∷ rest) header = set_each rest (set_header name value header)

-- The request that the handler gets.
unfoldable pub unconditional : Request → Request
unfolding del_each
unconditional request = record request {
  header = del_each conditional_request_headers request.header;
}

unfoldable pub no_cache : Handler → Handler
unfolding unconditional set_each
no_cache next request w = next (unconditional request) (edit (set_each no_cache_headers) w)
