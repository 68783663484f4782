-- ===== src/Middleware/Stamps.antt =====
-- The middlewares that put header lines on every response before the handler runs: httpx/middleware/
-- request_id.go, secure_headers.go, service_desc.go, and the readers of context.go.
use arnon.Prelude.{ℕ, ◌/◌, [], ◌++◌, ltb, if◌then◌else◌}
use arnon.Prelude.Strings.{Text, codes, same, decimal}
use arnon.Http.{Header, Context, Request, Handler, edit, get, set_header, add}

-- `RequestIDFromContext` and `RealIPFromContext`: "" where nothing was put.
unfoldable pub request_id_from_context : Context → Text
request_id_from_context context = context.request_id

unfoldable pub real_ip_from_context : Context → Text
real_ip_from_context context = context.real_ip

-- The client's identifier, or a new one.
unfoldable pub request_id_of : Text → Request → Text
request_id_of new_id request =
    let given = get "X-Request-Id" request.header in if same given [] then new_id else given

-- `RequestID`, where uuid.NewString gives `new_id`.
unfoldable pub request_id : Text → Handler → Handler
unfolding request_id_of
request_id new_id next request w =
    let id = request_id_of new_id request in
    next (record request { context = record request.context { request_id = id } })
      (edit (set_header "X-Request-Id" id) w)

-- Durations in nanoseconds.
pub record SecureHeadersConfig : Type 0 where
  pub frame_options : Text
  pub hsts_max_age : ℕ

hsts_header : ℕ → Header → Header
hsts_header max_age header =
    if ltb 0 max_age
    then set_header "Strict-Transport-Security"
        (codes "max-age=" ++ (decimal (max_age / 1_000_000_000) ++ codes "; includeSubDomains"))
        header
    else header

-- The header lines of `SecureHeaders`, in the order of its calls.
unfoldable pub secure_header : SecureHeadersConfig → Header → Header
unfolding hsts_header
secure_header config header =
    let frame_options =
      if same config.frame_options [] then codes "DENY" else config.frame_options in
    hsts_header config.hsts_max_age (
      set_header "Referrer-Policy" (codes "no-referrer") (
        set_header "X-Frame-Options" frame_options
          (set_header "X-Content-Type-Options" (codes "nosniff") header)))

unfoldable pub secure_headers : SecureHeadersConfig → Handler → Handler
unfolding secure_header
secure_headers config next request w = next request (edit (secure_header config) w)

-- `ServiceDesc`
unfoldable pub service_desc : Text → Handler → Handler
service_desc path next request w =
    next request (edit (add "Link" (codes "<" ++ (path ++ codes ">; rel=\"service-desc\""))) w)
