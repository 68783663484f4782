-- ===== src/Tests/Handlers.antt =====
-- Runs of the handlers of httpx/middleware.
use arnon.Prelude.{some, none, ℕ, ◌≡◌, refl, true, false, none, Result, ok, [], ◌∷◌}
use arnon.Prelude.Strings.{Text, codes, decimal}
use arnon.Http.{Request, Handler, fresh, get, write_header}
use arnon.Problem.{Json}
use arnon.Middleware.RateLimit.{RateLimitResult}
use arnon.Middleware.RateLimit.Handling.{RateLimitConfig}
use arnon.Problem.Kinds.{new_precondition_required}
use arnon.Httpx.Precondition.{required_detail, check_request}
use arnon.Middleware.NoCache.{unconditional}
use arnon.Middleware.NoCache.Unconditional.{check_request-unconditional}
use arnon.Middleware.Cors.{CorsConfig, is_granted, cors_header}
use arnon.Middleware.Cors.Origins.{IsMarked, cors_header-IsMarked}
use arnon.Middleware.Slashes.{redirect_slashes}
use arnon.Middleware.Slashes.Targets.{redirect_slashes-host}

abbrev accept_all : Handler
accept_all request w = write_header 200 w

abbrev visit_at : Text → Request
visit_at path = record {
  method = "GET";
  path = path;
  header = ("Origin", codes "https://a.example") ∷ [];
  remote_addr = codes "10.0.0.7:5000";
  context = record { real_ip = []; request_id = [] };
}

abbrev per_minute : RateLimitConfig
per_minute = record {
  request_limit = 3;
  window_length = 60_000_000_000;
  key_func = none;
  on_counter_error = none;
}

abbrev spent : RateLimitResult
spent = record { allowed = false; remaining = 0; reset_at = 62_135_596_860_000_000_000 }

abbrev encode_nothing : Json → Result Text Text
encode_nothing value = ok []

decimal_run : decimal 1205 ≡ codes "1205"
decimal_run = unfold decimal in refl

abbrev cors_config : CorsConfig
cors_config = record {
  allowed_origins = codes "https://a.example" ∷ [];
  allowed_methods = [];
  allowed_headers = [];
  exposed_headers = [];
  allow_credentials = true;
  max_age = 600_000_000_000;
}

abbrev no_fold : ℕ → ℕ
no_fold c = c

cors_header-IsMarked_example :
    IsMarked
      (is_granted no_fold cors_config (visit_at (codes "/")))
      true
      (get "Origin" (visit_at (codes "/")).header)
      []
      (cors_header no_fold cors_config (visit_at (codes "/")) [])
cors_header-IsMarked_example = cors_header-IsMarked no_fold cors_config (visit_at (codes "/")) []

-- A redirect that sends the status alone.
abbrev redirect_status : Text → ℕ → Handler
redirect_status target status request w = write_header status w

redirect_slashes-host_example :
    redirect_slashes redirect_status accept_all (visit_at (codes "//evil.example/")) fresh
    ≡ redirect_status (codes "//evil.example") 308 (visit_at (codes "//evil.example/")) fresh
redirect_slashes-host_example =
    redirect_slashes-host redirect_status accept_all (visit_at (codes "//evil.example/")) fresh
      (codes "evil.example") refl

abbrev guarded : Request
guarded = record (visit_at (codes "/")) { header = ("If-Match", codes "\"v1\"") ∷ [] }

check_request-unconditional_example :
    check_request
      (λ date. none)
      (unconditional guarded)
      (record { etag = codes "\"v2\""; last_modified = 0 })
      (record { require = true })
    ≡ some (new_precondition_required required_detail)
check_request-unconditional_example =
    check_request-unconditional (λ date. none) guarded
      (record { etag = codes "\"v2\""; last_modified = 0 }) (record { require = true })
