-- ===== src/Middleware/RateLimit/Handling/Answers.antt =====
-- What a client gets for each outcome of the check.
use arnon.Prelude.{◌/◌, ◌≡◌, true, false, some, Result, ok, err}
use arnon.Prelude.Strings.{Text, codes, decimal}
use arnon.Http.{Header, Request, Writer, Handler, get}
use arnon.Problem.{Json}
use arnon.Problem.Document.{marshal_json}
use arnon.Httpx.Respond.{write_problem, located}
use arnon.Httpx.Respond.Kept.{unsent}
use arnon.Middleware.RateLimit.{RateLimitResult, LimitError}
use arnon.Middleware.RateLimit.Handling.{RateLimitConfig, problem_of, exceeded, unix}

-- What a refused client gets.
pub record IsRefused (encode : Json → Result Text Text) (config : RateLimitConfig)
    (result : RateLimitResult) (request : Request) (w : Writer) : Type 0 where
  pub code :
      (rendered : Text)
      → encode (marshal_json (located request exceeded)) ≡ ok rendered
      → w.status ≡ some 429
  pub retry : get "Retry-After" w.sent ≡ decimal (config.window_length / 1_000_000_000)
  pub remaining : get "X-Ratelimit-Remaining" w.sent ≡ codes "0"
  pub limit : get "X-Ratelimit-Limit" w.sent ≡ decimal config.request_limit
  pub reset : get "X-Ratelimit-Reset" w.sent ≡ decimal (unix result.reset_at)

-- What the writer may have become, for a header map `h` that was there before.
pub data Answered (encode : Json → Result Text Text) (config : RateLimitConfig) (next : Handler)
    (request : Request) (h : Header) (w : Writer) : Result LimitError RateLimitResult → Type 0 where
  allowed :
      (result : RateLimitResult) (marked : Header)
      → result.allowed ≡ true
      → get "X-Ratelimit-Remaining" marked ≡ decimal result.remaining
      → get "X-Ratelimit-Limit" marked ≡ decimal config.request_limit
      → w ≡ next request (unsent marked)
      → Answered encode config next request h w (ok result)
  refused :
      (result : RateLimitResult)
      → result.allowed ≡ false
      → IsRefused encode config result request w
      → Answered encode config next request h w (ok result)
  failed :
      (e : LimitError)
      → w ≡ write_problem encode (problem_of config.on_counter_error e) request (unsent h)
      → Answered encode config next request h w (err e)
