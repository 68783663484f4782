-- ===== src/Middleware/RateLimit/Handling.antt =====
-- httpx/middleware/rate_limit.go: the handler around the check. A nil field of the configuration is
-- `none`; the counter and its state are passed beside it, and the lock makes one check one step.
pub mod Answers
use arnon.Prelude.{
  ℕ, ◌+◌, ◌-◌, ◌/◌, String, Bool, true, false, Option, none, some, Result, ok, err, if◌then◌else◌,
}
use arnon.Prelude.Strings.{Text, codes, decimal}
use arnon.Http.{Header, Request, Writer, Handler, edit, set_header}
use arnon.Problem.{Json, Problem}
use arnon.Problem.Kinds.{new_service_unavailable, new_too_many_requests}
use arnon.Httpx.Respond.{write_problem}
use arnon.Middleware.RateLimit.{
  FloatArithmetic, LimitCounter, RateLimitResult, LimitError, check_rate_limit,
}
use arnon.Middleware.RealIp.{NetIp, default_rate_limit_key}

pub record RateLimitConfig : Type 0 where
  pub request_limit : ℕ
  pub window_length : ℕ
  pub key_func : Option (Request → Text)
  pub on_counter_error : Option (LimitError → Problem)

abbrev pub default_on_counter_error : LimitError → Problem
default_on_counter_error e =
    new_service_unavailable (codes "rate limit backend is temporarily unavailable")

unfoldable pub problem_of : Option (LimitError → Problem) → LimitError → Problem
problem_of none e = default_on_counter_error e
problem_of (some on_error) e = on_error e

abbrev pub exceeded : Problem
exceeded = new_too_many_requests (codes "rate limit exceeded, try again later")

-- time.Time.Unix of an instant after 1970
abbrev pub unix : ℕ → ℕ
unix t = t / 1_000_000_000 - 62_135_596_800

-- X-RateLimit-Limit and X-RateLimit-Reset
unfoldable pub limit_header : RateLimitConfig → RateLimitResult → Header → Header
limit_header config result header =
    set_header "X-Ratelimit-Reset" (decimal (unix result.reset_at))
      (set_header "X-Ratelimit-Limit" (decimal config.request_limit) header)

unfoldable pub exceeded_header : RateLimitConfig → RateLimitResult → Header → Header
unfolding limit_header
exceeded_header config result header =
    set_header "Retry-After" (decimal (config.window_length / 1_000_000_000))
      (set_header "X-Ratelimit-Remaining" (codes "0") (limit_header config result header))

unfoldable pub allowed_header : RateLimitConfig → RateLimitResult → Header → Header
unfolding limit_header
allowed_header config result header =
    set_header "X-Ratelimit-Remaining" (decimal result.remaining)
      (limit_header config result header)

module _ (encode : Json → Result Text Text) where
  -- The handler after the check.
  unfoldable pub answer_check :
      RateLimitConfig → Handler → Result LimitError RateLimitResult → Handler
  unfolding problem_of exceeded_header allowed_header
  answer_check config next (err e) request w =
      write_problem encode (problem_of config.on_counter_error e) request w
  answer_check config next (ok result) request w =
      if result.allowed
      then next request (edit (allowed_header config result) w)
      else write_problem encode exceeded request (edit (exceeded_header config result) w)

  module _ {Address Prefix F S : Type 0} (net : NetIp Address Prefix) (fl : FloatArithmetic F)
      (counter : LimitCounter S) where
    key_of : Option (Request → Text) → Request → Text
    key_of none request = default_rate_limit_key net request
    key_of (some key_func) request = key_func request

    -- `RateLimit` configures the counter once.
    unfoldable pub configured : RateLimitConfig → S → S
    configured config s = counter.config config.request_limit config.window_length s

    -- The handler that it builds, at the instant `now`.
    unfoldable pub rate_limit : RateLimitConfig → ℕ → Handler → Request → Writer → S → Writer × S
    unfolding key_of answer_check
    rate_limit config now next request w s =
        let (result, s') =
          check_rate_limit fl counter (key_of config.key_func request) config.request_limit
            config.window_length now s in
        (answer_check config next result request w, s')
