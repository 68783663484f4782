-- ===== src/Tests/Middleware.antt =====
-- Runs of httpx/middleware.
use arnon.Prelude.{
  ℕ, ◌+◌, ◌/◌, ltb, not, ◌*◌, ◌≤◌, ◌≡◌, ◌↔◌, refl, true, false, ◌&&◌, none, some, ok, List, [], ◌∷◌,
  ◌++◌, arith, total, All,
}
use arnon.Prelude.Strings.{Text, codes, same, is_space}
use arnon.Http.{Request, fresh, get, Program, edit_header, send_bytes, add, finish_response}
use arnon.Middleware.RateLimit.{
  FloatArithmetic, truncate, new_local_limit_counter, local_increment_by, local_get,
  local_limit_counter, check_rate_limit,
}
use arnon.Middleware.RateLimit.History.{
  Call, increment, read, replay, count_in, count_before, InOrder, local_get-replay,
}
use arnon.Middleware.RateLimit.Window.{is_allowed, estimate, check-estimate}
use arnon.Middleware.RateLimit.Admission.{IsFloat64, Arrival, served, admitted, admitted-le-limit}
use arnon.Middleware.Throttle.{
  ThrottleConfig, full, throttled, proceed, advance, Turn, arrive, move, run,
}
use arnon.Middleware.Throttle.Accounting.{
  IsAccounted, backlog_tokens, run-IsAccounted, full-throttled_iff,
}
use arnon.Middleware.Chain.{ChainConfig, Entry, cors, build_chain}
use arnon.Middleware.Chain.Built.{IsAnchored, IsChain, build_chain-IsChain, build_chain-panics}
use arnon.Middleware.Etag.{
  empty_writer, buffer_bytes, run_buffered, buffered_status, is_passed_by, etag_middleware,
}
use arnon.Middleware.Etag.Transparent.{Outcome, etag_middleware-Outcome}
use arnon.Middleware.Etag.Revalidation.{
  revalidating, IsTaggable, NotModified, etag_middleware-revalidates,
}
use arnon.Middleware.RealIp.{NetIp, RealIpConfig, trusts, equal_fold, parse_forwarded_for}
use arnon.Middleware.RealIp.Trust.{forged, key_behind, key_behind-unforgeable}
use arnon.Middleware.RealIp.Forwarded.{for_param, parse_forwarded_for_token}

abbrev ann : Text
ann = codes "ann"

abbrev bob : Text
bob = codes "bob"

-- Numbers in thousandths, as an instance of the arithmetic that is asked of float64.
abbrev thousandths : FloatArithmetic ℕ
thousandths = record {
  of_int = λ n. 1000 * n;
  add = λ x y. x + y;
  div = λ x y. 1000 * x / y;
  mul_add = λ x y z. x * y / 1000 + z;
  greater = λ x y. ltb y x;
  round = λ x. (x + 500) / 1000;
}

le_add : (m n : ℕ) → n ≤ m + n
le_add m n = omega arith

thousandths-IsFloat64 : IsFloat64 thousandths
thousandths-IsFloat64 = record {
  AtLeast = λ n x. 1000 * n ≤ x;
  weighted = λ n left length c le pos small. le_add _ (1000 * c);
  one_more = λ c x small h. omega arith;
  not_greater = λ c limit x small small_limit h k. ground (arith, k);
}

-- Four requests in two windows of ten, the latest first.
abbrev arrivals : List Arrival
arrivals =
    record { key = ann; now = 12 }
    ∷ record { key = bob; now = 9 }
    ∷ record { key = ann; now = 8 }
    ∷ record { key = ann; now = 3 }
    ∷ []

admitted_run : admitted thousandths 2 10 0 ann 0 arrivals ≡ 2
unfolding admitted served check_rate_limit local_increment_by local_get same new_local_limit_counter
admitted_run = refl

admitted-le-limit_example : admitted thousandths 2 10 0 ann 0 arrivals ≤ 2
admitted-le-limit_example =
    admitted-le-limit thousandths 2 10 0 arrivals ann 0 thousandths-IsFloat64 (omega arith)
      (omega arith) (ground arith)

abbrev history : List Call
history = increment bob 10 1 ∷ increment ann 10 2 ∷ increment ann 0 3 ∷ []

history-InOrder : InOrder 10 (truncate 4 10) (read ann 10 ∷ history)
history-InOrder = ground arith

local_get-replay_example :
    (local_get ann 10 0 (replay (new_local_limit_counter 4 10) history)).0
    ≡ ok (count_in ann 10 history, count_before 10 ann 10 history)
local_get-replay_example = local_get-replay 4 10 history ann 10 0 (omega arith) history-InOrder

check-estimate_example :
    is_allowed
      (check_rate_limit thousandths local_limit_counter ann 5 10 15
        (replay (new_local_limit_counter 4 10) history)).0
    ≡ not (thousandths.greater (estimate thousandths history ann 10 15) (thousandths.of_int 5))
check-estimate_example =
    check-estimate thousandths 4 10 5 history ann 15 (omega arith) history-InOrder

abbrev throttle_config : ThrottleConfig
throttle_config = record { limit = 1; backlog_limit = 1 }

-- Three requests: one is served, the second one waits, the third one finds the slot taken.
abbrev turns : List Turn
turns =
    move 2 proceed
    ∷ move 1 proceed
    ∷ move 1 proceed
    ∷ move 0 proceed
    ∷ arrive
    ∷ arrive
    ∷ arrive
    ∷ []

run-IsAccounted_example : IsAccounted throttle_config (run throttle_config turns)
run-IsAccounted_example = run-IsAccounted throttle_config turns

full-throttled_iff_example :
    ((advance throttle_config proceed full (run throttle_config turns).channels).0 ≡ throttled)
    ↔ (total backlog_tokens (run throttle_config turns).requests ≡ 1)
full-throttled_iff_example = full-throttled_iff throttle_config turns proceed

-- Logging that is our own, before CORS.
abbrev chain_config : ChainConfig ℕ
chain_config = record {
  recover = true;
  timeout = 30;
  strip_slashes = true;
  redirect_slashes = false;
  real_ip = true;
  request_id = true;
  secure_headers = false;
  rate_limit = false;
  throttle = false;
  etag = true;
  compress = false;
  cors = true;
  service_desc_path = "";
  logger = false;
  extra = record { middleware = 7; before = "cors"; after = "" } ∷ [];
}

chain_config-All : All IsAnchored chain_config.extra
chain_config-All = (IsAnchored.before cors refl refl, tt)

build_chain-IsChain_example :
    (chain : List (Entry ℕ)) × (build_chain chain_config ≡ ok chain) × IsChain chain_config chain
build_chain-IsChain_example = build_chain-IsChain chain_config refl chain_config-All

build_chain-panics_example :
    (chain_config.strip_slashes && chain_config.redirect_slashes ≡ false)
    × All IsAnchored chain_config.extra
build_chain-panics_example = build_chain-panics chain_config build_chain-IsChain_example.1

abbrev page : Request → Program
page request =
    edit_header (add "Content-Type" (codes "text/plain")) ∷ send_bytes (codes "hello") ∷ []

abbrev visit : Request
visit = record {
  method = "GET";
  path = codes "/page";
  header = [];
  remote_addr = codes "10.0.0.7:5000";
  context = record { real_ip = []; request_id = [] };
}

etag_middleware-Outcome_example :
    Outcome page visit (finish_response (etag_middleware page visit fresh))
etag_middleware-Outcome_example = etag_middleware-Outcome page visit

visit-considered : is_passed_by visit ≡ false
unfolding is_passed_by get same
visit-considered = refl

page-IsTaggable : IsTaggable (run_buffered (page visit) empty_writer)
unfolding run_buffered buffered_status buffer_bytes add get
page-IsTaggable = record { untagged = refl; lower = omega arith; upper = omega arith }

etag_middleware-revalidates_example :
    NotModified (get "Etag" (finish_response (etag_middleware page visit fresh)).sent) (
      finish_response (
        etag_middleware page
          (revalidating
            (get "Etag" (finish_response (etag_middleware page visit fresh)).sent)
            visit)
          fresh))
etag_middleware-revalidates_example =
    etag_middleware-revalidates page visit visit-considered page-IsTaggable (λ tag. refl)

-- Addresses are texts, and a prefix holds the one address that it is.
abbrev plain_net : NetIp Text Text
plain_net = record {
  split_host_port = λ t. none;
  parse_prefix = λ t. none;
  parse_addr = λ t. some t;
  prefix_from = λ a. a;
  unmap = λ a. a;
  contains = λ p a. same p a;
  mask = λ t. none;
}

abbrev one_proxy : RealIpConfig Text
one_proxy = record { trusted_proxies = codes "10.0.0.1" ∷ []; trust_all = false }

visit-untrusted : trusts plain_net one_proxy visit.remote_addr ≡ false
unfolding trusts same
visit-untrusted = refl

key_behind-unforgeable_example :
    key_behind plain_net one_proxy (forged (("X-Forwarded-For", codes "1.2.3.4") ∷ []) visit)
    ≡ key_behind plain_net one_proxy visit
key_behind-unforgeable_example =
    key_behind-unforgeable plain_net one_proxy visit (("X-Forwarded-For", codes "1.2.3.4") ∷ [])
      visit-untrusted

parse_forwarded_for_token_example :
    parse_forwarded_for (for_param (codes "192.0.2.1") ++ b',' ∷ codes "for=evil")
    ≡ codes "192.0.2.1"
parse_forwarded_for_token_example =
    parse_forwarded_for_token b'1' (codes "92.0.2.1") (codes "for=evil") (unfold is_space in refl)
      (unfold equal_fold in refl)
