-- ===== src/Middleware/RateLimit.antt =====
-- httpx/middleware/rate_limit.go: the counters and the sliding-window check. Instants and lengths
-- are nanoseconds since Go's zero time, the arithmetic of float64 is a parameter, and counts are
-- unbounded where Go has int.
pub mod History
pub mod Window
pub mod Admission
pub mod Handling
use arnon.Prelude.{
  ℕ, ◌+◌, ◌-◌, ◌*◌, ◌/◌, ◌%◌, String, Bool, true, false, Result, ok, err, ltb, ◌==◌, if◌then◌else◌,
}
use arnon.Prelude.Strings.{Text, same}

-- `LimitCounter`, over the state `S` of the storage. The boolean-free answer of `Get` is the pair of
-- counts in the current and in the previous window.
pub record LimitCounter (S : Type 0) : Type 0 where
  pub config : ℕ → ℕ → S → S
  pub increment_by : Text → ℕ → ℕ → S → Result String (Unit {0}) × S
  pub get : Text → ℕ → ℕ → S → Result String (ℕ × ℕ) × S

abbrev pub Counts : Type 0
Counts = Text → ℕ

abbrev pub no_counts : Counts
no_counts key = 0

-- `counts[key] += amount`
abbrev pub add_count : Text → ℕ → Counts → Counts
add_count key amount counts k = if same key k then counts k + amount else counts k

pub record LocalLimitCounter : Type 0 where
  pub window_length : ℕ
  pub tracked_window : ℕ
  pub current_counts : Counts
  pub previous_counts : Counts

-- `time.Time.Truncate` for a positive length
abbrev pub truncate : ℕ → ℕ → ℕ
truncate now window_length = now - now % window_length

unfoldable pub new_local_limit_counter : ℕ → ℕ → LocalLimitCounter
new_local_limit_counter now window_length = record {
  window_length = window_length;
  tracked_window = truncate now window_length;
  current_counts = no_counts;
  previous_counts = no_counts;
}

unfoldable pub local_config : ℕ → ℕ → LocalLimitCounter → LocalLimitCounter
local_config request_limit window_length c = record c { window_length = window_length }

unfoldable pub evict : ℕ → LocalLimitCounter → LocalLimitCounter
evict window c =
    if c.tracked_window == window
    then c
    else if c.tracked_window + c.window_length == window
    then record c {
      tracked_window = window;
      current_counts = no_counts;
      previous_counts = c.current_counts;
    }
    else record c {
      tracked_window = window;
      current_counts = no_counts;
      previous_counts = no_counts;
    }

unfoldable pub local_increment_by :
    Text → ℕ → ℕ → LocalLimitCounter → Result String (Unit {0}) × LocalLimitCounter
unfolding evict
local_increment_by key window amount c =
    let rolled = evict window c in
    (ok tt, record rolled { current_counts = add_count key amount rolled.current_counts })

unfoldable pub local_get :
    Text → ℕ → ℕ → LocalLimitCounter → Result String (ℕ × ℕ) × LocalLimitCounter
unfolding evict
local_get key window previous c =
    let rolled = evict window c in
    (ok (rolled.current_counts key, rolled.previous_counts key), rolled)

unfoldable pub local_increment :
    Text → ℕ → LocalLimitCounter → Result String (Unit {0}) × LocalLimitCounter
unfolding local_increment_by
local_increment key window c = local_increment_by key window 1 c

abbrev pub local_limit_counter : LimitCounter LocalLimitCounter
local_limit_counter = record {
  config = local_config;
  increment_by = local_increment_by;
  get = local_get;
}

pub record RateLimitResult : Type 0 where
  pub allowed : Bool
  pub remaining : ℕ
  pub reset_at : ℕ

-- The two `fmt.Errorf` wrappers.
pub data LimitError : Type 0 where
  get_counts increment_count : String → LimitError

-- What the check uses of float64: the conversion of an int, `+`, `/`, `x * y + z` (which Go may fuse), `>`,
-- and `int(math.Round(x))`.
pub record FloatArithmetic (F : Type 0) : Type 0 where
  pub of_int : ℕ → F
  pub add : F → F → F
  pub div : F → F → F
  pub mul_add : F → F → F → F
  pub greater : F → F → Bool
  pub round : F → ℕ

module _ {F : Type 0} (fl : FloatArithmetic F) where
  unfoldable pub weight_of : ℕ → ℕ → F
  weight_of elapsed window_length =
      fl.div (fl.of_int (window_length - elapsed)) (fl.of_int window_length)

  unfoldable pub rate_of : ℕ → ℕ → ℕ → ℕ → F
  unfolding weight_of
  rate_of current previous elapsed window_length =
      fl.mul_add (fl.of_int previous) (weight_of elapsed window_length) (fl.of_int current)

module _ {F S : Type 0} (fl : FloatArithmetic F) (counter : LimitCounter S) where
  finish_increment : ℕ → ℕ → Result String (Unit {0}) × S → Result LimitError RateLimitResult × S
  finish_increment remaining reset_at (ok done, s) =
      (ok (record { allowed = true; remaining = remaining - 1; reset_at = reset_at }), s)
  finish_increment remaining reset_at (err e, s) = (err (increment_count e), s)

  finish_get : Text → ℕ → ℕ → ℕ → Result String (ℕ × ℕ) × S → Result LimitError RateLimitResult × S
  unfolding finish_increment rate_of
  finish_get key limit length now (err e, s) = (err (get_counts e), s)
  finish_get key limit length now (ok (current, previous), s) =
      let window = truncate now length in
      let rate = rate_of fl current previous (now - window) length in
      let remaining = limit - fl.round rate in
      if fl.greater (fl.add rate (fl.of_int 1)) (fl.of_int limit)
      then (ok (record { allowed = false; remaining = remaining; reset_at = window + length }), s)
      else finish_increment remaining (window + length) (counter.increment_by key window 1 s)

  -- `now` is the instant that `time.Now` gives.
  unfoldable pub check_rate_limit : Text → ℕ → ℕ → ℕ → S → Result LimitError RateLimitResult × S
  unfolding finish_get
  check_rate_limit key limit length now s =
      let window = truncate now length in
      finish_get key limit length now (counter.get key window (window - length) s)
