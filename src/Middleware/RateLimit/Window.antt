-- ===== src/Middleware/RateLimit/Window.antt =====
-- `checkRateLimit` over the in-memory counter: its decision is the sliding-window estimate.
use arnon.Prelude.{
  ℕ, ◌-◌, ◌<◌, ◌≡◌, ap, ◌∙◌, Bool, false, not, Result, ok, err, List, ◌∷◌, arith, if◌then◌else◌,
}
use arnon.Prelude.Strings.{Text}
use arnon.Middleware.RateLimit.{
  LocalLimitCounter, truncate, new_local_limit_counter, local_increment_by, local_get,
  local_limit_counter, RateLimitResult, LimitError, FloatArithmetic, weight_of, rate_of,
  check_rate_limit,
}
use arnon.Middleware.RateLimit.History.{
  Call, read, replay, count_in, count_before, InOrder, local_get-replay,
}

abbrev pub is_allowed : Result LimitError RateLimitResult → Bool
is_allowed (ok r) = r.allowed
is_allowed (err e) = false

module _ {F : Type 0} (fl : FloatArithmetic F) where
  -- The previous window's count weighted by the share of the window that is left, plus the current count and
  -- this request, in float64.
  abbrev pub estimate : List Call → Text → ℕ → ℕ → F
  estimate history key length now =
      let window = truncate now length in
      let left = fl.div (fl.of_int (length - (now - window))) (fl.of_int length) in
      fl.add
        (fl.mul_add (fl.of_int (count_before length key window history)) left
          (fl.of_int (count_in key window history)))
        (fl.of_int 1)

  -- The test of the check, with two counts.
  abbrev over_by : ℕ → ℕ → ℕ → ℕ → ℕ → Bool
  over_by limit length now current previous =
      fl.greater
        (fl.add (rate_of fl current previous (now - truncate now length) length) (fl.of_int 1))
        (fl.of_int limit)

  module _ (key : Text) (limit length now : ℕ) (c : LocalLimitCounter) where
    abbrev rolled : LocalLimitCounter
    rolled = (local_get key (truncate now length) 0 c).1

    abbrev over : Bool
    over = over_by limit length now (rolled.current_counts key) (rolled.previous_counts key)

    -- A rejected request only rolls the windows; an admitted one is recorded.
    pub check_state : (check_rate_limit fl local_limit_counter key limit length now c).1 ≡ (
        if is_allowed (check_rate_limit fl local_limit_counter key limit length now c).0
        then (local_increment_by key (truncate now length) 1 rolled).1
        else rolled)
    unfolding check_rate_limit local_get local_increment_by
    check_state = ground arith

    pub check_allowed :
        is_allowed (check_rate_limit fl local_limit_counter key limit length now c).0 ≡ not over
    unfolding check_rate_limit local_get local_increment_by
    check_allowed = ground arith

  -- The counts that the check reads are those of the history.
  pub rolled_counts :
      (start length : ℕ) (history : List Call) (key : Text) (limit now : ℕ)
      → 0 < length
      → InOrder length (truncate start length) (read key (truncate now length) ∷ history)
      → ((rolled key limit length now
              (replay (new_local_limit_counter start length) history)).current_counts
            key
          ≡ count_in key (truncate now length) history)
        × ((rolled key limit length now
                (replay (new_local_limit_counter start length) history)).previous_counts
              key
            ≡ count_before length key (truncate now length) history)
  unfolding local_get
  rolled_counts start length history key limit now pos ordered =
      let e = local_get-replay start length history key (truncate now length) 0 pos ordered in
      (cc, cc)

  -- A request is admitted exactly when its window's count, the previous window's weighted by what is left of the
  -- window, and the request itself, added up in float64, are not more than the limit. The calls before it are in order, the
  -- window's length is positive, and the request's window follows the last one.
  pub check-estimate :
      (start length limit : ℕ) (history : List Call) (key : Text) (now : ℕ)
      → 0 < length
      → InOrder length (truncate start length) (read key (truncate now length) ∷ history)
      → is_allowed
          (check_rate_limit fl local_limit_counter key limit length now
            (replay (new_local_limit_counter start length) history)).0
        ≡ not (fl.greater (estimate history key length now) (fl.of_int limit))
  unfolding rate_of weight_of
  check-estimate start length limit history key now pos ordered =
      let c = replay (new_local_limit_counter start length) history in
      let (current, previous) = rolled_counts start length history key limit now pos ordered in
      check_allowed key limit length now c
      ∙ ap
          (λ n.
            not (over_by limit length now n ((rolled key limit length now c).previous_counts key)))
          current
      ∙ ap (λ n. not (over_by limit length now (count_in key (truncate now length) history) n))
          previous
