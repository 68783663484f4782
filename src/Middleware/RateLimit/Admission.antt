-- ===== src/Middleware/RateLimit/Admission.antt =====
-- A whole run of requests through `checkRateLimit` and the in-memory counter: how many are admitted.
use arnon.Prelude.{
  ℕ, ◌+◌, ◌≤◌, ◌<◌, ◌≡◌, refl, sym, ◌∙◌, Bool, true, false, not, ◌-◌, ◌&&◌, List, [], ◌∷◌, arith,
  ◌==◌, ==_iff, Bool-cases, inl, inr, if◌then◌else◌,
}
use arnon.Prelude.Strings.{Text, same, same_iff}
use arnon.Middleware.RateLimit.{
  FloatArithmetic, LocalLimitCounter, truncate, new_local_limit_counter, local_limit_counter,
  check_rate_limit,
}
use arnon.Middleware.RateLimit.History.{
  Call, increment, read, replay, count_in, count_before, latest, InOrder, truncate-Follows,
}
use arnon.Middleware.RateLimit.Window.{is_allowed, check_state, check-estimate}

refuted : (b : Bool) → not b ≡ true → b ≡ false
refuted true h = absurd (cc)
refuted false h = refl

pub record Arrival : Type 0 where
  pub key : Text
  pub now : ℕ

-- What the check relies on of float64, with x at least an integer as a relation: a product of counts and a
-- share is not negative, so adding it to a count gives no less than the count; one more is no less than the next integer;
-- and a number that is not above an integer is at least none above that. Integers are exact below 2^53.
pub record IsFloat64 {F : Type 0} (fl : FloatArithmetic F) : Type 1 where
  pub AtLeast : ℕ → F → Type 0
  pub weighted :
      (n left length c : ℕ)
      → left ≤ length
      → 0 < length
      → c < 9_007_199_254_740_992
      → AtLeast c
          (fl.mul_add (fl.of_int n) (fl.div (fl.of_int left) (fl.of_int length)) (fl.of_int c))
  pub one_more :
      (c : ℕ) (x : F)
      → c < 9_007_199_254_740_992
      → AtLeast c x
      → AtLeast (c + 1) (fl.add x (fl.of_int 1))
  pub not_greater :
      (c limit : ℕ) (x : F)
      → c ≤ 9_007_199_254_740_992
      → limit < 9_007_199_254_740_992
      → AtLeast c x
      → fl.greater x (fl.of_int limit) ≡ false
      → c ≤ limit

-- The latest arrival is at the head.
module _ {F : Type 0} (fl : FloatArithmetic F) (limit length start : ℕ) where
  unfoldable pub served : List Arrival → LocalLimitCounter
  served [] = new_local_limit_counter start length
  served (a ∷ earlier) =
      (check_rate_limit fl local_limit_counter a.key limit length a.now (served earlier)).1

  abbrev pub passes : Arrival → List Arrival → Bool
  passes a earlier =
      is_allowed
        (check_rate_limit fl local_limit_counter a.key limit length a.now (served earlier)).0

  -- How many requests of a key were admitted in a window.
  unfoldable pub admitted : Text → ℕ → List Arrival → ℕ
  admitted key window [] = 0
  admitted key window (a ∷ earlier) =
      let rest = admitted key window earlier in
      if passes a earlier && (same a.key key && truncate a.now length == window)
      then rest + 1
      else rest

  -- The calls of the counter that the checks make.
  calls : List Arrival → List Call
  calls [] = []
  calls (a ∷ earlier) =
      let rest = read a.key (truncate a.now length) ∷ calls earlier in
      if passes a earlier then increment a.key (truncate a.now length) 1 ∷ rest else rest

  -- Arrivals in the order of their instants, none before the start.
  abbrev pub Chronological : List Arrival → Type 0
  Chronological [] = Unit
  Chronological (a ∷ []) = (start ≤ a.now) × Unit
  Chronological (a ∷ b ∷ earlier) = (b.now ≤ a.now) × Chronological (b ∷ earlier)

  served-replay :
      (arrivals : List Arrival)
      → served arrivals ≡ replay (new_local_limit_counter start length) (calls arrivals)
  unfolding served calls replay
  served-replay [] = refl
  served-replay (a ∷ earlier) =
      ground
        (arith, served-replay earlier, check_state fl a.key limit length a.now (served earlier))

  admitted-calls :
      (key : Text) (window : ℕ) (arrivals : List Arrival)
      → admitted key window arrivals ≡ count_in key window (calls arrivals)
  unfolding admitted calls count_in
  admitted-calls key window [] = refl
  admitted-calls key window (a ∷ earlier) = ground (arith, admitted-calls key window earlier)

  calls-latest :
      (a : Arrival) (earlier : List Arrival)
      → latest (truncate start length) (calls (a ∷ earlier)) ≡ truncate a.now length
  unfolding calls
  calls-latest a earlier = ground arith

  calls-InOrder :
      (arrivals : List Arrival)
      → 0 < length
      → Chronological arrivals
      → InOrder length (truncate start length) (calls arrivals)
  unfolding calls
  calls-InOrder [] pos h = tt
  calls-InOrder (a ∷ []) pos (le, h) = elim (Bool-cases (passes a [])) [
    | inl p ↦ rw p (inl refl, (truncate-Follows start a.now length pos le, tt))
    | inr p ↦ rw p (truncate-Follows start a.now length pos le, tt)
  ]
  calls-InOrder (a ∷ b ∷ earlier) pos (le, h) =
      let f = truncate-Follows b.now a.now length pos le in
      let ih = calls-InOrder (b ∷ earlier) pos h in
      let before = rw (← calls-latest b earlier) at f in
      elim (Bool-cases (passes a (b ∷ earlier))) [
        | inl p ↦ rw p (inl refl, (before, ih))
        | inr p ↦ rw p (before, ih)
      ]

  read-InOrder :
      (a : Arrival) (earlier : List Arrival)
      → 0 < length
      → Chronological (a ∷ earlier)
      → InOrder length (truncate start length) (read a.key (truncate a.now length) ∷ calls earlier)
  unfolding calls
  read-InOrder a earlier pos h =
      let ordered = calls-InOrder (a ∷ earlier) pos h in
      elim (Bool-cases (passes a earlier)) [ inl p ↦ (rw p at ordered).1 | inr p ↦ rw p at ordered ]

  Chronological-tail :
      (a : Arrival) (earlier : List Arrival) → Chronological (a ∷ earlier) → Chronological earlier
  Chronological-tail a [] h = tt
  Chronological-tail a (b ∷ earlier) h = h.1

  -- A request that passes leaves room for itself in its window.
  passes-room :
      IsFloat64 fl
      → limit < 9_007_199_254_740_992
      → (a : Arrival) (earlier : List Arrival) → 0 < length
      → Chronological (a ∷ earlier)
      → count_in a.key (truncate a.now length) (calls earlier) ≤ limit
      → passes a earlier ≡ true
      → count_in a.key (truncate a.now length) (calls earlier) + 1 ≤ limit
  passes-room float small a earlier pos h before p =
      let e =
        check-estimate fl start length limit (calls earlier) a.key a.now pos
          (read-InOrder a earlier pos h) in
      let within = sym e ∙ (rw (served-replay earlier) at p) in
      let window = truncate a.now length in
      let current = count_in a.key window (calls earlier) in
      let at_least = float.one_more current _ (omega arith) (
        float.weighted (count_before length a.key window (calls earlier))
          (length - (a.now - window)) length current (omega arith) pos (omega arith)) in
      float.not_greater (current + 1) limit _ (omega arith) small at_least (refuted _ within)

  count_in-calls-le-limit :
      IsFloat64 fl
      → limit < 9_007_199_254_740_992
      → (arrivals : List Arrival) (key : Text) (window : ℕ) → 0 < length
      → Chronological arrivals
      → count_in key window (calls arrivals) ≤ limit
  unfolding calls count_in
  count_in-calls-le-limit float small [] key window pos h = omega arith
  count_in-calls-le-limit float small (a ∷ earlier) key window pos h =
      let ih =
        count_in-calls-le-limit float small earlier key window pos
          (Chronological-tail a earlier h) in
      elim (Bool-cases (passes a earlier && (same a.key key && truncate a.now length == window))) [
        | inl new ↦
            let before =
              count_in-calls-le-limit float small earlier a.key (truncate a.now length) pos
                (Chronological-tail a earlier h) in
            let room = passes-room float small a earlier pos h before (ground arith) in
            let k : a.key ≡ key = (same_iff a.key key).0 (ground arith) in
            let w : truncate a.now length ≡ window = (==_iff _ _).0 (ground arith) in
            ground (arith, (rw (k, w) at room))
        | inr old ↦ ground arith
      ]

-- Of the requests of one client, no more than the limit are admitted in one window, whatever the
-- mix of clients. Arrivals are in the order of time, the window's length is positive,
-- the arithmetic of float64 is as `IsFloat64` says, and the limit is
-- below 2^53, as from there on float64 does not tell a count from the next.
pub admitted-le-limit :
    {F : Type 0} (fl : FloatArithmetic F) (limit length start : ℕ) (arrivals : List Arrival)
    (key : Text) (window : ℕ)
    → IsFloat64 fl
    → limit < 9_007_199_254_740_992
    → 0 < length
    → Chronological fl limit length start arrivals
    → admitted fl limit length start key window arrivals ≤ limit
admitted-le-limit fl limit length start arrivals key window float small pos h =
    rw (admitted-calls fl limit length start key window arrivals)
      (count_in-calls-le-limit fl limit length start float small arrivals key window pos h)
