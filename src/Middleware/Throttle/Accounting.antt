-- ===== src/Middleware/Throttle/Accounting.antt =====
-- The tokens of the channels are those of the requests that hold them.
use arnon.Prelude.{
  ℕ, zero, suc, ◌+◌, ◌≤◌, ◌≡◌, inl, inr, ◌↔◌, some, List, [], ◌∷◌, arith, Option-cases, get_elem?,
  total, total-append, total-set,
}
use arnon.Middleware.Throttle.{
  ThrottleConfig, Channels, Phase, arriving, full, waiting, serving, serving_queued, throttled,
  Action, proceed, timer, cancelled, advance, System, Turn, arrive, move, take_turn, run,
}

-- The tokens that a request holds.
abbrev pub active_tokens : Phase → ℕ
active_tokens serving = 1
active_tokens serving_queued = 1
active_tokens _ = 0

abbrev pub backlog_tokens : Phase → ℕ
backlog_tokens waiting = 1
backlog_tokens serving_queued = 1
backlog_tokens _ = 0

pub record IsAccounted (cfg : ThrottleConfig) (s : System) : Type 0 where
  pub active : s.channels.active ≡ total active_tokens s.requests
  pub backlog : s.channels.backlog ≡ total backlog_tokens s.requests
  pub within_limit : s.channels.active ≤ cfg.limit
  pub within_backlog : s.channels.backlog ≤ cfg.backlog_limit

-- A move changes each channel by what the request takes or gives back.
record IsBalanced (cfg : ThrottleConfig) (p : Phase) (ch : Channels) (q : Phase) (ch' : Channels)
    : Type 0 where
  active : ch'.active + active_tokens p ≡ ch.active + active_tokens q
  backlog : ch'.backlog + backlog_tokens p ≡ ch.backlog + backlog_tokens q
  within_limit : ch'.active ≤ cfg.limit
  within_backlog : ch'.backlog ≤ cfg.backlog_limit

advance-IsBalanced :
    (cfg : ThrottleConfig) (action : Action) (p : Phase) (ch : Channels)
    → active_tokens p ≤ ch.active
    → backlog_tokens p ≤ ch.backlog
    → ch.active ≤ cfg.limit
    → ch.backlog ≤ cfg.backlog_limit
    → IsBalanced cfg p ch (advance cfg action p ch).0 (advance cfg action p ch).1
unfolding advance
advance-IsBalanced cfg action arriving ch a b l m = ground arith
advance-IsBalanced cfg proceed waiting ch a b l m = ground arith
advance-IsBalanced cfg timer waiting ch a b l m = ground arith
advance-IsBalanced cfg cancelled waiting ch a b l m = ground arith
advance-IsBalanced cfg action _ ch a b l m = ground arith

-- A member's measure is part of the sum.
total-get :
    {A : Type 0} (f : A → ℕ) (xs : List A) (i : ℕ) {x : A}
    → get_elem? xs i ≡ some x
    → f x ≤ total f xs
total-get f [] i h = cc
total-get f (x ∷ xs) zero h = ground arith
total-get f (x ∷ xs) (suc i) h = omega (arith, total-get f xs i h)

take_turn-IsAccounted :
    (cfg : ThrottleConfig) (turn : Turn) (s : System)
    → IsAccounted cfg s
    → IsAccounted cfg (take_turn cfg turn s)
unfolding take_turn
take_turn-IsAccounted cfg arrive s h = record {
  active = omega (arith, total-append active_tokens s.requests (arriving ∷ []));
  backlog = omega (arith, total-append backlog_tokens s.requests (arriving ∷ []));
  within_limit = h.within_limit;
  within_backlog = h.within_backlog;
}
take_turn-IsAccounted cfg (move i action) s h = elim (Option-cases (get_elem? s.requests i)) [
  | inl missing ↦ rw (missing, take_turn) h
  | inr (p, found) ↦
      let q = (advance cfg action p s.channels).0 in
      let ta = total-get active_tokens s.requests i found in
      let tb = total-get backlog_tokens s.requests i found in
      let b =
        advance-IsBalanced cfg action p s.channels (omega arith) (omega arith) h.within_limit
          h.within_backlog in
      let sa = total-set active_tokens s.requests i q found in
      let sb = total-set backlog_tokens s.requests i q found in
      rw (found, take_turn)
        (record {
          active = omega arith;
          backlog = omega arith;
          within_limit = b.within_limit;
          within_backlog = b.within_backlog;
        })
]

-- Under every schedule the channels hold exactly the tokens of the requests being served and of
-- those queued, at most `Limit` of the first and `BacklogLimit` of the second.
pub run-IsAccounted : (cfg : ThrottleConfig) (turns : List Turn) → IsAccounted cfg (run cfg turns)
unfolding run
run-IsAccounted cfg [] = omega arith
run-IsAccounted cfg (turn ∷ earlier) =
    take_turn-IsAccounted cfg turn (run cfg earlier) (run-IsAccounted cfg earlier)

-- Under every schedule, a request that found every slot taken is turned away at once exactly when
-- the requests that wait, together with those that waited and are being served now, number
-- `BacklogLimit`.
pub full-throttled_iff :
    (cfg : ThrottleConfig) (turns : List Turn) (action : Action)
    → ((advance cfg action full (run cfg turns).channels).0 ≡ throttled)
      ↔ (total backlog_tokens (run cfg turns).requests ≡ cfg.backlog_limit)
full-throttled_iff cfg turns action =
    let h = run-IsAccounted cfg turns in unfold advance in (λ e. ground arith, λ e. ground arith)
