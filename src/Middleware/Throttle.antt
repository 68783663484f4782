-- ===== src/Middleware/Throttle.antt =====
-- httpx/middleware/throttle.go: the two channels of tokens, and the requests that pass through the
-- handler at once. A schedule chooses whose turn it is and, where a `select` waits, what it sees.
pub mod Accounting
use arnon.Prelude.{
  ℕ, ◌+◌, ◌-◌, ◌≡◌, Bool, true, false, Option, none, some, List, [], ◌∷◌, ◌++◌, ltb, ◌==◌,
  if◌then◌else◌, get_elem?, set, Result,
}
use arnon.Prelude.Strings.{Text, codes}
use arnon.Http.{Request, Writer}
use arnon.Problem.{Json}
use arnon.Problem.Kinds.{new_too_many_requests}
use arnon.Httpx.Respond.{write_problem}

pub record ThrottleConfig : Type 0 where
  pub limit : ℕ
  pub backlog_limit : ℕ

-- How many tokens the channels `active` and `backlog` hold.
pub record Channels : Type 0 where
  pub active : ℕ
  pub backlog : ℕ

-- Where a request stands in the handler: before the first `select`, after its `default`, waiting in
-- the last one, inside `next` (from the first or from the last `select`), or at an end.
pub data Phase : Type 0 where
  arriving full waiting serving serving_queued : Phase
  served throttled gone : Phase

-- What the scheduler lets a request see next: the plain course of the code, the timer, or the end
-- of the request's context.
pub data Action : Type 0 where
  proceed timer cancelled : Action

-- `case active <- struct{}{}` of the first `select`
enter : ThrottleConfig → Channels → Phase × Channels
enter cfg ch =
    if ltb ch.active cfg.limit then (serving, record ch { active = ch.active + 1 }) else (full, ch)

-- `if backlog == nil`, and the `select` on the backlog
queue : ThrottleConfig → Channels → Phase × Channels
queue cfg ch =
    if cfg.backlog_limit == 0
    then (throttled, ch)
    else if ltb ch.backlog cfg.backlog_limit
    then (waiting, record ch { backlog = ch.backlog + 1 })
    else (throttled, ch)

-- The last `select`; the deferred receive gives the backlog's token back at every end.
wait : ThrottleConfig → Action → Channels → Phase × Channels
wait cfg proceed ch =
    if ltb ch.active cfg.limit
    then (serving_queued, record ch { active = ch.active + 1 })
    else (waiting, ch)
wait cfg timer ch = (throttled, record ch { backlog = ch.backlog - 1 })
wait cfg cancelled ch = (gone, record ch { backlog = ch.backlog - 1 })

-- One move of one request. The deferred receives run when `next` returns.
unfoldable pub advance : ThrottleConfig → Action → Phase → Channels → Phase × Channels
unfolding enter queue wait
advance cfg action arriving ch = enter cfg ch
advance cfg action full ch = queue cfg ch
advance cfg action waiting ch = wait cfg action ch
advance cfg action serving ch = (served, record ch { active = ch.active - 1 })
advance cfg action serving_queued ch =
    (served, record ch { active = ch.active - 1; backlog = ch.backlog - 1 })
advance cfg action served ch = (served, ch)
advance cfg action throttled ch = (throttled, ch)
advance cfg action gone ch = (gone, ch)

-- The middleware with all requests that ever arrived.
pub record System : Type 0 where
  pub channels : Channels
  pub requests : List Phase

abbrev pub idle : System
idle = record { channels = record { active = 0; backlog = 0 }; requests = [] }

pub data Turn : Type 0 where
  arrive : Turn
  move : ℕ → Action → Turn

put : System → ℕ → Phase × Channels → System
put s i (p, ch) = record { channels = ch; requests = set s.requests i p }

unfoldable pub take_turn : ThrottleConfig → Turn → System → System
unfolding put
take_turn cfg arrive s = record s { requests = s.requests ++ arriving ∷ [] }
take_turn cfg (move i action) s = elim (get_elem? s.requests i) [
  | none ↦ s
  | some p ↦ put s i (advance cfg action p s.channels)
]

-- The latest turn is at the head.
unfoldable pub run : ThrottleConfig → List Turn → System
run cfg [] = idle
run cfg (turn ∷ earlier) = take_turn cfg turn (run cfg earlier)

-- `writeThrottled`
unfoldable pub write_throttled : (Json → Result Text Text) → Request → Writer → Writer
write_throttled encode request w =
    write_problem encode
      (new_too_many_requests (codes "the server is at capacity, try again later")) request w

-- What a request that has come to an end got, if `next` gives `answer`: nothing for a client that is gone.
unfoldable pub answered :
    (Json → Result Text Text) → Request → Writer → Writer → Phase → Option Writer
unfolding write_throttled
answered encode request w answer served = some answer
answered encode request w answer throttled = some (write_throttled encode request w)
answered encode request w answer gone = some w
answered encode request w answer arriving = none
answered encode request w answer full = none
answered encode request w answer waiting = none
answered encode request w answer serving = none
answered encode request w answer serving_queued = none
