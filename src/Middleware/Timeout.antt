-- ===== src/Middleware/Timeout.antt =====
-- httpx/middleware/timeout.go: the race of a handler's goroutine with the end of the request's context.
-- A schedule says who moves next.
pub mod Outcome
use arnon.Prelude.{
  ℕ, String, Bool, true, false, not, ◌&&◌, ◌||◌, Option, none, some, List, [], ◌∷◌, ◌++◌, Result,
  any, if◌then◌else◌, str_eq,
}
use arnon.Prelude.Strings.{Text, codes}
use arnon.Http.{
  Header, Request, Writer, edit, write_header, write, Act, Program, edit_header, send_status,
  send_bytes, Ending, returns, panics,
}
use arnon.Problem.{Json, Problem}
use arnon.Problem.Kinds.{new_service_unavailable}
use arnon.Httpx.Respond.{write_problem}

pub record TimeoutResponseWriter : Type 0 where
  pub header : Header
  pub buffer : Text
  pub status_code : ℕ
  pub wrote_header : Bool
  pub is_expired : Bool

abbrev pub empty_writer : TimeoutResponseWriter
empty_writer = record {
  header = [];
  buffer = [];
  status_code = 0;
  wrote_header = false;
  is_expired = false;
}

-- `writeHeaderLocked`, and `WriteHeader` around it: `err` is http.ErrHandlerTimeout or nil.
unfoldable pub write_header_locked : ℕ → TimeoutResponseWriter → TimeoutResponseWriter
write_header_locked code w =
    if w.is_expired || w.wrote_header
    then w
    else record w { status_code = code; wrote_header = true }

-- `Write`; the buffer does not fail.
unfoldable pub buffer_bytes : Text → TimeoutResponseWriter → TimeoutResponseWriter
unfolding write_header_locked
buffer_bytes chunk w =
    let begun = if w.wrote_header then w else write_header_locked 200 w in
    if w.is_expired then w else record begun { buffer = begun.buffer ++ chunk }

unfoldable pub buffer_act : Act → TimeoutResponseWriter → TimeoutResponseWriter
unfolding write_header_locked buffer_bytes
buffer_act (edit_header f) w = record w { header = f w.header }
buffer_act (send_status code) w = write_header_locked code w
buffer_act (send_bytes chunk) w = buffer_bytes chunk w

unfoldable pub buffer_all : Program → TimeoutResponseWriter → TimeoutResponseWriter
unfolding buffer_act
buffer_all [] w = w
buffer_all (act ∷ rest) w = buffer_all rest (buffer_act act w)

-- maps.Copy: the names of the source replace those of the destination.
without_names : Header → Header → Header
without_names src [] = []
without_names src ((name, value) ∷ dst) =
    let rest = without_names src dst in
    if any (λ line. str_eq line.0 name) src then rest else (name, value) ∷ rest

unfoldable pub maps_copy : Header → Header → Header
unfolding without_names
maps_copy dst src = without_names src dst ++ src

-- `case <-done`
unfoldable pub copy_out : TimeoutResponseWriter → Writer → Writer
unfolding maps_copy
copy_out buffered w = write buffered.buffer (
    write_header (if buffered.wrote_header then buffered.status_code else 200)
      (edit (λ h. maps_copy h buffered.header) w))

-- What the handler's goroutine has told: nothing yet, `done` closed, or a value in `panicChan`.
pub data Signal : Type 0 where
  silent finished : Signal
  panicked : Text → Signal

-- Where the middleware stands: in its `select`, returned, or panicking again.
pub data Waiter : Type 0 where
  waiting answered : Waiter
  repanicked : Text → Waiter

pub record Race : Type 0 where
  pub rest : Program
  pub signal : Signal
  pub is_over : Bool
  pub buffered : TimeoutResponseWriter
  pub waiter : Waiter
  pub writer : Writer

-- The handler takes its next step, the context ends (by its deadline or from outside), or the `select`
-- takes one of its cases, if that is ready.
pub data Event : Type 0 where
  handler_moves context_ends takes_panic takes_done takes_deadline : Event

unfoldable pub signal_of : Ending → Signal
signal_of returns = finished
signal_of (panics value) = panicked value

abbrev pub timed_out : Problem
timed_out = new_service_unavailable (codes "the request took too long to process")

start : Program → Writer → Race
start program w = record {
  rest = program;
  signal = silent;
  is_over = false;
  buffered = empty_writer;
  waiter = waiting;
  writer = w;
}

move_handler : Ending → Race → Program → Race
unfolding signal_of
move_handler ending s [] = record s { signal = signal_of ending }
move_handler ending s (act ∷ rest) = record s { rest = rest; buffered = buffer_act act s.buffered }

take_panic : Race → Signal → Race
take_panic s (panicked value) = record s { waiter = repanicked value }
take_panic s silent = s
take_panic s finished = s

take_done : Race → Signal → Race
take_done s finished = record s { waiter = answered; writer = copy_out s.buffered s.writer }
take_done s silent = s
take_done s (panicked value) = s

unfoldable pub if_waiting : Race → Waiter → Race → Race
if_waiting s waiting s' = s'
if_waiting s answered s' = s
if_waiting s (repanicked value) s' = s

module _ (encode : Json → Result Text Text) (request : Request) where
  take_deadline : Race → Race
  take_deadline s =
      if s.is_over
      then record s {
        buffered = record s.buffered { is_expired = true };
        waiter = answered;
        writer = write_problem encode timed_out request s.writer;
      }
      else s

  unfoldable pub step : Ending → Event → Race → Race
  unfolding move_handler take_panic take_done take_deadline if_waiting
  step ending handler_moves s = move_handler ending s s.rest
  step ending context_ends s = record s { is_over = true }
  step ending takes_panic s = if_waiting s s.waiter (take_panic s s.signal)
  step ending takes_done s = if_waiting s s.waiter (take_done s s.signal)
  step ending takes_deadline s = if_waiting s s.waiter (take_deadline s)

  -- `Timeout` on a handler that runs a program and ends; the latest event is at the head.
  unfoldable pub timeout : Program → Ending → Writer → List Event → Race
  unfolding step start
  timeout program ending w [] = start program w
  timeout program ending w (event ∷ earlier) = step ending event (timeout program ending w earlier)
