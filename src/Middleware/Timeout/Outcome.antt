-- ===== src/Middleware/Timeout/Outcome.antt =====
-- What a client may get from a handler under `Timeout`, whatever the schedule is.
use arnon.Prelude.{
  ℕ, ◌≡◌, refl, sym, ap, ◌∙◌, ◌⊎◌, inl, inr, Bool, true, false, none, some, List, [], ◌∷◌, Result,
  arith, if◌then◌else◌,
}
use mathlib.Core.Path.{subst}
use arnon.Prelude.Strings.{Text}
use arnon.Http.{
  Header, Request, Writer, fresh, write_header, write, Program, edit_header, send_status,
  send_bytes, run_server, finish_response, Ending, returns, panics,
}
use arnon.Problem.{Json}
use arnon.Httpx.Respond.{write_problem}
use arnon.Middleware.Timeout.{
  TimeoutResponseWriter, empty_writer, write_header_locked, buffer_bytes, buffer_act, buffer_all,
  maps_copy, copy_out, Signal, silent, finished, panicked, Waiter, waiting, answered, repanicked,
  Race, Event, handler_moves, context_ends, takes_panic, takes_done, takes_deadline, signal_of,
  if_waiting, timed_out, step, timeout,
}

-- The headers that a program leaves in a map of its own.
abbrev pub edited : Program → Header → Header
edited [] h = h
edited (edit_header f ∷ rest) h = edited rest (f h)
edited (send_status code ∷ rest) h = edited rest h
edited (send_bytes chunk ∷ rest) h = edited rest h

-- The buffer has what the program has sent to the server's own writer.
record Agrees (b : TimeoutResponseWriter) (w : Writer) : Type 0 where
  in_time : b.is_expired ≡ false
  status : w.status ≡ (if b.wrote_header then some b.status_code else none)
  body : w.body ≡ b.buffer

Agrees-status :
    (code : ℕ) (b : TimeoutResponseWriter) (w : Writer)
    → Agrees b w
    → Agrees (write_header_locked code b) (write_header code w)
unfolding write_header_locked write_header
Agrees-status code b w h = ground (arith, h.in_time, h.status, h.body)

Agrees-bytes :
    (chunk : Text) (b : TimeoutResponseWriter) (w : Writer)
    → Agrees b w
    → Agrees (buffer_bytes chunk b) (write chunk w)
unfolding write_header_locked write_header buffer_bytes write
Agrees-bytes chunk b w h = ground (arith, h.in_time, h.status, h.body)

Agrees-run :
    (program : Program) (b : TimeoutResponseWriter) (w : Writer)
    → Agrees b w
    → Agrees (buffer_all program b) (run_server program w)
unfolding buffer_all buffer_act run_server
Agrees-run [] b w h = h
Agrees-run (edit_header f ∷ rest) b w h =
    Agrees-run rest _ _ (record { in_time = h.in_time; status = h.status; body = h.body })
Agrees-run (send_status code ∷ rest) b w h = Agrees-run rest _ _ (Agrees-status code b w h)
Agrees-run (send_bytes chunk ∷ rest) b w h = Agrees-run rest _ _ (Agrees-bytes chunk b w h)

locked-header :
    (code : ℕ) (b : TimeoutResponseWriter) → (write_header_locked code b).header ≡ b.header
unfolding write_header_locked
locked-header code b = ground arith

bytes-header : (chunk : Text) (b : TimeoutResponseWriter) → (buffer_bytes chunk b).header ≡ b.header
unfolding buffer_bytes write_header_locked
bytes-header chunk b = ground arith

header-buffer_all :
    (program : Program) (b : TimeoutResponseWriter)
    → (buffer_all program b).header ≡ edited program b.header
unfolding buffer_all buffer_act
header-buffer_all [] b = refl
header-buffer_all (edit_header f ∷ rest) b =
    header-buffer_all rest (record b { header = f b.header })
header-buffer_all (send_status code ∷ rest) b =
    header-buffer_all rest (write_header_locked code b) ∙ ap (edited rest) (locked-header code b)
header-buffer_all (send_bytes chunk ∷ rest) b =
    header-buffer_all rest (buffer_bytes chunk b) ∙ ap (edited rest) (bytes-header chunk b)

module _ (encode : Json → Result Text Text) (request : Request) (program : Program)
    (ending : Ending) (h : Header) where
  abbrev pub untouched : Writer
  untouched = record fresh { header = h }

  -- How the middleware ends: with the whole response of a handler that returned, with the problem, or
  -- with the panic of a handler that panicked.
  pub data Outcome : Waiter → Writer → Type 0 where
    whole :
        {w : Writer}
        → ending ≡ returns
        → w.status ≡ (finish_response (run_server program fresh)).status
        → w.body ≡ (finish_response (run_server program fresh)).body
        → w.sent ≡ maps_copy h (edited program [])
        → Outcome answered w
    late : {w : Writer} → w ≡ write_problem encode timed_out request untouched → Outcome answered w
    passed_on :
        {value : Text} {w : Writer}
        → ending ≡ panics value
        → w ≡ untouched
        → Outcome (repanicked value) w

  -- What the handler's goroutine has told is true.
  data Told : Program → Signal → Type 0 where
    nothing : {rest : Program} → Told rest silent
    end : {signal : Signal} → signal ≡ signal_of ending → Told [] signal

  data Stage : Race → Type 0 where
    undecided :
        (rest : Program) (signal : Signal) (is_over : Bool) (buffered : TimeoutResponseWriter)
        → buffer_all rest buffered ≡ buffer_all program empty_writer
        → Told rest signal
        → Stage (record {
          rest = rest;
          signal = signal;
          is_over = is_over;
          buffered = buffered;
          waiter = waiting;
          writer = untouched;
        })
    settled :
        (rest : Program) (signal : Signal) (is_over : Bool) (buffered : TimeoutResponseWriter)
        {waiter : Waiter} {writer : Writer}
        → Outcome waiter writer
        → Stage (record {
          rest = rest;
          signal = signal;
          is_over = is_over;
          buffered = buffered;
          waiter = waiter;
          writer = writer;
        })

  whole_lem :
      ending ≡ returns → Outcome answered (copy_out (buffer_all program empty_writer) untouched)
  unfolding copy_out write write_header finish_response
  whole_lem e =
      let a =
        Agrees-run program empty_writer fresh
          (record { in_time = refl; status = refl; body = refl }) in
      whole e (ground (arith, a.status)) (ground (arith, a.status, a.body))
        (ap (maps_copy h) (header-buffer_all program empty_writer))

  finished_returned : (e : Ending) → finished ≡ signal_of e → e ≡ returns
  unfolding signal_of
  finished_returned returns h = refl
  finished_returned (panics value) h = absurd (cc)

  panicked_panics : (value : Text) (e : Ending) → panicked value ≡ signal_of e → e ≡ panics value
  unfolding signal_of
  panicked_panics value returns h = absurd (cc)
  panicked_panics value (panics other) h = cc

  done-Stage :
      (rest : Program) (signal : Signal) (is_over : Bool) (buffered : TimeoutResponseWriter)
      → buffer_all rest buffered ≡ buffer_all program empty_writer
      → Told rest signal
      → Stage (
          step encode request ending takes_done (record {
            rest = rest;
            signal = signal;
            is_over = is_over;
            buffered = buffered;
            waiter = waiting;
            writer = untouched;
          }))
  unfolding step buffer_all
  done-Stage rest silent is_over buffered b told = undecided rest silent is_over buffered b told
  done-Stage rest (panicked value) is_over buffered b told =
      undecided rest (panicked value) is_over buffered b told
  done-Stage (act ∷ rest) finished is_over buffered b told = elim told [ ]
  done-Stage [] finished is_over buffered b (end e) = settled [] finished is_over buffered (
      subst (λ x. Outcome answered (copy_out x untouched)) (sym b)
        (whole_lem (finished_returned ending e)))

  panic-Stage :
      (rest : Program) (signal : Signal) (is_over : Bool) (buffered : TimeoutResponseWriter)
      → buffer_all rest buffered ≡ buffer_all program empty_writer
      → Told rest signal
      → Stage (
          step encode request ending takes_panic (record {
            rest = rest;
            signal = signal;
            is_over = is_over;
            buffered = buffered;
            waiter = waiting;
            writer = untouched;
          }))
  unfolding step
  panic-Stage rest silent is_over buffered b told = undecided rest silent is_over buffered b told
  panic-Stage rest finished is_over buffered b told =
      undecided rest finished is_over buffered b told
  panic-Stage (act ∷ rest) (panicked value) is_over buffered b told = elim told [ ]
  panic-Stage [] (panicked value) is_over buffered b (end e) =
      settled [] (panicked value) is_over buffered (passed_on (panicked_panics value ending e) refl)

  if_settled :
      {waiter : Waiter} {writer : Writer} {s : Race} (s' : Race)
      → Outcome waiter writer
      → Stage s
      → Stage (if_waiting s waiter s')
  unfolding if_waiting
  if_settled s' (whole e p q r) stage = stage
  if_settled s' (late e) stage = stage
  if_settled s' (passed_on e p) stage = stage

  step-Stage : (event : Event) (s : Race) → Stage s → Stage (step encode request ending event s)
  unfolding step buffer_all
  step-Stage handler_moves s (undecided [] signal is_over buffered b told) =
      undecided [] (signal_of ending) is_over buffered b (end refl)
  step-Stage handler_moves s (undecided (act ∷ rest) signal is_over buffered b nothing) =
      undecided rest signal is_over (buffer_act act buffered) b nothing
  step-Stage handler_moves s (settled [] signal is_over buffered o) =
      settled [] (signal_of ending) is_over buffered o
  step-Stage handler_moves s (settled (act ∷ rest) signal is_over buffered o) =
      settled rest signal is_over (buffer_act act buffered) o
  step-Stage context_ends s (undecided rest signal is_over buffered b told) =
      undecided rest signal true buffered b told
  step-Stage context_ends s (settled rest signal is_over buffered o) =
      settled rest signal true buffered o
  step-Stage takes_panic s (undecided rest signal is_over buffered b told) =
      panic-Stage rest signal is_over buffered b told
  step-Stage takes_done s (undecided rest signal is_over buffered b told) =
      done-Stage rest signal is_over buffered b told
  step-Stage takes_deadline s (undecided rest signal true buffered b told) =
      settled rest signal true _ (late refl)
  step-Stage takes_deadline s (undecided rest signal false buffered b told) =
      undecided rest signal false buffered b told
  step-Stage takes_panic s (settled rest signal is_over buffered o) =
      if_settled _ o (settled rest signal is_over buffered o)
  step-Stage takes_done s (settled rest signal is_over buffered o) =
      if_settled _ o (settled rest signal is_over buffered o)
  step-Stage takes_deadline s (settled rest signal is_over buffered o) =
      if_settled _ o (settled rest signal is_over buffered o)

  timeout-Stage :
      (events : List Event) → Stage (timeout encode request program ending untouched events)
  unfolding timeout
  timeout-Stage [] = undecided program silent false empty_writer refl nothing
  timeout-Stage (event ∷ earlier) =
      step-Stage event (timeout encode request program ending untouched earlier)
        (timeout-Stage earlier)

  decided :
      (s : Race)
      → Stage s
      → ((s.waiter ≡ waiting) × (s.writer ≡ untouched)) ⊎ Outcome s.waiter s.writer
  decided s (undecided rest signal is_over buffered b told) = inl (refl, refl)
  decided s (settled rest signal is_over buffered o) = inr o

  -- Whatever the schedule, nothing is written until `Timeout` returns or panics, and then it has either sent
  -- the status and the body that the handler would have sent by itself, with its headers over those that
  -- were there, and only for a handler that returned; or written the problem 503, with nothing of the
  -- handler's; or panicked with the value of a handler that panicked, with nothing written.
  pub timeout-Outcome :
      (events : List Event)
      → (((timeout encode request program ending untouched events).waiter ≡ waiting)
          × ((timeout encode request program ending untouched events).writer ≡ untouched))
        ⊎ Outcome
            (timeout encode request program ending untouched events).waiter
            (timeout encode request program ending untouched events).writer
  timeout-Outcome events =
      decided (timeout encode request program ending untouched events) (timeout-Stage events)
