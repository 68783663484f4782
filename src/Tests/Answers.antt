-- ===== src/Tests/Answers.antt =====
-- Runs of the middlewares around a handler's response or its body, and of the binding of requests.
use arnon.Prelude.{
  ℕ, String, ◌≡◌, refl, ◌⊎◌, Bool, true, false, not, Option, none, some, Result, ok, List, [], ◌∷◌,
  ◌++◌, ltb, ◌==◌, arith, if◌then◌else◌, str_eq,
}
use arnon.Prelude.Strings.{Text, codes, same, is_space, join}
use arnon.Http.{
  Request, Writer, fresh, Program, edit_header, set_header, del, write_header, write, send_status,
  send_bytes, run_server, returns, panics, Body,
}
use arnon.Problem.{Json}
use arnon.Httpx.Accept.{Float64}
use arnon.Middleware.Timeout.{
  waiting, Event, handler_moves, context_ends, takes_done, takes_deadline, timeout,
}
use arnon.Middleware.Timeout.Outcome.{untouched, Outcome, timeout-Outcome}
use arnon.Middleware.Compress.{GzipWriter, CompressConfig, default_config}
use arnon.Middleware.Recover.{recover}
use arnon.Middleware.Recover.Answered.{recover-panic}
use arnon.Middleware.Guards.{max_body_bytes}
use arnon.Middleware.Guards.Limits.{Limited, max_body_bytes-Limited}
use arnon.Httpx.Binding.{int_slot, strings_slot, Dto, Inputs, Parsers, header_values}
use arnon.Httpx.Binding.Lists.{IsWord, header_values-lines}

abbrev visit : Request
visit = record {
  method = "GET";
  path = codes "/report";
  header = ("Accept-Encoding", codes "gzip") ∷ [];
  remote_addr = codes "10.0.0.7:5000";
  context = record { real_ip = []; request_id = [] };
}

abbrev encode_nothing : Json → Result Text Text
encode_nothing value = ok []

-- A handler that sends a text in two writes.
abbrev report : Program
report =
    edit_header (set_header "Content-Type" (codes "text/plain; charset=utf-8"))
    ∷ send_status 201
    ∷ send_bytes (codes "ab")
    ∷ send_bytes (codes "c")
    ∷ []

-- The deadline comes while the handler is still writing, which goes on afterwards.
abbrev too_late : List Event
too_late =
    takes_done ∷ handler_moves ∷ takes_deadline ∷ context_ends ∷ handler_moves ∷ handler_moves ∷ []

timeout-Outcome_example :
    (((timeout encode_nothing visit report returns
          (untouched encode_nothing visit report returns [])
          too_late).waiter
        ≡ waiting)
      × ((timeout encode_nothing visit report returns
            (untouched encode_nothing visit report returns [])
            too_late).writer
          ≡ untouched encode_nothing visit report returns []))
    ⊎ Outcome encode_nothing visit report returns []
        (timeout encode_nothing visit report returns
          (untouched encode_nothing visit report returns [])
          too_late).waiter
        (timeout encode_nothing visit report returns
          (untouched encode_nothing visit report returns [])
          too_late).writer
timeout-Outcome_example = timeout-Outcome encode_nothing visit report returns [] too_late

-- A compression that only puts a byte in front.
abbrev stored : GzipWriter ℕ Bool
stored = record {
  default_compression = 6;
  new_writer_level = λ level. if ltb level 10 then some false else none;
  write_gzip = λ chunk begun. (if begun then chunk else 31 ∷ chunk, true);
  close_gzip = λ begun. if begun then [] else 31 ∷ [];
}

abbrev unstored : Text → Option Text
unstored [] = none
unstored (c ∷ s) = some s

abbrev two_qualities : Float64 Bool
two_qualities = record {
  zero_quality = false;
  one_quality = true;
  is_positive = λ q. q;
  parse_float = λ t. some (not (same t (codes "0")));
}

abbrev default_level : CompressConfig ℕ
default_level = default_config stored

recover-panic_example :
    ((recover encode_nothing (λ r. report) (λ r. panics (codes "nil map")) visit fresh).status
      ≡ some 201)
    × ((recover encode_nothing (λ r. report) (λ r. panics (codes "nil map")) visit fresh).sent
        ≡ (run_server report fresh).sent)
    × ((recover encode_nothing (λ r. report) (λ r. panics (codes "nil map")) visit fresh).body
        ≡ (run_server report fresh).body ++ [])
unfolding run_server write write_header set_header del
recover-panic_example =
    recover-panic encode_nothing (λ r. report) (λ r. panics (codes "nil map")) visit fresh
      (codes "nil map") [] refl refl

abbrev upload : Body
upload = record { content_length = none; content = some (codes "abcdef"); limit = none }

abbrev ignore_body : Request → Body → Writer → Writer
ignore_body request body w = w

max_body_bytes-Limited_example :
    Limited encode_nothing 4 ignore_body visit upload fresh
      (max_body_bytes encode_nothing 4 ignore_body visit upload fresh)
max_body_bytes-Limited_example =
    max_body_bytes-Limited encode_nothing 4 ignore_body visit upload fresh

-- Struct tags by key.
tag_for : String → String → String → Text
tag_for source name key = if str_eq key source then codes name else []

abbrev only_ones : Parsers ℕ
only_ones = record {
  atoi = λ t. if same t (codes "1") then some 1 else none;
  parse_bool = λ t. if same t (codes "true") then some true else none;
}

abbrev inputs : Inputs
inputs = record {
  path_value = λ tag. if same tag (codes "id") then codes "x7" else [];
  query_values = λ tag. if same tag (codes "page") then codes "1" ∷ [] else [];
  header_lines = λ tag. if same tag (codes "X-Tags") then codes "a, b" ∷ codes "c" ∷ [] else [];
}

abbrev dto : Dto ℕ
dto =
    record { name = codes "ID"; tag = tag_for "path" "id"; slot = int_slot 0 }
    ∷ record { name = codes "Page"; tag = tag_for "query" "page"; slot = int_slot 0 }
    ∷ record { name = codes "Tags"; tag = tag_for "header" "X-Tags"; slot = strings_slot [] }
    ∷ []

a-IsWord : (c : ℕ) → is_space c ≡ false → (c == b',') ≡ false → IsWord (c ∷ [])
unfolding same
a-IsWord c h k = record {
  no_space = ground (arith, h);
  no_comma = ground (arith, k);
  not_blank = refl;
}

header_values-lines_example :
    header_values (codes "a, b" ∷ codes "c" ∷ []) ≡ codes "a" ∷ codes "b" ∷ codes "c" ∷ []
unfolding join is_space
header_values-lines_example =
    header_values-lines ((codes "a" ∷ codes "b" ∷ []) ∷ (codes "c" ∷ []) ∷ []) (
      (a-IsWord b'a' refl refl, (a-IsWord b'b' refl refl, tt)),
      ((a-IsWord b'c' refl refl, tt), tt),
    )
