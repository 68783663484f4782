-- ===== src/Http.antt =====
-- What the program uses of net/http: header maps, requests, and the response writer of a server.
pub mod Headers
use arnon.Prelude.{
  ℕ, String, ◌≡◌, refl, Option, none, some, List, [], ◌∷◌, ◌++◌, arith, length, ltb, Result, ok,
  err, if◌then◌else◌, str_eq, eq_iff,
}
use arnon.Prelude.Strings.{Text}

-- http.Header: the lines in the order of addition, under canonical names.
abbrev pub Header : Type 0
Header = List (String × Text)

-- Header.Get: the first value, "" where there is none
unfoldable pub get : String → Header → Text
get name [] = []
get name ((n, value) ∷ rest) = if str_eq n name then value else get name rest

-- Header.Values
unfoldable pub values : String → Header → List Text
values name [] = []
values name ((n, value) ∷ rest) =
    let others = values name rest in if str_eq n name then value ∷ others else others

-- Header.Del
unfoldable pub del : String → Header → Header
del name [] = []
del name ((n, value) ∷ rest) =
    let others = del name rest in if str_eq n name then others else (n, value) ∷ others

-- Header.Add
unfoldable pub add : String → Text → Header → Header
add name value header = header ++ (name, value) ∷ []

-- Header.Set
unfoldable pub set_header : String → Text → Header → Header
unfolding del
set_header name value header = (name, value) ∷ del name header

-- The values that the middlewares put into the request's context.
pub record Context : Type 0 where
  pub real_ip : Text
  pub request_id : Text

pub record Request : Type 0 where
  pub method : String
  pub path : Text
  pub header : Header
  pub remote_addr : Text
  pub context : Context

-- The server's http.ResponseWriter: the header map that a handler edits, and what went out.
pub record Writer : Type 0 where
  pub header : Header
  pub status : Option ℕ
  pub sent : Header
  pub body : Text

abbrev pub fresh : Writer
fresh = record { header = []; status = none; sent = []; body = [] }

abbrev pub edit : (Header → Header) → Writer → Writer
edit f w = record w { header = f w.header }

commit : Option ℕ → ℕ → Writer → Writer
commit none code w = record w { status = some code; sent = w.header }
commit (some earlier) code w = w

-- WriteHeader for a final status: the first call sends the header, a later one does nothing.
unfoldable pub write_header : ℕ → Writer → Writer
unfolding commit
write_header code w = commit w.status code w

-- Write: sends the header with status 200 where nothing was sent.
unfoldable pub write : Text → Writer → Writer
unfolding write_header
write chunk w = let begun = write_header 200 w in record begun { body = begun.body ++ chunk }

-- An http.Handler runs on a request and drives the writer.
abbrev pub Handler : Type 0
Handler = Request → Writer → Writer

-- What a handler does to whichever http.ResponseWriter it is given, step by step.
pub data Act : Type 0 where
  edit_header : (Header → Header) → Act
  send_status : ℕ → Act
  send_bytes : Text → Act

abbrev pub Program : Type 0
Program = List Act

-- A program on the server's own writer.
unfoldable pub run_server : Program → Writer → Writer
unfolding write_header write
run_server [] w = w
run_server (edit_header f ∷ rest) w = run_server rest (edit f w)
run_server (send_status code ∷ rest) w = run_server rest (write_header code w)
run_server (send_bytes chunk ∷ rest) w = run_server rest (write chunk w)

-- The server sends a header with status 200 for a handler that returned without sending one.
unfoldable pub finish_response : Writer → Writer
unfolding write_header
finish_response w = write_header 200 w

-- How a handler ends, behind the steps of its program: a panic's value is a text.
pub data Ending : Type 0 where
  returns : Ending
  panics : Text → Ending

-- A request's body: its declared length (`none` is -1), its bytes (`none` is a nil Body), and the limit that
-- http.MaxBytesReader puts on reading it.
pub record Body : Type 0 where
  pub content_length : Option ℕ
  pub content : Option Text
  pub limit : Option ℕ

unfoldable pub tighter : ℕ → Option ℕ → ℕ
tighter max none = max
tighter max (some earlier) = if ltb max earlier then max else earlier

-- http.MaxBytesReader
unfoldable pub max_bytes_reader : ℕ → Body → Body
unfolding tighter
max_bytes_reader max body = record body { limit = some (tighter max body.limit) }

unfoldable pub read_within : Text → Option ℕ → Result ℕ Text
read_within bytes none = ok bytes
read_within bytes (some limit) = if ltb limit (length bytes) then err limit else ok bytes

-- io.ReadAll: http.MaxBytesError with its limit, where there is more.
unfoldable pub read_all : Body → Result ℕ Text
unfolding read_within
read_all body = elim body.content [ none ↦ ok [] | some bytes ↦ read_within bytes body.limit ]
