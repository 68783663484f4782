-- ===== src/Httpx/Patch.antt =====
-- httpx/patch: patch.go, format.go and response_writer.go: a PATCH made of a GET, a check, the patch and a
-- PUT. The library of patches, mime.ParseMediaType's best effort and `%q` are parameters.
pub mod Described
pub mod Lost
use arnon.Prelude.{
  ℕ, Bool, true, false, not, ◌&&◌, ◌||◌, Option, none, some, List, [], ◌∷◌, ◌++◌, Result, ok, err,
  ltb, leb, if◌then◌else◌,
}
use arnon.Prelude.Strings.{Text, codes, same}
use arnon.Http.{
  Header, Request, Writer, edit, get, set_header, write_header, write, Act, Program, edit_header,
  send_status, send_bytes, Body, read_all,
}
use arnon.Problem.{Json, Problem, new}
use arnon.Problem.Kinds.{new_bad_request}
use arnon.Httpx.Respond.{write_problem}
use arnon.Httpx.Precondition.{State, Config, check_request}

pub record BufferedResponseWriter : Type 0 where
  pub header : Header
  pub buffer : Text
  pub status_code : ℕ
  pub wrote_header : Bool

-- `newBufferedResponseWriter`
abbrev pub new_buffered : BufferedResponseWriter
new_buffered = record { header = []; buffer = []; status_code = 0; wrote_header = false }

-- WriteHeader
unfoldable pub buffer_status : ℕ → BufferedResponseWriter → BufferedResponseWriter
buffer_status code w =
    if w.wrote_header then w else record w { status_code = code; wrote_header = true }

-- Write; the buffer does not fail.
unfoldable pub buffer_bytes : Text → BufferedResponseWriter → BufferedResponseWriter
unfolding buffer_status
buffer_bytes chunk w =
    let begun = buffer_status 200 w in record begun { buffer = begun.buffer ++ chunk }

-- A handler on the buffering writer.
unfoldable pub run_buffered : Program → BufferedResponseWriter → BufferedResponseWriter
unfolding buffer_bytes
run_buffered [] w = w
run_buffered (edit_header f ∷ rest) w = run_buffered rest (record w { header = f w.header })
run_buffered (send_status code ∷ rest) w = run_buffered rest (buffer_status code w)
run_buffered (send_bytes chunk ∷ rest) w = run_buffered rest (buffer_bytes chunk w)

unfoldable pub is_success : BufferedResponseWriter → Bool
is_success w = if not w.wrote_header then true else leb 200 w.status_code && ltb w.status_code 300

unfoldable pub copy_to : BufferedResponseWriter → Writer → Writer
copy_to w destination = write w.buffer (
    write_header (if w.wrote_header then w.status_code else 200)
      (edit (λ h. h ++ w.header) destination))

-- The errors of `apply`, with what the library says.
pub data ApplyError : Type 0 where
  unsupported_content_type merge_failed decode_failed apply_failed : Text → ApplyError

pub record PatchLibrary (P : Type 0) : Type 0 where
  pub merge_patch : Text → Text → Result Text Text
  pub decode_patch : Text → Result Text P
  pub apply_operations : P → Text → Result Text Text
  pub media_type_of : Text → Text
  pub quote : Text → Text

failing : {A : Type 0} → (Text → ApplyError) → Result Text A → Result ApplyError A
failing kind (ok a) = ok a
failing kind (err message) = err (kind message)

module _ {P : Type 0} (library : PatchLibrary P) where
  json_patch : Text → Result Text P → Result ApplyError Text
  json_patch original (err message) = err (decode_failed message)
  json_patch original (ok operations) =
      failing apply_failed (library.apply_operations operations original)

  -- `apply` of format.go
  unfoldable pub apply : Text → Text → Text → Result ApplyError Text
  unfolding json_patch failing
  apply content_type original patch_body =
      let media_type = library.media_type_of content_type in
      if same media_type []
        || same media_type (codes "application/json")
        || same media_type (codes "application/merge-patch+json")
      then failing merge_failed (library.merge_patch original patch_body)
      else if same media_type (codes "application/json-patch+json")
      then json_patch original (library.decode_patch patch_body)
      else err (unsupported_content_type content_type)

  -- The error's message.
  unfoldable pub message_of : ApplyError → Text
  message_of (unsupported_content_type content_type) =
      codes "patch: unsupported patch content type: " ++ library.quote content_type
  message_of (merge_failed message) = codes "apply merge patch: " ++ message
  message_of (decode_failed message) = codes "decode json patch: " ++ message
  message_of (apply_failed message) = codes "apply json patch: " ++ message

  -- `defaultOnApplyError`
  unfoldable pub default_on_apply_error : ApplyError → Problem
  unfolding message_of
  default_on_apply_error e = new_bad_request (message_of e)

  problem_of : Option (ApplyError → Problem) → ApplyError → Problem
  unfolding default_on_apply_error
  problem_of none e = default_on_apply_error e
  problem_of (some on_apply_error) e = on_apply_error e

  -- The problem that `writeApplyError` writes.
  unfoldable pub apply_problem : Option (ApplyError → Problem) → ApplyError → Problem
  unfolding problem_of message_of
  apply_problem on_apply_error (unsupported_content_type content_type) =
      new 415 (codes "Unsupported Media Type") (message_of (unsupported_content_type content_type))
  apply_problem on_apply_error (merge_failed message) =
      problem_of on_apply_error (merge_failed message)
  apply_problem on_apply_error (decode_failed message) =
      problem_of on_apply_error (decode_failed message)
  apply_problem on_apply_error (apply_failed message) =
      problem_of on_apply_error (apply_failed message)

-- A header line that is set where there is a value.
unfoldable pub set_if_any : Text → (Header → Header) → Header → Header
set_if_any value f header = if same value [] then header else f header

-- The headers of the internal PUT.
unfoldable pub put_header : Header → Header → Header
unfolding set_if_any
put_header fetched header =
    set_if_any (get "Last-Modified" fetched)
      (set_header "If-Unmodified-Since" (get "Last-Modified" fetched))
      (set_if_any (get "Etag" fetched) (set_header "If-Match" (get "Etag" fetched))
        (set_header "Content-Type" (codes "application/json; charset=utf-8") header))

unfoldable pub put_request : Header → Request → Request
unfolding put_header
put_request fetched request = record request {
  method = "PUT";
  header = put_header fetched request.header;
}

-- `parseLastModified`; the zero time is 0.
unfoldable pub parse_last_modified : (Text → Option ℕ) → Text → ℕ
parse_last_modified parse_time header = elim (parse_time header) [ none ↦ 0 | some parsed ↦ parsed ]

unfoldable pub state_of : (Text → Option ℕ) → Header → State
unfolding parse_last_modified
state_of parse_time fetched = record {
  etag = get "Etag" fetched;
  last_modified = parse_last_modified parse_time (get "Last-Modified" fetched);
}

abbrev pub unread : Problem
unread = new_bad_request (codes "failed to read request body: http: request body too large")

abbrev pub not_required : Config
not_required = record { require = false }

module _ {P : Type 0} (library : PatchLibrary P) (encode : Json → Result Text Text)
    (parse_time : Text → Option ℕ) (on_apply_error : Option (ApplyError → Problem))
    (put : Request → Text → Writer → Writer) where
  -- The steps of the handler from the last to the first.
  unfoldable pub replace : Header → Request → Writer → Result ApplyError Text → Writer
  unfolding put_request
  replace fetched request w (err e) =
      write_problem encode (apply_problem library on_apply_error e) request w
  replace fetched request w (ok merged) = put (put_request fetched request) merged w

  unfoldable pub patch_with : BufferedResponseWriter → Request → Writer → Result ℕ Text → Writer
  unfolding replace
  patch_with fetched request w (err limit) = write_problem encode unread request w
  patch_with fetched request w (ok patch_body) =
      replace fetched.header request w
        (apply library (get "Content-Type" request.header) fetched.buffer patch_body)

  unfoldable pub checked :
      BufferedResponseWriter → Request → Body → Writer → Option Problem → Writer
  unfolding patch_with
  checked fetched request body w (some p) = write_problem encode p request w
  checked fetched request body w none = patch_with fetched request w (read_all body)

  unfoldable pub after_get : BufferedResponseWriter → Request → Body → Writer → Writer
  unfolding checked state_of is_success copy_to
  after_get fetched request body w =
      if not (is_success fetched)
      then copy_to fetched w
      else checked fetched request body w
          (check_request parse_time request (state_of parse_time fetched.header) not_required)

  -- `From`, where the GET handler runs a program for a request.
  unfoldable pub from_get_put : (Request → Program) → Request → Body → Writer → Writer
  unfolding after_get run_buffered
  from_get_put get_handler request body w =
      after_get (run_buffered (get_handler (record request { method = "GET" })) new_buffered)
        request body w
