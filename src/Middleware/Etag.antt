-- ===== src/Middleware/Etag.antt =====
-- httpx/middleware/etag.go: the buffered response, its entity tag, and the answer 304. Bodies are
-- lists of bytes.
pub mod Transparent
pub mod Revalidation
use Prim.Native.Nat.{bit_xor}
use arnon.Prelude.{
  ℕ, zero, suc, ◌+◌, ◌-◌, ◌*◌, ◌/◌, ◌%◌, ◌^◌, String, Bool, true, false, not, ◌&&◌, ◌||◌, Option,
  none, some, List, [], ◌∷◌, ◌++◌, any, ltb, leb, ◌==◌, if◌then◌else◌, str_eq,
}
use arnon.Prelude.Strings.{Text, codes, same, trim_prefix, trim_space, split}
use arnon.Http.{
  Header, Request, Writer, edit, get, set_header, write_header, write, Program, edit_header,
  send_status, send_bytes, run_server,
}

pub record EtagResponseWriter : Type 0 where
  pub header : Header
  pub buffer : Text
  pub status_code : ℕ
  pub wrote_header : Bool

abbrev pub empty_writer : EtagResponseWriter
empty_writer = record { header = []; buffer = []; status_code = 0; wrote_header = false }

-- WriteHeader
unfoldable pub buffer_status : ℕ → EtagResponseWriter → EtagResponseWriter
buffer_status code w =
    if w.wrote_header then w else record w { status_code = code; wrote_header = true }

-- Write; the buffer does not fail.
unfoldable pub buffer_bytes : Text → EtagResponseWriter → EtagResponseWriter
unfolding buffer_status
buffer_bytes chunk w =
    let begun = buffer_status 200 w in record begun { buffer = begun.buffer ++ chunk }

-- The wrapped handler on the buffering writer.
unfoldable pub run_buffered : Program → EtagResponseWriter → EtagResponseWriter
unfolding buffer_bytes
run_buffered [] w = w
run_buffered (edit_header f ∷ rest) w = run_buffered rest (record w { header = f w.header })
run_buffered (send_status code ∷ rest) w = run_buffered rest (buffer_status code w)
run_buffered (send_bytes chunk ∷ rest) w = run_buffered rest (buffer_bytes chunk w)

abbrev fnv_offset : ℕ
fnv_offset = 14695981039346656037

abbrev fnv_prime : ℕ
fnv_prime = 1099511628211

-- The 64-bit FNV-1a hash of hash/fnv.
unfoldable pub fnv : ℕ → Text → ℕ
fnv h [] = h
fnv h (b ∷ rest) = fnv (bit_xor h b * fnv_prime % 2 ^ 64) rest

-- One digit of hex.EncodeToString.
unfoldable pub hex_digit : ℕ → ℕ
hex_digit n = if ltb n 10 then b'0' + n else b'a' + (n - 10)

-- The last `k` hexadecimal digits of a number, the first one first: for 16 of them, the hash's
-- bytes in big-endian order as `hasher.Sum` gives them.
unfoldable pub hex : ℕ → ℕ → Text
unfolding hex_digit
hex zero n = []
hex (suc k) n = hex_digit (n / 16 ^ k % 16) ∷ hex k n

unfoldable pub compute_etag : Text → Text
unfolding fnv hex
compute_etag body = b'"' ∷ (hex 16 (fnv fnv_offset body) ++ b'"' ∷ [])

-- `ifNoneMatchMatches`
unfoldable pub if_none_match_matches : Text → Text → Bool
if_none_match_matches header etag =
    let trimmed = trim_space header in
    if same trimmed []
    then false
    else if same trimmed (codes "*")
    then true
    else any
        (λ candidate.
          same (trim_prefix (trim_space candidate) (codes "W/")) (trim_prefix etag (codes "W/")))
        (split b',' trimmed)

-- `copyHeader`: each value is added under its name.
unfoldable pub copy_header : Header → Header → Header
copy_header dst src = dst ++ src

replay : ℕ → EtagResponseWriter → Writer → Writer
unfolding copy_header
replay status w destination =
    write w.buffer (write_header status (edit (λ h. copy_header h w.header) destination))

-- The status that the buffered response has.
unfoldable pub buffered_status : EtagResponseWriter → ℕ
buffered_status w = if w.wrote_header then w.status_code else 200

-- The entity tag of a 2xx response: the handler's own, or the hash of the body.
unfoldable pub etag_of : EtagResponseWriter → Text
unfolding compute_etag
etag_of w = if same (get "Etag" w.header) [] then compute_etag w.buffer else get "Etag" w.header

tagged : Text → EtagResponseWriter → Writer → Writer
unfolding copy_header
tagged etag w destination = edit (λ h. set_header "Etag" etag (copy_header h w.header)) destination

unfoldable pub flush : EtagResponseWriter → Request → Writer → Writer
unfolding replay buffered_status etag_of tagged
flush w request destination =
    let status = buffered_status w in
    let etag = etag_of w in
    if ltb status 200 || leb 300 status
    then replay status w destination
    else if if_none_match_matches (get "If-None-Match" request.header) etag
    then write_header 304 (tagged etag w destination)
    else write w.buffer (write_header status (tagged etag w destination))

-- The conditions under which the middleware steps aside.
unfoldable pub is_passed_by : Request → Bool
is_passed_by request =
    (not (str_eq request.method "GET") && not (str_eq request.method "HEAD"))
    || not (same (get "Range" request.header) [])

-- `ETag` around a handler, given as the program that it runs for a request.
unfoldable pub etag_middleware : (Request → Program) → Request → Writer → Writer
unfolding is_passed_by flush run_buffered
etag_middleware next request w =
    if is_passed_by request
    then run_server (next request) w
    else flush (run_buffered (next request) empty_writer) request w
