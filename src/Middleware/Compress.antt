-- ===== src/Middleware/Compress.antt =====
-- httpx/middleware/compress.go and compress_options.go: when a response is compressed, and the writer that
-- does it. compress/gzip is a parameter: a writer's state, what each of its calls sends on, its levels.
pub mod Faithful
use arnon.Prelude.{
  ℕ, String, Bool, true, false, not, ◌&&◌, ◌||◌, Option, none, some, List, [], ◌∷◌, ◌++◌, Result,
  ok, err, any, ltb, if◌then◌else◌,
}
use arnon.Prelude.Strings.{Text, codes, same, split, cut, trim_space, to_lower}
use arnon.Http.{
  Header, Request, Writer, edit, get, set_header, add, del, write_header, write, Program,
  edit_header, send_status, send_bytes, run_server,
}
use arnon.Httpx.Accept.{Float64, quality_from}

abbrev pub default_compressible_types : List Text
default_compressible_types =
    codes "application/json"
    ∷ codes "application/problem+json"
    ∷ codes "text/html"
    ∷ codes "text/css"
    ∷ codes "text/plain"
    ∷ codes "text/javascript"
    ∷ codes "application/javascript"
    ∷ codes "application/xml"
    ∷ codes "text/xml"
    ∷ codes "image/svg+xml"
    ∷ []

-- strings.CutSuffix with "/*": the prefix where the text ends so.
unfoldable pub cut_wildcard : Text → Option Text
cut_wildcard [] = none
cut_wildcard (c ∷ s) =
    if same (c ∷ s) (codes "/*")
    then some []
    else elim (cut_wildcard s) [ none ↦ none | some prefix ↦ some (c ∷ prefix) ]

-- The two sets of `splitCompressibleTypes`
pub record CompressibleTypes : Type 0 where
  pub allowed_types : List Text
  pub allowed_wildcards : List Text

put_type : Option Text → Text → CompressibleTypes → CompressibleTypes
put_type (some prefix) content_type sets = record sets {
  allowed_wildcards = prefix ∷ sets.allowed_wildcards;
}
put_type none content_type sets = record sets { allowed_types = content_type ∷ sets.allowed_types }

unfoldable pub split_compressible_types : List Text → CompressibleTypes
unfolding put_type cut_wildcard
split_compressible_types [] = record { allowed_types = []; allowed_wildcards = [] }
split_compressible_types (content_type ∷ rest) =
    put_type (cut_wildcard content_type) content_type (split_compressible_types rest)

-- `isCompressible`
unfoldable pub is_compressible : CompressibleTypes → Header → Bool
is_compressible types header =
    let full = get "Content-Type" header in
    let content_type : Text = elim (cut b';' full) [
      | none ↦ full
      | some (before, after) ↦ before
    ] in
    if any (same content_type) types.allowed_types then true else elim (cut b'/' content_type) [
      | none ↦ false
      | some (prefix, subtype) ↦ any (same prefix) types.allowed_wildcards
    ]

-- `codingSpecificity`; `none` is its `false`.
unfoldable pub coding_specificity : Text → Option ℕ
coding_specificity coding =
    if same coding (codes "gzip") then some 1 else if same coding (codes "*") then some 0 else none

module _ {F : Type 0} (fl : Float64 F) where
  coding_of : List Text → Option (Text × F)
  coding_of [] = none
  coding_of (name ∷ parameters) =
      let coding = to_lower (trim_space name) in
      if same coding [] then none else some (coding, quality_from fl parameters fl.one_quality)

  -- `parseEncodingRange`
  unfoldable pub parse_encoding_range : Text → Option (Text × F)
  unfolding coding_of
  parse_encoding_range entry = coding_of (split b';' entry)

  -- An entry's specificity with its quality; `none` where the loop goes on.
  unfoldable pub coding_range : Text → Option (ℕ × F)
  unfolding parse_encoding_range coding_specificity
  coding_range entry = elim (parse_encoding_range entry) [
    | none ↦ none
    | some (coding, quality) ↦ elim (coding_specificity coding) [
      | none ↦ none
      | some specificity ↦ some (specificity, quality)
    ]
  ]

  -- `bestSpecificity` and `bestQuality`; `none` is the initial -1.
  unfoldable pub better : Option (ℕ × F) → Option (ℕ × F) → Option (ℕ × F)
  better best none = best
  better none (some found) = some found
  better (some best) (some found) = if ltb best.0 found.0 then some found else some best

  unfoldable pub best_coding : List Text → Option (ℕ × F) → Option (ℕ × F)
  unfolding better coding_range
  best_coding [] best = best
  best_coding (entry ∷ rest) best = best_coding rest (better best (coding_range entry))

  -- `acceptsGzip`
  unfoldable pub accepts_gzip : Text → Bool
  unfolding best_coding
  accepts_gzip accept_encoding =
      if same accept_encoding []
      then false
      else elim (best_coding (split b',' accept_encoding) none) [
        | none ↦ false
        | some (specificity, quality) ↦ fl.is_positive quality
      ]

-- `if len(types) == 0`
unfoldable pub if_none_given : List Text → List Text
if_none_given [] = default_compressible_types
if_none_given (t ∷ types) = t ∷ types

-- gzip.Writer: its state at a level, and what Write and Close send on; `none` for a level that it rejects.
pub record GzipWriter (Level G : Type 0) : Type 0 where
  pub default_compression : Level
  pub new_writer_level : Level → Option G
  pub write_gzip : Text → G → Text × G
  pub close_gzip : G → Text

pub record CompressConfig (Level : Type 0) : Type 0 where
  pub level : Level
  pub types : List Text

module _ {Level G : Type 0} (gzip : GzipWriter Level G) where
  -- The configuration before the options.
  unfoldable pub default_config : CompressConfig Level
  default_config = record { level = gzip.default_compression; types = default_compressible_types }

  -- compressResponseWriter around the server's; `compressible` is that it has a gzip.Writer.
  pub record CompressResponseWriter : Type 0 where
    pub inner : Writer
    pub gzip_writer : Option G
    pub wrote_header : Bool

  unfoldable pub gzip_header : Header → Header
  gzip_header header =
      del "Content-Length"
        (add "Vary" (codes "Accept-Encoding") (set_header "Content-Encoding" (codes "gzip") header))

  module _ (level : Level) (types : CompressibleTypes) where
    unfoldable pub begin : ℕ → Bool → Writer → CompressResponseWriter
    begin code true w = record {
      inner = write_header code (edit gzip_header w);
      gzip_writer = gzip.new_writer_level level;
      wrote_header = true;
    }
    begin code false w = record {
      inner = write_header code w;
      gzip_writer = none;
      wrote_header = true;
    }

    -- WriteHeader
    unfoldable pub compress_status : ℕ → CompressResponseWriter → CompressResponseWriter
    unfolding begin gzip_header
    compress_status code w =
        if w.wrote_header
        then record w { inner = write_header code w.inner }
        else begin code (is_compressible types w.inner.header) w.inner

    unfoldable pub pass_bytes : Text → Option G → CompressResponseWriter → CompressResponseWriter
    pass_bytes chunk none w = record w { inner = write chunk w.inner }
    pass_bytes chunk (some g) w =
        let (sent, g') = gzip.write_gzip chunk g in
        record w { inner = write sent w.inner; gzip_writer = some g' }

    -- Write; the server's writer does not fail.
    unfoldable pub compress_bytes : Text → CompressResponseWriter → CompressResponseWriter
    unfolding compress_status pass_bytes
    compress_bytes chunk w =
        let begun = if w.wrote_header then w else compress_status 200 w in
        pass_bytes chunk begun.gzip_writer begun

    unfoldable pub run_compressed : Program → CompressResponseWriter → CompressResponseWriter
    unfolding compress_bytes
    run_compressed [] w = w
    run_compressed (edit_header f ∷ rest) w =
        run_compressed rest (record w { inner = edit f w.inner })
    run_compressed (send_status code ∷ rest) w = run_compressed rest (compress_status code w)
    run_compressed (send_bytes chunk ∷ rest) w = run_compressed rest (compress_bytes chunk w)

  unfoldable pub close_with : Option G → Writer → Writer
  close_with none w = w
  close_with (some g) w = write (gzip.close_gzip g) w

  -- Close
  unfoldable pub close : CompressResponseWriter → Writer
  unfolding close_with
  close w = close_with w.gzip_writer w.inner

  unfoldable pub compress_handler :
      {F : Type 0}
      → Float64 F
      → CompressConfig Level
      → (Request → Program)
      → Request
      → Writer
      → Writer
  unfolding close run_compressed if_none_given accepts_gzip split_compressible_types
  compress_handler fl config next request w =
      let types = if_none_given config.types in
      if accepts_gzip fl (get "Accept-Encoding" request.header)
        && same (get "Range" request.header) []
      then close (
          run_compressed config.level (split_compressible_types types) (next request)
            (record { inner = w; gzip_writer = none; wrote_header = false }))
      else run_server (next request) w

  -- `Compress` on a handler, given as the program that it runs for a request; `none` is its panic.
  unfoldable pub compress :
      {F : Type 0}
      → Float64 F
      → CompressConfig Level
      → Option ((Request → Program) → Request → Writer → Writer)
  unfolding compress_handler
  compress fl config = elim (gzip.new_writer_level config.level) [
    | none ↦ none
    | some g ↦ some (compress_handler fl config)
  ]
