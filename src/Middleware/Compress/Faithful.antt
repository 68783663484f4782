-- ===== src/Middleware/Compress/Faithful.antt =====
-- A compressed response is the handler's own, to a client that undoes its encoding.
use arnon.Prelude.{ℕ, ◌≡◌, true, false, Option, none, some, List, [], ◌∷◌, ◌++◌}
use arnon.Prelude.Strings.{Text, same}
use arnon.Http.{Header, Request, Writer, fresh, get}
use arnon.Httpx.Accept.{Float64}
use arnon.Middleware.Compress.{
  CompressibleTypes, split_compressible_types, is_compressible, accepts_gzip, GzipWriter,
  CompressResponseWriter, gzip_header,
}

module _ {Level G : Type 0} (gzip : GzipWriter Level G) where
  -- A gzip.Writer after some calls of Write, the latest first, and what they have sent on.
  abbrev pub after : G → List Text → G
  after g [] = g
  after g (chunk ∷ past) = (gzip.write_gzip chunk (after g past)).1

  abbrev pub sent_on : G → List Text → Text
  sent_on g [] = []
  sent_on g (chunk ∷ past) = sent_on g past ++ (gzip.write_gzip chunk (after g past)).0

  abbrev pub written : List Text → Text
  written [] = []
  written (chunk ∷ past) = written past ++ chunk

  -- What RFC 1952 promises: the stream of all calls and of Close decompresses to what was written.
  abbrev pub Decompresses : (Text → Option Text) → Type 0
  Decompresses gunzip =
      (level : Level) (g : G) (past : List Text)
      → gzip.new_writer_level level ≡ some g
      → gunzip (sent_on g past ++ gzip.close_gzip (after g past)) ≡ some (written past)

  module _ (level : Level) (types : CompressibleTypes) (g : G) where
    -- What the handler's writer holds, against the server's own writer under the same calls.
    data Agrees : CompressResponseWriter gzip → Writer → Type 0 where
      unbegun :
          (h : Header)
          → Agrees
              (record {
                inner = record fresh { header = h };
                gzip_writer = none;
                wrote_header = false;
              })
              (record fresh { header = h })
      as_is :
          (h h' sent : Header) (code : ℕ) (body : Text)
          → Agrees
              (record {
                inner = record { header = h; status = some code; sent = sent; body = body };
                gzip_writer = none;
                wrote_header = true;
              })
              (record { header = h'; status = some code; sent = sent; body = body })
      packed :
          (h h' sent : Header) (code : ℕ) (past : List Text)
          → is_compressible types sent ≡ true
          → Agrees
              (record {
                inner = record {
                  header = h;
                  status = some code;
                  sent = gzip_header gzip sent;
                  body = sent_on g past;
                };
                gzip_writer = some (after g past);
                wrote_header = true;
              })
              (record { header = h'; status = some code; sent = sent; body = written past })

-- What is sent under the middleware, against what the handler alone would have sent.
pub data Delivered {Level G : Type 0} (gzip : GzipWriter Level G) (gunzip : Text → Option Text)
    (types : List Text) (packing : Type 0) (plain : Writer) : Writer → Type 0 where
  as_it_was :
      {w : Writer}
      → w.status ≡ plain.status
      → w.sent ≡ plain.sent
      → w.body ≡ plain.body
      → Delivered gzip gunzip types packing plain w
  compressed :
      {w : Writer}
      → packing
      → is_compressible (split_compressible_types types) plain.sent ≡ true
      → w.status ≡ plain.status
      → w.sent ≡ gzip_header gzip plain.sent
      → gunzip w.body ≡ some plain.body
      → Delivered gzip gunzip types packing plain w

-- The conditions under which the writer is put in.
abbrev pub Packs : {F : Type 0} → Float64 F → Request → Type 0
Packs fl request =
    (accepts_gzip fl (get "Accept-Encoding" request.header) ≡ true)
    × (same (get "Range" request.header) [] ≡ true)
