-- ===== src/Middleware/Guards/Limits.antt =====
-- What `MaxBodyBytes` promises for the body that the handler reads.
use arnon.Prelude.{
  ℕ, ◌≤◌, ◌<◌, ◌≡◌, refl, false, Bool-cases, inl, inr, Option, none, some, Result, ok, err, arith,
  length, ltb,
}
use mathlib.Core.Option.{some-injective}
use arnon.Prelude.Strings.{Text, codes}
use arnon.Http.{Request, Writer, Body, max_bytes_reader, tighter, read_within, read_all}
use arnon.Problem.{Json, Problem, status_code, new}
use arnon.Httpx.Respond.{write_problem}
use arnon.Middleware.Guards.{declares_more, limited, payload_too_large, max_body_bytes}

-- A reading of at most so many bytes.
abbrev pub Within : ℕ → Result ℕ Text → Type 0
Within max (ok bytes) = length bytes ≤ max
Within max (err limit) = Unit

abbrev pub size : Option Text → ℕ
size none = 0
size (some bytes) = length bytes

-- What the middleware makes of a request: it is turned away for the length that it declares, or, where it
-- declares no longer one, the handler
-- runs on a body that never reads as more than the limit, and reads as before where it keeps to it.
pub data Limited (encode : Json → Result Text Text) (max : ℕ)
    (next : Request → Body → Writer → Writer) (request : Request) (body : Body) (w : Writer)
    : Writer → Type 0 where
  turned_away :
      {w' : Writer} (declared : ℕ) (p : Problem)
      → body.content_length ≡ some declared
      → max < declared
      → status_code p ≡ 413
      → p.title ≡ codes "Payload Too Large"
      → w' ≡ write_problem encode p request w
      → Limited encode max next request body w w'
  passed :
      {w' : Writer} (body' : Body)
      → ((declared : ℕ) → body.content_length ≡ some declared → declared ≤ max)
      → w' ≡ next request body' w
      → Within max (read_all body')
      → (size body.content ≤ max → read_all body' ≡ read_all body)
      → Limited encode max next request body w w'

read_tighter :
    (max : ℕ) (bytes : Text) (limit : Option ℕ)
    → Within max (read_within bytes (some (tighter max limit)))
      × (length bytes ≤ max
          → read_within bytes (some (tighter max limit)) ≡ read_within bytes limit)
unfolding read_within tighter
read_tighter max bytes none = (ground arith, λ h. ground arith)
read_tighter max bytes (some earlier) = (ground arith, λ h. ground arith)

read_limited :
    (max : ℕ) (content_length : Option ℕ) (content : Option Text) (limit : Option ℕ)
    → (let body : Body = record {
      content_length = content_length;
      content = content;
      limit = limit;
    } in
        Within max (read_all (limited max body))
        × (size content ≤ max → read_all (limited max body) ≡ read_all body))
unfolding read_all limited max_bytes_reader
read_limited max content_length none limit = (ground arith, λ h. refl)
read_limited max content_length (some bytes) limit = read_tighter max bytes limit

refused :
    (max : ℕ)
    → (status_code (payload_too_large max) ≡ 413)
      × ((payload_too_large max).title ≡ codes "Payload Too Large")
unfolding payload_too_large status_code new
refused max = (refl, refl)

-- A length that is not declared to be more is at most the limit.
within_limit :
    (max declared : ℕ)
    → ltb max declared ≡ false
    → (d : ℕ) → ◌≡◌ {A = Option ℕ} (some declared) (some d)
    → d ≤ max
within_limit max declared less d e =
    let same_length : declared ≡ d = some-injective _ _ e in ground (arith, same_length)

module _ (encode : Json → Result Text Text) (max : ℕ) (next : Request → Body → Writer → Writer)
    (request : Request) (w : Writer) where
  body-Limited :
      (content_length : Option ℕ) (content : Option Text) (limit : Option ℕ)
      → (let body : Body = record {
        content_length = content_length;
        content = content;
        limit = limit;
      } in
          Limited encode max next request body w (max_body_bytes encode max next request body w))
  unfolding declares_more max_body_bytes
  body-Limited none content limit =
      let (within, same_reading) = read_limited max none content limit in
      passed _ (λ d e. absurd (cc)) refl within same_reading
  body-Limited (some declared) content limit =
      let (within, same_reading) = read_limited max (some declared) content limit in
      elim (Bool-cases (ltb max declared)) [
        | inl more ↦ rw more (
            turned_away declared (payload_too_large max) refl (ground arith) (refused max).0
              (refused max).1 refl)
        | inr less ↦ rw less (passed _ (within_limit max declared less) refl within same_reading)
      ]

-- Behind `MaxBodyBytes` a request that declares a longer body than the limit is answered with a problem of
-- the status 413, and the handler runs on no other than those that declare none that is longer; the body that it
-- runs on reads as at most so many bytes, or fails, and reads as it did before if it has no more, whatever
-- limit there was.
pub max_body_bytes-Limited :
    (encode : Json → Result Text Text) (max : ℕ) (next : Request → Body → Writer → Writer)
    (request : Request) (body : Body) (w : Writer)
    → Limited encode max next request body w (max_body_bytes encode max next request body w)
max_body_bytes-Limited encode max next request body w =
    body-Limited encode max next request w body.content_length body.content body.limit
