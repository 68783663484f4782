-- ===== src/Middleware/Etag/Revalidation.antt =====
-- A client that sends the entity tag back gets a 304.
use arnon.Prelude.{
  ℕ, zero, suc, ◌≤◌, ◌<◌, ◌≡◌, refl, inl, inr, true, false, ◌||◌, some, [], ◌∷◌, ◌++◌, arith, All,
  All-append, ltb, leb, ◌==◌, Bool-cases,
}
use arnon.Prelude.Strings.{
  Text, codes, is_space, same, same_refl, has_prefix, trim_prefix, trim_space, split,
}
use arnon.Prelude.Strings.Laws.{split_one, trim_space_quoted}
use arnon.Http.{
  Request, Writer, fresh, get, set_header, write_header, write, Program, finish_response,
}
use arnon.Http.Headers.{get-set_header}
use arnon.Middleware.Etag.{
  EtagResponseWriter, empty_writer, run_buffered, fnv_offset, hex_digit, hex, fnv, compute_etag,
  if_none_match_matches, copy_header, buffered_status, etag_of, tagged, flush, is_passed_by,
  etag_middleware,
}

hex_digit-ne-comma : (n : ℕ) → (hex_digit n == b',') ≡ false
unfolding hex_digit
hex_digit-ne-comma n = ground arith

hex-All : (k n : ℕ) → All (λ c. (c == b',') ≡ false) (hex k n)
unfolding hex
hex-All zero n = tt
hex-All (suc k) n = (hex_digit-ne-comma _, hex-All k n)

All-quoted : (P : ℕ → Type 0) (s : Text) (c : ℕ) → All P s → P c → All P (s ++ c ∷ [])
All-quoted P s c h p = All-append P s (c ∷ []) h (p, tt)

abbrev middle : Text → Text
middle body = hex 16 (fnv fnv_offset body)

trim_space-compute_etag : (body : Text) → trim_space (compute_etag body) ≡ compute_etag body
trim_space-compute_etag body =
    unfold compute_etag in
    trim_space_quoted b'"' (middle body) b'"' (unfold is_space in refl) (unfold is_space in refl)

split-compute_etag : (body : Text) → split b',' (compute_etag body) ≡ compute_etag body ∷ []
split-compute_etag body =
    unfold compute_etag in
    split_one b',' (b'"' ∷ (middle body ++ b'"' ∷ [])) (
      refl,
      All-quoted (λ c. (c == b',') ≡ false) (middle body) b'"' (hex-All 16 (fnv fnv_offset body))
          refl,
    )

compute_etag-nonempty : (body : Text) → same (compute_etag body) [] ≡ false
unfolding compute_etag same
compute_etag-nonempty body = refl

compute_etag-ne-star : (body : Text) → same (compute_etag body) (codes "*") ≡ false
unfolding compute_etag same
compute_etag-ne-star body = refl

trim_prefix-compute_etag :
    (body : Text) → trim_prefix (compute_etag body) (codes "W/") ≡ compute_etag body
unfolding compute_etag trim_prefix has_prefix
trim_prefix-compute_etag body = refl

-- The hash of any body is a tag that If-None-Match, set to that tag, names.
matches-compute_etag :
    (body : Text) → if_none_match_matches (compute_etag body) (compute_etag body) ≡ true
unfolding if_none_match_matches
matches-compute_etag body =
    rw
      (
        trim_space-compute_etag body,
        compute_etag-nonempty body,
        compute_etag-ne-star body,
        split-compute_etag body,
        trim_space-compute_etag body,
        trim_prefix-compute_etag body,
        same_refl (compute_etag body),
      )
      refl

-- A request as it is repeated, with If-None-Match set to a tag.
abbrev pub revalidating : Text → Request → Request
revalidating tag request = record request { header = set_header "If-None-Match" tag request.header }

-- What the middleware may send for a 2xx, with the tag that its header names.
record Tagged (tag : Text) (w : Writer) : Type 0 where
  names : get "Etag" w.sent ≡ tag
  code : ℕ
  settled : w.status ≡ some code

tagged_header :
    (etag : Text) (b : EtagResponseWriter) → get "Etag" (tagged etag b fresh).header ≡ etag
unfolding tagged
tagged_header etag b = get-set_header "Etag" "Etag" etag (copy_header [] b.header)

tagged-Tagged :
    (etag : Text) (status : ℕ) (b : EtagResponseWriter)
    → Tagged etag (write b.buffer (write_header status (tagged etag b fresh)))
unfolding tagged write write_header
tagged-Tagged etag status b = record { names = tagged_header etag b; code = status; settled = refl }

tagged_304-Tagged :
    (etag : Text) (b : EtagResponseWriter) → Tagged etag (write_header 304 (tagged etag b fresh))
unfolding tagged write_header
tagged_304-Tagged etag b = record { names = tagged_header etag b; code = 304; settled = refl }

-- A 2xx without a tag of its own.
pub record IsTaggable (b : EtagResponseWriter) : Type 0 where
  pub untagged : get "Etag" b.header ≡ []
  pub lower : 200 ≤ buffered_status b
  pub upper : buffered_status b < 300

etag_of_lem :
    (b : EtagResponseWriter) → get "Etag" b.header ≡ [] → etag_of b ≡ compute_etag b.buffer
unfolding etag_of
etag_of_lem b h = rw (h, same_refl []) refl

in_range :
    (b : EtagResponseWriter)
    → IsTaggable b
    → (ltb (buffered_status b) 200 || leb 300 (buffered_status b)) ≡ false
in_range b h = ground (arith, h.lower, h.upper)

flush-Tagged :
    (b : EtagResponseWriter) (request : Request)
    → IsTaggable b
    → Tagged (compute_etag b.buffer) (flush b request fresh)
unfolding flush
flush-Tagged b request h =
    elim (Bool-cases
      (if_none_match_matches (get "If-None-Match" request.header) (compute_etag b.buffer))) [
        | inl known ↦
            rw (in_range b h, etag_of_lem b h.untagged, known, flush) (tagged_304-Tagged _ b)
        | inr stale ↦
            rw (in_range b h, etag_of_lem b h.untagged, stale, flush) (tagged-Tagged _ _ b)
      ]

is_passed_by-revalidating :
    (tag : Text) (request : Request)
    → is_passed_by (revalidating tag request) ≡ is_passed_by request
unfolding is_passed_by
is_passed_by-revalidating tag request =
    rw (get-set_header "Range" "If-None-Match" tag request.header) refl

finish_settled : (w : Writer) (c : ℕ) → w.status ≡ some c → finish_response w ≡ w
unfolding finish_response
finish_settled w c h = ground arith

Tagged-finish : (tag : Text) (w : Writer) → Tagged tag w → Tagged tag (finish_response w)
Tagged-finish tag w h = rw (finish_settled w h.code h.settled) h

etag_middleware-Tagged :
    (next : Request → Program) (request : Request)
    → is_passed_by request ≡ false
    → IsTaggable (run_buffered (next request) empty_writer)
    → Tagged
        (compute_etag (run_buffered (next request) empty_writer).buffer)
        (finish_response (etag_middleware next request fresh))
unfolding etag_middleware
etag_middleware-Tagged next request considered h =
    rw (considered, etag_middleware) (Tagged-finish _ _ (flush-Tagged _ request h))

revalidating_lem :
    (b : EtagResponseWriter) (request : Request)
    → IsTaggable b
    → flush b (revalidating (compute_etag b.buffer) request) fresh
      ≡ write_header 304 (tagged (compute_etag b.buffer) b fresh)
unfolding flush
revalidating_lem b request h =
    let named =
      get-set_header "If-None-Match" "If-None-Match" (compute_etag b.buffer) request.header in
    rw (in_range b h, etag_of_lem b h.untagged, named, matches-compute_etag b.buffer, flush) refl

-- What a client gets for a tag that still names the response.
pub record NotModified (tag : Text) (w : Writer) : Type 0 where
  pub status : w.status ≡ some 304
  pub body : w.body ≡ []
  pub names : get "Etag" w.sent ≡ tag

NotModified-finish :
    (etag : Text) (b : EtagResponseWriter)
    → NotModified etag (finish_response (write_header 304 (tagged etag b fresh)))
unfolding finish_response write_header tagged
NotModified-finish etag b = record { status = refl; body = refl; names = tagged_header etag b }

-- Where the wrapped handler answers a GET or HEAD, with no Range, with a 2xx and no entity tag of
-- its own, and answers the repeated request in the same way, a client that repeats the request with
-- If-None-Match set to the entity tag that it got has a 304 with no body and the same tag.
pub etag_middleware-revalidates :
    (next : Request → Program) (request : Request)
    → (is_passed_by request ≡ false)
    → IsTaggable (run_buffered (next request) empty_writer)
    → ((tag : Text) → next (revalidating tag request) ≡ next request)
    → let tag = get "Etag" (finish_response (etag_middleware next request fresh)).sent in
      NotModified tag (finish_response (etag_middleware next (revalidating tag request) fresh))
unfolding etag_middleware
etag_middleware-revalidates next request considered h repeats =
    let b = run_buffered (next request) empty_writer in
    let tag = compute_etag b.buffer in
    let first = (etag_middleware-Tagged next request considered h).names in
    rw first (
      rw
        (
          repeats tag,
          is_passed_by-revalidating tag request,
          considered,
          revalidating_lem b request h,
          etag_middleware,
        )
        (NotModified-finish tag b))
