-- ===== src/Middleware/Etag/Transparent.antt =====
-- The middleware changes no response but by its entity tag and its 304.
use arnon.Prelude.{
  ℕ, ◌≤◌, ◌<◌, ◌≡◌, refl, sym, ap, ◌∙◌, inl, inr, true, false, ◌||◌, none, some, [], ◌∷◌, ◌++◌,
  arith, ltb, leb, Bool-cases, if◌then◌else◌,
}
use arnon.Prelude.Strings.{Text}
use arnon.Http.{
  Request, Writer, fresh, get, write_header, write, Program, edit_header, send_status, send_bytes,
  run_server, finish_response,
}
use arnon.Middleware.Etag.{
  EtagResponseWriter, empty_writer, buffer_status, run_buffered, if_none_match_matches,
  buffered_status, etag_of, replay, tagged, flush, is_passed_by, etag_middleware,
}

-- The two writers have the same to show, whatever the header maps.
record Agrees (b : EtagResponseWriter) (w : Writer) : Type 0 where
  status : w.status ≡ (if b.wrote_header then some b.status_code else none)
  body : w.body ≡ b.buffer

Agrees-status :
    (code : ℕ) (b : EtagResponseWriter) (w : Writer)
    → Agrees b w
    → Agrees (buffer_status code b) (write_header code w)
unfolding buffer_status write_header
Agrees-status code b w h = ground arith

Agrees-run :
    (program : Program) (b : EtagResponseWriter) (w : Writer)
    → Agrees b w
    → Agrees (run_buffered program b) (run_server program w)
unfolding run_buffered run_server
Agrees-run [] b w h = h
Agrees-run (edit_header f ∷ rest) b w h =
    Agrees-run rest _ _ (record { status = h.status; body = h.body })
Agrees-run (send_status code ∷ rest) b w h = Agrees-run rest _ _ (Agrees-status code b w h)
Agrees-run (send_bytes chunk ∷ rest) b w h =
    let a = Agrees-status 200 b w h in
    Agrees-run rest _ _ (record { status = a.status; body = ap (λ t. t ++ chunk) a.body })

-- Without a 304, what is sent is the buffered status and body.
Agrees-finish :
    (b : EtagResponseWriter) (w : Writer)
    → Agrees b w
    → ((finish_response w).status ≡ some (buffered_status b))
      × ((finish_response w).body ≡ b.buffer)
unfolding finish_response buffered_status
Agrees-finish b w h = ground (arith, h.status, h.body)

replay_lem :
    (status : ℕ) (b : EtagResponseWriter)
    → ((replay status b fresh).status ≡ some status) × ((replay status b fresh).body ≡ b.buffer)
unfolding replay write write_header
replay_lem status b = (refl, refl)

tagged_lem :
    (status : ℕ) (etag : Text) (b : EtagResponseWriter)
    → ((write b.buffer (write_header status (tagged etag b fresh))).status ≡ some status)
      × ((write b.buffer (write_header status (tagged etag b fresh))).body ≡ b.buffer)
unfolding tagged write write_header
tagged_lem status etag b = (refl, refl)

not_modified_lem :
    (etag : Text) (b : EtagResponseWriter)
    → ((write_header 304 (tagged etag b fresh)).status ≡ some 304)
      × ((write_header 304 (tagged etag b fresh)).body ≡ [])
unfolding tagged write_header
not_modified_lem etag b = (refl, refl)

-- What a client may get for a request, against what the wrapped handler alone would have sent.
pub data Outcome (next : Request → Program) (request : Request) (w : Writer) : Type 0 where
  same_response :
      w.status ≡ (finish_response (run_server (next request) fresh)).status
      → w.body ≡ (finish_response (run_server (next request) fresh)).body
      → Outcome next request w
  not_modified :
      (status : ℕ)
      → is_passed_by request ≡ false
      → (finish_response (run_server (next request) fresh)).status ≡ some status
      → 200 ≤ status
      → status < 300
      → if_none_match_matches
          (get "If-None-Match" request.header)
          (etag_of (run_buffered (next request) empty_writer))
        ≡ true
      → w.status ≡ some 304
      → w.body ≡ []
      → Outcome next request w

flush-Outcome :
    (next : Request → Program) (request : Request)
    → is_passed_by request ≡ false
    → Outcome next request (flush (run_buffered (next request) empty_writer) request fresh)
unfolding flush
flush-Outcome next request considered =
    let b = run_buffered (next request) empty_writer in
    let direct = run_server (next request) fresh in
    let status = buffered_status b in
    let etag = etag_of b in
    let (s, t) =
      Agrees-finish b direct
        (Agrees-run (next request) empty_writer fresh (record { status = refl; body = refl })) in
    elim (Bool-cases (ltb status 200 || leb 300 status)) [
      | inl other ↦
          let (s', t') = replay_lem status b in
          rw (other, flush) (Outcome.same_response (s' ∙ sym s) (t' ∙ sym t))
      | inr success ↦
          elim (Bool-cases (if_none_match_matches (get "If-None-Match" request.header) etag)) [
            | inl known ↦
                let (s', t') = not_modified_lem etag b in
                rw (success, known, flush)
                  (Outcome.not_modified status considered s (ground arith) (ground arith) known s'
                    t')
            | inr stale ↦
                let (s', t') = tagged_lem status etag b in
                rw (success, stale, flush) (Outcome.same_response (s' ∙ sym s) (t' ∙ sym t))
          ]
    ]

finish_settled : (w : Writer) (c : ℕ) → w.status ≡ some c → finish_response w ≡ w
unfolding finish_response
finish_settled w c h = ground arith

Outcome-finish :
    (next : Request → Program) (request : Request) (w : Writer)
    → Outcome next request w
    → Outcome next request (finish_response w)
Outcome-finish next request w (same_response s t) =
    let b = run_buffered (next request) empty_writer in
    let (settled, _) =
      Agrees-finish b (run_server (next request) fresh)
        (Agrees-run (next request) empty_writer fresh (record { status = refl; body = refl })) in
    rw (finish_settled w (buffered_status b) (s ∙ settled)) (Outcome.same_response s t)
Outcome-finish next request w (not_modified status c s lo hi known s' t') =
    rw (finish_settled w 304 s') (Outcome.not_modified status c s lo hi known s' t')

-- For every handler and request, the client gets the status and the body that the handler alone
-- would have sent, or an empty 304; the latter only for a GET or HEAD with no Range whose response
-- is a 2xx and whose If-None-Match names the response's entity tag.
pub etag_middleware-Outcome :
    (next : Request → Program) (request : Request)
    → Outcome next request (finish_response (etag_middleware next request fresh))
unfolding etag_middleware
etag_middleware-Outcome next request = elim (Bool-cases (is_passed_by request)) [
  | inl passed ↦ rw (passed, etag_middleware) (Outcome.same_response refl refl)
  | inr considered ↦
      rw (considered, etag_middleware)
        (Outcome-finish next request _ (flush-Outcome next request considered))
]
