-- ===== src/Httpx/Patch/Lost.antt =====
-- A PATCH over a PUT that checks its preconditions loses no update that comes between its GET and its PUT.
use arnon.Prelude.{
  ℕ, ◌≡◌, ◌≢◌, refl, sym, ◌∙◌, false, ◌||◌, Bool-cases, inl, inr, Option, none, some, [], ◌∷◌, ◌++◌,
  Result, ok, err, arith, any, ◌==◌,
}
use arnon.Prelude.Strings.{Text, codes, same, same_iff, has_prefix, trim_space, split, is_space}
use arnon.Prelude.Strings.Laws.{split_one_any, trim_space_quoted}
use arnon.Http.{Header, Request, Writer, get, set_header, Program, Body, read_all}
use arnon.Http.Headers.{get-set_header}
use arnon.Problem.{Json, Problem}
use arnon.Problem.Kinds.{new_precondition_failed}
use arnon.Httpx.Respond.{write_problem}
use arnon.Httpx.Precondition.{
  State, Config, candidate_matches, if_match_matches, match_detail, check, check_request,
}
use arnon.Httpx.Patch.{
  BufferedResponseWriter, new_buffered, run_buffered, is_success, ApplyError, PatchLibrary,
  put_header, put_request, set_if_any, replace, patch_with, checked, after_get, from_get_put,
}

-- A strong entity tag without a comma.
abbrev pub strong_tag : Text → Text
strong_tag inner = b'"' ∷ (inner ++ b'"' ∷ [])

no_comma_quoted :
    (inner : Text)
    → any (λ c. c == b',') inner ≡ false
    → any (λ c. c == b',') (inner ++ b'"' ∷ []) ≡ false
no_comma_quoted [] h = refl
no_comma_quoted (c ∷ inner) h =
    let first : (c == b',') ≡ false = ground arith in
    let later : any (λ d. d == b',') inner ≡ false = ground arith in
    rw (first, no_comma_quoted inner later) refl

strong-split :
    (inner : Text)
    → any (λ c. c == b',') inner ≡ false
    → split b',' (strong_tag inner) ≡ strong_tag inner ∷ []
strong-split inner h = split_one_any b',' (strong_tag inner) (no_comma_quoted inner h)

strong-trim : (inner : Text) → trim_space (strong_tag inner) ≡ strong_tag inner
strong-trim inner =
    trim_space_quoted b'"' inner b'"' (unfold is_space in refl) (unfold is_space in refl)

differs : (s t : Text) → t ≢ s → same s t ≡ false
differs s t h = elim (Bool-cases (same s t)) [
  | inl e ↦ absurd (h (sym ((same_iff s t).0 e)))
  | inr e ↦ e
]

other-candidate :
    (inner current : Text)
    → current ≢ strong_tag inner
    → candidate_matches current (strong_tag inner) ≡ false
unfolding has_prefix
other-candidate inner current other =
    rw (strong-trim inner, differs (strong_tag inner) current other) refl

-- If-Match with a strong tag is not satisfied by another tag.
other-tag :
    (inner current : Text)
    → any (λ c. c == b',') inner ≡ false
    → current ≢ strong_tag inner
    → if_match_matches (strong_tag inner) current ≡ false
unfolding if_match_matches
other-tag inner current h other =
    let star : same (strong_tag inner) (codes "*") ≡ false = unfold same in refl in
    let candidate : any (candidate_matches current) (strong_tag inner ∷ []) ≡ false =
      rw (other-candidate inner current other) refl in
    elim (Bool-cases (same current [] || has_prefix current (codes "W/"))) [
      | inl weak ↦ rw (if_match_matches, star, weak) refl
      | inr strong ↦ rw (if_match_matches, star, strong, strong-split inner h) candidate
    ]

module _ (encode : Json → Result Text Text) (parse_time : Text → Option ℕ) (current : State)
    (config : Config) where
  -- A PUT that checks its request against the resource's state, and then stores the body.
  unfoldable pub guarded : (Text → Writer → Writer) → Request → Text → Writer → Writer
  guarded store request body w = elim (check_request parse_time request current config) [
    | some p ↦ write_problem encode p request w
    | none ↦ store body w
  ]

  -- A PUT that turns everything away.
  unfoldable pub refusing : Request → Text → Writer → Writer
  refusing request body w = write_problem encode (new_precondition_failed match_detail) request w

  if_match-put :
      (fetched : Header) (request : Request)
      → same (get "Etag" fetched) [] ≡ false
      → get "If-Match" (put_request fetched request).header ≡ get "Etag" fetched
  unfolding put_request put_header set_if_any
  if_match-put fetched request filled =
      let tag = get "Etag" fetched in
      let since = get "Last-Modified" fetched in
      let typed : Header =
        set_header "Content-Type" (codes "application/json; charset=utf-8") request.header in
      let matched : get "If-Match" (set_header "If-Match" tag typed) ≡ tag =
        get-set_header "If-Match" "If-Match" tag typed in
      elim (Bool-cases (same since [])) [
        | inl never ↦ rw (never, filled) matched
        | inr dated ↦
            rw (dated, filled)
              (get-set_header "If-Match" "If-Unmodified-Since" since
                  (set_header "If-Match" tag typed)
                ∙ matched)
      ]

  check-other :
      (inner : Text) (request : Request)
      → get "If-Match" request.header ≡ strong_tag inner
      → any (λ c. c == b',') inner ≡ false
      → current.etag ≢ strong_tag inner
      → check_request parse_time request current config
        ≡ some (new_precondition_failed match_detail)
  unfolding check_request check
  check-other inner request e h other =
      let filled : same (strong_tag inner) [] ≡ false = unfold same in refl in
      rw (e, strong-trim inner, filled, other-tag inner current.etag h other) refl

  module _ {P : Type 0} (library : PatchLibrary P) (on_apply_error : Option (ApplyError → Problem))
      (put put' : Request → Text → Writer → Writer) (fetched : BufferedResponseWriter)
      (request : Request) (w : Writer)
      (alike : (merged : Text)
        → put (put_request fetched.header request) merged w
          ≡ put' (put_request fetched.header request) merged w) where
    replace_alike :
        (r : Result ApplyError Text)
        → replace library encode parse_time on_apply_error put fetched.header request w r
          ≡ replace library encode parse_time on_apply_error put' fetched.header request w r
    unfolding replace
    replace_alike (ok merged) = alike merged
    replace_alike (err e) = refl

    patch_alike :
        (r : Result ℕ Text)
        → patch_with library encode parse_time on_apply_error put fetched request w r
          ≡ patch_with library encode parse_time on_apply_error put' fetched request w r
    unfolding patch_with
    patch_alike (ok patch_body) = replace_alike _
    patch_alike (err e) = refl

    checked_alike :
        (body : Body) (o : Option Problem)
        → checked library encode parse_time on_apply_error put fetched request body w o
          ≡ checked library encode parse_time on_apply_error put' fetched request body w o
    unfolding checked
    checked_alike body (some p) = refl
    checked_alike body none = patch_alike (read_all body)

    after_get_alike :
        (body : Body)
        → after_get library encode parse_time on_apply_error put fetched request body w
          ≡ after_get library encode parse_time on_apply_error put' fetched request body w
    unfolding after_get
    after_get_alike body = elim (Bool-cases (is_success fetched)) [
      | inl fine ↦ rw fine (checked_alike body _)
      | inr failed ↦ rw failed refl
    ]

  -- Where the GET shows a strong entity tag without a comma, and the resource has another one when the PUT
  -- checks its request against it, the PATCH does what it would with a PUT that turns everything away
  -- with a 412: nothing is stored, whatever the client sent and whatever the patch is.
  pub from_get_put-keeps :
      {P : Type 0} (library : PatchLibrary P) (on_apply_error : Option (ApplyError → Problem))
      (store : Text → Writer → Writer) (get_handler : Request → Program) (request : Request)
      (body : Body) (w : Writer) (inner : Text)
      → get "Etag"
          (run_buffered (get_handler (record request { method = "GET" })) new_buffered).header
        ≡ strong_tag inner
      → any (λ c. c == b',') inner ≡ false
      → current.etag ≢ strong_tag inner
      → from_get_put library encode parse_time on_apply_error
          (guarded store)
          get_handler
          request
          body
          w
        ≡ from_get_put library encode parse_time on_apply_error refusing get_handler request body w
  unfolding from_get_put guarded refusing
  from_get_put-keeps library on_apply_error store get_handler request body w inner tag h other =
      let fetched = run_buffered (get_handler (record request { method = "GET" })) new_buffered in
      let filled : same (get "Etag" fetched.header) [] ≡ false = rw tag (unfold same in refl) in
      let refused =
        check-other inner (put_request fetched.header request)
          (if_match-put fetched.header request filled ∙ tag) h other in
      after_get_alike library on_apply_error (guarded store) refusing fetched request w
        (λ merged. rw (guarded, refused) refl) body
