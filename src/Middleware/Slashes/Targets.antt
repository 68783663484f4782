-- ===== src/Middleware/Slashes/Targets.antt =====
-- Where the two middlewares send a request with a trailing slash.
use arnon.Prelude.{ℕ, ◌≡◌, refl, ap, ◌∙◌, some, [], ◌∷◌, ◌++◌}
use arnon.Prelude.Strings.{Text}
use arnon.Http.{Request, Writer, Handler}
use arnon.Middleware.Slashes.{
  prepend, before_slash, trimmed_path, stripped, strip_slashes, redirected, redirect_slashes,
}

before_slash-append : (s : Text) → before_slash (s ++ b'/' ∷ []) ≡ some s
unfolding before_slash
before_slash-append [] = refl
before_slash-append (c ∷ []) = refl
before_slash-append (c ∷ d ∷ s) = ap (prepend c) (before_slash-append (d ∷ s))

trimmed_path-append : (c : ℕ) (s : Text) → trimmed_path ((c ∷ s) ++ b'/' ∷ []) ≡ some (c ∷ s)
unfolding trimmed_path
trimmed_path-append c [] = before_slash-append (c ∷ [])
trimmed_path-append c (d ∷ s) = before_slash-append (c ∷ d ∷ s)

-- A request whose path is another one with a slash behind it is handled by `StripSlashes` as a request
-- for that other path, and is redirected to that other path by `RedirectSlashes`.
pub slashes_agree :
    (redirect : Text → ℕ → Handler) (next : Handler) (request : Request) (w : Writer)
    → (c : ℕ) (path : Text) → request.path ≡ (c ∷ path) ++ b'/' ∷ []
    → (strip_slashes next request w ≡ next (record request { path = c ∷ path }) w)
      × (redirect_slashes redirect next request w ≡ redirect (c ∷ path) 308 request w)
unfolding strip_slashes redirect_slashes
slashes_agree redirect next request w c path h =
    let target : trimmed_path request.path ≡ some (c ∷ path) =
      ap trimmed_path h ∙ trimmed_path-append c path in
    (
      ap (λ t. next (stripped t request) w) target,
      ap (λ t. redirected redirect next t request w) target,
    )

-- A path that begins with two slashes keeps them in the target of the redirect, so that a client that
-- asks for "//host/" is sent to the path "//host".
pub redirect_slashes-host :
    (redirect : Text → ℕ → Handler) (next : Handler) (request : Request) (w : Writer) (host : Text)
    → request.path ≡ (b'/' ∷ b'/' ∷ host) ++ b'/' ∷ []
    → redirect_slashes redirect next request w ≡ redirect (b'/' ∷ b'/' ∷ host) 308 request w
redirect_slashes-host redirect next request w host h =
    (slashes_agree redirect next request w b'/' (b'/' ∷ host) h).1
