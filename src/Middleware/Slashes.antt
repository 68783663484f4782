-- ===== src/Middleware/Slashes.antt =====
-- httpx/middleware/stripslashes.go and redirectslashes.go. A request's URL is its path: the rest of
-- the URL is passed on as it is. http.Redirect, with the rest of the URL, is the parameter `redirect`.
pub mod Targets
use arnon.Prelude.{
  ℕ, Bool, true, false, Option, none, some, List, [], ◌∷◌, ◌++◌, ◌==◌, if◌then◌else◌,
}
use arnon.Prelude.Strings.{Text}
use arnon.Http.{Request, Writer, Handler}

prepend : ℕ → Option Text → Option Text
prepend c none = none
prepend c (some s) = some (c ∷ s)

-- The path without its last slash, if it ends in one.
unfoldable pub before_slash : Text → Option Text
unfolding prepend
before_slash [] = none
before_slash (c ∷ []) = if c == b'/' then some [] else none
before_slash (c ∷ d ∷ s) = prepend c (before_slash (d ∷ s))

-- The path that both middlewares aim at; `none` where they leave the request alone.
unfoldable pub trimmed_path : Text → Option Text
unfolding before_slash
trimmed_path [] = none
trimmed_path (c ∷ []) = none
trimmed_path (c ∷ d ∷ s) = before_slash (c ∷ d ∷ s)

stripped : Option Text → Request → Request
stripped none request = request
stripped (some path) request = record request { path = path }

unfoldable pub strip_slashes : Handler → Handler
unfolding trimmed_path stripped
strip_slashes next request w = next (stripped (trimmed_path request.path) request) w

redirected : (Text → ℕ → Handler) → Handler → Option Text → Handler
redirected redirect next none request w = next request w
redirected redirect next (some path) request w = redirect path 308 request w

unfoldable pub redirect_slashes : (Text → ℕ → Handler) → Handler → Handler
unfolding trimmed_path redirected
redirect_slashes redirect next request w =
    redirected redirect next (trimmed_path request.path) request w
