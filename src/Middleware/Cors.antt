-- ===== src/Middleware/Cors.antt =====
-- httpx/middleware/cors.go. `fold` is the representative of a code point under Unicode's simple case
-- folding, by which strings.EqualFold compares; a MaxAge is in nanoseconds.
pub mod Origins
use arnon.Prelude.{
  ℕ, ◌/◌, String, Bool, true, false, not, ◌&&◌, ◌||◌, List, [], ◌∷◌, map, any, ltb, if◌then◌else◌,
  str_eq,
}
use arnon.Prelude.Strings.{Text, codes, same, decimal, join}
use arnon.Http.{Header, Request, Writer, Handler, edit, get, add, set_header, write_header}

pub record CorsConfig : Type 0 where
  pub allowed_origins : List Text
  pub allowed_methods : List Text
  pub allowed_headers : List Text
  pub exposed_headers : List Text
  pub allow_credentials : Bool
  pub max_age : ℕ

or_defaults : List Text → List Text → List Text
or_defaults [] defaults = defaults
or_defaults (x ∷ xs) defaults = x ∷ xs

abbrev default_methods : List Text
default_methods =
    codes "GET" ∷ codes "POST" ∷ codes "PUT" ∷ codes "PATCH" ∷ codes "DELETE" ∷ codes "OPTIONS" ∷ []

abbrev default_headers : List Text
default_headers =
    codes "Accept" ∷ codes "Authorization" ∷ codes "Content-Type" ∷ codes "Origin" ∷ []

is_filled : List Text → Bool
is_filled [] = false
is_filled (x ∷ xs) = true

-- A conditional `Set`.
unfoldable pub set_if : Bool → String → Text → Header → Header
set_if condition name value header = if condition then set_header name value header else header

-- The headers that do not depend on the request.
unfoldable pub describe : CorsConfig → Header → Header
unfolding set_if or_defaults is_filled
describe config header =
    let age = config.max_age / 1_000_000_000 in
    set_if (ltb 0 age) "Access-Control-Max-Age" (decimal age) (
      set_if (is_filled config.exposed_headers) "Access-Control-Expose-Headers"
        (join (codes ", ") config.exposed_headers)
        (set_header "Access-Control-Allow-Headers"
          (join (codes ", ") (or_defaults config.allowed_headers default_headers))
          (set_header "Access-Control-Allow-Methods"
            (join (codes ", ") (or_defaults config.allowed_methods default_methods)) header)))

-- OPTIONS with Access-Control-Request-Method
unfoldable pub is_preflight : Request → Bool
is_preflight request =
    str_eq request.method "OPTIONS"
    && not (same (get "Access-Control-Request-Method" request.header) [])

module _ (fold : ℕ → ℕ) where
  unfoldable pub is_allowed_origin : Text → List Text → Bool
  is_allowed_origin origin allowed_origins =
      any (λ allowed. same allowed (codes "*") || same (map fold allowed) (map fold origin))
        allowed_origins

  -- The test before Access-Control-Allow-Origin is set.
  unfoldable pub is_granted : CorsConfig → Request → Bool
  unfolding is_allowed_origin
  is_granted config request =
      let origin = get "Origin" request.header in
      not (same origin []) && is_allowed_origin origin config.allowed_origins

  -- Vary, and the two headers of a granted origin.
  unfoldable pub grant : CorsConfig → Request → Header → Header
  unfolding is_granted set_if
  grant config request header =
      let granted = is_granted config request in
      set_if (granted && config.allow_credentials) "Access-Control-Allow-Credentials" (codes "true")
        (set_if granted "Access-Control-Allow-Origin" (get "Origin" request.header)
          (add "Vary" (codes "Origin") header))

  -- What the middleware does to the response's header, in the order of the source.
  unfoldable pub cors_header : CorsConfig → Request → Header → Header
  unfolding grant describe
  cors_header config request header = describe config (grant config request header)

  unfoldable pub cors : CorsConfig → Handler → Handler
  unfolding cors_header is_preflight
  cors config next request w =
      let marked = edit (cors_header config request) w in
      if is_preflight request then write_header 204 marked else next request marked
