-- ===== src/Middleware/Cors/Origins.antt =====
-- Which origins the middleware grants access to, and what it does with a preflight.
use arnon.Prelude.{
  ℕ, ◌≡◌, refl, ap, ◌∙◌, String, Bool, true, false, ◌&&◌, Bool-cases, inl, inr, List, [], ◌∷◌, ◌++◌,
  arith, any, if◌then◌else◌, str_eq,
}
use arnon.Prelude.Strings.{Text, codes, same, same_refl}
use arnon.Http.{Header, Request, get, values, add}
use arnon.Http.Headers.{get-set_header, values-set_header, values-append}
use arnon.Middleware.Cors.{CorsConfig, set_if, is_granted, describe, grant, cors_header}

get-set_if :
    (name other : String) (condition : Bool) (value : Text) (h : Header)
    → get name (set_if condition other value h)
      ≡ (if condition && str_eq other name then value else get name h)
unfolding set_if
get-set_if name other true value h = get-set_header name other value h
get-set_if name other false value h = refl

values-set_if :
    (name other : String) (condition : Bool) (value : Text) (h : Header)
    → str_eq other name ≡ false
    → values name (set_if condition other value h) ≡ values name h
unfolding set_if
values-set_if name other true value h e = values-set_header name other value h ∙ rw e refl
values-set_if name other false value h e = refl

any-last : (xs : List Text) (x : Text) → any (same x) (xs ++ x ∷ []) ≡ true
any-last [] x = rw (same_refl x) refl
any-last (y ∷ xs) x = ground (arith, any-last xs x)

-- The headers that do not depend on the request leave the others alone.
record IsApart (name : String) : Type 0 where
  age : str_eq "Access-Control-Max-Age" name ≡ false
  exposed : str_eq "Access-Control-Expose-Headers" name ≡ false
  headers : str_eq "Access-Control-Allow-Headers" name ≡ false
  methods : str_eq "Access-Control-Allow-Methods" name ≡ false

get-other :
    (name other : String) (condition : Bool) (value : Text) (h : Header)
    → str_eq other name ≡ false
    → get name (set_if condition other value h) ≡ get name h
unfolding set_if
get-other name other true value h e = get-set_header name other value h ∙ rw e refl
get-other name other false value h e = refl

get-describe :
    (name : String) (config : CorsConfig) (h : Header)
    → IsApart name
    → get name (describe config h) ≡ get name h
unfolding describe
get-describe name config h a =
    get-other name _ _ _ _ a.age
    ∙ get-other name _ _ _ _ a.exposed
    ∙ get-other name _ true _ _ a.headers
    ∙ get-other name _ true _ _ a.methods

values-describe :
    (name : String) (config : CorsConfig) (h : Header)
    → IsApart name
    → values name (describe config h) ≡ values name h
unfolding describe
values-describe name config h a =
    values-set_if name _ _ _ _ a.age
    ∙ values-set_if name _ _ _ _ a.exposed
    ∙ values-set_if name _ true _ _ a.headers
    ∙ values-set_if name _ true _ _ a.methods

get-add :
    (name other : String) (value : Text) (h : Header)
    → str_eq other name ≡ false
    → get name (add other value h) ≡ get name h
unfolding get add
get-add name other value [] e = rw e refl
get-add name other value ((n, v) ∷ h) e = ground (arith, get-add name other value h e)

-- What a browser reads of the response's header.
pub record IsMarked (granted credentials : Bool) (origin : Text) (h : Header) (marked : Header)
    : Type 0 where
  pub origin_sent :
      get "Access-Control-Allow-Origin" marked
      ≡ (if granted then origin else get "Access-Control-Allow-Origin" h)
  pub credentials_sent :
      get "Access-Control-Allow-Credentials" marked
      ≡ (if granted && credentials then codes "true" else get "Access-Control-Allow-Credentials" h)
  pub varies : any (same (codes "Origin")) (values "Vary" marked) ≡ true

origin_read :
    (b : Bool) (o : Text) (h : Header)
    → (if b && true then o else get "Access-Control-Allow-Origin" (add "Vary" (codes "Origin") h))
      ≡ (if b then o else get "Access-Control-Allow-Origin" h)
origin_read true o h = refl
origin_read false o h = get-add "Access-Control-Allow-Origin" "Vary" (codes "Origin") h refl

credentials_read :
    (g c : Bool) (o : Text) (h : Header)
    → (if (g && c) && true
        then codes "true"
        else get "Access-Control-Allow-Credentials"
            (set_if g "Access-Control-Allow-Origin" o (add "Vary" (codes "Origin") h)))
      ≡ (if g && c then codes "true" else get "Access-Control-Allow-Credentials" h)
credentials_read g c o h =
    let name : String = "Access-Control-Allow-Credentials" in
    let plain =
      get-other name "Access-Control-Allow-Origin" g o (add "Vary" (codes "Origin") h) refl
      ∙ get-add name "Vary" (codes "Origin") h refl in
    elim (Bool-cases (g && c)) [ inl k ↦ rw k refl | inr k ↦ rw k plain ]

granted_lem :
    (config : CorsConfig) (g c : Bool) (o : Text) (h : Header)
    → IsMarked g c o h (
        describe config (
          set_if
            (g && c)
            "Access-Control-Allow-Credentials"
            (codes "true")
            (set_if g "Access-Control-Allow-Origin" o (add "Vary" (codes "Origin") h))))
unfolding add values
granted_lem config g c o h =
    let varied = add "Vary" (codes "Origin") h in
    let named = set_if g "Access-Control-Allow-Origin" o varied in
    let full = set_if (g && c) "Access-Control-Allow-Credentials" (codes "true") named in
    record {
      origin_sent =
          get-describe "Access-Control-Allow-Origin" config full
            (record { age = refl; exposed = refl; headers = refl; methods = refl })
          ∙ get-other "Access-Control-Allow-Origin" "Access-Control-Allow-Credentials" (g && c)
              (codes "true") named refl
          ∙ get-set_if "Access-Control-Allow-Origin" "Access-Control-Allow-Origin" g o varied
          ∙ origin_read g o h;
      credentials_sent =
          get-describe "Access-Control-Allow-Credentials" config full
            (record { age = refl; exposed = refl; headers = refl; methods = refl })
          ∙ get-set_if "Access-Control-Allow-Credentials" "Access-Control-Allow-Credentials"
              (g && c) (codes "true") named
          ∙ credentials_read g c o h;
      varies =
          ap (any (same (codes "Origin"))) (
            values-describe "Vary" config full
              (record { age = refl; exposed = refl; headers = refl; methods = refl })
            ∙ values-set_if "Vary" "Access-Control-Allow-Credentials" (g && c) (codes "true") named
                refl
            ∙ values-set_if "Vary" "Access-Control-Allow-Origin" g o varied refl
            ∙ values-append "Vary" h (("Vary", codes "Origin") ∷ []))
          ∙ any-last (values "Vary" h) (codes "Origin");
    }

module _ (fold : ℕ → ℕ) where
  -- The middleware names the request's origin as allowed exactly where the configuration grants it, and
  -- credentials only together with it; it leaves the two headers alone otherwise, and the response
  -- always varies by Origin.
  pub cors_header-IsMarked :
      (config : CorsConfig) (request : Request) (h : Header)
      → IsMarked
          (is_granted fold config request)
          config.allow_credentials
          (get "Origin" request.header)
          h
          (cors_header fold config request h)
  unfolding cors_header grant
  cors_header-IsMarked config request h =
      granted_lem config (is_granted fold config request) config.allow_credentials
        (get "Origin" request.header) h
