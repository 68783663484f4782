-- ===== src/Middleware/Chain.antt =====
-- httpx/middleware/chain.go: the recommended chain with custom middlewares at named positions. A
-- built-in middleware is named by its stage; a pointer in the configuration is modelled by whether
-- it is set. `M` is the type of the custom middlewares.
mod Anchors
pub mod Built
use arnon.Prelude.{
  ℕ, ◌≡◌, String, Bool, true, false, not, ◌&&◌, ◌||◌, Result, ok, err, List, [], ◌∷◌, ◌++◌, any,
  ltb, if◌then◌else◌, str_eq,
}

pub data Stage : Type 0 where
  recover timeout strip_slashes redirect_slashes real_ip request_id secure_headers : Stage
  rate_limit throttle etag compress cors service_desc logging : Stage

-- The `AnchorXxx` constants.
abbrev pub anchor_of : Stage → String
anchor_of recover = "recover"
anchor_of timeout = "timeout"
anchor_of strip_slashes = "strip_slashes"
anchor_of redirect_slashes = "redirect_slashes"
anchor_of real_ip = "real_ip"
anchor_of request_id = "request_id"
anchor_of secure_headers = "secure_headers"
anchor_of rate_limit = "rate_limit"
anchor_of throttle = "throttle"
anchor_of etag = "etag"
anchor_of compress = "compress"
anchor_of cors = "cors"
anchor_of service_desc = "service_desc"
anchor_of logging = "logging"

-- The stages in the order of `BuildChain`'s calls.
abbrev pub stages : List Stage
stages =
    recover ∷ timeout ∷ strip_slashes ∷ redirect_slashes ∷ real_ip ∷ request_id ∷ secure_headers
    ∷ rate_limit ∷ throttle ∷ etag ∷ compress ∷ cors ∷ service_desc ∷ logging ∷ []

pub record ExtraMiddleware (M : Type 0) : Type 0 where
  pub middleware : M
  pub before : String
  pub after : String

pub record ChainConfig (M : Type 0) : Type 0 where
  pub recover : Bool
  pub timeout : ℕ
  pub strip_slashes : Bool
  pub redirect_slashes : Bool
  pub real_ip : Bool
  pub request_id : Bool
  pub secure_headers : Bool
  pub rate_limit : Bool
  pub throttle : Bool
  pub etag : Bool
  pub compress : Bool
  pub cors : Bool
  pub service_desc_path : String
  pub logger : Bool
  pub extra : List (ExtraMiddleware M)

pub data Entry (M : Type 0) : Type 0 where
  built_in : Stage → Entry M
  custom : M → Entry M

-- The panics of `BuildChain`.
pub data ChainPanic : Type 0 where
  both_slashes no_anchor two_anchors unknown_anchor : ChainPanic

-- Membership in `validChainAnchors`.
unfoldable pub is_valid_anchor : String → Bool
is_valid_anchor name = any (λ s. str_eq name (anchor_of s)) stages

module _ {M : Type 0} where
  -- `ExtraMiddleware.anchor`
  unfoldable pub anchor : ExtraMiddleware M → String
  anchor x = if str_eq x.before "" then x.after else x.before

  unfoldable pub validate_extra_middleware : ExtraMiddleware M → Result ChainPanic (Unit {0})
  unfolding anchor
  validate_extra_middleware x =
      if str_eq x.before "" && str_eq x.after ""
      then err no_anchor
      else if not (str_eq x.before "") && not (str_eq x.after "")
      then err two_anchors
      else if is_valid_anchor (anchor x)
      then ok tt
      else err unknown_anchor

  -- The condition under which `BuildChain` enables each stage.
  unfoldable pub is_enabled : ChainConfig M → Stage → Bool
  is_enabled config recover = config.recover
  is_enabled config timeout = ltb 0 config.timeout
  is_enabled config strip_slashes = config.strip_slashes
  is_enabled config redirect_slashes = config.redirect_slashes
  is_enabled config real_ip = config.real_ip
  is_enabled config request_id = config.request_id
  is_enabled config secure_headers = config.secure_headers
  is_enabled config rate_limit = config.rate_limit
  is_enabled config throttle = config.throttle
  is_enabled config etag = config.etag
  is_enabled config compress = config.compress
  is_enabled config cors = config.cors
  is_enabled config service_desc = not (str_eq config.service_desc_path "")
  is_enabled config logging = config.logger

  -- The two loops of `appendStage` over the extra entries.
  unfoldable pub befores : String → List (ExtraMiddleware M) → List (Entry M)
  befores name [] = []
  befores name (x ∷ rest) =
      let others = befores name rest in
      if str_eq x.before name then custom x.middleware ∷ others else others

  unfoldable pub afters : String → List (ExtraMiddleware M) → List (Entry M)
  afters name [] = []
  afters name (x ∷ rest) =
      let others = afters name rest in
      if str_eq x.after name then custom x.middleware ∷ others else others

  unfoldable pub append_stage :
      List (Entry M) → String → Bool → List (ExtraMiddleware M) → Entry M → List (Entry M)
  unfolding befores afters
  append_stage chain name enabled extra built =
      chain ++ (befores name extra ++ ((if enabled then built ∷ [] else []) ++ afters name extra))

  -- The calls of `appendStage`, one for each stage.
  unfoldable pub append_stages : ChainConfig M → List Stage → List (Entry M) → List (Entry M)
  unfolding append_stage is_enabled
  append_stages config [] chain = chain
  append_stages config (s ∷ rest) chain =
      append_stages config rest
        (append_stage chain (anchor_of s) (is_enabled config s) config.extra (built_in s))

  unfoldable pub validate_all : List (ExtraMiddleware M) → Result ChainPanic (Unit {0})
  unfolding validate_extra_middleware
  validate_all [] = ok tt
  validate_all (x ∷ rest) = elim (validate_extra_middleware x) [
    | ok done ↦ validate_all rest
    | err panic ↦ err panic
  ]

  unfoldable pub build_chain : ChainConfig M → Result ChainPanic (List (Entry M))
  unfolding validate_all append_stages
  build_chain config =
      if config.strip_slashes && config.redirect_slashes
      then err both_slashes
      else elim (validate_all config.extra) [
        | ok done ↦ ok (append_stages config stages [])
        | err panic ↦ err panic
      ]
