-- ===== src/Middleware/Chain/Built.antt =====
-- What `BuildChain` returns.
use arnon.Prelude.{
  ℕ, ◌+◌, ◌≡◌, refl, sym, ap, ◌∙◌, inl, inr, String, true, false, ◌&&◌, ok, List, [], ◌∷◌, ◌++◌,
  arith, All, total, total-append, if◌then◌else◌, str_eq, eq_iff, Bool-cases, Result-cases,
}
use mathlib.Core.List.{append_assoc, append-nil}
use arnon.Middleware.Chain.{
  Stage, recover, timeout, strip_slashes, redirect_slashes, real_ip, request_id, secure_headers,
  rate_limit, throttle, etag, compress, cors, service_desc, logging, anchor_of, stages,
  ExtraMiddleware, ChainConfig, Entry, built_in, custom, is_valid_anchor, validate_extra_middleware,
  is_enabled, befores, afters, append_stage, append_stages, validate_all, build_chain,
}
use arnon.Middleware.Chain.Anchors.{
  weight, weights, weights_before, weights_after, valid-stage, is_valid_anchor-anchor_of,
  total-zero, total-add,
}

-- The order that the documentation of `BuildChain` recommends.
abbrev pub recommended : List Stage
recommended =
    recover ∷ timeout ∷ strip_slashes ∷ redirect_slashes ∷ real_ip ∷ request_id ∷ secure_headers
    ∷ rate_limit ∷ throttle ∷ etag ∷ compress ∷ cors ∷ service_desc ∷ logging ∷ []

stages-recommended : stages ≡ recommended
stages-recommended = refl

module _ {M : Type 0} where
  -- The built-in stages of a chain, in its order.
  abbrev pub built_ins : List (Entry M) → List Stage
  built_ins [] = []
  built_ins (built_in s ∷ rest) = s ∷ built_ins rest
  built_ins (custom m ∷ rest) = built_ins rest

  -- The custom middlewares of a chain.
  abbrev pub customs : List (Entry M) → List M
  customs [] = []
  customs (built_in s ∷ rest) = customs rest
  customs (custom m ∷ rest) = m ∷ customs rest

  abbrev pub enabled_stages : ChainConfig M → List Stage → List Stage
  enabled_stages config [] = []
  enabled_stages config (s ∷ rest) =
      if is_enabled config s then s ∷ enabled_stages config rest else enabled_stages config rest

  built_ins-append : (c d : List (Entry M)) → built_ins (c ++ d) ≡ built_ins c ++ built_ins d
  built_ins-append [] d = refl
  built_ins-append (built_in s ∷ c) d = ap (λ l. s ∷ l) (built_ins-append c d)
  built_ins-append (custom m ∷ c) d = built_ins-append c d

  built_ins-befores :
      (name : String) (extra : List (ExtraMiddleware M)) → built_ins (befores name extra) ≡ []
  unfolding befores
  built_ins-befores name [] = refl
  built_ins-befores name (x ∷ rest) = ground (arith, built_ins-befores name rest)

  built_ins-afters :
      (name : String) (extra : List (ExtraMiddleware M)) → built_ins (afters name extra) ≡ []
  unfolding afters
  built_ins-afters name [] = refl
  built_ins-afters name (x ∷ rest) = ground (arith, built_ins-afters name rest)

  built_ins-append_stage :
      (config : ChainConfig M) (s : Stage) (chain : List (Entry M))
      → built_ins (append_stage chain (anchor_of s) (is_enabled config s) config.extra (built_in s))
        ≡ built_ins chain ++ enabled_stages config (s ∷ [])
  unfolding append_stage
  built_ins-append_stage config s chain =
      simp (built_ins-append, built_ins-befores, built_ins-afters) (ground arith)

  built_ins-append_stages :
      (config : ChainConfig M) (ss : List Stage) (chain : List (Entry M))
      → built_ins (append_stages config ss chain) ≡ built_ins chain ++ enabled_stages config ss
  unfolding append_stages
  built_ins-append_stages config [] chain = sym (append-nil _)
  built_ins-append_stages config (s ∷ rest) chain =
      built_ins-append_stages config rest _
      ∙ ap (λ l. l ++ enabled_stages config rest) (built_ins-append_stage config s chain)
      ∙ append_assoc (built_ins chain) (enabled_stages config (s ∷ [])) (enabled_stages config rest)
      ∙ ap (λ l. built_ins chain ++ l) (ground arith)

  -- An entry with one anchor, which names a stage.
  pub data IsAnchored (x : ExtraMiddleware M) : Type 0 where
    before : (s : Stage) → x.before ≡ anchor_of s → x.after ≡ "" → IsAnchored x
    after : (s : Stage) → x.before ≡ "" → x.after ≡ anchor_of s → IsAnchored x

  validate-IsAnchored : (x : ExtraMiddleware M) → validate_extra_middleware x ≡ ok tt → IsAnchored x
  unfolding validate_extra_middleware
  validate-IsAnchored x h = elim (Bool-cases (str_eq x.before "")) [
    | inl b ↦
        let no_before : x.before ≡ "" = (eq_iff x.before "").0 b in
        let valid : is_valid_anchor x.after ≡ true = ground arith in
        let (s, e) = valid-stage x.after valid in IsAnchored.after s no_before e
    | inr b ↦
        let no_after : x.after ≡ "" = (eq_iff x.after "").0 (ground arith) in
        let valid : is_valid_anchor x.before ≡ true = ground arith in
        let (s, e) = valid-stage x.before valid in IsAnchored.before s e no_after
  ]

  customs-append : (c d : List (Entry M)) → customs (c ++ d) ≡ customs c ++ customs d
  customs-append [] d = refl
  customs-append (built_in s ∷ c) d = customs-append c d
  customs-append (custom m ∷ c) d = ap (λ l. m ∷ l) (customs-append c d)

  module _ (f : M → ℕ) where
    abbrev share : List Stage → ExtraMiddleware M → ℕ
    share ss x = weights ss x.before x.after (f x.middleware)

    total-befores-afters :
        (name : String) (extra : List (ExtraMiddleware M))
        → total f (customs (befores name extra)) + total f (customs (afters name extra))
          ≡ total (λ x. weight name x.before x.after (f x.middleware)) extra
    unfolding befores afters
    total-befores-afters name [] = refl
    total-befores-afters name (x ∷ rest) = ground (arith, total-befores-afters name rest)

    total-append_stage :
        (config : ChainConfig M) (s : Stage) (chain : List (Entry M))
        → total f (
            customs
              (append_stage chain (anchor_of s) (is_enabled config s) config.extra (built_in s)))
          ≡ total f (customs chain)
            + total (λ x. weight (anchor_of s) x.before x.after (f x.middleware)) config.extra
    unfolding append_stage
    total-append_stage config s chain =
        simp (customs-append, total-append)
          (rw (← total-befores-afters (anchor_of s) config.extra) (ground arith))

    total-append_stages :
        (config : ChainConfig M) (ss : List Stage) (chain : List (Entry M))
        → total f (customs (append_stages config ss chain))
          ≡ total f (customs chain) + total (share ss) config.extra
    unfolding append_stages
    total-append_stages config [] chain = omega (arith, total-zero config.extra)
    total-append_stages config (s ∷ rest) chain = omega (
      arith,
      total-append_stages config rest
          (append_stage chain (anchor_of s) (is_enabled config s) config.extra (built_in s)),
      total-append_stage config s chain,
      total-add (λ (x : ExtraMiddleware M). weight (anchor_of s) x.before x.after (f x.middleware))
          (share rest) config.extra,
    )

    share-IsAnchored : (x : ExtraMiddleware M) → IsAnchored x → share stages x ≡ f x.middleware
    share-IsAnchored x (before s b a) =
        ap (λ n. weights stages n x.after (f x.middleware)) b
        ∙ ap (λ n. weights stages (anchor_of s) n (f x.middleware)) a
        ∙ weights_before s (f x.middleware)
    share-IsAnchored x (after s b a) =
        ap (λ n. weights stages n x.after (f x.middleware)) b
        ∙ ap (λ n. weights stages "" n (f x.middleware)) a
        ∙ weights_after s (f x.middleware)

    total-share :
        (extra : List (ExtraMiddleware M))
        → All IsAnchored extra
        → total (share stages) extra ≡ total (λ x. f x.middleware) extra
    total-share [] h = refl
    total-share (x ∷ rest) (a, h) = omega (arith, share-IsAnchored x a, total-share rest h)

  validate_all-All :
      (extra : List (ExtraMiddleware M)) → validate_all extra ≡ ok tt → All IsAnchored extra
  unfolding validate_all
  validate_all-All [] h = tt
  validate_all-All (x ∷ rest) h = elim (Result-cases (validate_extra_middleware x)) [
    | inl (done, e) ↦ (validate-IsAnchored x e, validate_all-All rest (rw (e, validate_all) at h))
    | inr (panic, e) ↦ absurd (cc (rw (e, validate_all) at h))
  ]

  validate_of_IsAnchored :
      (x : ExtraMiddleware M) → IsAnchored x → validate_extra_middleware x ≡ ok tt
  unfolding validate_extra_middleware
  validate_of_IsAnchored x (before s b a) =
      let (valid, filled) = is_valid_anchor-anchor_of s in
      let known : is_valid_anchor x.before ≡ true = rw b valid in
      let has_before : str_eq x.before "" ≡ false = rw b filled in
      let no_after : str_eq x.after "" ≡ true = rw a refl in ground arith
  validate_of_IsAnchored x (after s b a) =
      let (valid, filled) = is_valid_anchor-anchor_of s in
      let known : is_valid_anchor x.after ≡ true = rw a valid in
      let has_after : str_eq x.after "" ≡ false = rw a filled in
      let no_before : str_eq x.before "" ≡ true = rw b refl in ground arith

  validate_all_of_All :
      (extra : List (ExtraMiddleware M)) → All IsAnchored extra → validate_all extra ≡ ok tt
  unfolding validate_all
  validate_all_of_All [] h = refl
  validate_all_of_All (x ∷ rest) (a, h) =
      ground (arith, validate_of_IsAnchored x a, validate_all_of_All rest h)

  -- One stage's part of the chain: the entries before its anchor, the stage where it is enabled,
  -- and the entries after its anchor.
  abbrev pub block : ChainConfig M → Stage → List (Entry M)
  block config s =
      befores (anchor_of s) config.extra
      ++ ((if is_enabled config s then built_in s ∷ [] else [])
          ++ afters (anchor_of s) config.extra)

  abbrev pub blocks : ChainConfig M → List Stage → List (Entry M)
  blocks config [] = []
  blocks config (s ∷ rest) = block config s ++ blocks config rest

  append_stages-blocks :
      (config : ChainConfig M) (ss : List Stage) (chain : List (Entry M))
      → append_stages config ss chain ≡ chain ++ blocks config ss
  unfolding append_stages append_stage
  append_stages-blocks config [] chain = sym (append-nil chain)
  append_stages-blocks config (s ∷ rest) chain =
      append_stages-blocks config rest _ ∙ append_assoc chain (block config s) (blocks config rest)

  -- A chain as the configuration asks for it.
  pub record IsChain (config : ChainConfig M) (chain : List (Entry M)) : Type 0 where
    pub layout : chain ≡ blocks config recommended
    pub order : built_ins chain ≡ enabled_stages config recommended
    pub complete : (f : M → ℕ) → total f (customs chain) ≡ total (λ x. f x.middleware) config.extra

  append_stages-IsChain :
      (config : ChainConfig M)
      → All IsAnchored config.extra
      → IsChain config (append_stages config stages [])
  append_stages-IsChain config anchored = record {
    layout = append_stages-blocks config stages [] ∙ ap (blocks config) stages-recommended;
    order =
        built_ins-append_stages config stages [] ∙ ap (enabled_stages config) stages-recommended;
    complete = λ f.
        total-append_stages f config stages [] ∙ omega (arith, total-share f config.extra anchored);
  }

  -- `BuildChain` panics unless at most one slash middleware is asked for and each extra entry has
  -- exactly one anchor, a known one.
  pub build_chain-panics :
      (config : ChainConfig M) {chain : List (Entry M)}
      → build_chain config ≡ ok chain
      → (config.strip_slashes && config.redirect_slashes ≡ false) × All IsAnchored config.extra
  unfolding build_chain
  build_chain-panics config h =
      let valid : validate_all config.extra ≡ ok tt = ground arith in
      (ground arith, validate_all-All config.extra valid)

  pub build_chain-IsChain :
      (config : ChainConfig M)
      → config.strip_slashes && config.redirect_slashes ≡ false
      → All IsAnchored config.extra
      → (chain : List (Entry M)) × (build_chain config ≡ ok chain) × IsChain config chain
  unfolding build_chain
  build_chain-IsChain config exclusive anchored =
      let valid = validate_all_of_All config.extra anchored in
      (
        append_stages config stages [],
        rw (exclusive, valid, build_chain),
        append_stages-IsChain config anchored,
      )
