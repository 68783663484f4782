-- ===== src/Httpx/Routing/Groups.antt =====
-- What the registering methods of a router and of its groups add to the mux and to the document.
use arnon.Prelude.{
  ◌<◌, ◌≡◌, ◌≢◌, refl, sym, ap, ◌∙◌, Bool, true, false, Bool-cases, some, List, [], ◌∷◌, ◌++◌,
  arith, length, ltb, inl, inr, ok, err,
}
use arnon.Prelude.Strings.{Text, codes, same}
use arnon.Http.{Handler}
use arnon.Httpx.Routing.{PatternError, join_path}
use arnon.Httpx.Routing.Paths.{
  IsWord, IsTidy, split_pattern-verb_pattern, join_pattern-verb_pattern, join_path_assoc,
}
use arnon.Httpx.Routing.Providers.{below, unwrap_to_provider-below}
use arnon.Httpx.Routing.Router.{
  Node, provider, chain, Router, malformed, document_provider, record_types, register_open_api,
  instrumented, handle_mux, register_route, register, handle, Verb, verb_method, verb_pattern,
  Group, nested, register_joined, handle_in_group, handle_verb_in_group,
}

module _ {Op : Type 0} (accepts : List (Text × Node Op) → Text → Bool) where
  -- A verb of a group registers the route under the group's prefix, with the group's middlewares.
  handle_verb_in_group_lem :
      (verb : Verb) (group : Group Op) (path : Text) (node : Node Op) (router : Router Op)
      → IsWord (b'/' ∷ path)
      → handle_verb_in_group accepts verb group (b'/' ∷ path) node router
        ≡ register accepts
            (verb_pattern verb (join_path group.prefix (b'/' ∷ path)))
            node
            group.middlewares
            router
  unfolding handle_verb_in_group handle_in_group register_joined
  handle_verb_in_group_lem verb group path node router h =
      ap (λ r. register_joined accepts r node group.middlewares router)
        (join_pattern-verb_pattern verb group.prefix path h)

  -- A verb of a group that is nested in another registers what its middlewares are given for the
  -- path below both prefixes, where the outer prefix does not end in two slashes and the inner one
  -- is not two slashes.
  pub nested-handle_verb :
      (verb : Verb) (group : Group Op) (prefix path : Text) (node : Node Op) (router : Router Op)
      → IsWord (b'/' ∷ path)
      → IsTidy group.prefix
      → same prefix (codes "//") ≡ false
      → handle_verb_in_group accepts verb (nested prefix group) (b'/' ∷ path) node router
        ≡ register accepts
            (verb_pattern verb (join_path group.prefix (join_path prefix (b'/' ∷ path))))
            node
            group.middlewares
            router
  unfolding nested
  nested-handle_verb verb group prefix path node router h tidy single =
      handle_verb_in_group_lem verb (nested prefix group) path node router h
      ∙ ap (λ p. register accepts (verb_pattern verb p) node group.middlewares router)
          (join_path_assoc group.prefix prefix (b'/' ∷ path) tidy single)

  -- A router with a document learns the operation of a handler below fewer than 32 middlewares.
  register_open_api-below :
      (verb : Verb) (path : Text) (hs : List Handler) (h : Handler) (op : Op) (router : Router Op)
      → router.is_documented ≡ true
      → length hs < 32
      → IsWord (b'/' ∷ path)
      → register_open_api (verb_pattern verb (b'/' ∷ path)) (below hs (provider h (some op))) router
        ≡ ok (record router {
          operations = router.operations ++ (codes (verb_method verb), b'/' ∷ path, op) ∷ [];
        })
  unfolding register_open_api document_provider record_types
  register_open_api-below verb path hs h op router documented shallow word =
      let near : ltb (length hs) 32 ≡ true = ground arith in
      rw
        (
          documented,
          unwrap_to_provider-below hs h (some op),
          near,
          split_pattern-verb_pattern verb path word,
        )
        refl

  -- A verb of a group of a router with a document puts the route among the mux's routes, under the
  -- group's prefix, inside the group's middlewares and the instrumentation, and its operation into the
  -- document: where the path and the joined path start with "/" and have no white space, the mux accepts
  -- the pattern, and the handler describes itself below fewer than 32 wrapping middlewares.
  pub handle_verb_in_group-documents :
      (verb : Verb) (group : Group Op) (path full : Text)
      → (hs : List Handler) (h : Handler) (op : Op) (router : Router Op)
      → router.is_documented ≡ true
      → length hs < 32
      → IsWord (b'/' ∷ path)
      → join_path group.prefix (b'/' ∷ path) ≡ b'/' ∷ full
      → IsWord (b'/' ∷ full)
      → accepts router.routes (verb_pattern verb (b'/' ∷ full)) ≡ true
      → handle_verb_in_group accepts verb group
          (b'/' ∷ path)
          (below hs (provider h (some op)))
          router
        ≡ ok (record router {
          routes =
              router.routes
              ++ (
                verb_pattern verb (b'/' ∷ full),
                instrumented router.instrument
                    (chain (below hs (provider h (some op))) group.middlewares)
                    (verb_pattern verb (b'/' ∷ full)),
              )
                ∷ [];
          operations = router.operations ++ (codes (verb_method verb), b'/' ∷ full, op) ∷ [];
        })
  unfolding register register_route handle_mux
  handle_verb_in_group-documents verb group path full hs h op router documented shallow word join
        whole accepted =
      let node = below hs (provider h (some op)) in
      handle_verb_in_group_lem verb group path node router word
      ∙ ap (λ p. register accepts (verb_pattern verb p) node group.middlewares router) join
      ∙ rw (register_open_api-below verb full hs h op router documented shallow whole, accepted)
          refl

  handle_mux-refuses :
      (pattern : Text) (node : Node Op) (router : Router Op) (e : PatternError)
      → handle_mux accepts pattern node router ≢ err (malformed e)
  unfolding handle_mux
  handle_mux-refuses pattern node router e h = elim (Bool-cases (accepts router.routes pattern)) [
    | inl taken ↦ let k = (rw taken at h) in cc
    | inr left ↦ let k = (rw left at h) in cc
  ]

  handle-plain :
      (pattern : Text) (node : Node Op) (router : Router Op)
      → router.is_documented ≡ false
      → handle accepts pattern node router
        ≡ handle_mux accepts pattern (instrumented router.instrument (chain node []) pattern) router
  unfolding handle register register_open_api register_route
  handle-plain pattern node router plain = rw plain refl

  -- Nothing checks the pattern of a route of a router with no document: whatever the pattern is, the
  -- router's Handle does not panic with one of the errors of a malformed pattern.
  pub handle-unchecked :
      (pattern : Text) (node : Node Op) (router : Router Op) (e : PatternError)
      → router.is_documented ≡ false
      → handle accepts pattern node router ≢ err (malformed e)
  handle-unchecked pattern node router e plain h =
      handle_mux-refuses pattern _ router e (sym (handle-plain pattern node router plain) ∙ h)
