-- ===== src/Httpx/Routing/Router.antt =====
-- httpx/routing: handlers and their middlewares, the router and its groups. The mux of net/http
-- is the list of the calls of its Handle; what it accepts and how it dispatches are parameters.
use arnon.Prelude.{
  ℕ, zero, suc, String, Bool, true, false, Option, none, some, List, [], ◌∷◌, ◌++◌, if◌then◌else◌,
  Result, ok, err,
}
use arnon.Prelude.Strings.{Text, codes}
use arnon.Http.{Handler}
use arnon.Httpx.Routing.{PatternError, split_pattern, join_path, join_pattern}

-- A handler as the router sees it: one that describes itself (its operation may be nil), one of
-- `Wrap`, or another. `Op` is an operation with the types of its request and response.
pub data Node (Op : Type 0) : Type 0 where
  opaque : Handler → Node Op
  provider : Handler → Option Op → Node Op
  wrapped : Node Op → Handler → Node Op

unfoldable pub serve : {Op : Type 0} → Node Op → Handler
serve (opaque handler) = handler
serve (provider handler operation) = handler
serve (wrapped next handler) = handler

-- The first provider within `depth` handlers of a chain: its OpenAPIOperation.
unfoldable pub unwrap_within : {Op : Type 0} → ℕ → Node Op → Option (Option Op)
unwrap_within zero node = none
unwrap_within (suc depth) (opaque handler) = none
unwrap_within (suc depth) (provider handler operation) = some operation
unwrap_within (suc depth) (wrapped next handler) = unwrap_within depth next

-- `unwrapToProvider`, with its bound
unfoldable pub unwrap_to_provider : {Op : Type 0} → Node Op → Option (Option Op)
unfolding unwrap_within
unwrap_to_provider node = unwrap_within 32 node

abbrev pub RouteMiddleware : Type 0 → Type 0
RouteMiddleware Op = Node Op → Node Op

unfoldable pub backward : {Op : Type 0} → List (RouteMiddleware Op) → List (RouteMiddleware Op)
backward [] = []
backward (m ∷ rest) = backward rest ++ m ∷ []

unfoldable pub wrap_each : {Op : Type 0} → Node Op → List (RouteMiddleware Op) → Node Op
wrap_each node [] = node
wrap_each node (m ∷ rest) = wrap_each (m node) rest

-- `Chain`: the loop over slices.Backward
unfoldable pub chain : {Op : Type 0} → Node Op → List (RouteMiddleware Op) → Node Op
unfolding backward wrap_each
chain node middlewares = wrap_each node (backward middlewares)

pub record Router (Op : Type 0) : Type 0 where
  pub middlewares : List (RouteMiddleware Op)
  pub is_documented : Bool
  pub instrument : Option (Node Op → Text → Node Op)
  pub routes : List (Text × Node Op)
  pub operations : List (Text × Text × Op)

-- NewRouter with neither option
abbrev pub new_router : {Op : Type 0} → Router Op
new_router = record {
  middlewares = [];
  is_documented = false;
  instrument = none;
  routes = [];
  operations = [];
}

abbrev pub with_open_api : {Op : Type 0} → Router Op → Router Op
with_open_api router = record router { is_documented = true }

abbrev pub with_instrumentation : {Op : Type 0} → (Node Op → Text → Node Op) → Router Op → Router Op
with_instrumentation instrument router = record router { instrument = some instrument }

-- `Router.Use`
unfoldable pub use_globally : {Op : Type 0} → List (RouteMiddleware Op) → Router Op → Router Op
use_globally middlewares router = record router { middlewares = router.middlewares ++ middlewares }

-- The panics of a registration: the pattern's, or the mux's own.
pub data RoutePanic : Type 0 where
  malformed : PatternError → RoutePanic
  refused : RoutePanic

unfoldable pub record_types :
    {Op : Type 0}
    → Op
    → Result PatternError (Text × Text)
    → Router Op
    → Result RoutePanic (Router Op)
record_types op (err e) router = err (malformed e)
record_types op (ok (method, path)) router =
    ok (record router { operations = router.operations ++ (method, path, op) ∷ [] })

unfoldable pub document_provider :
    {Op : Type 0} → Text → Option (Option Op) → Router Op → Result RoutePanic (Router Op)
unfolding record_types
document_provider pattern none router = ok router
document_provider pattern (some none) router = ok router
document_provider pattern (some (some op)) router = record_types op (split_pattern pattern) router

-- `registerOpenAPI`
unfoldable pub register_open_api :
    {Op : Type 0} → Text → Node Op → Router Op → Result RoutePanic (Router Op)
unfolding document_provider
register_open_api pattern node router =
    if router.is_documented
    then document_provider pattern (unwrap_to_provider node) router
    else ok router

unfoldable pub instrumented :
    {Op : Type 0} → Option (Node Op → Text → Node Op) → Node Op → Text → Node Op
instrumented none node pattern = node
instrumented (some instrument) node pattern = instrument node pattern

module _ {Op : Type 0} (accepts : List (Text × Node Op) → Text → Bool) where
  unfoldable pub handle_mux : Text → Node Op → Router Op → Result RoutePanic (Router Op)
  handle_mux pattern node router =
      if accepts router.routes pattern
      then ok (record router { routes = router.routes ++ (pattern, node) ∷ [] })
      else err refused

  unfoldable pub register_route :
      Text
      → Node Op
      → List (RouteMiddleware Op)
      → Result RoutePanic (Router Op)
      → Result RoutePanic (Router Op)
  unfolding handle_mux instrumented
  register_route pattern node extra (err panic) = err panic
  register_route pattern node extra (ok router) =
      handle_mux pattern (instrumented router.instrument (chain node extra) pattern) router

  -- `register`
  unfoldable pub register :
      Text → Node Op → List (RouteMiddleware Op) → Router Op → Result RoutePanic (Router Op)
  unfolding register_route
  register pattern node extra router =
      register_route pattern node extra (register_open_api pattern node router)

  -- `Router.Handle`
  unfoldable pub handle : Text → Node Op → Router Op → Result RoutePanic (Router Op)
  unfolding register
  handle pattern node router = register pattern node [] router

-- `Router.ServeHTTP`, with the mux's dispatch among its routes
unfoldable pub serve_http : {Op : Type 0} → (List (Text × Node Op) → Handler) → Router Op → Handler
unfolding serve
serve_http dispatch router = serve (chain (opaque (dispatch router.routes)) router.middlewares)

-- The registering methods of a router and of a group that put a method before the pattern.
pub data Verb : Type 0 where
  get_verb head_verb post_verb put_verb patch_verb : Verb
  delete_verb connect_verb options_verb trace_verb query_verb : Verb

unfoldable pub verb_method : Verb → String
verb_method get_verb = "GET"
verb_method head_verb = "HEAD"
verb_method post_verb = "POST"
verb_method put_verb = "PUT"
verb_method patch_verb = "PATCH"
verb_method delete_verb = "DELETE"
verb_method connect_verb = "CONNECT"
verb_method options_verb = "OPTIONS"
verb_method trace_verb = "TRACE"
verb_method query_verb = "QUERY"

unfoldable pub verb_pattern : Verb → Text → Text
unfolding verb_method
verb_pattern verb pattern = codes (verb_method verb) ++ b' ' ∷ pattern

-- A group of a router, which is passed beside it.
pub record Group (Op : Type 0) : Type 0 where
  pub prefix : Text
  pub middlewares : List (RouteMiddleware Op)

-- `Router.Group`
abbrev pub new_group : {Op : Type 0} → Text → Group Op
new_group prefix = record { prefix = prefix; middlewares = [] }

-- `Group.Group`
unfoldable pub nested : {Op : Type 0} → Text → Group Op → Group Op
nested prefix group = record {
  prefix = join_path group.prefix prefix;
  middlewares = group.middlewares;
}

-- `Group.Use`
unfoldable pub use_in_group : {Op : Type 0} → List (RouteMiddleware Op) → Group Op → Group Op
use_in_group middlewares group = record group { middlewares = group.middlewares ++ middlewares }

module _ {Op : Type 0} (accepts : List (Text × Node Op) → Text → Bool) where
  unfoldable pub register_joined :
      Result PatternError Text
      → Node Op
      → List (RouteMiddleware Op)
      → Router Op
      → Result RoutePanic (Router Op)
  register_joined (err e) node extra router = err (malformed e)
  register_joined (ok pattern) node extra router = register accepts pattern node extra router

  -- `Group.Handle`
  unfoldable pub handle_in_group :
      Group Op → Text → Node Op → Router Op → Result RoutePanic (Router Op)
  unfolding register_joined
  handle_in_group group pattern node router =
      register_joined (join_pattern group.prefix pattern) node group.middlewares router

  -- `Router.GET` to `Router.QUERY`
  unfoldable pub handle_verb : Verb → Text → Node Op → Router Op → Result RoutePanic (Router Op)
  unfolding verb_pattern
  handle_verb verb pattern node router = handle accepts (verb_pattern verb pattern) node router

  -- `Group.GET` to `Group.QUERY`
  unfoldable pub handle_verb_in_group :
      Verb → Group Op → Text → Node Op → Router Op → Result RoutePanic (Router Op)
  unfolding verb_pattern handle_in_group
  handle_verb_in_group verb group pattern node router =
      handle_in_group group (verb_pattern verb pattern) node router
