-- ===== src/Httpx/Patch/Described.antt =====
-- httpx/patch/openapi.go: how a derived PATCH describes itself, with the types of its PUT handler.
use arnon.Prelude.{
  ℕ, zero, suc, ◌≡◌, refl, true, Option, none, some, List, [], ◌∷◌, Result, ok, err, arith, length,
  ltb, if◌then◌else◌,
}
use arnon.Prelude.Strings.{Text}
use arnon.Http.{Handler}
use arnon.Httpx.Routing.{split_pattern}
use arnon.Httpx.Routing.Router.{
  Node, provider, Router, unwrap_within, unwrap_to_provider, record_types, document_provider,
  register_open_api,
}

-- A handler that exposes its operation, which may be nil, and its types; one of routing.Wrap; or another.
-- `Op` is an operation and `T` a reflect.Type.
pub data PutHandler (Op T : Type 0) : Type 0 where
  typed : Handler → Option Op → T → T → PutHandler Op T
  wrapping : PutHandler Op T → Handler → PutHandler Op T
  untyped : Handler → PutHandler Op T

-- The handler that `From` returns where it is documented.
pub record DocumentedHandler (Op T : Type 0) : Type 0 where
  pub handler : Handler
  pub operation : Op
  pub request_type : T
  pub response_type : T

-- The panic of `describe`
pub data DescribePanic : Type 0 where
  put_without_types : DescribePanic

unfoldable pub typed_within : {Op T : Type 0} → ℕ → PutHandler Op T → Option (T × T)
typed_within zero put = none
typed_within (suc depth) (typed handler operation request_type response_type) =
    some (request_type, response_type)
typed_within (suc depth) (wrapping next handler) = typed_within depth next
typed_within (suc depth) (untyped handler) = none

-- `unwrapToTyped`, the types of what it finds
unfoldable pub unwrap_to_typed : {Op T : Type 0} → PutHandler Op T → Option (T × T)
unfolding typed_within
unwrap_to_typed put = typed_within 32 put

abbrev pub documented : {Op T : Type 0} → Handler → Op → T → T → DocumentedHandler Op T
documented handler operation request_type response_type = record {
  handler = handler;
  operation = operation;
  request_type = request_type;
  response_type = response_type;
}

unfoldable pub described_with :
    {Op T : Type 0} → Handler → Op → Option (T × T) → Result DescribePanic (DocumentedHandler Op T)
described_with handler operation none = err put_without_types
described_with handler operation (some (request_type, response_type)) =
    ok (documented handler operation request_type response_type)

unfoldable pub describe :
    {Op T : Type 0} → Handler → PutHandler Op T → Op → Result DescribePanic (DocumentedHandler Op T)
unfolding unwrap_to_typed described_with
describe handler put operation = described_with handler operation (unwrap_to_typed put)

-- The documented handler as the router sees it.
unfoldable pub as_node : {Op T : Type 0} → DocumentedHandler Op T → Node (Op × T × T)
as_node d = provider d.handler (some (d.operation, d.request_type, d.response_type))

-- A PUT handler below middlewares, the outermost one first.
unfoldable pub put_below : {Op T : Type 0} → List Handler → PutHandler Op T → PutHandler Op T
put_below [] put = put
put_below (w ∷ rest) put = wrapping (put_below rest put) w

typed_within-below :
    {Op T : Type 0} (depth : ℕ) (ws : List Handler) (h : Handler) (op : Option Op)
    (request_type response_type : T)
    → typed_within depth (put_below ws (typed h op request_type response_type))
      ≡ (if ltb (length ws) depth then some (request_type, response_type) else none)
unfolding typed_within put_below
typed_within-below zero [] h op rq rs = ground arith
typed_within-below (suc depth) [] h op rq rs = ground arith
typed_within-below zero (w ∷ ws) h op rq rs = ground arith
typed_within-below (suc depth) (w ∷ ws) h op rq rs =
    ground (arith, typed_within-below depth ws h op rq rs)

typed_within-untyped :
    (Op T : Type 0) (depth : ℕ) (ws : List Handler) (h : Handler)
    → typed_within {Op = Op} {T = T} depth (put_below ws (untyped h)) ≡ none
unfolding typed_within put_below
typed_within-untyped Op T zero ws h = refl
typed_within-untyped Op T (suc depth) [] h = refl
typed_within-untyped Op T (suc depth) (w ∷ ws) h = typed_within-untyped Op T depth ws h

-- A PUT handler with types, below fewer than 32 wrapping middlewares, gives a PATCH that a documented router
-- registers with the configured operation and the PUT's types, whatever the PUT's own operation; below 32 or more of them, and where
-- no handler below them has types, deriving the PATCH panics.
pub describe-registered :
    {Op T : Type 0} (ws : List Handler) (h patch : Handler) (own : Option Op) (operation : Op)
    (rq rs : T) (pattern : Text) (router : Router (Op × T × T))
    → router.is_documented ≡ true
    → (describe patch (put_below ws (typed h own rq rs)) operation ≡ (
        if ltb (length ws) 32
        then ok (documented patch operation rq rs)
        else err put_without_types))
      × (register_open_api pattern (as_node (documented patch operation rq rs)) router
          ≡ record_types (operation, rq, rs) (split_pattern pattern) router)
      × (describe {Op = Op} {T = T} patch (put_below ws (untyped h)) operation
          ≡ err put_without_types)
unfolding describe unwrap_to_typed described_with register_open_api document_provider
    unwrap_to_provider unwrap_within as_node
describe-registered ws h patch own operation rq rs pattern router documents = (
  ground (arith, typed_within-below 32 ws h own rq rs),
  rw documents refl,
  rw (typed_within-untyped _ _ 32 ws h) refl,
)
