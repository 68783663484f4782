-- ===== src/Httpx/Routing/Providers.antt =====
-- How deep below wrapping middlewares the router finds a handler that describes itself, and in
-- which order the middlewares of a chain run.
use arnon.Prelude.{
  ℕ, zero, suc, ◌≡◌, refl, sym, ap, ◌∙◌, Option, none, some, List, [], ◌∷◌, ◌++◌, arith, length,
  ltb, if◌then◌else◌,
}
use arnon.Http.{Handler}
use arnon.Httpx.Routing.Router.{
  Node, provider, wrapped, unwrap_within, unwrap_to_provider, RouteMiddleware, backward, wrap_each,
  chain,
}

-- A handler below middlewares of `Wrap`, the outermost one first.
unfoldable pub below : {Op : Type 0} → List Handler → Node Op → Node Op
below [] node = node
below (h ∷ rest) node = wrapped (below rest node) h

unwrap_within-below :
    {Op : Type 0} (depth : ℕ) (hs : List Handler) (h : Handler) (op : Option Op)
    → unwrap_within depth (below hs (provider h op))
      ≡ (if ltb (length hs) depth then some op else none)
unfolding unwrap_within below
unwrap_within-below zero [] h op = ground arith
unwrap_within-below (suc depth) [] h op = ground arith
unwrap_within-below zero (w ∷ hs) h op = ground arith
unwrap_within-below (suc depth) (w ∷ hs) h op = ground (arith, unwrap_within-below depth hs h op)

-- A handler that describes itself is found below fewer than 32 wrapping middlewares, and below 32
-- or more of them it is not found.
pub unwrap_to_provider-below :
    {Op : Type 0} (hs : List Handler) (h : Handler) (op : Option Op)
    → unwrap_to_provider (below hs (provider h op)) ≡ (if ltb (length hs) 32 then some op else none)
unfolding unwrap_to_provider
unwrap_to_provider-below hs h op = unwrap_within-below 32 hs h op

wrap_each-append :
    {Op : Type 0} (node : Node Op) (ms ns : List (RouteMiddleware Op))
    → wrap_each node (ms ++ ns) ≡ wrap_each (wrap_each node ms) ns
unfolding wrap_each
wrap_each-append node [] ns = refl
wrap_each-append node (m ∷ ms) ns = wrap_each-append (m node) ms ns

chain_step :
    {Op : Type 0} (node : Node Op) (m : RouteMiddleware Op) (ms : List (RouteMiddleware Op))
    → chain node (m ∷ ms) ≡ m (chain node ms)
unfolding chain backward wrap_each
chain_step node m ms = wrap_each-append node (backward ms) (m ∷ [])

-- Middlewares given in two parts wrap as the first part around the second around the handler, so
-- that the first of them is the outermost.
pub chain-append :
    {Op : Type 0} (node : Node Op) (ms ns : List (RouteMiddleware Op))
    → chain node (ms ++ ns) ≡ chain (chain node ns) ms
unfolding chain backward wrap_each
chain-append node [] ns = refl
chain-append node (m ∷ ms) ns =
    chain_step node m (ms ++ ns)
    ∙ ap m (chain-append node ms ns)
    ∙ sym (chain_step (chain node ns) m ms)
