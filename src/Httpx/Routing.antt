-- ===== src/Httpx/Routing.antt =====
-- httpx/routing/pattern.go, chain.go, wrap.go, options.go, router.go, group.go and
-- register_openapi.go: patterns of routes, and their registration with the mux and the document.
pub mod Paths
pub mod Router
pub mod Groups
pub mod Providers
use arnon.Prelude.{
  ℕ, zero, suc, String, Bool, true, false, not, ◌&&◌, ◌||◌, Option, none, some, List, [], ◌∷◌, ◌++◌,
  any, ◌==◌, if◌then◌else◌, Result, ok, err,
}
use arnon.Prelude.Strings.{Text, codes, is_space, same, has_prefix, trim_prefix}

-- The errors that a malformed pattern panics with.
pub data PatternError : Type 0 where
  invalid_pattern : PatternError
  invalid_method : PatternError
  invalid_path : PatternError

push_field : Text → List Text → List Text
push_field [] fields = fields
push_field (c ∷ word) fields = (c ∷ word) ∷ fields

-- The first field so far, and the fields after it.
fields_from : Text → Text × List Text
unfolding push_field
fields_from [] = ([], [])
fields_from (c ∷ s) =
    let (word, rest) = fields_from s in
    if is_space c then ([], push_field word rest) else (c ∷ word, rest)

-- strings.Fields
unfoldable pub fields : Text → List Text
unfolding fields_from push_field
fields s = let (word, rest) = fields_from s in push_field word rest

-- strings.TrimSuffix with "/"
unfoldable pub trim_slash : Text → Text
trim_slash [] = []
trim_slash (c ∷ []) = if c == b'/' then [] else c ∷ []
trim_slash (c ∷ d ∷ s) = c ∷ trim_slash (d ∷ s)

-- The methods that a pattern may have, MethodQuery included.
unfoldable pub methods : List Text
methods =
    codes "GET"
    ∷ codes "POST"
    ∷ codes "PUT"
    ∷ codes "PATCH"
    ∷ codes "DELETE"
    ∷ codes "HEAD"
    ∷ codes "OPTIONS"
    ∷ codes "CONNECT"
    ∷ codes "TRACE"
    ∷ codes "QUERY"
    ∷ []

unfoldable pub split_fields : List Text → Result PatternError (Text × Text)
unfolding methods
split_fields (method ∷ path ∷ []) =
    if not (any (same method) methods)
    then err invalid_method
    else if not (has_prefix path (codes "/"))
    then err invalid_path
    else ok (method, path)
split_fields other = err invalid_pattern

-- `splitPattern`
unfoldable pub split_pattern : Text → Result PatternError (Text × Text)
unfolding fields split_fields
split_pattern pattern = split_fields (fields pattern)

join_trimmed : Text → Text → Text
join_trimmed [] right = b'/' ∷ right
join_trimmed (c ∷ left) [] = c ∷ left
join_trimmed (c ∷ left) (d ∷ right) = (c ∷ left) ++ b'/' ∷ d ∷ right

-- `joinPath`
unfoldable pub join_path : Text → Text → Text
unfolding trim_slash join_trimmed
join_path left right = join_trimmed (trim_slash left) (trim_prefix right (codes "/"))

joined : Text → Result PatternError (Text × Text) → Result PatternError Text
unfolding join_path
joined prefix (err e) = err e
joined prefix (ok (method, path)) = ok (method ++ b' ' ∷ join_path prefix path)

-- `joinPattern`, whose panic is the error
unfoldable pub join_pattern : Text → Text → Result PatternError Text
unfolding joined split_pattern
join_pattern prefix pattern = joined prefix (split_pattern pattern)
