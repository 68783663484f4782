-- ===== src/Tests/Routing.antt =====
-- Runs of httpx/routing.
use arnon.Prelude.{ℕ, ◌≡◌, ◌≢◌, refl, Bool, true, none, some, ok, err, List, [], ◌∷◌, arith}
use arnon.Prelude.Strings.{Text, codes, is_space, same, has_prefix, trim_prefix}
use arnon.Http.{Handler}
use arnon.Httpx.Routing.{invalid_method, trim_slash, split_pattern, join_path}
use arnon.Httpx.Routing.Router.{
  Node, provider, chain, new_router, with_open_api, malformed, instrumented, handle, get_verb,
  verb_method, verb_pattern, Group, handle_verb_in_group,
}
use arnon.Httpx.Routing.Paths.{IsWord, IsTidy}
use arnon.Httpx.Routing.Providers.{below}
use arnon.Httpx.Routing.Groups.{handle_verb_in_group-documents, handle-unchecked}

abbrev idle_handler : Handler
idle_handler request w = w

-- An endpoint whose operation is the number 5, below one wrapping middleware.
abbrev described : Node ℕ
described = provider idle_handler (some 5)

abbrev anything : List (Text × Node ℕ) → Text → Bool
anything routes pattern = true

abbrev api : Group ℕ
api = record { prefix = codes "/api/"; middlewares = [] }

users-IsWord : IsWord (codes "/users")
users-IsWord = unfold is_space in refl

api_users-IsWord : IsWord (codes "/api/users")
api_users-IsWord = unfold is_space in refl

api-IsTidy : IsTidy (codes "/api/")
api-IsTidy = unfold trim_slash in refl

api_users : join_path (codes "/api/") (codes "/users") ≡ codes "/api/users"
api_users = unfold join_path trim_prefix has_prefix in refl

split_pattern_tab : split_pattern (codes "  GET\t/a ") ≡ ok (codes "GET", codes "/a")
split_pattern_tab = unfold split_pattern is_space has_prefix same in refl

split_pattern_method : split_pattern (codes "FETCH /a") ≡ err invalid_method
split_pattern_method = unfold split_pattern is_space has_prefix same in refl

handle_verb_in_group-documents_example :
    handle_verb_in_group anything get_verb api
      (codes "/users")
      (below (idle_handler ∷ []) described)
      (with_open_api new_router)
    ≡ ok (record {
      middlewares = [];
      is_documented = true;
      instrument = none;
      routes =
          (
            verb_pattern get_verb (codes "/api/users"),
            instrumented none
                (chain (below (idle_handler ∷ []) described) [])
                (verb_pattern get_verb (codes "/api/users")),
          )
          ∷ [];
      operations = (codes "GET", codes "/api/users", 5) ∷ [];
    })
unfolding verb_method
handle_verb_in_group-documents_example =
    handle_verb_in_group-documents anything get_verb api (codes "users") (codes "api/users")
      (idle_handler ∷ []) idle_handler 5 (with_open_api new_router) refl (omega arith) users-IsWord
      api_users api_users-IsWord refl

handle-unchecked_example :
    handle anything (codes "FETCH /a") described new_router ≢ err (malformed invalid_method)
handle-unchecked_example =
    handle-unchecked anything (codes "FETCH /a") described new_router invalid_method refl
