-- ===== src/Httpx/Respond/Mapping.antt =====
-- `DefaultProblemMapper`: when a returned problem goes through, and what hides it.
use arnon.Prelude.{◌≡◌, refl, true, false, none, List, [], ◌∷◌, arith}
use arnon.Prelude.Strings.{Text, codes}
use arnon.Problem.{
  Error, nil, plain, wrapped, syntax_error, unmarshal_type_error, problem_error, Problem, as_error,
  new,
}
use arnon.Httpx.Respond.{as_syntax_error, as_unmarshal_error, as_problem, default_problem_mapper}

-- The errors on the chain of Unwrap, from the outermost one.
abbrev pub wrap_all : List Text → Error → Error
wrap_all [] e = e
wrap_all (message ∷ rest) e = wrapped message (wrap_all rest e)

-- No error of encoding/json is on the chain.
abbrev pub IsOwn : Error → Type 0
IsOwn nil = Unit
IsOwn (plain message) = Unit
IsOwn (wrapped message e) = IsOwn e
IsOwn syntax_error = ⊥
IsOwn (unmarshal_type_error field expected actual) = ⊥
IsOwn (problem_error details cause) = IsOwn cause

-- A syntax error is on the chain.
abbrev pub HasSyntaxError : Error → Type 0
HasSyntaxError nil = ⊥
HasSyntaxError (plain message) = ⊥
HasSyntaxError (wrapped message e) = HasSyntaxError e
HasSyntaxError syntax_error = Unit
HasSyntaxError (unmarshal_type_error field expected actual) = ⊥
HasSyntaxError (problem_error details cause) = HasSyntaxError cause

own_syntax : (e : Error) → IsOwn e → as_syntax_error e ≡ false
unfolding as_syntax_error
own_syntax nil h = refl
own_syntax (plain message) h = refl
own_syntax (wrapped message e) h = own_syntax e h
own_syntax syntax_error h = absurd h
own_syntax (unmarshal_type_error field expected actual) h = absurd h
own_syntax (problem_error details cause) h = own_syntax cause h

own_unmarshal : (e : Error) → IsOwn e → as_unmarshal_error e ≡ none
unfolding as_unmarshal_error
own_unmarshal nil h = refl
own_unmarshal (plain message) h = refl
own_unmarshal (wrapped message e) h = own_unmarshal e h
own_unmarshal syntax_error h = absurd h
own_unmarshal (unmarshal_type_error field expected actual) h = absurd h
own_unmarshal (problem_error details cause) h = own_unmarshal cause h

has_syntax : (e : Error) → HasSyntaxError e → as_syntax_error e ≡ true
unfolding as_syntax_error
has_syntax nil h = absurd h
has_syntax (plain message) h = absurd h
has_syntax (wrapped message e) h = has_syntax e h
has_syntax syntax_error h = refl
has_syntax (unmarshal_type_error field expected actual) h = absurd h
has_syntax (problem_error details cause) h = has_syntax cause h

wrap_syntax : (ms : List Text) (e : Error) → as_syntax_error (wrap_all ms e) ≡ as_syntax_error e
unfolding as_syntax_error
wrap_syntax [] e = refl
wrap_syntax (m ∷ ms) e = wrap_syntax ms e

wrap_unmarshal :
    (ms : List Text) (e : Error) → as_unmarshal_error (wrap_all ms e) ≡ as_unmarshal_error e
unfolding as_unmarshal_error
wrap_unmarshal [] e = refl
wrap_unmarshal (m ∷ ms) e = wrap_unmarshal ms e

wrap_problem : (ms : List Text) (e : Error) → as_problem (wrap_all ms e) ≡ as_problem e
unfolding as_problem
wrap_problem [] e = refl
wrap_problem (m ∷ ms) e = wrap_problem ms e

-- A problem that the handler returns, wrapped any number of times, reaches the client unchanged,
-- if no error of encoding/json is on its chain of causes.
default_problem_mapper-as_error :
    (messages : List Text) (p : Problem)
    → IsOwn p.cause
    → default_problem_mapper (wrap_all messages (as_error p)) ≡ p
unfolding default_problem_mapper
default_problem_mapper-as_error messages p own =
    let e = as_error p in
    ground (
      arith,
      wrap_syntax messages e,
      wrap_unmarshal messages e,
      wrap_problem messages e,
      own_syntax e own,
      own_unmarshal e own,
    )

-- A problem whose internal cause is or wraps a JSON syntax error is replaced: whatever its own
-- status, title, detail and members, the client gets the 400 of a malformed request body.
pub default_problem_mapper-masks :
    (messages : List Text) (p : Problem)
    → HasSyntaxError p.cause
    → default_problem_mapper (wrap_all messages (as_error p))
      ≡ new 400 (codes "Malformed request body") (codes "Request body contains invalid JSON")
unfolding default_problem_mapper
default_problem_mapper-masks messages p h =
    let e = as_error p in ground (arith, wrap_syntax messages e, has_syntax e h)
