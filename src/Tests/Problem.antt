-- ===== src/Tests/Problem.antt =====
-- Runs of the package problem.
use mathlib.Core.Path.{subst}
use arnon.Prelude.{
  ◌-◌, ◌%◌, leb, if◌then◌else◌, Bool-cases, inl, inr, ok, Option, some, List, ◌≡◌, refl, [], ◌∷◌,
}
use arnon.Prelude.Strings.{Text, codes, same, same_iff}
use arnon.Problem.{
  Json, null, unencodable, boolean, array, object, string, ValidationError, number, Problem, new,
  is_reserved_field, member, with_extension,
}
use arnon.Problem.Extensions.{Extends, with_extension-Extends}
use arnon.Problem.Document.{members}
use arnon.Problem.Document.{
  Member, text_member, status_member, errors_member, standard_members, sorted, insert,
}
use arnon.Problem.Reading.{unmarshal_json}
use arnon.Problem.Reading.RoundTrip.{SameProblem, unmarshal_json-members}

abbrev conflict : Problem
conflict = new 409 (codes "Conflict") (codes "stale")

abbrev traced : Problem
traced = record {
  details = record conflict.details { extensions = (codes "trace", number 7) ∷ [] };
  cause = conflict.cause;
}

with_extension-Extends_example :
    Extends
      (codes " trace ")
      (number 7)
      conflict
      (with_extension (codes " trace ") (number 7) conflict)
with_extension-Extends_example = with_extension-Extends (codes " trace ") (number 7) conflict

-- The members of the document, the extension first.
abbrev shuffled : List Member
shuffled =
    (codes "trace", number 7)
    ∷ (codes "title", string (codes "Conflict"))
    ∷ (codes "status", number 409)
    ∷ (codes "detail", string (codes "stale"))
    ∷ []

abbrev read_none : Json → Option (List ValidationError)
read_none v = some []

shuffled-member : (key : Text) → member key shuffled ≡ member key (members traced)
unfolding member members standard_members text_member status_member errors_member sorted insert same
    new
shuffled-member key = elim (Bool-cases (same (codes "trace") key)) [
  | inl e ↦
      subst (λ k. member k shuffled ≡ member k (members traced))
        ((same_iff (codes "trace") key).0 e) refl
  | inr e ↦ rw e refl
]

-- A value reads as itself, but for a number beyond 2^53, which loses its last bit.
abbrev as_any : Json → Option Json
as_any (number n) = some (number (if leb n 9_007_199_254_740_992 then n else n - n % 2))
as_any null = some null
as_any unencodable = some unencodable
as_any (boolean b) = some (boolean b)
as_any (string s) = some (string s)
as_any (array items) = some (array items)
as_any (object inner) = some (object inner)

as_any_reads : (v : Json) → (w : Json) × (as_any v ≡ some w)
as_any_reads (number n) = (_, refl)
as_any_reads null = (_, refl)
as_any_reads unencodable = (_, refl)
as_any_reads (boolean b) = (_, refl)
as_any_reads (string s) = (_, refl)
as_any_reads (array items) = (_, refl)
as_any_reads (object inner) = (_, refl)

unmarshal_json-members_example :
    (q : Problem) × (unmarshal_json read_none as_any shuffled ≡ ok q) × SameProblem as_any traced q
unfolding new member same
unmarshal_json-members_example =
    unmarshal_json-members read_none as_any traced shuffled (unfold is_reserved_field in (refl, tt))
      refl (λ key v at. as_any_reads v) (refl, (refl, (refl, (refl, tt)))) shuffled-member
