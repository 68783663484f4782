-- ===== src/Problem/Document/Standard.antt =====
-- What a client reads under the six keys of RFC 9457 in a problem document.
use arnon.Prelude.{
  ℕ, ◌≡◌, refl, ap, ◌∙◌, true, false, Option, none, some, List, [], ◌∷◌, ◌++◌, arith, All, ◌==◌,
  if◌then◌else◌,
}
use arnon.Prelude.Strings.{Text, codes, same, same_iff}
use arnon.Problem.{Json, string, number, array, ValidationError, Problem, is_reserved_field, member}
use arnon.Problem.Document.{
  Member, text_member, status_member, errors_member, errors_json, standard_members, sorted, members,
}
use arnon.Problem.Document.Members.{member-append, member-sorted}

-- A field at its zero value has no member.
abbrev pub text_view : Text → Option Json
text_view s = if same s [] then none else some (string s)

abbrev pub number_view : ℕ → Option Json
number_view n = if n == 0 then none else some (number n)

abbrev pub errors_view : List ValidationError → Option Json
errors_view [] = none
errors_view (e ∷ rest) = some (array (errors_json (e ∷ rest)))

pub record Shows (p : Problem) (look : Text → Option Json) : Type 0 where
  pub type_uri : look (codes "type") ≡ text_view p.type_uri
  pub title : look (codes "title") ≡ text_view p.title
  pub status : look (codes "status") ≡ number_view p.status
  pub detail : look (codes "detail") ≡ text_view p.detail
  pub instance_uri : look (codes "instance") ≡ text_view p.instance_uri
  pub errors : look (codes "errors") ≡ errors_view p.errors

-- The keys of the extension members are those that `With` takes.
abbrev pub IsUnreserved : List Member → Type 0
IsUnreserved ms = All (λ m. is_reserved_field m.0 ≡ false) ms

ap_reserved : (k key : Text) → k ≡ key → is_reserved_field k ≡ is_reserved_field key
ap_reserved k key e = ap is_reserved_field e

none_after : (o n : Option Json) → n ≡ none → (elim o [ none ↦ n | some v ↦ some v ]) ≡ o
none_after none n h = h
none_after (some v) n h = refl

unreserved-none :
    (key : Text) (ms : List Member)
    → is_reserved_field key ≡ true
    → IsUnreserved ms
    → member key ms ≡ none
unfolding member
unreserved-none key [] r h = refl
unreserved-none key ((k, v) ∷ rest) r (free, h) =
    ground (arith, unreserved-none key rest r h, same_iff k key, ap_reserved k key)

append-none :
    (key : Text) (ms ns : List Member)
    → member key ns ≡ none
    → member key (ms ++ ns) ≡ member key ms
append-none key ms ns h = member-append key ms ns ∙ none_after (member key ms) (member key ns) h

members-standard :
    (key : Text) (p : Problem)
    → is_reserved_field key ≡ true
    → IsUnreserved p.extensions
    → member key (members p) ≡ member key (standard_members p)
members-standard key p r h =
    unfold members in
    append-none key (standard_members p) (sorted p.extensions)
      (member-sorted key p.extensions ∙ unreserved-none key p.extensions r h)

-- The six properties by their values, so that each may be split.
errors-Shows :
    (p : Problem) (errors : List ValidationError)
    → p.errors ≡ errors
    → Shows p (λ key. member key (standard_members p))
unfolding standard_members text_member status_member errors_member member same
errors-Shows p [] h = rw h (record {
  type_uri = ground arith;
  title = ground arith;
  status = ground arith;
  detail = ground arith;
  instance_uri = ground arith;
  errors = ground arith;
})
errors-Shows p (e ∷ rest) h = record {
  type_uri = ground (arith, h);
  title = ground (arith, h);
  status = ground (arith, h);
  detail = ground (arith, h);
  instance_uri = ground (arith, h);
  errors = ground (arith, h);
}

standard-Shows : (p : Problem) → Shows p (λ key. member key (standard_members p))
standard-Shows p = errors-Shows p p.errors refl

pub members-Shows :
    (p : Problem) → IsUnreserved p.extensions → Shows p (λ key. member key (members p))
members-Shows p h =
    let s = standard-Shows p in
    record {
      type_uri =
          members-standard (codes "type") p (unfold is_reserved_field same in refl) h ∙ s.type_uri;
      title =
          members-standard (codes "title") p (unfold is_reserved_field same in refl) h ∙ s.title;
      status =
          members-standard (codes "status") p (unfold is_reserved_field same in refl) h ∙ s.status;
      detail =
          members-standard (codes "detail") p (unfold is_reserved_field same in refl) h ∙ s.detail;
      instance_uri =
          members-standard (codes "instance") p (unfold is_reserved_field same in refl) h
          ∙ s.instance_uri;
      errors =
          members-standard (codes "errors") p (unfold is_reserved_field same in refl) h ∙ s.errors;
    }
