-- ===== src/Problem/Reading/RoundTrip.antt =====
-- A problem that is rendered and read again.
use mathlib.Core.Path.{subst}
use mathlib.Core.Option.{some-injective}
use arnon.Prelude.{
  ℕ, ◌≡◌, refl, sym, ap, ◌∙◌, Bool, true, false, Bool-cases, inl, inr, Option, none, some, List, [],
  ◌∷◌, ok, arith, ◌==◌, if◌then◌else◌,
}
use arnon.Prelude.Strings.{Text, codes, same, same_iff, same_refl}
use arnon.Problem.{
  Json, string, number, array, ValidationError, Details, Problem, nil, is_reserved_field, member,
}
use arnon.Problem.Document.{Member, errors_json, members}
use arnon.Problem.Document.Members.{member-members}
use arnon.Problem.Document.Standard.{
  text_view, number_view, errors_view, Shows, IsUnreserved, members-Shows,
}
use arnon.Problem.Reading.{zero_details, unmarshal_members, unmarshal_json}
use arnon.Problem.Reading.Keys.{
  Key, the_type, the_title, the_status, the_detail, the_instance, the_errors, other_key, key_of,
}
use arnon.Problem.Reading.Steps.{
  text_or, number_or, or_else, any_or, if_key, errors_or, Fits, Read, read_member,
}

-- No key twice.
abbrev pub IsDistinct : List Member → Type 0
IsDistinct [] = Unit
IsDistinct ((k, v) ∷ rest) = (member k rest ≡ none) × IsDistinct rest

or_else_none : (key : Text) (o : Option Json) → or_else o (member key []) ≡ o
unfolding member
or_else_none key none = refl
or_else_none key (some v) = refl

-- Reading a value and then the rest is reading the whole, where the rest does not have the key.
in_turn :
    {A : Type 0} (f : Option Json → A → A) (b : Bool) (v : Json) (rest : Option Json) (a : A)
    → ((x : A) → f none x ≡ x)
    → (b ≡ true → rest ≡ none)
    → f rest (f (if b then some v else none) a) ≡ f (if b then some v else rest) a
in_turn f true v rest a h once = rw (once refl) (h (f (some v) a))
in_turn f false v rest a h once = ap (f rest) (h a)

at_once :
    (k key : Text) (rest : List Member)
    → member k rest ≡ none
    → same k key ≡ true
    → member key rest ≡ none
at_once k key rest h e = subst (λ t. member t rest ≡ none) ((same_iff k key).0 e) h

text_or-view : (s : Text) → text_or (text_view s) [] ≡ s
unfolding same
text_or-view [] = refl
text_or-view (c ∷ s) = refl

number_or-view : (n : ℕ) → number_or (number_view n) 0 ≡ n
number_or-view n = elim (Bool-cases (n == 0)) [ inl e ↦ ground (arith, e) | inr e ↦ rw e refl ]

text_fits : (s : Text) (v : Json) → text_view s ≡ some v → (t : Text) × (v ≡ string t)
unfolding same
text_fits [] v e = absurd (cc)
text_fits (c ∷ s) v e = (c ∷ s, some-injective _ _ (sym e))

number_fits : (n : ℕ) (v : Json) → number_view n ≡ some v → (m : ℕ) × (v ≡ number m)
number_fits n v e = elim (Bool-cases (n == 0)) [
  | inl z ↦ absurd (cc (rw z at e))
  | inr z ↦ (n, some-injective _ _ (sym (rw z at e)))
]

module _ (read_errors : Json → Option (List ValidationError)) (read_any : Json → Option Json) where
  then_Read :
      (k : Text) (v : Json) (rest : List Member) (d d₁ d' : Details)
      → member k rest ≡ none
      → Read read_errors read_any (λ key. if_key k key v) d d₁
      → Read read_errors read_any (λ key. member key rest) d₁ d'
      → Read read_errors read_any (λ key. member key ((k, v) ∷ rest)) d d'
  unfolding member if_key
  then_Read k v rest d d₁ d' h r s = record {
    type_uri =
        s.type_uri
        ∙ ap (text_or (member (codes "type") rest)) r.type_uri
        ∙ in_turn text_or (same k (codes "type")) v _ d.type_uri (λ x. refl)
            (at_once k (codes "type") rest h);
    title =
        s.title
        ∙ ap (text_or (member (codes "title") rest)) r.title
        ∙ in_turn text_or (same k (codes "title")) v _ d.title (λ x. refl)
            (at_once k (codes "title") rest h);
    status =
        s.status
        ∙ ap (number_or (member (codes "status") rest)) r.status
        ∙ in_turn number_or (same k (codes "status")) v _ d.status (λ x. refl)
            (at_once k (codes "status") rest h);
    detail =
        s.detail
        ∙ ap (text_or (member (codes "detail") rest)) r.detail
        ∙ in_turn text_or (same k (codes "detail")) v _ d.detail (λ x. refl)
            (at_once k (codes "detail") rest h);
    instance_uri =
        s.instance_uri
        ∙ ap (text_or (member (codes "instance") rest)) r.instance_uri
        ∙ in_turn text_or (same k (codes "instance")) v _ d.instance_uri (λ x. refl)
            (at_once k (codes "instance") rest h);
    errors =
        s.errors
        ∙ ap (errors_or read_errors read_any (member (codes "errors") rest)) r.errors
        ∙ in_turn (errors_or read_errors read_any) (same k (codes "errors")) v _ d.errors
            (λ x. refl) (at_once k (codes "errors") rest h);
    extensions = λ key other.
        s.extensions key other
        ∙ ap (any_or read_any (member key rest)) (r.extensions key other)
        ∙ in_turn (any_or read_any) (same k key) v _ (member key d.extensions) (λ x. refl)
            (at_once k key rest h);
  }

  -- What can be read under each key that a list of members shows.
  abbrev AllFit : List Member → Type 0
  AllFit ms =
      (k : Text) (v : Json) → member k ms ≡ some v → (c : Key k) → Fits read_errors read_any c v

  tail_fits :
      (k : Text) (v : Json) (rest : List Member)
      → member k rest ≡ none
      → AllFit ((k, v) ∷ rest)
      → AllFit rest
  unfolding member
  tail_fits k v rest h fit key w e c = elim (Bool-cases (same k key)) [
    | inl at ↦ absurd (cc (at_once k key rest h at, e))
    | inr apart ↦ fit key w (rw apart e) c
  ]

  nothing_read : (d : Details) → Read read_errors read_any (λ key. member key []) d d
  unfolding member
  nothing_read d = record {
    type_uri = refl;
    title = refl;
    status = refl;
    detail = refl;
    instance_uri = refl;
    errors = refl;
    extensions = λ key other. refl;
  }

  read_all :
      (ms : List Member) (d : Details)
      → IsDistinct ms
      → AllFit ms
      → (d' : Details) × (unmarshal_members read_errors read_any ms d ≡ ok d')
        × Read read_errors read_any (λ key. member key ms) d d'
  unfolding unmarshal_members
  read_all [] d u fit = (d, refl, nothing_read d)
  read_all ((k, v) ∷ rest) d (h, u) fit =
      let (d₁, e, r) =
        read_member read_errors read_any (key_of k) v d
          (fit k v (unfold member in rw (same_refl k) refl) (key_of k)) in
      let (d', f, s) = read_all rest d₁ u (tail_fits k v rest h fit) in
      (d', rw (e, unmarshal_members) f, then_Read k v rest d d₁ d' h r s)

  errors_fit :
      (es : List ValidationError) (v : Json)
      → read_errors (array (errors_json es)) ≡ some es
      → errors_view es ≡ some v
      → (fs : List ValidationError) × (read_errors v ≡ some fs)
  errors_fit [] v law e = absurd (cc)
  errors_fit (x ∷ es) v law e =
      (x ∷ es, subst (λ w. read_errors w ≡ some (x ∷ es)) (some-injective _ _ e) law)

  errors_or-view :
      (es : List ValidationError)
      → read_errors (array (errors_json es)) ≡ some es
      → errors_or read_errors read_any (errors_view es) [] ≡ es
  errors_or-view [] law = refl
  errors_or-view (x ∷ es) law = rw law refl

  module _ (p : Problem) (ms : List Member)
      (law : read_errors (array (errors_json p.errors)) ≡ some p.errors)
      (shows : Shows p (λ key. member key ms))
      (readable : (key : Text) (v : Json)
        → is_reserved_field key ≡ false
        → member key ms ≡ some v
        → (w : Json) × (read_any v ≡ some w)) where
    all_fit : AllFit ms
    unfolding Fits
    all_fit k v e the_type = text_fits p.type_uri v (sym shows.type_uri ∙ e)
    all_fit k v e the_title = text_fits p.title v (sym shows.title ∙ e)
    all_fit k v e the_status = number_fits p.status v (sym shows.status ∙ e)
    all_fit k v e the_detail = text_fits p.detail v (sym shows.detail ∙ e)
    all_fit k v e the_instance = text_fits p.instance_uri v (sym shows.instance_uri ∙ e)
    all_fit k v e the_errors = errors_fit p.errors v law (sym shows.errors ∙ e)
    all_fit k v e (other_key free) = readable k v free e

-- What encoding/json makes of a value when it is read into an `any`.
abbrev pub reread : (Json → Option Json) → Option Json → Option Json
reread read_any none = none
reread read_any (some v) = read_any v

any_or_none :
    (read_any : Json → Option Json) (key : Text) (o : Option Json)
    → any_or read_any o (member key []) ≡ reread read_any o
any_or_none read_any key none = unfold member in refl
any_or_none read_any key (some v) = or_else_none key (read_any v)

-- A client sees the same problem: the standard members, and under each other key what the value reads as.
pub record SameProblem (read_any : Json → Option Json) (p q : Problem) : Type 0 where
  pub type_uri : q.type_uri ≡ p.type_uri
  pub title : q.title ≡ p.title
  pub status : q.status ≡ p.status
  pub detail : q.detail ≡ p.detail
  pub instance_uri : q.instance_uri ≡ p.instance_uri
  pub errors : q.errors ≡ p.errors
  pub extensions :
      (key : Text)
      → is_reserved_field key ≡ false
      → member key q.extensions ≡ reread read_any (member key p.extensions)
  pub cause : q.cause ≡ nil

-- A problem with no reserved key among its extensions, whose errors encoding/json reads back as they were,
-- and whose extensions' values it can read into an `any`, is read back from the members of its document, in
-- whatever order they come: with its type, title, status, detail, instance and errors, with what its value reads
-- as under each extension key and none under another, and without its internal cause.
pub unmarshal_json-members :
    (read_errors : Json → Option (List ValidationError)) (read_any : Json → Option Json)
    (p : Problem) (ms : List Member)
    → IsUnreserved p.extensions
    → read_errors (array (errors_json p.errors)) ≡ some p.errors
    → ((key : Text) (v : Json)
        → member key p.extensions ≡ some v
        → (w : Json) × (read_any v ≡ some w))
    → IsDistinct ms
    → ((key : Text) → member key ms ≡ member key (members p))
    → (q : Problem) × (unmarshal_json read_errors read_any ms ≡ ok q) × SameProblem read_any p q
unfolding unmarshal_json
unmarshal_json-members read_errors read_any p ms free law legible distinct view =
    let m = members-Shows p free in
    let shows : Shows p (λ key. member key ms) = record {
      type_uri = view (codes "type") ∙ m.type_uri;
      title = view (codes "title") ∙ m.title;
      status = view (codes "status") ∙ m.status;
      detail = view (codes "detail") ∙ m.detail;
      instance_uri = view (codes "instance") ∙ m.instance_uri;
      errors = view (codes "errors") ∙ m.errors;
    } in
    let readable : (key : Text) (v : Json)
        → is_reserved_field key ≡ false
        → member key ms ≡ some v
        → (w : Json) × (read_any v ≡ some w) =
      λ key v other at. legible key v (sym (view key ∙ member-members key p other) ∙ at) in
    let (d, e, r) =
      read_all read_errors read_any ms zero_details distinct
        (all_fit read_errors read_any p ms law shows readable) in
    (
      record { details = d; cause = nil },
      rw (e, unmarshal_json) refl,
      record {
        type_uri = r.type_uri ∙ ap (λ o. text_or o []) shows.type_uri ∙ text_or-view p.type_uri;
        title = r.title ∙ ap (λ o. text_or o []) shows.title ∙ text_or-view p.title;
        status = r.status ∙ ap (λ o. number_or o 0) shows.status ∙ number_or-view p.status;
        detail = r.detail ∙ ap (λ o. text_or o []) shows.detail ∙ text_or-view p.detail;
        instance_uri =
            r.instance_uri
            ∙ ap (λ o. text_or o []) shows.instance_uri
            ∙ text_or-view p.instance_uri;
        errors =
            r.errors
            ∙ ap (λ o. errors_or read_errors read_any o []) shows.errors
            ∙ errors_or-view read_errors read_any p.errors law;
        extensions = λ key other.
            r.extensions key other
            ∙ any_or_none read_any key (member key ms)
            ∙ ap (reread read_any) (view key ∙ member-members key p other);
        cause = refl;
      },
    )
