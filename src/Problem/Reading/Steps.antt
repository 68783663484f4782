-- ===== src/Problem/Reading/Steps.antt =====
-- One member of a problem document that is read: what it changes, by its key.
use arnon.Prelude.{
  ℕ, ◌≡◌, refl, ◌∙◌, Bool, true, false, Option, none, some, List, [], ◌∷◌, ok, arith, if◌then◌else◌,
}
use arnon.Prelude.Strings.{Text, codes, same, same_iff}
use arnon.Problem.{
  Json, string, number, ValidationError, Details, is_reserved_field, assign, member,
}
use arnon.Problem.Document.{Member}
use arnon.Problem.Reading.{read_text, read_number, unmarshal_member}
use arnon.Problem.Reading.Keys.{
  Key, the_type, the_title, the_status, the_detail, the_instance, the_errors, other_key,
  free-IsOther, flipped,
}

-- What a member leaves in a field that it is read into.
abbrev pub text_or : Option Json → Text → Text
text_or none old = old
text_or (some (string s)) old = s
text_or (some other) old = old

abbrev pub number_or : Option Json → ℕ → ℕ
number_or none old = old
number_or (some (number n)) old = n
number_or (some other) old = old

abbrev pub or_else : Option Json → Option Json → Option Json
or_else none old = old
or_else (some v) old = some v

member-assign :
    (key k : Text) (v : Json) (ms : List Member)
    → member key (assign k v ms) ≡ (if same k key then some v else member key ms)
unfolding member assign
member-assign key k v [] = refl
member-assign key k v ((n, w) ∷ rest) =
    ground (arith, member-assign key k v rest, same_iff n k, same_iff k key, same_iff n key)

-- A value read into an `any`, in place of an old one.
abbrev pub any_or : (Json → Option Json) → Option Json → Option Json → Option Json
any_or read_any none old = old
any_or read_any (some v) old = or_else (read_any v) old

test_any_or :
    (read_any : Json → Option Json) (b : Bool) (v w : Json) (o : Option Json)
    → read_any v ≡ some w
    → (if b then some w else o) ≡ any_or read_any (if b then some v else none) o
test_any_or read_any true v w o e = rw e refl
test_any_or read_any false v w o e = refl

unfoldable pub if_key : Text → Text → Json → Option Json
if_key k key v = if same k key then some v else none

module _ (read_errors : Json → Option (List ValidationError)) (read_any : Json → Option Json) where
  abbrev pub errors_of : Option (List ValidationError) → List ValidationError → List ValidationError
  errors_of none old = old
  errors_of (some es) old = es

  abbrev pub errors_or : Option Json → List ValidationError → List ValidationError
  errors_or none old = old
  errors_or (some v) old = errors_of (read_errors v) old

  -- A member that can be read under its key.
  unfoldable pub Fits : {k : Text} → Key k → Json → Type 0
  Fits the_type v = (s : Text) × (v ≡ string s)
  Fits the_title v = (s : Text) × (v ≡ string s)
  Fits the_status v = (n : ℕ) × (v ≡ number n)
  Fits the_detail v = (s : Text) × (v ≡ string s)
  Fits the_instance v = (s : Text) × (v ≡ string s)
  Fits the_errors v = (es : List ValidationError) × (read_errors v ≡ some es)
  Fits (other_key free) v = (w : Json) × (read_any v ≡ some w)

  -- What a reading has made of the details, with the values that it has seen.
  pub record Read (look : Text → Option Json) (d d' : Details) : Type 0 where
    pub type_uri : d'.type_uri ≡ text_or (look (codes "type")) d.type_uri
    pub title : d'.title ≡ text_or (look (codes "title")) d.title
    pub status : d'.status ≡ number_or (look (codes "status")) d.status
    pub detail : d'.detail ≡ text_or (look (codes "detail")) d.detail
    pub instance_uri : d'.instance_uri ≡ text_or (look (codes "instance")) d.instance_uri
    pub errors : d'.errors ≡ errors_or (look (codes "errors")) d.errors
    pub extensions :
        (key : Text)
        → is_reserved_field key ≡ false
        → member key d'.extensions ≡ any_or read_any (look key) (member key d.extensions)

  abbrev pub Step : Text → Json → Details → Type 0
  Step k v d =
      (d' : Details) × (unmarshal_member read_errors read_any k v d ≡ ok d')
      × Read (λ key. if_key k key v) d d'

  kept :
      (k : Text) (v : Json) (d : Details) (key : Text)
      → same k key ≡ false
      → member key d.extensions ≡ any_or read_any (if_key k key v) (member key d.extensions)
  unfolding if_key
  kept k v d key h = rw h refl

  pub read_member : {k : Text} (c : Key k) (v : Json) (d : Details) → Fits c v → Step k v d
  unfolding unmarshal_member read_text read_number same Fits if_key
  read_member the_type v d (s, e) = rw e (
    record d { type_uri = s },
    refl,
    record {
      type_uri = refl;
      title = refl;
      status = refl;
      detail = refl;
      instance_uri = refl;
      errors = refl;
      extensions =
          λ key other. kept (codes "type") (string s) d key (free-IsOther key other).not_type;
    },
  )
  read_member the_title v d (s, e) = rw e (
    record d { title = s },
    refl,
    record {
      type_uri = refl;
      title = refl;
      status = refl;
      detail = refl;
      instance_uri = refl;
      errors = refl;
      extensions =
          λ key other. kept (codes "title") (string s) d key (free-IsOther key other).not_title;
    },
  )
  read_member the_status v d (s, e) = rw e (
    record d { status = s },
    refl,
    record {
      type_uri = refl;
      title = refl;
      status = refl;
      detail = refl;
      instance_uri = refl;
      errors = refl;
      extensions =
          λ key other. kept (codes "status") (number s) d key (free-IsOther key other).not_status;
    },
  )
  read_member the_detail v d (s, e) = rw e (
    record d { detail = s },
    refl,
    record {
      type_uri = refl;
      title = refl;
      status = refl;
      detail = refl;
      instance_uri = refl;
      errors = refl;
      extensions =
          λ key other. kept (codes "detail") (string s) d key (free-IsOther key other).not_detail;
    },
  )
  read_member the_instance v d (s, e) = rw e (
    record d { instance_uri = s },
    refl,
    record {
      type_uri = refl;
      title = refl;
      status = refl;
      detail = refl;
      instance_uri = refl;
      errors = refl;
      extensions = λ key other.
          kept (codes "instance") (string s) d key (free-IsOther key other).not_instance;
    },
  )
  read_member the_errors v d (es, e) = (
    record d { errors = es },
    rw e refl,
    record {
      type_uri = refl;
      title = refl;
      status = refl;
      detail = refl;
      instance_uri = refl;
      errors = rw e refl;
      extensions = λ key other. kept (codes "errors") v d key (free-IsOther key other).not_errors;
    },
  )
  read_member (other_key {key} free) v d (w, e) =
      let o = free-IsOther key free in
      let a = flipped (codes "type") key o.not_type in
      let b = flipped (codes "title") key o.not_title in
      let c = flipped (codes "status") key o.not_status in
      let g = flipped (codes "detail") key o.not_detail in
      let h = flipped (codes "instance") key o.not_instance in
      let i = flipped (codes "errors") key o.not_errors in
      (
        record d { extensions = assign key w d.extensions },
        rw (a, b, c, g, h, i, e) refl,
        record {
          type_uri = rw a refl;
          title = rw b refl;
          status = rw c refl;
          detail = rw g refl;
          instance_uri = rw h refl;
          errors = rw i refl;
          extensions = λ k other.
              member-assign k key w d.extensions
              ∙ test_any_or read_any (same key k) v w (member k d.extensions) e;
        },
      )
