-- ===== src/Problem/Document/Members.antt =====
-- What a client reads in a problem document.
use arnon.Prelude.{ℕ, ◌≡◌, refl, false, none, some, List, [], ◌∷◌, ◌++◌, arith, if◌then◌else◌}
use arnon.Prelude.Strings.{Text, codes, same, same_iff}
use arnon.Problem.{ValidationError, Problem, is_reserved_field, member}
use arnon.Problem.Document.{
  Member, less, insert, sorted, text_member, status_member, errors_member, standard_members,
  members,
}

less_irrefl : (s : Text) → less s s ≡ false
unfolding less
less_irrefl [] = refl
less_irrefl (a ∷ s) = ground (arith, less_irrefl s)

member-insert :
    (key : Text) (m : Member) (ms : List Member)
    → member key (insert m ms) ≡ (if same m.0 key then some m.1 else member key ms)
unfolding member insert
member-insert key m [] = refl
member-insert key m (n ∷ rest) =
    ground (arith, member-insert key m rest, less_irrefl key, same_iff m.0 key, same_iff n.0 key)

pub member-sorted : (key : Text) (ms : List Member) → member key (sorted ms) ≡ member key ms
unfolding member sorted
member-sorted key [] = refl
member-sorted key (m ∷ rest) =
    ground (arith, member-insert key m (sorted rest), member-sorted key rest)

pub member-append :
    (key : Text) (ms ns : List Member)
    → member key (ms ++ ns) ≡ (elim (member key ms) [ none ↦ member key ns | some v ↦ some v ])
unfolding member
member-append key [] ns = refl
member-append key (m ∷ ms) ns = ground (arith, member-append key ms ns)

append-free :
    (key : Text) (ms ns : List Member)
    → member key ms ≡ none
    → member key ns ≡ none
    → member key (ms ++ ns) ≡ none
append-free key ms ns h k = rw (member-append key ms ns, h) k

text_member-free :
    (key name value : Text) → same name key ≡ false → member key (text_member name value) ≡ none
unfolding member text_member
text_member-free key name value h = ground arith

status_member-free :
    (key : Text) (status : ℕ)
    → same (codes "status") key ≡ false
    → member key (status_member status) ≡ none
unfolding member
status_member-free key status h = unfold status_member in ground arith

errors_member-free :
    (key : Text) (errors : List ValidationError)
    → same (codes "errors") key ≡ false
    → member key (errors_member errors) ≡ none
unfolding member errors_member
errors_member-free key [] h = refl
errors_member-free key (e ∷ rest) h = ground arith

-- No standard member goes by a key that is not reserved.
standard-free :
    (key : Text) (p : Problem)
    → is_reserved_field key ≡ false
    → member key (standard_members p) ≡ none
unfolding is_reserved_field
standard-free key p free =
    unfold standard_members in
    append-free key _ _ (text_member-free key (codes "type") p.type_uri (ground arith)) (
      append-free key _ _ (text_member-free key (codes "title") p.title (ground arith)) (
        append-free key _ _ (status_member-free key p.status (ground arith)) (
          append-free key _ _ (text_member-free key (codes "detail") p.detail (ground arith)) (
            append-free key _ _
              (text_member-free key (codes "instance") p.instance_uri (ground arith))
              (errors_member-free key p.errors (ground arith))))))

-- A client that looks a key up in the document that is not one of the standard members finds what
-- the problem holds as the extension member of that key, and nothing where it holds none.
pub member-members :
    (key : Text) (p : Problem)
    → is_reserved_field key ≡ false
    → member key (members p) ≡ member key p.extensions
member-members key p free =
    unfold members in
    rw (member-append key (standard_members p) (sorted p.extensions), standard-free key p free)
      (member-sorted key p.extensions)
