-- ===== src/Problem/Extensions.antt =====
-- Extension members: what `With` accepts, and what `Extension` reads back.
use arnon.Prelude.{
  ◌≡◌, refl, inl, inr, true, false, some, Result, ok, err, List, [], ◌∷◌, arith, Bool-cases,
  if◌then◌else◌,
}
use arnon.Prelude.Strings.{Text, same, same_iff, trim_space}
use arnon.Problem.{
  Json, Problem, ExtensionPanic, empty_extension_key, reserved_extension_key, is_reserved_field,
  assign, member, with_extension, extension,
}

member-assign :
    (key other : Text) (value : Json) (members : List (Text × Json))
    → member other (assign key value members)
      ≡ (if same key other then some value else member other members)
unfolding member assign
member-assign key other value [] = refl
member-assign key other value ((k, v) ∷ rest) = ground (
  arith,
  same_iff k key,
  same_iff k other,
  same_iff key other,
  member-assign key other value rest,
)

-- What `With` returns: the two panics, on a blank and on a reserved key, and otherwise a problem in
-- which `Extension` finds the value under the key, blanks around it ignored, finds every other
-- member as before, and all standard fields are as they were.
pub record IsExtended (key : Text) (value : Json) (p q : Problem) : Type 0 where
  pub not_blank : same (trim_space key) [] ≡ false
  pub not_reserved : is_reserved_field (trim_space key) ≡ false
  pub reads :
      (other : Text)
      → extension other q
        ≡ (if same (trim_space key) (trim_space other) then some value else extension other p)
  pub type_uri : q.type_uri ≡ p.type_uri
  pub title : q.title ≡ p.title
  pub status : q.status ≡ p.status
  pub detail : q.detail ≡ p.detail
  pub instance_uri : q.instance_uri ≡ p.instance_uri
  pub errors : q.errors ≡ p.errors
  pub cause : q.cause ≡ p.cause

abbrev pub Extends : Text → Json → Problem → Result ExtensionPanic Problem → Type 0
Extends key value p (ok q) = IsExtended key value p q
Extends key value p (err empty_extension_key) = trim_space key ≡ []
Extends key value p (err (reserved_extension_key k)) =
    (k ≡ trim_space key) × (is_reserved_field k ≡ true)

-- `With` on every branch: it panics on a blank key and on a reserved one, and otherwise returns a
-- problem that differs only in the member under the trimmed key, which reads as the value.
pub with_extension-Extends :
    (key : Text) (value : Json) (p : Problem) → Extends key value p (with_extension key value p)
unfolding with_extension
with_extension-Extends key value p = elim (Bool-cases (same (trim_space key) [])) [
  | inl blank ↦ rw (blank, with_extension) ((same_iff _ _).0 blank)
  | inr filled ↦ elim (Bool-cases (is_reserved_field (trim_space key))) [
    | inl reserved ↦ rw (filled, reserved, with_extension) (refl, reserved)
    | inr free ↦
        rw (filled, free, with_extension)
          (record {
            not_blank = filled;
            not_reserved = free;
            reads = λ other.
                unfold extension in
                member-assign (trim_space key) (trim_space other) value p.extensions;
            type_uri = refl;
            title = refl;
            status = refl;
            detail = refl;
            instance_uri = refl;
            errors = refl;
            cause = refl;
          })
  ]
]
