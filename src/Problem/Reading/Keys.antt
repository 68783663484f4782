-- ===== src/Problem/Reading/Keys.antt =====
-- The keys of a problem document: the six of its standard members, and the others.
use arnon.Prelude.{◌≡◌, refl, ◌∙◌, false, Bool-cases, inl, inr, arith}
use mathlib.Core.Path.{subst}
use arnon.Prelude.Strings.{Text, codes, same, same_iff}
use arnon.Problem.{is_reserved_field}

-- The six keys, or another.
pub data Key : Text → Type 0 where
  the_type : Key (codes "type")
  the_title : Key (codes "title")
  the_status : Key (codes "status")
  the_detail : Key (codes "detail")
  the_instance : Key (codes "instance")
  the_errors : Key (codes "errors")
  other_key : {key : Text} → is_reserved_field key ≡ false → Key key

pub same_sym : (s t : Text) → same s t ≡ same t s
same_sym s t = ground (arith, same_iff s t, same_iff t s)

unreserved :
    (k : Text)
    → same (codes "type") k ≡ false
    → same (codes "title") k ≡ false
    → same (codes "status") k ≡ false
    → same (codes "detail") k ≡ false
    → same (codes "instance") k ≡ false
    → same (codes "errors") k ≡ false
    → is_reserved_field k ≡ false
unfolding is_reserved_field
unreserved k a b c d f g = rw (a, b, c, d, f, g) refl

pub key_of : (k : Text) → Key k
key_of k = elim (Bool-cases (same (codes "type") k)) [
  | inl e ↦ subst Key ((same_iff (codes "type") k).0 e) the_type
  | inr a ↦ elim (Bool-cases (same (codes "title") k)) [
    | inl e ↦ subst Key ((same_iff (codes "title") k).0 e) the_title
    | inr b ↦ elim (Bool-cases (same (codes "status") k)) [
      | inl e ↦ subst Key ((same_iff (codes "status") k).0 e) the_status
      | inr c ↦ elim (Bool-cases (same (codes "detail") k)) [
        | inl e ↦ subst Key ((same_iff (codes "detail") k).0 e) the_detail
        | inr d ↦ elim (Bool-cases (same (codes "instance") k)) [
          | inl e ↦ subst Key ((same_iff (codes "instance") k).0 e) the_instance
          | inr f ↦ elim (Bool-cases (same (codes "errors") k)) [
            | inl e ↦ subst Key ((same_iff (codes "errors") k).0 e) the_errors
            | inr g ↦ other_key {key = k} (unreserved k a b c d f g)
          ]
        ]
      ]
    ]
  ]
]

-- No key that is not reserved is one of the six, the reserved one first or last.
pub record IsOther (key : Text) : Type 0 where
  pub not_type : same (codes "type") key ≡ false
  pub not_title : same (codes "title") key ≡ false
  pub not_status : same (codes "status") key ≡ false
  pub not_detail : same (codes "detail") key ≡ false
  pub not_instance : same (codes "instance") key ≡ false
  pub not_errors : same (codes "errors") key ≡ false

pub free-IsOther : (key : Text) → is_reserved_field key ≡ false → IsOther key
unfolding is_reserved_field
free-IsOther key free = record {
  not_type = ground (arith, free);
  not_title = ground (arith, free);
  not_status = ground (arith, free);
  not_detail = ground (arith, free);
  not_instance = ground (arith, free);
  not_errors = ground (arith, free);
}

pub flipped : (s t : Text) → same s t ≡ false → same t s ≡ false
flipped s t h = same_sym t s ∙ h
