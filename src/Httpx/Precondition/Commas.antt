-- ===== src/Httpx/Precondition/Commas.antt =====
-- An entity tag with a comma inside its quotes, against the list that is split at commas.
use arnon.Prelude.{◌≡◌, ◌≢◌, refl, false, List, [], ◌∷◌, arith, any, All, Bool-cases, inl, inr}
use arnon.Prelude.Strings.{Text, codes, same, same_iff, trim_space, split}
use arnon.Prelude.Strings.Laws.{Has, Has-trim_space, split-free}
use arnon.Httpx.Precondition.{candidate_matches, if_match_matches}

none-matches :
    (etag : Text) (candidates : List Text)
    → Has b',' etag
    → All (λ c. ¬ Has b',' c) candidates
    → any (candidate_matches etag) candidates ≡ false
none-matches etag [] h free = refl
none-matches etag (c ∷ rest) h (no_comma, free) = elim (Bool-cases (candidate_matches etag c)) [
  | inl found ↦
      let e : trim_space c ≡ etag = (same_iff _ _).0 (ground arith) in
      absurd (no_comma (Has-trim_space b',' c (rw e h)))
  | inr other ↦ rw (other, none-matches etag rest h free)
]

-- No If-Match header but "*" is satisfied by a resource whose entity tag contains a comma, the
-- header that repeats that very tag included.
pub if_match_matches-comma :
    (header etag : Text) → Has b',' etag → header ≢ codes "*" → if_match_matches header etag ≡ false
unfolding if_match_matches
if_match_matches-comma header etag h ne = elim (Bool-cases (same header (codes "*"))) [
  | inl is_star ↦ absurd (ne ((same_iff _ _).0 is_star))
  | inr is_list ↦
      let missing = none-matches etag (split b',' header) h (split-free b',' header) in ground arith
]
