-- ===== src/Httpx/Precondition/Permission.antt =====
-- When a conditional write may proceed, and how it is refused.
use arnon.Prelude.{
  ℕ, ◌-◌, ◌%◌, ◌≤◌, ◌≡◌, ◌≢◌, refl, sym, ap, ◌∙◌, ◌⊎◌, inl, inr, true, false, Option, none, some,
  List, [], Bool-cases,
}
use mathlib.Core.List.{Memᴰ}
use arnon.Prelude.Strings.{Text, codes, same, same_iff, has_prefix, trim_space, split}
use arnon.Problem.{Problem, status_code}
use arnon.Problem.Kinds.{new_precondition_failed, new_precondition_required}
use arnon.Httpx.Precondition.{
  Headers, State, Config, second, if_match_matches, required_detail, match_detail, modified_detail,
  unmodified_since, check,
}

-- RFC 9110's strong comparison with the members of the list.
pub data Matches (header etag : Text) : Type 0 where
  star : header ≡ codes "*" → etag ≢ [] → Matches header etag
  listed :
      (candidate : Text)
      → header ≢ codes "*"
      → Memᴰ candidate (split b',' header)
      → trim_space candidate ≡ etag
      → etag ≢ []
      → has_prefix etag (codes "W/") ≡ false
      → Matches header etag

ne_of_not_same : (s t : Text) → same s t ≡ false → s ≢ t
ne_of_not_same s t h e = cc (h, (same_iff s t).1 e)

module _ (parse_time : Text → Option ℕ) where
  -- Unverifiable, or not modified after the date, to the second.
  pub data IsUnmodified (header : Text) (last_modified : ℕ) : Type 0 where
    untracked : last_modified ≡ 0 → IsUnmodified header last_modified
    unreadable : parse_time header ≡ none → IsUnmodified header last_modified
    not_after :
        (date : ℕ)
        → parse_time header ≡ some date
        → last_modified - last_modified % second ≤ date
        → IsUnmodified header last_modified

  -- The writes that the headers allow on the resource's state: with neither header, where none is
  -- required; with an If-Match that the entity tag satisfies, whatever If-Unmodified-Since says; and
  -- otherwise with an If-Unmodified-Since that does not show a modification.
  pub data Permits (client : Headers) (current : State) (config : Config) : Type 0 where
    unconditional :
        trim_space client.if_match ≡ []
        → trim_space client.if_unmodified_since ≡ []
        → config.require ≡ false
        → Permits client current config
    matching :
        trim_space client.if_match ≢ []
        → Matches (trim_space client.if_match) current.etag
        → Permits client current config
    unmodified :
        trim_space client.if_match ≡ []
        → trim_space client.if_unmodified_since ≢ []
        → IsUnmodified (trim_space client.if_unmodified_since) current.last_modified
        → Permits client current config

  required_status : status_code (new_precondition_required required_detail) ≡ 428
  unfolding status_code new_precondition_required
  required_status = refl

  match_status : status_code (new_precondition_failed match_detail) ≡ 412
  unfolding status_code new_precondition_failed
  match_status = refl

  modified_status : status_code (new_precondition_failed modified_detail) ≡ 412
  unfolding status_code new_precondition_failed
  modified_status = refl

  -- A refused write gets 428 if neither header is there, which happens only where one is required,
  -- and 412 otherwise.
  pub check-refused :
      (client : Headers) (current : State) (config : Config) (p : Problem)
      → check parse_time client current config ≡ some p
      → ((status_code p ≡ 428)
          × (trim_space client.if_match ≡ [])
          × (trim_space client.if_unmodified_since ≡ [])
          × (config.require ≡ true))
        ⊎ ((status_code p ≡ 412)
            × ((trim_space client.if_match ≢ []) ⊎ (trim_space client.if_unmodified_since ≢ [])))
  unfolding check
  check-refused client current config p h =
      let m = trim_space client.if_match in
      let s = trim_space client.if_unmodified_since in
      elim (Bool-cases (same m [])) [
        | inl no_match ↦ elim (Bool-cases (same s [])) [
          | inl no_date ↦ elim (Bool-cases config.require) [
            | inl required ↦
                let e : new_precondition_required required_detail ≡ p =
                  cc (rw (no_match, no_date, required, check) at h) in
                inl (
                  ap status_code (sym e) ∙ required_status,
                  (same_iff _ _).0 no_match,
                  (same_iff _ _).0 no_date,
                  required,
                )
            | inr free ↦ absurd (cc (rw (no_match, no_date, free, check) at h))
          ]
          | inr has_date ↦ elim (Bool-cases (unmodified_since parse_time s current.last_modified)) [
            | inl fine ↦ absurd (cc (rw (no_match, has_date, fine, check) at h))
            | inr late ↦
                let e : new_precondition_failed modified_detail ≡ p =
                  cc (rw (no_match, has_date, late, check) at h) in
                inr (ap status_code (sym e) ∙ modified_status, inr (ne_of_not_same _ _ has_date))
          ]
        ]
        | inr has_match ↦ elim (Bool-cases (if_match_matches m current.etag)) [
          | inl fine ↦ absurd (cc (rw (has_match, fine, check) at h))
          | inr other ↦
              let e : new_precondition_failed match_detail ≡ p =
                cc (rw (has_match, other, check) at h) in
              inr (ap status_code (sym e) ∙ match_status, inl (ne_of_not_same _ _ has_match))
        ]
      ]
