-- ===== src/Httpx/Accept/Decisive.antt =====
-- Which entry of an Accept header decides.
use arnon.Prelude.{
  ℕ, ◌≤◌, ◌<◌, ◌≡◌, ◌⊎◌, ◌≢◌, Bool, true, false, Option, none, some, List, [], ◌∷◌, ◌++◌, All,
}
use arnon.Prelude.Strings.{Text, split, trim_space}
use arnon.Httpx.Accept.{Float64, applicable}

module _ {F : Type 0} (fl : Float64 F) where
  -- An entry that does not apply, or applies with a specificity that the test admits.
  abbrev pub Bounded : (ℕ → Type 0) → Option (ℕ × F) → Type 0
  Bounded P none = Unit
  Bounded P (some (specificity, quality)) = P specificity

  -- The entry with this quality decides: those before it are less specific, those after it are not
  -- more specific.
  pub record IsDecisive (entries : List Text) (specificity : ℕ) (quality : F) : Type 0 where
    pub before : List Text
    pub decisive : Text
    pub after : List Text
    pub splits : entries ≡ before ++ decisive ∷ after
    pub applies : applicable fl decisive ≡ some (specificity, quality)
    pub less_before : All (λ e. Bounded (λ s. s < specificity) (applicable fl e)) before
    pub no_more_after : All (λ e. Bounded (λ s. s ≤ specificity) (applicable fl e)) after

  abbrev ResultOf : List Text → Option (ℕ × F) → ℕ → F → Type 0
  ResultOf entries best specificity quality =
      ((best ≡ some (specificity, quality))
        × All (λ e. Bounded (λ s. s ≤ specificity) (applicable fl e)) entries)
      ⊎ (IsDecisive entries specificity quality × Bounded (λ s. s < specificity) best)

-- Why an Accept header is answered as it is: it is blank, no entry of it applies to
-- application/json, or an entry decides by its quality.
pub data Verdict {F : Type 0} (fl : Float64 F) (accept : Text) : Bool → Type 0 where
  blank : trim_space accept ≡ [] → Verdict fl accept true
  inapplicable :
      trim_space accept ≢ []
      → All (λ e. applicable fl e ≡ none) (split b',' (trim_space accept))
      → Verdict fl accept false
  decided :
      (s : ℕ) (q : F) (answer : Bool)
      → trim_space accept ≢ []
      → IsDecisive fl (split b',' (trim_space accept)) s q
      → answer ≡ fl.is_positive q
      → Verdict fl accept answer
