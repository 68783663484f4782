-- ===== src/Middleware/Chain/Anchors.antt =====
-- Facts of the fourteen anchors: each names one stage.
use arnon.Prelude.{
  ℕ, ◌+◌, ◌≡◌, refl, inl, inr, String, true, false, List, [], ◌∷◌, arith, any, total, if◌then◌else◌,
  str_eq, eq_iff, Bool-cases,
}
use arnon.Middleware.Chain.{
  Stage, recover, timeout, strip_slashes, redirect_slashes, real_ip, request_id, secure_headers,
  rate_limit, throttle, etag, compress, cors, service_desc, logging, anchor_of, stages,
  is_valid_anchor,
}

-- The share that an entry with these anchors has in the stage of that name, if a share is `k`.
abbrev pub weight : String → String → String → ℕ → ℕ
weight name before after k =
    (if str_eq before name then k else 0) + (if str_eq after name then k else 0)

abbrev pub weights : List Stage → String → String → ℕ → ℕ
weights [] before after k = 0
weights (s ∷ rest) before after k =
    weight (anchor_of s) before after k + weights rest before after k

-- An entry anchored at a stage has its whole share there and none elsewhere.
pub weights_before : (s : Stage) (k : ℕ) → weights stages (anchor_of s) "" k ≡ k
weights_before recover k = omega arith
weights_before timeout k = omega arith
weights_before strip_slashes k = omega arith
weights_before redirect_slashes k = omega arith
weights_before real_ip k = omega arith
weights_before request_id k = omega arith
weights_before secure_headers k = omega arith
weights_before rate_limit k = omega arith
weights_before throttle k = omega arith
weights_before etag k = omega arith
weights_before compress k = omega arith
weights_before cors k = omega arith
weights_before service_desc k = omega arith
weights_before logging k = omega arith

pub weights_after : (s : Stage) (k : ℕ) → weights stages "" (anchor_of s) k ≡ k
weights_after recover k = omega arith
weights_after timeout k = omega arith
weights_after strip_slashes k = omega arith
weights_after redirect_slashes k = omega arith
weights_after real_ip k = omega arith
weights_after request_id k = omega arith
weights_after secure_headers k = omega arith
weights_after rate_limit k = omega arith
weights_after throttle k = omega arith
weights_after etag k = omega arith
weights_after compress k = omega arith
weights_after cors k = omega arith
weights_after service_desc k = omega arith
weights_after logging k = omega arith

find_stage :
    (name : String) (ss : List Stage)
    → any (λ s. str_eq name (anchor_of s)) ss ≡ true
    → (s : Stage) × (name ≡ anchor_of s)
find_stage name [] h = absurd (cc)
find_stage name (s ∷ rest) h = elim (Bool-cases (str_eq name (anchor_of s))) [
  | inl same ↦ (s, (eq_iff name (anchor_of s)).0 same)
  | inr other ↦ find_stage name rest (rw other at h)
]

pub valid-stage : (name : String) → is_valid_anchor name ≡ true → (s : Stage) × (name ≡ anchor_of s)
unfolding is_valid_anchor
valid-stage name h = find_stage name stages h

pub is_valid_anchor-anchor_of :
    (s : Stage) → (is_valid_anchor (anchor_of s) ≡ true) × (str_eq (anchor_of s) "" ≡ false)
unfolding is_valid_anchor
is_valid_anchor-anchor_of recover = (refl, refl)
is_valid_anchor-anchor_of timeout = (refl, refl)
is_valid_anchor-anchor_of strip_slashes = (refl, refl)
is_valid_anchor-anchor_of redirect_slashes = (refl, refl)
is_valid_anchor-anchor_of real_ip = (refl, refl)
is_valid_anchor-anchor_of request_id = (refl, refl)
is_valid_anchor-anchor_of secure_headers = (refl, refl)
is_valid_anchor-anchor_of rate_limit = (refl, refl)
is_valid_anchor-anchor_of throttle = (refl, refl)
is_valid_anchor-anchor_of etag = (refl, refl)
is_valid_anchor-anchor_of compress = (refl, refl)
is_valid_anchor-anchor_of cors = (refl, refl)
is_valid_anchor-anchor_of service_desc = (refl, refl)
is_valid_anchor-anchor_of logging = (refl, refl)

pub total-zero : {A : Type 0} (xs : List A) → total (λ x. 0) xs ≡ 0
total-zero [] = refl
total-zero (x ∷ xs) = omega (arith, total-zero xs)

pub total-add :
    {A : Type 0} (g h : A → ℕ) (xs : List A) → total (λ x. g x + h x) xs ≡ total g xs + total h xs
total-add g h [] = refl
total-add g h (x ∷ xs) = omega (arith, total-add g h xs)
