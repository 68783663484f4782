-- ===== src/Middleware/RealIp/Forwarded.antt =====
-- What is read from the first hop of a Forwarded header.
use arnon.Prelude.{
  ℕ, ◌≡◌, refl, ◌∙◌, Bool, true, false, ◌||◌, List, [], ◌∷◌, ◌++◌, arith, any, ◌==◌,
}
use arnon.Prelude.Strings.{Text, codes, is_space, same, trim_space, cut}
use arnon.Prelude.Strings.Laws.{trim_space_word}
use arnon.Middleware.RealIp.{
  fold, equal_fold, split_quoted, split_top_level, before, unquote_forwarded_value,
  strip_forwarded_node_port, identifier, from_pair, from_pairs, parse_forwarded_for,
}

-- The characters that mean something in a parameter, and white space.
abbrev pub is_special : ℕ → Bool
is_special c = c == b'"' || c == b',' || c == b';' || c == b':' || c == b'[' || is_space c

abbrev pub IsToken : Text → Type 0
IsToken t = any is_special t ≡ false

abbrev is_cut : ℕ → ℕ → Bool
is_cut sep c = c == b'"' || c == sep

split_clean :
    (s x : Text)
    → any (is_cut b',') s ≡ false
    → (rest : List Text) × (split_quoted b',' false (s ++ b',' ∷ x) ≡ (s, rest))
unfolding split_quoted
split_clean [] x h = (_, refl)
split_clean (c ∷ s) x h =
    let first : (c == b'"') ≡ false = ground arith in
    let other : (c == b',') ≡ false = ground arith in
    let later : any (is_cut b',') s ≡ false = ground arith in
    let (rest, k) = split_clean s x later in (rest, rw (first, other, k) refl)

split_whole : (sep : ℕ) (s : Text) → any (is_cut sep) s ≡ false → split_quoted sep false s ≡ (s, [])
unfolding split_quoted
split_whole sep [] h = refl
split_whole sep (c ∷ s) h =
    let first : (c == b'"') ≡ false = ground arith in
    let other : (c == sep) ≡ false = ground arith in
    let later : any (is_cut sep) s ≡ false = ground arith in
    rw (first, other, split_whole sep s later) refl

before_free : (sep : ℕ) (s : Text) → any (λ c. c == sep) s ≡ false → before sep s ≡ s
unfolding before
before_free sep [] h = refl
before_free sep (c ∷ s) h =
    let first : (c == sep) ≡ false = ground arith in
    let later : any (λ c. c == sep) s ≡ false = ground arith in
    rw (first, before_free sep s later) refl

-- A token has nothing that cuts it.
any-weaken :
    (p q : ℕ → Bool) (s : Text)
    → ((c : ℕ) → p c ≡ false → q c ≡ false)
    → any p s ≡ false
    → any q s ≡ false
any-weaken p q [] f h = refl
any-weaken p q (c ∷ s) f h =
    let first : p c ≡ false = ground arith in
    let later : any p s ≡ false = ground arith in rw (f c first, any-weaken p q s f later) refl

-- The parameter that names a client.
abbrev pub for_param : Text → Text
for_param t = codes "for=" ++ t

identifier_token :
    (c : ℕ) (t : Text)
    → IsToken (c ∷ t)
    → equal_fold (c ∷ t) (codes "unknown") ≡ false
    → identifier (c ∷ t) ≡ c ∷ t
unfolding identifier strip_forwarded_node_port same
identifier_token c t h known =
    let bracket : (c == b'[') ≡ false = ground arith in
    rw (known, bracket)
      (before_free b':' (c ∷ t)
        (any-weaken is_special (λ d. d == b':') (c ∷ t) (λ d k. ground arith) h))

for_lem : equal_fold (trim_space (codes "for")) (codes "for") ≡ true
unfolding equal_fold fold
for_lem = rw (trim_space_word (codes "for") (unfold is_space in refl)) refl

from_pair_token :
    (c : ℕ) (t : Text)
    → IsToken (c ∷ t)
    → equal_fold (c ∷ t) (codes "unknown") ≡ false
    → from_pairs (for_param (c ∷ t) ∷ []) ≡ c ∷ t
unfolding from_pairs from_pair cut unquote_forwarded_value
from_pair_token c t h known =
    let quote : (c == b'"') ≡ false = ground arith in
    let spaces : any is_space (c ∷ t) ≡ false =
      any-weaken is_special is_space (c ∷ t) (λ d k. ground arith) h in
    rw (for_lem, trim_space_word (c ∷ t) spaces, quote) (identifier_token c t h known)

parse-split :
    (c : ℕ) (s hop : Text) (hops : List Text) (pair : Text) (pairs : List Text)
    → split_quoted b',' false (c ∷ s) ≡ (hop, hops)
    → split_quoted b';' false hop ≡ (pair, pairs)
    → parse_forwarded_for (c ∷ s) ≡ from_pairs (pair ∷ pairs)
unfolding parse_forwarded_for split_top_level
parse-split c s hop hops pair pairs h k = rw (h, k, parse_forwarded_for) refl

-- The first hop's client, given as a token other than "unknown", is the client that is read,
-- whatever the hops after it are.
pub parse_forwarded_for_token :
    (c : ℕ) (t hops : Text)
    → IsToken (c ∷ t)
    → equal_fold (c ∷ t) (codes "unknown") ≡ false
    → parse_forwarded_for (for_param (c ∷ t) ++ b',' ∷ hops) ≡ c ∷ t
parse_forwarded_for_token c t hops h known =
    let commas : any (is_cut b',') (for_param (c ∷ t)) ≡ false =
      any-weaken is_special (is_cut b',') (c ∷ t) (λ d k. ground arith) h in
    let semis : any (is_cut b';') (for_param (c ∷ t)) ≡ false =
      any-weaken is_special (is_cut b';') (c ∷ t) (λ d k. ground arith) h in
    let (rest, k) = split_clean (for_param (c ∷ t)) hops commas in
    parse-split b'f' _ _ rest _ [] k (split_whole b';' (for_param (c ∷ t)) semis)
    ∙ from_pair_token c t h known
