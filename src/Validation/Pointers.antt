-- ===== src/Validation/Pointers.antt =====
-- JSON pointers: what RFC 6901 reads in a pointer, and that the package's pointers read as their tokens.
use arnon.Prelude.{
  ℕ, ◌≡◌, refl, sym, ap, ◌∙◌, Bool, true, false, ◌||◌, Bool-cases, inl, inr, List, [], ◌∷◌, ◌++◌,
  map, arith, any, ◌==◌, if◌then◌else◌,
}
use mathlib.Core.List.{append_assoc, append-nil}
use arnon.Prelude.Strings.{Text, split, decimal}
use arnon.Prelude.Strings.Laws.{split_first, split_one_any, decimal-any}
use arnon.Validation.{escape_char, escape_json_pointer_token, extend_pointer}

-- Section 4: "~1" stands for "/", and then "~0" for "~". A "~" before anything else stays.
unescape_after : Bool → Text → Text
unescape_after true [] = b'~' ∷ []
unescape_after false [] = []
unescape_after true (c ∷ s) =
    let rest = unescape_after false s in
    if c == b'1' then b'/' ∷ rest else if c == b'0' then b'~' ∷ rest else b'~' ∷ c ∷ rest
unescape_after false (c ∷ s) =
    let rest = unescape_after (c == b'~') s in if c == b'~' then rest else c ∷ rest

-- A token as it is written in a pointer.
unfoldable pub unescape_token : Text → Text
unfolding unescape_after
unescape_token s = unescape_after false s

after_first : List Text → List Text
after_first [] = []
after_first (part ∷ parts) = parts

-- The tokens of a pointer.
unfoldable pub parse_pointer : Text → List Text
unfolding unescape_token after_first
parse_pointer pointer = map unescape_token (after_first (split b'/' pointer))

unescape_char :
    (c : ℕ) (s : Text) → unescape_after false (escape_char c ++ s) ≡ c ∷ unescape_after false s
unfolding unescape_after escape_char
unescape_char c s = elim (Bool-cases (c == b'~')) [
  | inl tilde ↦ ground arith
  | inr other ↦ elim (Bool-cases (c == b'/')) [
    | inl slash ↦ ground arith
    | inr plain ↦ ground arith
  ]
]

unescape-escape : (s : Text) → unescape_token (escape_json_pointer_token s) ≡ s
unfolding unescape_token escape_json_pointer_token
unescape-escape [] = refl
unescape-escape (c ∷ s) =
    unescape_char c (escape_json_pointer_token s) ∙ ap (λ t. c ∷ t) (unescape-escape s)

escape-no_slash : (s : Text) → any (λ c. c == b'/') (escape_json_pointer_token s) ≡ false
unfolding escape_json_pointer_token escape_char
escape-no_slash [] = refl
escape-no_slash (c ∷ s) = elim (Bool-cases (c == b'~')) [
  | inl tilde ↦ ground (arith, escape-no_slash s)
  | inr other ↦ ground (arith, escape-no_slash s)
]

-- The pointer of a list of tokens, below another.
unfoldable pub pointer_below : Text → List Text → Text
unfolding extend_pointer
pointer_below pointer [] = pointer
pointer_below pointer (token ∷ tokens) = pointer_below (extend_pointer pointer token) tokens

-- The same, written out behind the other pointer.
written : List Text → Text
written [] = []
written (token ∷ tokens) = b'/' ∷ escape_json_pointer_token token ++ written tokens

pointer_below_lem :
    (pointer : Text) (tokens : List Text) → pointer_below pointer tokens ≡ pointer ++ written tokens
unfolding pointer_below written extend_pointer
pointer_below_lem pointer [] = sym (append-nil pointer)
pointer_below_lem pointer (token ∷ tokens) =
    pointer_below_lem (extend_pointer pointer token) tokens
    ∙ append_assoc pointer (b'/' ∷ escape_json_pointer_token token) (written tokens)

split-written :
    (token : Text) (tokens : List Text)
    → split b'/' (escape_json_pointer_token token ++ written tokens)
      ≡ map escape_json_pointer_token (token ∷ tokens)
unfolding written
split-written token [] =
    ap (split b'/') (append-nil (escape_json_pointer_token token))
    ∙ split_one_any b'/' (escape_json_pointer_token token) (escape-no_slash token)
split-written token (next ∷ tokens) =
    split_first b'/' (escape_json_pointer_token token)
      (escape_json_pointer_token next ++ written tokens) (escape-no_slash token)
    ∙ ap (λ parts. escape_json_pointer_token token ∷ parts) (split-written next tokens)

unescape_each :
    (tokens : List Text) → map unescape_token (map escape_json_pointer_token tokens) ≡ tokens
unescape_each [] = refl
unescape_each (token ∷ tokens) = rw (unescape-escape token, unescape_each tokens) refl

-- The pointer of any tokens, whatever characters they have, reads as those tokens.
pub parse-pointer_below : (tokens : List Text) → parse_pointer (pointer_below [] tokens) ≡ tokens
unfolding parse_pointer after_first written
parse-pointer_below [] = unfold pointer_below split in refl
parse-pointer_below (token ∷ tokens) =
    rw
      (
        pointer_below_lem [] (token ∷ tokens),
        split_first b'/' [] (escape_json_pointer_token token ++ written tokens) refl,
        split-written token tokens,
      )
      (unescape_each (token ∷ tokens))

escape_plain :
    (s : Text) → any (λ c. c == b'~' || c == b'/') s ≡ false → escape_json_pointer_token s ≡ s
unfolding escape_json_pointer_token escape_char
escape_plain [] h = refl
escape_plain (c ∷ s) h =
    let tilde : (c == b'~') ≡ false = ground arith in
    let slash : (c == b'/') ≡ false = ground arith in
    let later : any (λ d. d == b'~' || d == b'/') s ≡ false = ground arith in
    rw (tilde, slash, escape_plain s later) refl

-- An index needs no escape.
pub extend_pointer-decimal :
    (pointer : Text) (n : ℕ) → extend_pointer pointer (decimal n) ≡ pointer ++ b'/' ∷ decimal n
unfolding extend_pointer
extend_pointer-decimal pointer n =
    ap (λ t. pointer ++ b'/' ∷ t) (escape_plain (decimal n) (decimal-any _ n (λ d k. ground arith)))
