-- ===== src/Httpx/Routing/Paths.antt =====
-- What the patterns of routes parse to, and how the prefixes of nested groups join.
use arnon.Prelude.{
  ℕ, ◌≡◌, refl, sym, ap, ◌∙◌, ◌⊎◌, inl, inr, Bool-cases, Bool, true, false, ◌||◌, List, [], ◌∷◌,
  ◌++◌, arith, any, ◌==◌, ok,
}
use mathlib.Core.List.{append_assoc}
use arnon.Prelude.Strings.{Text, codes, is_space, same, has_prefix, trim_prefix}
use arnon.Httpx.Routing.{
  push_field, fields_from, fields, trim_slash, methods, split_fields, split_pattern, join_trimmed,
  join_path, joined, join_pattern,
}
use arnon.Httpx.Routing.Router.{
  Verb, get_verb, head_verb, post_verb, put_verb, patch_verb, delete_verb, connect_verb,
  options_verb, trace_verb, query_verb, verb_method, verb_pattern,
}

-- A text without white space.
abbrev pub IsWord : Text → Type 0
IsWord s = any is_space s ≡ false

or_false : (b c : Bool) → (b || c) ≡ false → (b ≡ false) × (c ≡ false)
or_false b c h = (ground arith, ground arith)

fields_word : (s : Text) → IsWord s → fields_from s ≡ (s, [])
unfolding fields_from
fields_word [] h = refl
fields_word (c ∷ s) h =
    let (hc, hs) = or_false (is_space c) (any is_space s) h in rw (fields_word s hs, hc) refl

push_field_cons :
    (c : ℕ) (s : Text) (fields : List Text) → push_field (c ∷ s) fields ≡ (c ∷ s) ∷ fields
unfolding push_field
push_field_cons c s fields = refl

fields_two :
    (m : Text) (c : ℕ) (s : Text)
    → IsWord m
    → IsWord (c ∷ s)
    → fields_from (m ++ b' ' ∷ c ∷ s) ≡ (m, (c ∷ s) ∷ [])
unfolding fields_from is_space push_field
fields_two [] c s hm hs = rw (fields_word (c ∷ s) hs) refl
fields_two (d ∷ m) c s h hs =
    let (hd, hm) = or_false (is_space d) (any is_space m) h in rw (fields_two m c s hm hs, hd) refl

split_pattern_words :
    (d : ℕ) (m : Text) (path : Text)
    → IsWord (d ∷ m)
    → IsWord (b'/' ∷ path)
    → any (same (d ∷ m)) methods ≡ true
    → split_pattern ((d ∷ m) ++ b' ' ∷ b'/' ∷ path) ≡ ok (d ∷ m, b'/' ∷ path)
unfolding split_pattern fields split_fields has_prefix
split_pattern_words d m path hm hp known = rw (fields_two (d ∷ m) b'/' path hm hp, known) refl

-- A verb's method before a path that starts with "/" and has no white space parses to the two.
pub split_pattern-verb_pattern :
    (verb : Verb) (path : Text)
    → IsWord (b'/' ∷ path)
    → split_pattern (verb_pattern verb (b'/' ∷ path)) ≡ ok (codes (verb_method verb), b'/' ∷ path)
unfolding verb_pattern verb_method is_space methods same
split_pattern-verb_pattern get_verb path h = split_pattern_words _ _ path refl h refl
split_pattern-verb_pattern head_verb path h = split_pattern_words _ _ path refl h refl
split_pattern-verb_pattern post_verb path h = split_pattern_words _ _ path refl h refl
split_pattern-verb_pattern put_verb path h = split_pattern_words _ _ path refl h refl
split_pattern-verb_pattern patch_verb path h = split_pattern_words _ _ path refl h refl
split_pattern-verb_pattern delete_verb path h = split_pattern_words _ _ path refl h refl
split_pattern-verb_pattern connect_verb path h = split_pattern_words _ _ path refl h refl
split_pattern-verb_pattern options_verb path h = split_pattern_words _ _ path refl h refl
split_pattern-verb_pattern trace_verb path h = split_pattern_words _ _ path refl h refl
split_pattern-verb_pattern query_verb path h = split_pattern_words _ _ path refl h refl

trim_slash-append :
    (s : Text) (d : ℕ) (r : Text) → trim_slash (s ++ d ∷ r) ≡ s ++ trim_slash (d ∷ r)
unfolding trim_slash
trim_slash-append [] d r = refl
trim_slash-append (c ∷ []) d r = refl
trim_slash-append (c ∷ e ∷ s) d r = ap (λ t. c ∷ t) (trim_slash-append (e ∷ s) d r)

strip : Text → Text
strip s = trim_prefix s (codes "/")

strip-trim_slash : (b : Text) → strip (trim_slash b) ≡ trim_slash (strip b)
unfolding strip trim_slash trim_prefix has_prefix
strip-trim_slash [] = refl
strip-trim_slash (c ∷ []) = ground arith
strip-trim_slash (c ∷ d ∷ s) = ground arith

-- A text and, after a slash, another that is not empty.
extended : Text → Text → Text
extended s [] = s
extended s (c ∷ t) = s ++ b'/' ∷ c ∷ t

strip-join_trimmed :
    (e : ℕ) (b c : Text) → strip (join_trimmed (e ∷ b) c) ≡ extended (strip (e ∷ b)) c
unfolding strip join_trimmed extended trim_prefix has_prefix
strip-join_trimmed e b [] = refl
strip-join_trimmed e b (d ∷ c) = ground arith

assoc_empty :
    (a c : Text)
    → trim_slash a ≡ a
    → join_trimmed (trim_slash (join_trimmed a [])) c ≡ join_trimmed a c
unfolding join_trimmed trim_slash
assoc_empty [] c h = refl
assoc_empty (d ∷ a) c h = rw h refl

trim_slash-joined :
    (a : Text) (f : ℕ) (r : Text) → trim_slash (a ++ b'/' ∷ f ∷ r) ≡ a ++ b'/' ∷ trim_slash (f ∷ r)
unfolding trim_slash
trim_slash-joined a f r = trim_slash-append a b'/' (f ∷ r)

-- The step of `join_path_assoc` for two parts that are not empty, `s` the second one.
full_step :
    (g : ℕ) (t c : Text) → join_trimmed (b'/' ∷ g ∷ t) c ≡ join_trimmed [] (extended (g ∷ t) c)
unfolding join_trimmed extended
full_step g t [] = refl
full_step g t (e ∷ c) = refl

full_step_under :
    (d : ℕ) (a : Text) (g : ℕ) (t c : Text)
    → join_trimmed ((d ∷ a) ++ b'/' ∷ g ∷ t) c ≡ join_trimmed (d ∷ a) (extended (g ∷ t) c)
unfolding join_trimmed extended
full_step_under d a g t [] = refl
full_step_under d a g t (e ∷ c) = ap (λ s. d ∷ s) (append_assoc a (b'/' ∷ g ∷ t) (b'/' ∷ e ∷ c))

assoc_full :
    (a : Text) (f : ℕ) (r : Text) (g : ℕ) (t c : Text)
    → trim_slash (f ∷ r) ≡ g ∷ t
    → join_trimmed (trim_slash (join_trimmed a (f ∷ r))) c
      ≡ join_trimmed a (extended (trim_slash (f ∷ r)) c)
unfolding join_trimmed
assoc_full [] f r g t c h =
    ap (λ s. join_trimmed s c) (trim_slash-joined [] f r)
    ∙ ap (λ s. join_trimmed (b'/' ∷ s) c) h
    ∙ full_step g t c
    ∙ sym (ap (λ s. join_trimmed [] (extended s c)) h)
assoc_full (d ∷ a) f r g t c h =
    ap (λ s. join_trimmed s c) (trim_slash-joined (d ∷ a) f r)
    ∙ ap (λ s. join_trimmed ((d ∷ a) ++ b'/' ∷ s) c) h
    ∙ full_step_under d a g t c
    ∙ sym (ap (λ s. join_trimmed (d ∷ a) (extended s c)) h)

-- A part is empty but for a slash, is two slashes, or leaves something once both ends are trimmed.
part-cases :
    (b : Text)
    → ((trim_slash b ≡ []) × (strip b ≡ []))
      ⊎ ((same b (codes "//") ≡ true)
          ⊎ ((e : ℕ) × (s : Text) × (f : ℕ) × (r : Text) × (g : ℕ) × (t : Text) × (trim_slash b
                ≡ e ∷ s)
              × (strip b ≡ f ∷ r)
              × (trim_slash (f ∷ r) ≡ g ∷ t)))
unfolding trim_slash strip trim_prefix has_prefix same
part-cases [] = inl (refl, refl)
part-cases (c ∷ []) = elim (Bool-cases (c == b'/')) [
  | inl h ↦ rw h (inl (refl, refl))
  | inr h ↦ rw h (inr (inr (c, [], c, [], c, [], refl, refl, rw h refl)))
]
part-cases (c ∷ d ∷ []) = elim (Bool-cases (c == b'/')) [
  | inl h ↦ elim (Bool-cases (d == b'/')) [
    | inl k ↦ inr (inl (rw (h, k) refl))
    | inr k ↦ rw (h, k) (inr (inr (c, d ∷ [], d, [], d, [], refl, refl, rw k refl)))
  ]
  | inr h ↦ rw h (inr (inr (c, _, c, d ∷ [], c, _, refl, refl, refl)))
]
part-cases (c ∷ d ∷ x ∷ s) = elim (Bool-cases (c == b'/')) [
  | inl h ↦ rw h (inr (inr (c, _, d, x ∷ s, d, _, refl, refl, refl)))
  | inr h ↦ rw h (inr (inr (c, _, c, d ∷ x ∷ s, c, _, refl, refl, refl)))
]

strip_root : (c : Text) → strip (join_trimmed [] c) ≡ c
unfolding strip join_trimmed trim_prefix has_prefix
strip_root c = refl

assoc_trimmed :
    (a b c : Text)
    → trim_slash a ≡ a
    → same b (codes "//") ≡ false
    → join_trimmed (trim_slash (join_trimmed a (strip b))) c
      ≡ join_trimmed a (strip (join_trimmed (trim_slash b) c))
assoc_trimmed a b c tidy single = elim (part-cases b) [
  | inl (h, k) ↦
      ap (λ s. join_trimmed (trim_slash (join_trimmed a s)) c) k
      ∙ assoc_empty a c tidy
      ∙ sym (ap (join_trimmed a) (ap (λ s. strip (join_trimmed s c)) h ∙ strip_root c))
  | inr (inl two) ↦ ground (arith, two, single)
  | inr (inr (e, s, f, r, g, t, h, k, l)) ↦
      ap (λ x. join_trimmed (trim_slash (join_trimmed a x)) c) k
      ∙ assoc_full a f r g t c l
      ∙ sym (
          ap (join_trimmed a) (
            ap (λ x. strip (join_trimmed x c)) h
            ∙ strip-join_trimmed e s c
            ∙ ap (λ x. extended x c) (ap strip (sym h) ∙ strip-trim_slash b ∙ ap trim_slash k)))
]

-- A prefix that one trailing slash at most ends.
abbrev pub IsTidy : Text → Type 0
IsTidy a = trim_slash (trim_slash a) ≡ trim_slash a

-- However the prefixes of nested groups are nested, the path of a route is the same, where the
-- outer prefix does not end in two slashes and the inner one is not two slashes.
pub join_path_assoc :
    (a b c : Text)
    → IsTidy a
    → same b (codes "//") ≡ false
    → join_path (join_path a b) c ≡ join_path a (join_path b c)
unfolding join_path strip
join_path_assoc a b c tidy single = assoc_trimmed (trim_slash a) b (strip c) tidy single

-- A group's verb registers the method with the path under the group's prefix.
pub join_pattern-verb_pattern :
    (verb : Verb) (prefix path : Text)
    → IsWord (b'/' ∷ path)
    → join_pattern prefix (verb_pattern verb (b'/' ∷ path))
      ≡ ok (verb_pattern verb (join_path prefix (b'/' ∷ path)))
unfolding join_pattern joined verb_pattern
join_pattern-verb_pattern verb prefix path h =
    ap (joined prefix) (split_pattern-verb_pattern verb path h)
