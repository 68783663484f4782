-- ===== src/Prelude/Strings/Laws.antt =====
-- Facts of trimming and splitting that the parsers of headers share.
use Prim.Native.Nat.{ℕ, zero, suc, ◌+◌, ◌/◌, ◌%◌, ◌<◌}
use mathlib.Core.Path.{◌≡◌, refl}
use mathlib.Core.Logic.{◌⊎◌, inl, inr}
use mathlib.Core.Bool.{Bool, true, false}
use mathlib.Core.List.{List, [], ◌∷◌, ◌++◌}
use native.Mathlib.Omega.{arith}
use arnon.Prelude.Tests.{ltb, ◌==◌, ==_iff, Bool-cases}
use arnon.Prelude.Lists.{All, any}
use arnon.Prelude.Strings.{
  Text, is_space, keep_right, trim_left, trim_right, trim_space, split_next, split, digits, decimal,
}

-- A code point occurs in a text.
abbrev pub Has : ℕ → Text → Type 0
Has a [] = ⊥
Has a (c ∷ s) = (c ≡ a) ⊎ Has a s

Has-trim_left : (a : ℕ) (s : Text) → Has a (trim_left s) → Has a s
unfolding trim_left
Has-trim_left a [] h = h
Has-trim_left a (c ∷ s) h = elim (Bool-cases (is_space c)) [
  | inl space ↦ inr (Has-trim_left a s (rw space at h))
  | inr other ↦ rw other at h
]

Has-keep_right : (a c : ℕ) (t : Text) → Has a (keep_right c t) → (c ≡ a) ⊎ Has a t
unfolding keep_right
Has-keep_right a c [] h = elim (Bool-cases (is_space c)) [
  | inl space ↦ absurd (rw space at h)
  | inr other ↦ rw other at h
]
Has-keep_right a c (d ∷ t) h = h

Has-trim_right : (a : ℕ) (s : Text) → Has a (trim_right s) → Has a s
unfolding trim_right
Has-trim_right a [] h = h
Has-trim_right a (c ∷ s) h = elim (Has-keep_right a c (trim_right s) h) [
  | inl e ↦ inl e
  | inr later ↦ inr (Has-trim_right a s later)
]

pub Has-trim_space : (a : ℕ) (s : Text) → Has a (trim_space s) → Has a s
unfolding trim_space
Has-trim_space a s h = Has-trim_left a s (Has-trim_right a (trim_left s) h)

split_next-free :
    (sep c : ℕ) (parts : List Text)
    → All (λ part. ¬ Has sep part) parts
    → All (λ part. ¬ Has sep part) (split_next sep c parts)
unfolding split_next
split_next-free sep c [] h = (λ a. a, tt)
split_next-free sep c (part ∷ parts) (p, h) = elim (Bool-cases (c == sep)) [
  | inl at_sep ↦ rw at_sep (λ a. a, (p, h))
  | inr other ↦ rw other (elim [ inl e ↦ cc (other, (==_iff c sep).1 e) | inr later ↦ p later ], h)
]

-- The separator occurs in no part.
pub split-free : (sep : ℕ) (s : Text) → All (λ part. ¬ Has sep part) (split sep s)
unfolding split
split-free sep [] = (λ h. h, tt)
split-free sep (c ∷ s) = split_next-free sep c (split sep s) (split-free sep s)

-- A text without the separator is its only part.
pub split_one : (sep : ℕ) (s : Text) → All (λ c. (c == sep) ≡ false) s → split sep s ≡ s ∷ []
unfolding split split_next
split_one sep [] h = refl
split_one sep (c ∷ s) (other, h) = rw (split_one sep s h, other, split, split_next)

keep_right-append : (d : ℕ) (s : Text) (c : ℕ) → keep_right d (s ++ c ∷ []) ≡ d ∷ (s ++ c ∷ [])
unfolding keep_right
keep_right-append d [] c = refl
keep_right-append d (e ∷ s) c = refl

trim_right-append : (s : Text) (c : ℕ) → is_space c ≡ false → trim_right (s ++ c ∷ []) ≡ s ++ c ∷ []
unfolding trim_right keep_right
trim_right-append [] c h = rw h
trim_right-append (d ∷ s) c h = rw (trim_right-append s c h) (keep_right-append d s c)

-- A text between two code points that are no space is not trimmed.
pub trim_space_quoted :
    (a : ℕ) (s : Text) (c : ℕ)
    → is_space a ≡ false
    → is_space c ≡ false
    → trim_space (a ∷ (s ++ c ∷ [])) ≡ a ∷ (s ++ c ∷ [])
unfolding trim_space
trim_space_quoted a s c h k = rw (h, trim_left) (trim_right-append (a ∷ s) c k)

trim_right_word : (s : Text) → any is_space s ≡ false → trim_right s ≡ s
unfolding trim_right keep_right
trim_right_word [] h = refl
trim_right_word (c ∷ []) h = ground arith
trim_right_word (c ∷ d ∷ s) h =
    let later : any is_space (d ∷ s) ≡ false = ground arith in
    rw (trim_right_word (d ∷ s) later) refl

pub trim_space_word : (s : Text) → any is_space s ≡ false → trim_space s ≡ s
unfolding trim_space trim_left
trim_space_word [] h = refl
trim_space_word (c ∷ s) h =
    let first : is_space c ≡ false = ground arith in rw first (trim_right_word (c ∷ s) h)

any-All : (p : ℕ → Bool) (s : Text) → any p s ≡ false → All (λ c. p c ≡ false) s
any-All p [] h = tt
any-All p (c ∷ s) h = (ground arith, any-All p s (ground arith))

pub split_one_any : (sep : ℕ) (s : Text) → any (λ c. c == sep) s ≡ false → split sep s ≡ s ∷ []
split_one_any sep s h = split_one sep s (any-All (λ c. c == sep) s h)

split-nonempty :
    (sep : ℕ) (s : Text) → (part : Text) × (parts : List Text) × (split sep s ≡ part ∷ parts)
unfolding split split_next
split-nonempty sep [] = ([], [], refl)
split-nonempty sep (c ∷ s) =
    let (part, parts, e) = split-nonempty sep s in
    elim (Bool-cases (c == sep)) [
      | inl here ↦ ([], part ∷ parts, rw (e, here) refl)
      | inr other ↦ (c ∷ part, parts, rw (e, other) refl)
    ]

-- A text up to its first separator.
pub split_first :
    (sep : ℕ) (s t : Text)
    → any (λ c. c == sep) s ≡ false
    → split sep (s ++ sep ∷ t) ≡ s ∷ split sep t
unfolding split split_next
split_first sep [] t h =
    let (part, parts, e) = split-nonempty sep t in
    let same_sep : (sep == sep) ≡ true = ground arith in rw (e, same_sep) refl
split_first sep (c ∷ s) t h =
    let other : (c == sep) ≡ false = ground arith in
    let later : any (λ d. d == sep) s ≡ false = ground arith in
    rw (split_first sep s t later, other) refl

digits-any :
    (p : ℕ → Bool) (fuel n : ℕ) (acc : Text)
    → ((d : ℕ) → d < 10 → p (b'0' + d) ≡ false)
    → any p acc ≡ false
    → any p (digits fuel n acc) ≡ false
unfolding digits
digits-any p zero n acc f h = h
digits-any p (suc fuel) n acc f h =
    let last : any p ((b'0' + n % 10) ∷ acc) ≡ false = rw (f (n % 10) (omega arith), h) refl in
    elim (Bool-cases (ltb n 10)) [
      | inl small ↦ rw (small, f n (ground arith), h) refl
      | inr big ↦ rw big (digits-any p fuel (n / 10) ((b'0' + n % 10) ∷ acc) f last)
    ]

-- A decimal number has digits only.
pub decimal-any :
    (p : ℕ → Bool) (n : ℕ) → ((d : ℕ) → d < 10 → p (b'0' + d) ≡ false) → any p (decimal n) ≡ false
unfolding decimal
decimal-any p n f = digits-any p (suc n) n [] f refl

pub trim_space_blank : (c : ℕ) (s : Text) → is_space c ≡ true → trim_space (c ∷ s) ≡ trim_space s
unfolding trim_space trim_left
trim_space_blank c s h = rw h refl

-- A first code point that is no separator belongs to the first part.
pub split-cons :
    (sep c : ℕ) (s : Text)
    → (c == sep) ≡ false
    → (part : Text) × (parts : List Text) × (split sep s ≡ part ∷ parts)
      × (split sep (c ∷ s) ≡ (c ∷ part) ∷ parts)
unfolding split split_next
split-cons sep c s other =
    let (part, parts, e) = split-nonempty sep s in (part, parts, e, rw (e, other) refl)
