-- ===== src/Sanitize/Reached.antt =====
-- What `Apply` makes of each string of a value, by where the string stands.
use arnon.Prelude.{
  ℕ, zero, suc, ◌≡◌, ◌≢◌, refl, ap, ◌∙◌, Bool, true, false, Option-cases, Bool-cases, inl, inr,
  Option, none, some, List, [], ◌∷◌,
}
use arnon.Prelude.Strings.{Text, codes, same, same_iff, split}
use arnon.Reflect.{
  StructField, Structs, Value, string_value, pointer_to, struct_value, slice_value, map_value,
  Values, no_values, and_value, Entries, no_entries, and_entry, deeper,
}
use arnon.Sanitize.{
  Sanitizer, parse_tag, tokens_of, run_token, apply_tokens, apply_field, apply_value, apply_each,
  apply_entries, apply_struct, apply,
}

-- One step to a part of a value: what a pointer leads to, a field, an element, an entry of a map.
pub data Step : Type 0 where
  to_target : Step
  to_field to_element to_entry : ℕ → Step

unfoldable pub nth_value : ℕ → Values → Option Value
nth_value n no_values = none
nth_value zero (and_value v vs) = some v
nth_value (suc n) (and_value v vs) = nth_value n vs

unfoldable pub nth_entry : ℕ → Entries → Option Value
nth_entry n no_entries = none
nth_entry zero (and_entry k v es) = some v
nth_entry (suc n) (and_entry k v es) = nth_entry n es

-- The part at a step.
unfoldable pub part_at : Step → Value → Option Value
unfolding nth_value nth_entry
part_at to_target (pointer_to v) = some v
part_at (to_field n) (struct_value name vs) = nth_value n vs
part_at (to_element n) (slice_value vs) = nth_value n vs
part_at (to_entry n) (map_value by_string es) = nth_entry n es
part_at _ _ = none

-- The string at the end of a path.
unfoldable pub string_of : Value → Option Text
string_of (string_value s) = some s
string_of _ = none

unfoldable pub string_at : List Step → Value → Option Text
unfolding part_at string_of
string_at [] v = string_of v
string_at (step ∷ path) v = elim (part_at step v) [ none ↦ none | some part ↦ string_at path part ]

-- The sanitizers that a `sanitize` tag names, and whether they are for the elements.
pub data Tagged (tag : Text) : List Text → Bool → Type 0 where
  untagged : tag ≡ [] → Tagged tag [] false
  for_itself :
      (first : Text) (rest : List Text)
      → tag ≢ []
      → first ≢ codes "dive"
      → split b',' tag ≡ first ∷ rest
      → Tagged tag (first ∷ rest) false
  for_elements : (rest : List Text) → split b',' tag ≡ codes "dive" ∷ rest → Tagged tag rest true

-- The sanitizers in turn; a name that is not registered is passed over.
abbrev pub run_each : (Text → Option Sanitizer) → List Text → Text → Text
run_each lookup [] s = s
run_each lookup (tag ∷ rest) s =
    run_each lookup rest (elim (lookup tag) [ none ↦ s | some f ↦ f s ])

parse_tag-Tagged :
    (tag : Text) (tokens : List Text) (dive : Bool)
    → Tagged tag tokens dive
    → parse_tag tag ≡ (tokens, dive)
unfolding parse_tag tokens_of split same
parse_tag-Tagged tag tokens dive (untagged e) = rw e refl
parse_tag-Tagged tag tokens dive (for_itself first rest filled other parts) =
    elim (Bool-cases (same tag [])) [
      | inl empty ↦ absurd (filled ((same_iff tag []).0 empty))
      | inr e ↦ elim (Bool-cases (same first (codes "dive"))) [
        | inl d ↦ absurd (other ((same_iff first (codes "dive")).0 d))
        | inr d ↦ rw (e, parts, d) refl
      ]
    ]
parse_tag-Tagged [] tokens dive (for_elements rest parts) = absurd (cc)
parse_tag-Tagged (c ∷ s) tokens dive (for_elements rest parts) = rw parts refl

run_each-apply_tokens :
    (lookup : Text → Option Sanitizer) (tokens : List Text) (s : Text)
    → apply_tokens lookup tokens s ≡ run_each lookup tokens s
unfolding apply_tokens run_token
run_each-apply_tokens lookup [] s = refl
run_each-apply_tokens lookup (tag ∷ rest) s = elim (Option-cases (lookup tag)) [
  | inl k ↦ rw (k, run_token) (run_each-apply_tokens lookup rest s)
  | inr (f, k) ↦ rw (k, run_token) (run_each-apply_tokens lookup rest (f s))
]

-- A part's string, where the part is there.
abbrev string_in : List Step → Option Value → Option Text
string_in path none = none
string_in path (some part) = string_at path part

-- A string of a value that is walked with sanitizers, a "dive" and so much room; its path, and the sanitizers
-- that it gets: those of the last field above it, none where the walk does not reach it.
mutual
  pub data Under (structs : Structs)
      : Value → List Text → Bool → ℕ → List Step → Text → List Text → Type 0 where
    the_string :
        {s : Text} {tokens : List Text} {dive : Bool} {room : ℕ}
        → Under structs (string_value s) tokens dive room [] s tokens
    pointed :
        {v : Value} {tokens run : List Text} {dive : Bool} {room : ℕ} {path : List Step} {s : Text}
        → Under structs v tokens dive room path s run
        → Under structs (pointer_to v) tokens dive room (to_target ∷ path) s run
    in_struct :
        {name : Text} {vs : Values} {tokens run : List Text} {dive : Bool} {room n : ℕ}
        {path : List Step} {s : Text}
        → FieldUnder structs vs (structs name) room n path s run
        → Under structs
            (struct_value name vs)
            tokens
            dive
            (suc (suc room))
            (to_field n ∷ path)
            s
            run
    deep_struct :
        {name : Text} {vs : Values} {tokens : List Text} {dive : Bool} {room : ℕ} {path : List Step}
        {s : Text}
        → deeper room ≡ 0
        → string_at path (struct_value name vs) ≡ some s
        → Under structs (struct_value name vs) tokens dive room path s []
    in_slice :
        {vs : Values} {tokens run : List Text} {room n : ℕ} {path : List Step} {s : Text}
        → ElementUnder structs vs tokens room n path s run
        → Under structs (slice_value vs) tokens true (suc room) (to_element n ∷ path) s run
    whole_slice :
        {vs : Values} {tokens : List Text} {room : ℕ} {path : List Step} {s : Text}
        → string_at path (slice_value vs) ≡ some s
        → Under structs (slice_value vs) tokens false room path s []
    deep_slice :
        {vs : Values} {tokens : List Text} {dive : Bool} {path : List Step} {s : Text}
        → string_at path (slice_value vs) ≡ some s
        → Under structs (slice_value vs) tokens dive 0 path s []
    in_map :
        {by_string : Bool} {es : Entries} {tokens run : List Text} {room n : ℕ} {path : List Step}
        {s : Text}
        → EntryUnder structs es tokens room n path s run
        → Under structs (map_value by_string es) tokens true (suc room) (to_entry n ∷ path) s run
    whole_map :
        {by_string : Bool} {es : Entries} {tokens : List Text} {room : ℕ} {path : List Step}
        {s : Text}
        → string_at path (map_value by_string es) ≡ some s
        → Under structs (map_value by_string es) tokens false room path s []
    deep_map :
        {by_string : Bool} {es : Entries} {tokens : List Text} {dive : Bool} {path : List Step}
        {s : Text}
        → string_at path (map_value by_string es) ≡ some s
        → Under structs (map_value by_string es) tokens dive 0 path s []

  -- A string below the n-th field, of the fields that are walked with `suc room`.
  pub data FieldUnder (structs : Structs)
      : Values → List StructField → ℕ → ℕ → List Step → Text → List Text → Type 0 where
    this_field :
        {v : Value} {vs : Values} {f : StructField} {fs : List StructField} {tokens run : List Text}
        {dive : Bool} {room : ℕ} {path : List Step} {s : Text}
        → f.is_exported ≡ true
        → Tagged (f.tag "sanitize") tokens dive
        → Under structs v tokens dive (suc room) path s run
        → FieldUnder structs (and_value v vs) (f ∷ fs) room 0 path s run
    hidden_field :
        {v : Value} {vs : Values} {f : StructField} {fs : List StructField} {room : ℕ}
        {path : List Step} {s : Text}
        → f.is_exported ≡ false
        → string_at path v ≡ some s
        → FieldUnder structs (and_value v vs) (f ∷ fs) room 0 path s []
    next_field :
        {v : Value} {vs : Values} {f : StructField} {fs : List StructField} {run : List Text}
        {room n : ℕ} {path : List Step} {s : Text}
        → FieldUnder structs vs fs room n path s run
        → FieldUnder structs (and_value v vs) (f ∷ fs) room (suc n) path s run

  pub data ElementUnder (structs : Structs)
      : Values → List Text → ℕ → ℕ → List Step → Text → List Text → Type 0 where
    this_element :
        {v : Value} {vs : Values} {tokens run : List Text} {room : ℕ} {path : List Step} {s : Text}
        → Under structs v tokens false room path s run
        → ElementUnder structs (and_value v vs) tokens room 0 path s run
    next_element :
        {v : Value} {vs : Values} {tokens run : List Text} {room n : ℕ} {path : List Step}
        {s : Text}
        → ElementUnder structs vs tokens room n path s run
        → ElementUnder structs (and_value v vs) tokens room (suc n) path s run

  pub data EntryUnder (structs : Structs)
      : Entries → List Text → ℕ → ℕ → List Step → Text → List Text → Type 0 where
    this_entry :
        {key : Text} {v : Value} {es : Entries} {tokens run : List Text} {room : ℕ}
        {path : List Step} {s : Text}
        → Under structs v tokens false room path s run
        → EntryUnder structs (and_entry key v es) tokens room 0 path s run
    next_entry :
        {key : Text} {v : Value} {es : Entries} {tokens run : List Text} {room n : ℕ}
        {path : List Step} {s : Text}
        → EntryUnder structs es tokens room n path s run
        → EntryUnder structs (and_entry key v es) tokens room (suc n) path s run

module _ (structs : Structs) (lookup : Text → Option Sanitizer) where
  unread_struct :
      {name : Text} {vs : Values} (tokens : List Text) (dive : Bool) (room : ℕ)
      → deeper room ≡ 0
      → apply_field structs lookup (struct_value name vs) tokens dive room ≡ struct_value name vs
  unfolding apply_field
  unread_struct tokens dive zero h = refl
  unread_struct tokens dive (suc room) h = rw h refl

  mutual
    unfolding apply_field string_at part_at nth_value nth_entry string_of

    under_lem :
        {v : Value} {tokens run : List Text} {dive : Bool} {room : ℕ} {path : List Step} {s : Text}
        → Under structs v tokens dive room path s run
        → string_at path (apply_field structs lookup v tokens dive room)
          ≡ some (run_each lookup run s)
    under_lem (the_string {s} {tokens}) = ap some (run_each-apply_tokens lookup tokens s)
    under_lem (pointed u) = under_lem u
    under_lem (in_struct u) = field_lem u
    under_lem (deep_struct {tokens = tokens} {dive} {room} {path} h e) =
        ap (string_at path) (unread_struct tokens dive room h) ∙ e
    under_lem (in_slice u) = element_lem u
    under_lem (whole_slice e) = e
    under_lem (deep_slice {dive = true} e) = e
    under_lem (deep_slice {dive = false} e) = e
    under_lem (in_map u) = entry_lem u
    under_lem (whole_map e) = e
    under_lem (deep_map {dive = true} e) = e
    under_lem (deep_map {dive = false} e) = e

    field_lem :
        {vs : Values} {fs : List StructField} {run : List Text} {room n : ℕ} {path : List Step}
        {s : Text}
        → FieldUnder structs vs fs room n path s run
        → string_in path (nth_value n (apply_value structs lookup vs fs (suc room)))
          ≡ some (run_each lookup run s)
    field_lem (this_field {f = f} {tokens} {dive = dive} exported tagged u) =
        rw (exported, parse_tag-Tagged (f.tag "sanitize") tokens dive tagged) (under_lem u)
    field_lem (hidden_field hidden e) = rw hidden e
    field_lem (next_field u) = field_lem u

    element_lem :
        {vs : Values} {tokens run : List Text} {room n : ℕ} {path : List Step} {s : Text}
        → ElementUnder structs vs tokens room n path s run
        → string_in path (nth_value n (apply_each structs lookup vs tokens room))
          ≡ some (run_each lookup run s)
    element_lem (this_element u) = under_lem u
    element_lem (next_element u) = element_lem u

    entry_lem :
        {es : Entries} {tokens run : List Text} {room n : ℕ} {path : List Step} {s : Text}
        → EntryUnder structs es tokens room n path s run
        → string_in path (nth_entry n (apply_entries structs lookup es tokens room))
          ≡ some (run_each lookup run s)
    entry_lem (this_entry u) = under_lem u
    entry_lem (next_entry u) = entry_lem u

-- `Apply` to a pointer to a struct leaves at each string's place what the sanitizers of its field make of it, in the
-- order of the `sanitize` tag, those that are not registered passed over: for a string field, through pointers, and,
-- under a tag that begins with "dive", for the elements of a list and the values of a map; the fields of structs
-- below have their own tags. A string in an unexported field, in a list or map without "dive", or below the depth
-- of sixteen is left as it was.
pub apply-run_each :
    (structs : Structs) (lookup : Text → Option Sanitizer) {name : Text} {vs : Values} {n : ℕ}
    {path : List Step} {s : Text} {run : List Text}
    → FieldUnder structs vs (structs name) 15 n path s run
    → string_at
        (to_target ∷ to_field n ∷ path)
        (apply structs lookup (pointer_to (struct_value name vs)))
      ≡ some (run_each lookup run s)
unfolding apply apply_struct string_at part_at
apply-run_each structs lookup u = field_lem structs lookup u
