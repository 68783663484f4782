-- ===== src/Sanitize/Prepared.antt =====
-- What `Prepare` on a type promises for `Apply` on its values.
use arnon.Prelude.{
  ℕ, zero, suc, ◌≡◌, refl, sym, ap, ◌∙◌, Bool, true, false, inl, inr, Option, some, Option-cases,
  List, [], ◌∷◌, ◌++◌,
}
use arnon.Prelude.Strings.{Text, codes}
use arnon.Reflect.{
  Ty, string_type, pointer_type, slice_type, map_type, struct_type, StructField, Structs, Value,
  string_value, leaf_value, nil_pointer, pointer_to, struct_value, slice_value, map_value, Values,
  no_values, and_value, Entries, no_entries, and_entry, HasType, HaveFields, HaveType, BindType,
}
use arnon.Sanitize.{
  Sanitizer, tag_of, apply_tokens, apply_field, apply_value, apply_each, apply_entries,
  apply_struct, apply, check_token, check_tokens, elem_type, field_path, prepare_fields,
  prepare_kind, prepare_field, prepare_type, prepare,
}

-- A registry that knows all that another one knows.
abbrev pub Extends : (Text → Option Sanitizer) → (Text → Option Sanitizer) → Type 0
Extends larger smaller = (tag : Text) (f : Sanitizer) → smaller tag ≡ some f → larger tag ≡ some f

append-empty : {A : Type 0} (xs ys : List A) → xs ++ ys ≡ [] → (xs ≡ []) × (ys ≡ [])
append-empty [] ys h = (refl, h)
append-empty (x ∷ xs) ys h = absurd (cc)

module _ (structs : Structs) (lookup lookup' : Text → Option Sanitizer)
    (extends : Extends lookup' lookup) where
  tokens_agree :
      (path : Text) (tokens : List Text) (s : Text)
      → check_tokens lookup path tokens ≡ []
      → apply_tokens lookup' tokens s ≡ apply_tokens lookup tokens s
  unfolding check_tokens apply_tokens
  tokens_agree path [] s h = refl
  tokens_agree path (tag ∷ rest) s h =
      let (now, later) =
        append-empty (check_token lookup path tag (lookup tag)) (check_tokens lookup path rest) h in
      elim (Option-cases (lookup tag)) [
        | inl k ↦ absurd (cc (rw (k, check_token) at now))
        | inr (f, k) ↦ rw (k, extends tag f k) (tokens_agree path rest _ later)
      ]

  prepare_string :
      (room : ℕ) (path : Text) (tokens : List Text) (dive : Bool)
      → prepare_field structs lookup room string_type path tokens dive
        ≡ check_tokens lookup path tokens
  unfolding prepare_field prepare_kind elem_type
  prepare_string zero path tokens dive = refl
  prepare_string (suc zero) path tokens dive = refl
  prepare_string (suc (suc room)) path tokens dive = refl

  prepare_pointer :
      (room : ℕ) (t : Ty) (path : Text) (tokens : List Text) (dive : Bool)
      → prepare_field structs lookup room (pointer_type t) path tokens dive
        ≡ prepare_field structs lookup room t path tokens dive
  unfolding prepare_field elem_type
  prepare_pointer zero t path tokens dive = refl
  prepare_pointer (suc zero) t path tokens dive = refl
  prepare_pointer (suc (suc room)) t path tokens dive = refl

  prepare_struct :
      (room : ℕ) (name path : Text) (tokens : List Text) (dive : Bool)
      → prepare_field structs lookup (suc (suc room)) (struct_type name) path tokens dive
        ≡ prepare_fields structs lookup
            (prepare_field structs lookup (suc room))
            path
            (structs name)
  unfolding prepare_field prepare_kind elem_type
  prepare_struct room name path tokens dive = refl

  prepare_slice :
      (room : ℕ) (t : Ty) (path : Text) (tokens : List Text)
      → prepare_field structs lookup (suc room) (slice_type t) path tokens true
        ≡ prepare_field structs lookup room t (path ++ codes "[]") tokens false
  unfolding prepare_field prepare_kind elem_type
  prepare_slice zero t path tokens = refl
  prepare_slice (suc room) t path tokens = refl

  prepare_map :
      (room : ℕ) (by_string : Bool) (t : Ty) (path : Text) (tokens : List Text)
      → prepare_field structs lookup (suc room) (map_type by_string t) path tokens true
        ≡ prepare_field structs lookup room t (path ++ codes "[]") tokens false
  unfolding prepare_field prepare_kind elem_type
  prepare_map zero by_string t path tokens = refl
  prepare_map (suc room) by_string t path tokens = refl

  mutual
    unfolding apply_field HasType prepare_fields

    field_agrees :
        (v : Value) (t : Ty) (path : Text) (tokens : List Text) (dive : Bool) (room : ℕ)
        → HasType structs v t
        → prepare_field structs lookup room t path tokens dive ≡ []
        → apply_field structs lookup' v tokens dive room
          ≡ apply_field structs lookup v tokens dive room
    field_agrees (string_value s) t path tokens dive room e h =
        ap string_value
          (tokens_agree path tokens s (sym (prepare_string room path tokens dive) ∙ (rw e at h)))
    field_agrees leaf_value t path tokens dive room e h = refl
    field_agrees nil_pointer t path tokens dive room e h = refl
    field_agrees (pointer_to v) t path tokens dive room (u, e, typed) h = ap pointer_to (
        field_agrees v u path tokens dive room typed
          (sym (prepare_pointer room u path tokens dive) ∙ (rw e at h)))
    field_agrees (struct_value name vs) t path tokens dive zero (e, typed) h = refl
    field_agrees (struct_value name vs) t path tokens dive (suc zero) (e, typed) h = refl
    field_agrees (struct_value name vs) t path tokens dive (suc (suc room)) (e, typed) h =
        ap (struct_value name) (
          fields_agree vs (structs name) path room typed
            (sym (prepare_struct room name path tokens dive) ∙ (rw e at h)))
    field_agrees (slice_value vs) t path tokens false room (u, e, typed) h = refl
    field_agrees (slice_value vs) t path tokens true zero (u, e, typed) h = refl
    field_agrees (slice_value vs) t path tokens true (suc room) (u, e, typed) h = ap slice_value (
        each_agrees vs u (path ++ codes "[]") tokens room typed
          (sym (prepare_slice room u path tokens) ∙ (rw e at h)))
    field_agrees (map_value by_string es) t path tokens false room (u, e, typed) h = refl
    field_agrees (map_value by_string es) t path tokens true zero (u, e, typed) h = refl
    field_agrees (map_value by_string es) t path tokens true (suc room) (u, e, typed) h =
        ap (map_value by_string) (
          entries_agree es u (path ++ codes "[]") tokens room typed
            (sym (prepare_map room by_string u path tokens) ∙ (rw e at h)))

    fields_agree :
        (vs : Values) (fs : List StructField) (path : Text) (room : ℕ)
        → HaveFields structs vs fs
        → prepare_fields structs lookup (prepare_field structs lookup (suc room)) path fs ≡ []
        → apply_value structs lookup' vs fs (suc room) ≡ apply_value structs lookup vs fs (suc room)
    fields_agree no_values fs path room typed h = refl
    fields_agree (and_value v vs) [] path room typed h = refl
    fields_agree (and_value v vs) (f ∷ fs) path room (typed, rest) h =
        let (now, later) = append-empty _ _ h in
        rw
          (
            field_agrees v f.type (field_path path f.name) (tag_of f).0 (tag_of f).1 (suc room)
                typed now,
            fields_agree vs fs path room rest later,
          )
          refl

    each_agrees :
        (vs : Values) (t : Ty) (path : Text) (tokens : List Text) (room : ℕ)
        → HaveType structs vs t
        → prepare_field structs lookup room t path tokens false ≡ []
        → apply_each structs lookup' vs tokens room ≡ apply_each structs lookup vs tokens room
    each_agrees no_values t path tokens room typed h = refl
    each_agrees (and_value v vs) t path tokens room (typed, rest) h =
        rw
          (
            field_agrees v t path tokens false room typed h,
            each_agrees vs t path tokens room rest h,
          )
          refl

    entries_agree :
        (es : Entries) (t : Ty) (path : Text) (tokens : List Text) (room : ℕ)
        → BindType structs es t
        → prepare_field structs lookup room t path tokens false ≡ []
        → apply_entries structs lookup' es tokens room ≡ apply_entries structs lookup es tokens room
    entries_agree no_entries t path tokens room typed h = refl
    entries_agree (and_entry k v es) t path tokens room (typed, rest) h =
        rw
          (
            field_agrees v t path tokens false room typed h,
            entries_agree es t path tokens room rest h,
          )
          refl

  struct_agrees :
      (v : Value) (t : Ty)
      → HasType structs v t
      → prepare structs lookup t ≡ []
      → apply_struct structs lookup' v ≡ apply_struct structs lookup v
  unfolding apply_struct HasType prepare prepare_type elem_type
  struct_agrees (string_value s) t e h = refl
  struct_agrees leaf_value t e h = refl
  struct_agrees nil_pointer t e h = refl
  struct_agrees (pointer_to v) t (u, e, typed) h =
      ap pointer_to (struct_agrees v u typed (rw e at h))
  struct_agrees (struct_value name vs) t (e, typed) h =
      ap (struct_value name) (fields_agree vs (structs name) [] 15 typed (rw e at h))
  struct_agrees (slice_value vs) t e h = refl
  struct_agrees (map_value by_string es) t e h = refl

-- Where `Prepare` finds nothing to report on a type, `Apply` on a value of the type skips no token: a
-- registry that knows more tags changes nothing of what it does to the value.
pub apply_prepared :
    (structs : Structs) (lookup lookup' : Text → Option Sanitizer) (v : Value) (t : Ty)
    → Extends lookup' lookup
    → HasType structs v t
    → prepare structs lookup t ≡ []
    → apply structs lookup' v ≡ apply structs lookup v
unfolding apply HasType prepare prepare_type elem_type
apply_prepared structs lookup lookup' (string_value s) t extends e h = refl
apply_prepared structs lookup lookup' leaf_value t extends e h = refl
apply_prepared structs lookup lookup' nil_pointer t extends e h = refl
apply_prepared structs lookup lookup' (pointer_to v) t extends (u, e, typed) h =
    ap pointer_to (struct_agrees structs lookup lookup' extends v u typed (rw e at h))
apply_prepared structs lookup lookup' (struct_value name vs) t extends e h = refl
apply_prepared structs lookup lookup' (slice_value vs) t extends e h = refl
apply_prepared structs lookup lookup' (map_value by_string es) t extends e h = refl
