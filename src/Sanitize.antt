-- ===== src/Sanitize.antt =====
-- The package sanitize: registry.go, tag.go, builtin.go, apply.go and prepare.go. The depth of the walks
-- is counted down: `room` is maxDepth less the depth, so that `depth >= maxDepth` is `room` at zero.
pub mod Prepared
pub mod Reached
use arnon.Prelude.{
  ℕ, zero, suc, ◌-◌, String, Bool, true, false, not, ◌&&◌, ◌||◌, Option, none, some, List, [], ◌∷◌,
  ◌++◌, map, Result, ok, err, ◌==◌, if◌then◌else◌,
}
use arnon.Prelude.Strings.{Text, codes, same, trim_space, split}
use arnon.Reflect.{
  is_spent, deeper, Ty, string_type, leaf_type, pointer_type, slice_type, map_type, struct_type,
  StructField, Structs, Value, string_value, leaf_value, nil_pointer, pointer_to, struct_value,
  slice_value, map_value, Values, no_values, and_value, Entries, no_entries, and_entry,
}

abbrev pub Sanitizer : Type 0
Sanitizer = Text → Text

-- The registry's map, the latest entry first.
abbrev pub Registry : Type 0
Registry = List (Text × Sanitizer)

unfoldable pub find : Text → Registry → Option Sanitizer
find tag [] = none
find tag ((name, f) ∷ rest) = if same name tag then some f else find tag rest

unfoldable pub trim : Sanitizer
trim value = trim_space value

-- unicode.ToLower, rune by rune, is `to_lower`.
unfoldable pub normalize_email : (ℕ → ℕ) → Sanitizer
unfolding trim
normalize_email to_lower value = map to_lower (trim value)

-- `seedBuiltins` puts the two into an empty registry before any use of it.
unfoldable pub builtins : (ℕ → ℕ) → Registry
unfolding trim normalize_email
builtins to_lower = (codes "email", normalize_email to_lower) ∷ (codes "trim", trim) ∷ []

pub data RegisterError : Type 0 where
  tag_empty func_nil : RegisterError

-- `RegisterFunc`; a nil function is `none`.
unfoldable pub register_func : Text → Option Sanitizer → Registry → Result RegisterError Registry
register_func tag none registry = if same tag [] then err tag_empty else err func_nil
register_func tag (some f) registry =
    if same tag [] then err tag_empty else ok ((tag, f) ∷ registry)

tokens_of : List Text → List Text × Bool
tokens_of [] = ([], false)
tokens_of (token ∷ rest) = if same token (codes "dive") then (rest, true) else (token ∷ rest, false)

-- `parseTag`
unfoldable pub parse_tag : Text → List Text × Bool
unfolding tokens_of
parse_tag tag = if same tag [] then ([], false) else tokens_of (split b',' tag)

abbrev pub tag_of : StructField → List Text × Bool
tag_of f = parse_tag (f.tag "sanitize")

abbrev pub max_depth : ℕ
max_depth = 16

module _ (lookup : Text → Option Sanitizer) where
  run_token : Option Sanitizer → Text → Text
  run_token none s = s
  run_token (some f) s = f s

  -- `applyTokens`
  unfoldable pub apply_tokens : List Text → Text → Text
  unfolding run_token
  apply_tokens [] s = s
  apply_tokens (tag ∷ rest) s = apply_tokens rest (run_token (lookup tag) s)

module _ (structs : Structs) (lookup : Text → Option Sanitizer) where
  -- `applyField`, `applyValue` and their loops: the sanitized value. A struct under `room` is walked
  -- one level deeper.
  unfoldable mutual
    unfolding apply_tokens

    pub apply_field : Value → List Text → Bool → ℕ → Value
    apply_field (string_value s) tokens dive room = string_value (apply_tokens lookup tokens s)
    apply_field leaf_value tokens dive room = leaf_value
    apply_field nil_pointer tokens dive room = nil_pointer
    apply_field (pointer_to v) tokens dive room = pointer_to (apply_field v tokens dive room)
    apply_field (struct_value name vs) tokens dive room =
        struct_value name (apply_value vs (structs name) (deeper room))
    apply_field (slice_value vs) tokens dive room =
        let walked = apply_each vs tokens (deeper room) in
        if not dive || is_spent room then slice_value vs else slice_value walked
    apply_field (map_value by_string es) tokens dive room =
        let walked = apply_entries es tokens (deeper room) in
        if not dive || is_spent room then map_value by_string es else map_value by_string walked

    pub apply_value : Values → List StructField → ℕ → Values
    apply_value vs fields zero = vs
    apply_value no_values fields (suc room) = no_values
    apply_value (and_value v vs) [] (suc room) = and_value v vs
    apply_value (and_value v vs) (f ∷ fs) (suc room) =
        let walked = apply_field v (tag_of f).0 (tag_of f).1 (suc room) in
        and_value (if f.is_exported then walked else v) (apply_value vs fs (suc room))

    pub apply_each : Values → List Text → ℕ → Values
    apply_each no_values tokens room = no_values
    apply_each (and_value v vs) tokens room =
        and_value (apply_field v tokens false room) (apply_each vs tokens room)

    pub apply_entries : Entries → List Text → ℕ → Entries
    apply_entries no_entries tokens room = no_entries
    apply_entries (and_entry k v es) tokens room =
        and_entry k (apply_field v tokens false room) (apply_entries es tokens room)

  apply_struct : Value → Value
  apply_struct (struct_value name vs) = struct_value name (apply_value vs (structs name) max_depth)
  apply_struct (pointer_to v) = pointer_to (apply_struct v)
  apply_struct other = other

  -- `Apply`: only what a pointer leads to can be written to.
  unfoldable pub apply : Value → Value
  unfolding apply_struct
  apply (pointer_to v) = pointer_to (apply_struct v)
  apply other = other

pub data TagError : Type 0 where
  unknown_sanitizer : Text → Text → TagError

module _ (lookup : Text → Option Sanitizer) where
  check_token : Text → Text → Option Sanitizer → List TagError
  check_token path tag none = unknown_sanitizer path tag ∷ []
  check_token path tag (some f) = []

  -- `checkTokens`
  unfoldable pub check_tokens : Text → List Text → List TagError
  unfolding check_token
  check_tokens path [] = []
  check_tokens path (tag ∷ rest) = check_token path tag (lookup tag) ++ check_tokens path rest

-- `elemType`
unfoldable pub elem_type : Ty → Ty
elem_type (pointer_type t) = elem_type t
elem_type other = other

field_path : Text → Text → Text
field_path [] name = name
field_path (c ∷ path) name = (c ∷ path) ++ b'.' ∷ name

module _ (structs : Structs) (lookup : Text → Option Sanitizer) where
  -- The loop over the fields of a struct type, by a check of one field.
  prepare_fields :
      (Ty → Text → List Text → Bool → List TagError) → Text → List StructField → List TagError
  unfolding field_path
  prepare_fields check path [] = []
  prepare_fields check path (f ∷ fs) =
      check f.type (field_path path f.name) (tag_of f).0 (tag_of f).1
      ++ prepare_fields check path fs

  -- `prepareField` on a type that is no pointer; `check` goes one level deeper.
  prepare_kind :
      (Ty → Text → List Text → Bool → List TagError)
      → (Text → Text → List TagError)
      → Ty
      → Text
      → List Text
      → Bool
      → List TagError
  unfolding check_tokens
  prepare_kind check descend string_type path tokens dive = check_tokens lookup path tokens
  prepare_kind check descend (struct_type name) path tokens dive = descend name path
  prepare_kind check descend (slice_type t) path tokens dive =
      if dive then check t (path ++ codes "[]") tokens false else []
  prepare_kind check descend (map_type by_string t) path tokens dive =
      if dive then check t (path ++ codes "[]") tokens false else []
  prepare_kind check descend leaf_type path tokens dive = []
  prepare_kind check descend (pointer_type t) path tokens dive = []

  no_check : Ty → Text → List Text → Bool → List TagError
  no_check t path tokens dive = []

  no_descent : Text → Text → List TagError
  no_descent name path = []

  -- `prepareField` and `prepareType`, which is the second argument below: a struct type is walked
  -- with one less room, and not at all without room.
  unfoldable pub prepare_field : ℕ → Ty → Text → List Text → Bool → List TagError
  unfolding prepare_fields prepare_kind elem_type no_check no_descent
  prepare_field zero t path tokens dive =
      prepare_kind no_check no_descent (elem_type t) path tokens dive
  prepare_field (suc zero) t path tokens dive =
      prepare_kind (prepare_field zero) no_descent (elem_type t) path tokens dive
  prepare_field (suc (suc room)) t path tokens dive =
      prepare_kind (prepare_field (suc room))
        (λ name inner. prepare_fields (prepare_field (suc room)) inner (structs name)) (elem_type t)
        path tokens dive

  prepare_type : Ty → List TagError
  prepare_type (struct_type name) = prepare_fields (prepare_field max_depth) [] (structs name)
  prepare_type other = []

  -- `Prepare`, whose error joins those of the list
  unfoldable pub prepare : Ty → List TagError
  unfolding prepare_type elem_type prepare_fields
  prepare t = prepare_type (elem_type t)
