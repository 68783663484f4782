-- ===== src/Reflect.antt =====
-- Go's types and values, as far as the packages sanitize and validation look at them by reflection.
-- A struct type is named, so that types may be recursive, and its fields are looked up; a kind that
-- neither package descends into is a leaf. A value is a finite tree: aliasing is not modelled.
use arnon.Prelude.{ℕ, zero, suc, true, false, ◌≡◌, Bool, String, List, [], ◌∷◌}
use arnon.Prelude.Strings.{Text}

pub data Ty : Type 0 where
  string_type leaf_type : Ty
  pointer_type slice_type : Ty → Ty
  map_type : Bool → Ty → Ty
  struct_type : Text → Ty

-- reflect.StructField: its name, `Tag.Get`, whether it is exported, its type.
pub record StructField : Type 0 where
  pub name : Text
  pub tag : String → Text
  pub is_exported : Bool
  pub type : Ty

-- The declared struct types.
abbrev pub Structs : Type 0
Structs = Text → List StructField

-- A map says whether its keys are strings; a slice or an array is a list.
mutual
  pub data Value : Type 0 where
    string_value : Text → Value
    leaf_value nil_pointer : Value
    pointer_to : Value → Value
    struct_value : Text → Values → Value
    slice_value : Values → Value
    map_value : Bool → Entries → Value

  pub data Values : Type 0 where
    no_values : Values
    and_value : Value → Values → Values

  pub data Entries : Type 0 where
    no_entries : Entries
    and_entry : Text → Value → Entries → Entries

-- A value has a type.
unfoldable mutual
  pub HasType : Structs → Value → Ty → Type 0
  HasType structs (string_value s) t = t ≡ string_type
  HasType structs leaf_value t = t ≡ leaf_type
  HasType structs nil_pointer t = (u : Ty) × (t ≡ pointer_type u)
  HasType structs (pointer_to v) t = (u : Ty) × (t ≡ pointer_type u) × HasType structs v u
  HasType structs (struct_value name vs) t =
      (t ≡ struct_type name) × HaveFields structs vs (structs name)
  HasType structs (slice_value vs) t = (u : Ty) × (t ≡ slice_type u) × HaveType structs vs u
  HasType structs (map_value by_string es) t =
      (u : Ty) × (t ≡ map_type by_string u) × BindType structs es u

  pub HaveFields : Structs → Values → List StructField → Type 0
  HaveFields structs no_values [] = Unit
  HaveFields structs (and_value v vs) (f ∷ fs) = HasType structs v f.type × HaveFields structs vs fs
  HaveFields structs no_values (f ∷ fs) = ⊥
  HaveFields structs (and_value v vs) [] = ⊥

  pub HaveType : Structs → Values → Ty → Type 0
  HaveType structs no_values t = Unit
  HaveType structs (and_value v vs) t = HasType structs v t × HaveType structs vs t

  pub BindType : Structs → Entries → Ty → Type 0
  BindType structs no_entries t = Unit
  BindType structs (and_entry k v es) t = HasType structs v t × BindType structs es t

-- The walks of both packages count their depth; here the room that is left is counted down, and
-- `depth >= maxDepth` is no room left.
abbrev pub is_spent : ℕ → Bool
is_spent zero = true
is_spent (suc room) = false

-- `depth + 1`, as room
abbrev pub deeper : ℕ → ℕ
deeper zero = zero
deeper (suc room) = room
