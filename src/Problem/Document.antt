-- ===== src/Problem/Document.antt =====
-- `MarshalJSON`: the members of the document that a problem is sent as.
pub mod Members
pub mod Standard
use arnon.Prelude.{ℕ, Bool, true, false, ◌&&◌, ◌||◌, List, [], ◌∷◌, ◌++◌, ltb, ◌==◌, if◌then◌else◌}
use arnon.Prelude.Strings.{Text, codes, same}
use arnon.Problem.{
  Json, null, number, string, array, object, Items, no_items, item, Fields, no_fields, entry,
  ValidationLocation, body, path, query, header, ValidationSource, ValidationError, Problem,
}

abbrev pub Member : Type 0
Member = Text × Json

-- The order of `slices.Sorted` on strings.
unfoldable pub less : Text → Text → Bool
less [] [] = false
less [] (b ∷ t) = true
less (a ∷ s) [] = false
less (a ∷ s) (b ∷ t) = ltb a b || (a == b && less s t)

unfoldable pub insert : Member → List Member → List Member
insert m [] = m ∷ []
insert m (n ∷ rest) = let later = insert m rest in if less n.0 m.0 then n ∷ later else m ∷ n ∷ rest

-- The members in the order of their keys.
unfoldable pub sorted : List Member → List Member
unfolding insert less
sorted [] = []
sorted (m ∷ rest) = insert m (sorted rest)

fields_of : List Member → Fields
fields_of [] = no_fields
fields_of ((key, value) ∷ rest) = entry key value (fields_of rest)

-- A string member that is left out when empty.
unfoldable pub text_member : Text → Text → List Member
text_member key value = if same value [] then [] else (key, string value) ∷ []

location_text : ValidationLocation → Text
location_text body = codes "body"
location_text path = codes "path"
location_text query = codes "query"
location_text header = codes "header"

-- The struct tags of `ValidationSource`, `omitempty` on both.
source_json : ValidationSource → Json
unfolding text_member location_text fields_of
source_json source = object (
    fields_of (
      text_member (codes "in") (location_text source.location)
      ++ text_member (codes "field") source.field))

meta_member : List Member → List Member
meta_member [] = []
meta_member (m ∷ rest) = (codes "meta", object (fields_of (sorted (m ∷ rest)))) ∷ []

-- The struct tags of `ValidationError`.
unfoldable pub error_json : ValidationError → Json
unfolding source_json meta_member sorted
error_json e = object (
    fields_of (
      text_member (codes "detail") e.detail
      ++ (text_member (codes "code") (codes e.code)
          ++ ((codes "source", source_json e.source) ∷ meta_member e.meta))))

unfoldable pub errors_json : List ValidationError → Items
errors_json [] = no_items
errors_json (e ∷ rest) = item (error_json e) (errors_json rest)

unfoldable pub errors_member : List ValidationError → List Member
unfolding error_json errors_json
errors_member [] = []
errors_member (e ∷ rest) = (codes "errors", array (errors_json (e ∷ rest))) ∷ []

unfoldable pub status_member : ℕ → List Member
status_member status = if status == 0 then [] else (codes "status", number status) ∷ []

-- The six properties in their order, those at their zero value left out.
unfoldable pub standard_members : Problem → List Member
unfolding text_member status_member errors_member
standard_members p =
    text_member (codes "type") p.type_uri
    ++ (text_member (codes "title") p.title
        ++ (status_member p.status
            ++ (text_member (codes "detail") p.detail
                ++ (text_member (codes "instance") p.instance_uri ++ errors_member p.errors))))

-- The members of the whole document.
unfoldable pub members : Problem → List Member
unfolding standard_members sorted
members p = standard_members p ++ sorted p.extensions

unfoldable pub marshal_json : Problem → Json
unfolding members fields_of
marshal_json p = object (fields_of (members p))
