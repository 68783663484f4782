-- ===== src/Http/Headers.antt =====
-- How the operations of a header map act on what Header.Get and Header.Values read.
use arnon.Prelude.{String, ◌≡◌, refl, [], ◌∷◌, ◌++◌, arith, if◌then◌else◌, str_eq, eq_iff}
use arnon.Prelude.Strings.{Text}
use arnon.Http.{Header, get, values, del, set_header}

pub values-append :
    (name : String) (h k : Header) → values name (h ++ k) ≡ values name h ++ values name k
unfolding values
values-append name [] k = refl
values-append name ((n, v) ∷ h) k = ground (arith, values-append name h k)

pub values-del :
    (name other : String) (h : Header)
    → values name (del other h) ≡ (if str_eq other name then [] else values name h)
unfolding values del
values-del name other [] = ground arith
values-del name other ((n, v) ∷ h) =
    ground (arith, values-del name other h, eq_iff n other, eq_iff n name, eq_iff other name)

pub get-del :
    (name other : String) (h : Header)
    → get name (del other h) ≡ (if str_eq other name then [] else get name h)
unfolding get del
get-del name other [] = ground arith
get-del name other ((n, v) ∷ h) =
    ground (arith, get-del name other h, eq_iff n other, eq_iff n name, eq_iff other name)

pub get-set_header :
    (name other : String) (value : Text) (h : Header)
    → get name (set_header other value h) ≡ (if str_eq other name then value else get name h)
unfolding get set_header
get-set_header name other value h = ground (arith, get-del name other h)

pub values-set_header :
    (name other : String) (value : Text) (h : Header)
    → values name (set_header other value h)
      ≡ (if str_eq other name then value ∷ [] else values name h)
unfolding values set_header
values-set_header name other value h = ground (arith, values-del name other h)
