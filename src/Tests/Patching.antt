-- ===== src/Tests/Patching.antt =====
-- Runs of the package patch: an update between the GET and the PUT, and the description of a route.
use arnon.Prelude.{
  ℕ, ◌≡◌, ◌≢◌, refl, Option, none, some, Result, ok, err, [], ◌∷◌, ltb, if◌then◌else◌,
}
use arnon.Prelude.Strings.{Text, codes, same, same_iff}
use arnon.Http.{
  Handler, Request, Writer, fresh, get, set_header, Program, edit_header, send_bytes, Body, write,
}
use arnon.Problem.{Json}
use arnon.Httpx.Precondition.{State}
use arnon.Httpx.Patch.{PatchLibrary, run_buffered, from_get_put, not_required}
use arnon.Httpx.Routing.{split_pattern}
use arnon.Httpx.Routing.Router.{new_router, with_open_api, record_types, register_open_api}
use arnon.Httpx.Patch.Described.{
  DocumentedHandler, typed, untyped, put_without_types, documented, describe, as_node, put_below,
  describe-registered,
}
use arnon.Httpx.Patch.Lost.{strong_tag, guarded, refusing, from_get_put-keeps}

-- A library whose patches are the whole new text.
abbrev whole_texts : PatchLibrary Text
whole_texts = record {
  merge_patch = λ original patch. ok patch;
  decode_patch = λ patch. ok patch;
  apply_operations = λ patch original. ok patch;
  media_type_of = λ t. t;
  quote = λ t. t;
}

abbrev show_article : Program
show_article = edit_header (set_header "Etag" (codes "\"v1\"")) ∷ send_bytes (codes "old") ∷ []

abbrev changed : State
changed = record { etag = codes "\"v2\""; last_modified = 0 }

abbrev change : Request
change = record {
  method = "PATCH";
  path = codes "/articles/7";
  header = [];
  remote_addr = [];
  context = record { real_ip = []; request_id = [] };
}

abbrev new_text : Body
new_text = record { content_length = some 3; content = some (codes "new"); limit = none }

abbrev encode_nothing : Json → Result Text Text
encode_nothing value = ok []

abbrev no_dates : Text → Option ℕ
no_dates t = none

abbrev save : Text → Writer → Writer
save text w = write text w

v2-ne-v1 : codes "\"v2\"" ≢ strong_tag (codes "v1")
unfolding same
v2-ne-v1 e = cc ((same_iff (codes "\"v2\"") (strong_tag (codes "v1"))).1 e)

from_get_put-keeps_example :
    from_get_put whole_texts encode_nothing no_dates none
      (guarded encode_nothing no_dates changed not_required save)
      (λ r. show_article)
      change
      new_text
      fresh
    ≡ from_get_put whole_texts encode_nothing no_dates none
        (refusing encode_nothing no_dates changed not_required)
        (λ r. show_article)
        change
        new_text
        fresh
from_get_put-keeps_example =
    from_get_put-keeps encode_nothing no_dates changed not_required whole_texts none save
      (λ r. show_article) change new_text fresh (codes "v1")
      (unfold run_buffered get set_header in refl) refl v2-ne-v1

abbrev idle : Handler
idle request w = w

abbrev documented_patch : DocumentedHandler ℕ ℕ
documented_patch = documented idle 7 1 2

-- The PUT handler has the types 1 and 2 below a middleware; the operation of the PATCH is 7.
describe-registered_example :
    (describe {Op = ℕ} {T = ℕ} idle (put_below (idle ∷ []) (typed idle (some 5) 1 2)) 7
      ≡ (if ltb 1 32 then ok documented_patch else err put_without_types))
    × (register_open_api (codes "PATCH /a") (as_node documented_patch) (with_open_api new_router)
        ≡ record_types
            (
              documented_patch.operation, documented_patch.request_type,
              documented_patch.response_type,
            )
            (split_pattern (codes "PATCH /a"))
            (with_open_api new_router))
    × (describe {Op = ℕ} {T = ℕ} idle (put_below (idle ∷ []) (untyped idle)) 7
        ≡ err put_without_types)
describe-registered_example =
    describe-registered (idle ∷ []) idle idle (some 5) 7 1 2 (codes "PATCH /a")
      (with_open_api new_router) refl
