-- ===== src/Httpx/Binding/Sources.antt =====
-- What `Decode` makes of a field from the path, the query and the header, told for each field by itself.
use arnon.Prelude.{List, []}
use arnon.Problem.{ValidationError}
use arnon.Httpx.Binding.{Slot, Field, Inputs, Parsers}
use arnon.Httpx.Binding.Offers.{or_else, from_path, from_query, from_header}

module _ {N : Type 0} (parsers : Parsers N) (inputs : Inputs) where
  -- A field behind the three sources: the header's value before the query's before the path's.
  abbrev pub latest : Field N → Field N
  latest f = record f {
    slot = or_else (from_header parsers inputs f.tag f.slot) (
        or_else (from_query parsers inputs f.tag f.slot)
          (or_else (from_path parsers inputs f.tag f.slot) f.slot));
  }

  abbrev set_slot : Field N → Slot N → Field N
  set_slot f slot = record f { slot = slot }

  abbrev after_path : Field N → Field N
  after_path f = set_slot f (or_else (from_path parsers inputs f.tag f.slot) f.slot)

  abbrev after_query : Field N → Field N
  after_query f = set_slot f (or_else (from_query parsers inputs f.tag f.slot) f.slot)

  abbrev after_header : Field N → Field N
  after_header f = set_slot f (or_else (from_header parsers inputs f.tag f.slot) f.slot)

  abbrev none_of : Field N → List ValidationError
  none_of f = []
