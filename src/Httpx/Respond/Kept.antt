-- ===== src/Httpx/Respond/Kept.antt =====
-- What a header keeps when `WriteProblem` sends it.
use arnon.Prelude.{
  ◌≡◌, refl, ap, ◌∙◌, String, false, inl, inr, none, some, Result, ok, Result-cases, str_eq, [],
}
use arnon.Prelude.Strings.{Text}
use arnon.Http.{Header, Request, Writer, get, set_header, write, write_header}
use arnon.Http.Headers.{get-set_header, get-del}
use arnon.Problem.{Json, Problem, status_code}
use arnon.Problem.Document.{marshal_json}
use arnon.Httpx.Respond.{write_problem, located}
use arnon.Httpx.Respond.Written.{status_code-located}

-- A name that writing a problem neither sets nor deletes.
pub record IsKept (name : String) : Type 0 where
  pub kind : str_eq "Content-Type" name ≡ false
  pub sniff : str_eq "X-Content-Type-Options" name ≡ false
  pub size : str_eq "Content-Length" name ≡ false

get-set_other :
    (name other : String) (value : Text) (h : Header)
    → str_eq other name ≡ false
    → get name (set_header other value h) ≡ get name h
get-set_other name other value h e = get-set_header name other value h ∙ rw e refl

-- A writer on which nothing was sent.
abbrev pub unsent : Header → Writer
unsent h = record { header = h; status = none; sent = []; body = [] }

module _ (encode : Json → Result Text Text) where
  pub get-write_problem :
      (name : String) (p : Problem) (request : Request) (h : Header)
      → IsKept name
      → get name (write_problem encode p request (unsent h)).sent ≡ get name h
  unfolding write_problem write_header write
  get-write_problem name p request h k =
      elim (Result-cases (encode (marshal_json (located request p)))) [
        | inl (rendered, e) ↦ rw (e, write_problem) (get-set_other name "Content-Type" _ h k.kind)
        | inr (message, e) ↦
            rw (e, write_problem)
              (get-set_other name "X-Content-Type-Options" _ _ k.sniff
                ∙ get-set_other name "Content-Type" _ _ k.kind
                ∙ get-del name "Content-Length" h
                ∙ rw k.size refl)
      ]

  pub status-write_problem :
      (p : Problem) (request : Request) (h : Header) (rendered : Text)
      → encode (marshal_json (located request p)) ≡ ok rendered
      → (write_problem encode p request (unsent h)).status ≡ some (status_code p)
  unfolding write_problem write_header write
  status-write_problem p request h rendered e =
      rw (e, write_problem) (ap some (status_code-located request p))
