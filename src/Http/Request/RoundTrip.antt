-- ===== src/Http/Request/RoundTrip.antt =====
-- HttpRequest::parse of src/httprequest.cpp, on a request as a client writes it.
use idc.Prelude.{
  Bytes, ℕ, zero, suc, ◌+◌, ◌<◌, ◌≡◌, ◌≢◌, refl, ap, ◌∙◌, Bool, true, false, ◌||◌, [], ◌∷◌, ok,
  arith, leb, length, if◌then◌else◌, ◌==◌,
}
use idc.Text.{has, Dict}
use idc.Buffer.{Buffer, readable_bytes}
use idc.Http.Request.{
  HttpRequest, body, finish, init, parse_line, parse_body, parse_loop, parse, is_finish,
}
use idc.Http.Request.Grammar.{IsRequestLine}
use idc.Http.Request.Rounds.{Holds, last_round}
use idc.Http.Request.Written.{
  request_text, Headers, assign_all, opened, request-Comes, parse-loop_eq,
}

or_true : (b : Bool) → (b || true) ≡ true
or_true true = refl
or_true false = refl

loop_finished :
    (fuel : ℕ) (r : HttpRequest) (buff : Buffer)
    → r.state ≡ finish
    → 0 < fuel
    → parse_loop fuel r buff ≡ ok (r, buff, true)
unfolding parse_loop
loop_finished zero r buff s h = absurd (omega arith)
loop_finished (suc fuel) r buff s h =
    let f : is_finish r.state ≡ true = ap is_finish s in
    let ends : (readable_bytes buff == 0 || is_finish r.state) ≡ true =
      rw f (or_true (readable_bytes buff == 0)) in
    rw (ends, parse_loop)

-- What the parser makes of a request line and headers, before the body.
abbrev pub parsed : Bytes → Bytes → Bytes → Dict → HttpRequest
parsed method path version hs = record (opened method path version) { header = assign_all hs [] }

body_state :
    (content : Bytes) → content ≢ [] → (if leb (length content + 2) 2 then finish else body) ≡ body
body_state [] ne = absurd (ne refl)
body_state (c ∷ content) ne = ground arith

body_loop :
    (fuel : ℕ) (r r' : HttpRequest) (buff : Buffer) (content : Bytes)
    → 0 < fuel
    → r.state ≡ body
    → Holds content buff
    → content ≢ []
    → has b'\r' content ≡ false
    → parse_body r content ≡ ok r'
    → parse_loop fuel r buff ≡ ok (r', buff, true)
unfolding parse_line
body_loop zero r r' buff content f s h ne n e = absurd (omega arith)
body_loop (suc fuel) r r' buff content f s h ne n e =
    last_round r r' buff content fuel h ne n body s refl (rw e)

module _ {method path version : Bytes} (line : Bytes) (hs : Dict) (buff : Buffer)
    (reads : IsRequestLine line method path version) (one_line : has b'\r' line ≡ false)
    (well_formed : Headers hs) where
  -- A buffer that holds exactly a request line and headers as a client writes them, and an empty
  -- line, is read to its end: the method, the resolved path, the version and the headers are those
  -- that were written, the request is finished and the buffer is empty.
  pub parse-request_text :
      Holds (request_text line hs []) buff
      → (rest : Buffer) × Holds [] rest
        × (parse init buff
            ≡ ok (record (parsed method path version hs) { state = finish }, rest, true))
  parse-request_text h =
      let c = request-Comes line hs [] buff reads one_line well_formed h in
      (
        c.next,
        c.holds,
        parse-loop_eq line hs [] buff reads one_line well_formed h
            ∙ c.same
            ∙ loop_finished c.left _ c.next refl (omega (arith, c)),
      )

  -- With a body behind the empty line that has no carriage return, the body is parsed, the request
  -- is finished if ParseBody_ returns, and the body's bytes are still in the buffer.
  pub parse-request_body :
      (content : Bytes) (r : HttpRequest)
      → content ≢ []
      → has b'\r' content ≡ false
      → Holds (request_text line hs content) buff
      → parse_body (record (parsed method path version hs) { state = body }) content ≡ ok r
      → (rest : Buffer) × Holds content rest × (parse init buff ≡ ok (r, rest, true))
  parse-request_body content r ne n h e =
      let c = request-Comes line hs content buff reads one_line well_formed h in
      (
        c.next,
        c.holds,
        parse-loop_eq line hs content buff reads one_line well_formed h
            ∙ c.same
            ∙ body_loop c.left _ r c.next content (omega (arith, c)) (body_state content ne) c.holds
                ne n (rw (body_state content ne) e),
      )
