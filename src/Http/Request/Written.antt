-- ===== src/Http/Request/Written.antt =====
-- A request as a client writes it, and how the loop of HttpRequest::parse in src/httprequest.cpp
-- comes to its body.
use idc.Prelude.{
  Bytes, ℕ, zero, suc, ◌+◌, ◌≤◌, ◌<◌, ◌≡◌, refl, ap, ◌∙◌, Bool, true, false, [], ◌∷◌, ◌++◌, Result,
  ok, arith, if◌then◌else◌, leb, ◌==◌, length, length-append,
}
use idc.Text.{has, Dict, assign}
use idc.Text.Search.{has-append}
use idc.Buffer.{Buffer, readable_bytes, contents}
use idc.Buffer.Contents.{readable_bytes-length}
use idc.Buffer.Queue.Refinement.{advanced}
use idc.Http.Request.{
  HttpRequest, request_line, headers, body, finish, init, parse_path, parse_line,
  parse_request_line, parse_header, match_header, resolve_path, parse_loop, parse,
}
use idc.Http.Request.Grammar.{
  IsRequestLine, match_request_line_iff, IsHeader, match_header_complete,
}
use idc.Http.Request.Rounds.{Holds, line_round}

-- A header line without its end.
abbrev pub header_line : Bytes × Bytes → Bytes
header_line (key, value) = key ++ (b':' ∷ b' ' ∷ value)

abbrev pub header_text : Dict → Bytes → Bytes
header_text [] rest = b'\r' ∷ b'\n' ∷ rest
header_text (h ∷ hs) rest = header_line h ++ (b'\r' ∷ b'\n' ∷ header_text hs rest)

-- A request line, the headers, an empty line and the body.
abbrev pub request_text : Bytes → Dict → Bytes → Bytes
request_text line hs rest = line ++ (b'\r' ∷ b'\n' ∷ header_text hs rest)

abbrev pub Headers : Dict → Type 0
Headers [] = Unit {0}
Headers ((key, value) ∷ hs) = IsHeader key value × (has b'\r' key ≡ false) × Headers hs

abbrev pub assign_all : Dict → Dict → Dict
assign_all [] m = m
assign_all ((key, value) ∷ hs) m = assign_all hs (assign key value m)

-- What stands behind a header's line end is longer than a line end.
header_text-long : (hs : Dict) (rest : Bytes) → 2 ≤ length (header_text hs rest)
header_text-long [] rest = omega arith
header_text-long (h ∷ hs) rest =
    omega (arith, length-append (header_line h) (b'\r' ∷ b'\n' ∷ header_text hs rest))

parse_line_header :
    (r : HttpRequest) (key value : Bytes) (readable : ℕ)
    → r.state ≡ headers
    → IsHeader key value
    → 2 < readable
    → parse_line headers r (header_line (key, value)) readable
      ≡ ok (record r { header = assign key value r.header }, true)
unfolding parse_line parse_header
parse_line_header r key value readable s h k =
    rw (match_header_complete key value h, parse_line, parse_header) (ground arith)

-- The empty line ends the headers; with nothing behind it the request is complete.
parse_line_empty :
    (r : HttpRequest) (readable : ℕ)
    → parse_line headers r [] readable
      ≡ ok (record r { state = if leb readable 2 then finish else body }, true)
unfolding parse_line parse_header match_header
parse_line_empty r readable = ground arith

-- The loop has come to `rest`, in state `r'`, with fuel left for it.
pub record Comes (fuel : ℕ) (r : HttpRequest) (buff : Buffer) (r' : HttpRequest) (rest : Bytes)
    : Type 0 where
  pub next : Buffer
  pub left : ℕ
  pub holds : Holds rest next
  pub enough : length rest < left
  pub same : parse_loop fuel r buff ≡ parse_loop left r' next

abbrev pub after_headers : HttpRequest → Dict → Bytes → HttpRequest
after_headers r hs rest = record r {
  state = if leb (length rest + 2) 2 then finish else body;
  header = assign_all hs r.header;
}

parse_line_empty_at :
    (r : HttpRequest) (rest : Bytes)
    → parse_line headers r [] (length (b'\r' ∷ b'\n' ∷ rest)) ≡ ok (after_headers r [] rest, true)
parse_line_empty_at r rest =
    parse_line_empty r (length (b'\r' ∷ b'\n' ∷ rest))
    ∙ ap {B = Result (HttpRequest × Bool)}
        (λ n. ok (record r { state = if leb n 2 then finish else body }, true)) (omega arith)

header_no_return :
    (key value : Bytes)
    → has b'\r' key ≡ false
    → IsHeader key value
    → has b'\r' (header_line (key, value)) ≡ false
header_no_return key value n h = rw (has-append b'\r' key (b':' ∷ b' ' ∷ value), n) h.no_return

headers-Comes :
    (hs : Dict) (rest : Bytes) (fuel : ℕ) (r : HttpRequest) (buff : Buffer)
    → r.state ≡ headers
    → Headers hs
    → Holds (header_text hs rest) buff
    → length (header_text hs rest) < fuel
    → Comes fuel r buff (after_headers r hs rest) rest
headers-Comes [] rest zero r buff s w h f = absurd (omega arith)
headers-Comes (_ ∷ hs) rest zero r buff s w h f = absurd (omega arith)
headers-Comes [] rest (suc fuel) r buff s w h f =
    let round =
      line_round r (after_headers r [] rest) buff [] rest fuel h refl headers s refl
        (parse_line_empty_at r rest) in
    record {
      next = advanced buff 2;
      left = fuel;
      holds = round.0;
      enough = omega arith;
      same = round.1;
    }
headers-Comes ((key, value) ∷ hs) rest (suc fuel) r buff s w h f =
    let line = header_line (key, value) in
    let r' = record r { header = assign key value r.header } in
    let len = length-append line (b'\r' ∷ b'\n' ∷ header_text hs rest) in
    let round =
      line_round r r' buff line (header_text hs rest) fuel h (header_no_return key value w.1 w.0)
        headers s refl
        (parse_line_header r key value (length (line ++ (b'\r' ∷ b'\n' ∷ header_text hs rest))) s
          w.0 (omega (arith, len, header_text-long hs rest))) in
    let later =
      headers-Comes hs rest fuel r' (advanced buff (length line + 2)) s w.2 round.0
        (omega (arith, len)) in
    record {
      next = later.next;
      left = later.left;
      holds = later.holds;
      enough = later.enough;
      same = round.1 ∙ later.same;
    }

-- The request once its first line is read.
abbrev pub opened : Bytes → Bytes → Bytes → HttpRequest
opened method path version = record init {
  state = headers;
  method = method;
  path = resolve_path path;
  version = version;
}

parse_line_request :
    (line method path version : Bytes) (readable : ℕ)
    → IsRequestLine line method path version
    → parse_line request_line init line readable ≡ ok (opened method path version, true)
unfolding parse_line parse_request_line parse_path
parse_line_request line method path version readable h =
    rw ((match_request_line_iff line method path version).1 h, parse_line, parse_request_line) refl

module _ {method path version : Bytes} (line : Bytes) (hs : Dict) (rest : Bytes) (buff : Buffer)
    (reads : IsRequestLine line method path version) (one_line : has b'\r' line ≡ false)
    (well_formed : Headers hs) (holds : Holds (request_text line hs rest) buff) where
  len : length (request_text line hs rest) ≡ length line + suc (suc (length (header_text hs rest)))
  len = length-append line (b'\r' ∷ b'\n' ∷ header_text hs rest)

  pub request-Comes :
      Comes
        (suc (length (contents buff)))
        init
        buff
        (after_headers (opened method path version) hs rest)
        rest
  request-Comes =
      let round =
        line_round init (opened method path version) buff line (header_text hs rest)
          (length (contents buff)) holds one_line request_line refl refl
          (parse_line_request line method path version (length (request_text line hs rest))
            reads) in
      let size : length (contents buff) ≡ length (request_text line hs rest) =
        ap length holds.holds in
      let later =
        headers-Comes hs rest (length (contents buff)) (opened method path version)
          (advanced buff (length line + 2)) refl well_formed round.0 (omega (arith, size, len)) in
      record {
        next = later.next;
        left = later.left;
        holds = later.holds;
        enough = later.enough;
        same = round.1 ∙ later.same;
      }

  pub parse-loop_eq : parse init buff ≡ parse_loop (suc (length (contents buff))) init buff
  unfolding parse
  parse-loop_eq =
      let size : length (contents buff) ≡ length (request_text line hs rest) =
        ap length holds.holds in
      let some_left : (readable_bytes buff == 0) ≡ false =
        rw (readable_bytes-length buff holds.valid) (ground (arith, size, len)) in
      rw some_left
