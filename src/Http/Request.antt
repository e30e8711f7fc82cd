-- ===== src/Http/Request.antt =====
-- src/httprequest.cpp and include/httprequest.h: the request parser, a state machine over the lines
-- of a connection's read buffer. Log output is left out. The two regular expressions are read as
-- the functions that regex_match computes for them; '.' does not match a line terminator.
pub mod Form
pub mod Grammar
pub mod Rounds
pub mod Written
pub mod RoundTrip
pub mod Scan
pub mod Total
pub mod Fields
pub mod FormText
pub mod Percent
use idc.Prelude.{
  Bytes, ℕ, zero, suc, ◌+◌, ◌-◌, ◌*◌, Bool, true, false, not, ◌&&◌, ◌||◌, List, [], ◌∷◌, ◌++◌,
  Option, none, some, Result, ok, fault, ◌>>=◌, ◌>>◌, require, assertion, out_of_range, exhausted,
  if◌then◌else◌, ltb, leb, ◌==◌, length, take, drop, slice,
}
use idc.Text.{
  codes, equal, is_empty, has, split_at, strip_prefix, find_crlf, Dict, lookup, assign, contains,
  subscript,
}
use idc.Buffer.{Buffer, readable_bytes, retrieve_until, contents}
use Form.{parse_from_urlencoded}

pub data ParseState : Type 0 where
  request_line headers body finish : ParseState

pub record HttpRequest : Type 0 where
  pub state : ParseState
  pub method : Bytes
  pub path : Bytes
  pub version : Bytes
  pub body : Bytes
  pub header : Dict
  pub post : Dict

-- Init
abbrev pub init : HttpRequest
init = record {
  state = request_line;
  method = [];
  path = [];
  version = [];
  body = [];
  header = [];
  post = [];
}

unfoldable pub is_keep_alive : HttpRequest → Bool
unfolding lookup equal
is_keep_alive r = elim (lookup (codes "Connection") r.header) [
  | none ↦ false
  | some v ↦ equal v (codes "keep-alive") && equal r.version (codes "1.1")
]

abbrev pub any_equal : Bytes → List Bytes → Bool
any_equal s [] = false
any_equal s (x ∷ xs) = equal x s || any_equal s xs

abbrev pub default_html : List Bytes
default_html =
    codes "/index"
    ∷ codes "/register"
    ∷ codes "/login"
    ∷ codes "/welcome"
    ∷ codes "/video"
    ∷ codes "/picture"
    ∷ []

-- The path that ParsePath_ makes of a path.
unfoldable pub resolve_path : Bytes → Bytes
unfolding equal
resolve_path path =
    if equal path (codes "/")
    then codes "/index.html"
    else if any_equal path default_html
    then path ++ codes ".html"
    else path

unfoldable pub parse_path : HttpRequest → HttpRequest
unfolding resolve_path
parse_path r = record r { path = resolve_path r.path }

-- What "^([^ ]*) ([^ ]*) HTTP/([^ ]*)$" captures.
unfoldable pub match_request_line : Bytes → Option (Bytes × Bytes × Bytes)
unfolding split_at strip_prefix
match_request_line line = elim (split_at b' ' line) [
  | none ↦ none
  | some (method, rest) ↦ elim (split_at b' ' rest) [
    | none ↦ none
    | some (path, proto) ↦ elim (strip_prefix (codes "HTTP/") proto) [
      | none ↦ none
      | some version ↦ if has b' ' version then none else some (method, path, version)
    ]
  ]
]

-- The result says whether the line was accepted.
unfoldable pub parse_request_line : HttpRequest → Bytes → HttpRequest × Bool
unfolding match_request_line
parse_request_line r line = elim (match_request_line line) [
  | none ↦ (r, false)
  | some (method, path, version) ↦
      (record r { state = headers; method = method; path = path; version = version }, true)
]

-- `?` takes a space that is there.
unfoldable pub skip_space : Bytes → Bytes
skip_space [] = []
skip_space (c ∷ cs) = if c == b' ' then cs else c ∷ cs

-- What "^([^:]*): ?(.*)$" captures.
unfoldable pub match_header : Bytes → Option (Bytes × Bytes)
unfolding split_at skip_space
match_header line = elim (split_at b':' line) [
  | none ↦ none
  | some (key, rest) ↦
      let value = skip_space rest in
      if has b'\n' value || has b'\r' value then none else some (key, value)
]

unfoldable pub parse_header : HttpRequest → Bytes → HttpRequest
unfolding match_header assign
parse_header r line = elim (match_header line) [
  | none ↦ record r { state = body }
  | some (key, value) ↦ record r { header = assign key value r.header }
]

-- UserVerify: the database query stands in comments.
unfoldable pub user_verify : Bytes → Bytes → Bool
user_verify name pwd = not (is_empty name || is_empty pwd)

-- DEFAULT_HTML_TAG
unfoldable pub html_tag : Bytes → Option ℕ
unfolding equal
html_tag path =
    if equal path (codes "/register.html")
    then some 0
    else if equal path (codes "/login.html")
    then some 1
    else none

-- The check of the user behind a form, on a page that has a tag.
unfoldable pub verify_form : HttpRequest → HttpRequest
unfolding html_tag user_verify subscript
verify_form r = elim (html_tag r.path) [
  | none ↦ r
  | some tag ↦
      let (name, post) = subscript (codes "username") r.post in
      let (pwd, post') = subscript (codes "password") post in
      record r {
        path = if user_verify name pwd then codes "/welcome.html" else codes "/error.html";
        post = post';
      }
]

unfoldable pub parse_form : HttpRequest → Result HttpRequest
unfolding verify_form parse_from_urlencoded
parse_form r = do
  (body', post') ← parse_from_urlencoded r.body r.post
  ok (verify_form (record r { body = body'; post = post' }))

unfoldable pub parse_post : HttpRequest → Result HttpRequest
unfolding subscript equal parse_form
parse_post r =
    let (kind, header) = subscript (codes "Content-Type") r.header in
    if not (equal r.method (codes "POST"))
    then ok r
    else if equal kind (codes "application/x-www-form-urlencoded")
    then parse_form (record r { header = header })
    else ok (record r { header = header })

unfoldable pub parse_body : HttpRequest → Bytes → Result HttpRequest
unfolding parse_post
parse_body r line = do
  parsed ← parse_post (record r { body = line })
  ok (record parsed { state = finish })

-- What the switch makes of one line, and whether the parser goes on. `readable` is the number of
-- bytes from the line's start on.
unfoldable pub parse_line : ParseState → HttpRequest → Bytes → ℕ → Result (HttpRequest × Bool)
unfolding parse_request_line parse_path parse_header parse_body
parse_line request_line r line readable =
    let (parsed, accepted) = parse_request_line r line in
    ok (if accepted then (parse_path parsed, true) else (parsed, false))
parse_line headers r line readable =
    let parsed = parse_header r line in
    ok (if leb readable 2 then record parsed { state = finish } else parsed, true)
parse_line body r line readable = do parsed ← parse_body r line; ok (parsed, true)
parse_line finish r line readable = ok (r, true)

abbrev pub is_finish : ParseState → Bool
is_finish finish = true
is_finish _ = false

-- How a round of the while loop ends: by `return false`, by `break`, or at a line end, whose
-- place in the readable bytes is kept.
pub data Next : Type 0 where
  refused last_line : Next
  line_end : ℕ → Next

-- A round up to RetrieveUntil, on the readable bytes.
unfoldable pub parse_round : HttpRequest → Bytes → ℕ → Result (HttpRequest × Next)
unfolding find_crlf parse_line
parse_round r text readable = do
  let end = find_crlf text
  (parsed, accepted) ← parse_line r.state r (take end text) readable
  ok (
    parsed,
    if not accepted then refused else if end == length text then last_line else line_end end,
  )

-- The while loop; each round but the last takes a line end from the buffer, so `fuel` above the
-- number of bytes is enough.
unfoldable pub parse_loop : ℕ → HttpRequest → Buffer → Result (HttpRequest × Buffer × Bool)
unfolding readable_bytes parse_round retrieve_until
parse_loop zero r buff = fault exhausted
parse_loop (suc fuel) r buff = elim (readable_bytes buff == 0 || is_finish r.state) [
  | true ↦ ok (r, buff, true)
  | false ↦ parse_round r (contents buff) (readable_bytes buff) >>= λ (parsed, next). elim next [
    | refused ↦ ok (parsed, buff, false)
    | last_line ↦ ok (parsed, buff, true)
    | line_end end ↦
        retrieve_until buff (buff.read_pos + (end + 2)) >>= λ rest. parse_loop fuel parsed rest
  ]
]

unfoldable pub parse : HttpRequest → Buffer → Result (HttpRequest × Buffer × Bool)
unfolding readable_bytes parse_loop
parse r buff =
    if readable_bytes buff == 0
    then ok (r, buff, false)
    else parse_loop (suc (length (contents buff))) r buff

-- GetPost; the key is asserted not to be empty.
unfoldable pub get_post : HttpRequest → Bytes → Result Bytes
unfolding lookup
get_post r key = do
  require (not (is_empty key)) assertion
  ok (elim (lookup key r.post) [ none ↦ [] | some v ↦ v ])
