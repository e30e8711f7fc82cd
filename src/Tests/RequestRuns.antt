-- ===== src/Tests/RequestRuns.antt =====
-- Requests that src/httprequest.cpp parses.
use idc.Prelude.{Bytes, ◌≡◌, ◌↔◌, refl, Bool, true, some, [], ◌∷◌, ok, ◌>>=◌, Result, length, arith}
use idc.Text.{codes, Dict}
use idc.Buffer.{Buffer, contents}
use idc.Http.Request.{
  HttpRequest, body, finish, init, parse, parse_body, resolve_path, match_request_line,
}
use idc.Http.Request.Grammar.{IsRequestLine, match_request_line_iff}
use idc.Http.Request.Rounds.{Holds}
use idc.Http.Request.Written.{request_text, Headers}
use idc.Http.Request.RoundTrip.{parsed, parse-request_text, parse-request_body}
use idc.Http.Request.Scan.{Guarded}
use idc.Http.Request.Total.{Left, parse-Guarded}

abbrev loaded : Bytes → Buffer
loaded text = record { buffer = text; read_pos = 0; write_pos = length text }

abbrev get_index : Bytes
get_index = codes "GET / HTTP/1.1\r\nHost: a.b\r\nConnection: keep-alive\r\n\r\n"

abbrev result_of : Result (HttpRequest × Buffer × Bool) → Result (HttpRequest × Bytes)
result_of r = r >>= λ x. ok (x.0, contents x.1)

get_run :
    result_of (parse init (loaded get_index))
    ≡ ok (
      record init {
        state = finish;
        method = codes "GET";
        path = codes "/index.html";
        version = codes "1.1";
        header = (codes "Host", codes "a.b") ∷ (codes "Connection", codes "keep-alive") ∷ [];
      },
      [],
    )
unfolding parse
get_run = refl

abbrev post_login : Bytes
post_login =
    codes
      "POST /login HTTP/1.1\r\nContent-Type: application/x-www-form-urlencoded\r\n\r\nusername=me&password=a+b"

post_run :
    result_of (parse init (loaded post_login))
    ≡ ok (
      record init {
        state = finish;
        method = codes "POST";
        path = codes "/welcome.html";
        version = codes "1.1";
        body = codes "username=me&password=a b";
        header = (codes "Content-Type", codes "application/x-www-form-urlencoded") ∷ [];
        post = (codes "username", codes "me") ∷ (codes "password", codes "a b") ∷ [];
      },
      codes "username=me&password=a+b",
    )
unfolding parse
post_run = refl

abbrev get_line : Bytes
get_line = codes "GET / HTTP/1.1"

get_line-IsRequestLine : IsRequestLine get_line (codes "GET") (codes "/") (codes "1.1")
get_line-IsRequestLine = record {
  reads = refl;
  method_word = refl;
  path_word = refl;
  version_word = refl;
}

abbrev get_headers : Dict
get_headers = (codes "Host", codes "a.b") ∷ (codes "Connection", codes "keep-alive") ∷ []

get_headers-Headers : Headers get_headers
get_headers-Headers = (
  record { no_colon = refl; one_line = refl; no_return = refl },
  refl,
  (record { no_colon = refl; one_line = refl; no_return = refl }, refl, tt),
)

loaded_get : Holds (request_text get_line get_headers []) (loaded get_index)
loaded_get = record {
  valid = record { ordered = omega arith; within = omega arith; bounded = omega arith };
  holds = refl;
}

parse-request_text_example :
    (rest : Buffer) × Holds [] rest
    × (parse init (loaded get_index)
        ≡ ok (
          record (parsed (codes "GET") (codes "/") (codes "1.1") get_headers) { state = finish },
          rest,
          true,
        ))
parse-request_text_example =
    parse-request_text get_line get_headers (loaded get_index) get_line-IsRequestLine refl
      get_headers-Headers loaded_get

abbrev post_line : Bytes
post_line = codes "POST /login HTTP/1.1"

abbrev post_headers : Dict
post_headers = (codes "Content-Type", codes "application/x-www-form-urlencoded") ∷ []

abbrev post_body : Bytes
post_body = codes "username=me&password=a+b"

abbrev posted : HttpRequest
posted = record (parsed (codes "POST") (codes "/login") (codes "1.1") post_headers) {
  state = finish;
  path = codes "/welcome.html";
  body = codes "username=me&password=a b";
  post = (codes "username", codes "me") ∷ (codes "password", codes "a b") ∷ [];
}

posted_body :
    parse_body
      (record (parsed (codes "POST") (codes "/login") (codes "1.1") post_headers) { state = body })
      post_body
    ≡ ok posted
unfolding parse_body resolve_path
posted_body = refl

parse-request_body_example :
    (rest : Buffer) × Holds post_body rest
    × (parse init (loaded post_login) ≡ ok (posted, rest, true))
parse-request_body_example =
    parse-request_body {method = codes "POST"} {path = codes "/login"} {version = codes "1.1"}
      post_line post_headers (loaded post_login)
      (record { reads = refl; method_word = refl; path_word = refl; version_word = refl }) refl
      (record { no_colon = refl; one_line = refl; no_return = refl }, refl, tt) post_body posted
      (λ e. cc) refl
      (record {
        valid = record { ordered = omega arith; within = omega arith; bounded = omega arith };
        holds = refl;
      })
      posted_body

parse-Guarded_example : Guarded (Left (contents (loaded get_index))) (parse init (loaded get_index))
parse-Guarded_example = parse-Guarded init (loaded get_index) loaded_get.valid

match_request_line_iff_example :
    (match_request_line get_line ≡ some (codes "GET", codes "/", codes "1.1"))
    ↔ IsRequestLine get_line (codes "GET") (codes "/") (codes "1.1")
match_request_line_iff_example =
    match_request_line_iff get_line (codes "GET") (codes "/") (codes "1.1")
