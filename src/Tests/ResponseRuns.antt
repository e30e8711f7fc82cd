-- ===== src/Tests/ResponseRuns.antt =====
-- Responses that src/httpresponse.cpp makes.
use idc.Prelude.{
  Bytes, ℕ, ◌≡◌, refl, true, false, ok, ◌>>=◌, Result, fault, bad_access, pos, Option, none, some,
  if◌then◌else◌, ◌==◌, ◌||◌, Returns, arith,
}
use idc.Text.{codes, equal}
use idc.Text.Decimal.{to_string, number_from, number_from-to_string}
use idc.Buffer.{Buffer, new, contents, IsValid}
use idc.Http.Response.{HttpResponse, Files, make_response, file_len}
use idc.Http.Response.Whole.{Answered, make_response-Answered}
use idc.Http.Response.EmptyFile.{make_response-empty}

abbrev pub page : Bytes
page = codes "<p>hello</p>"

-- One file that is readable, and one that is empty.
abbrev pub site : Files
site = record {
  stat = λ path.
      if equal path (codes "/www/a.html")
      then some (record { directory = false; others_read = true; size = 12 })
      else if equal path (codes "/www/empty.html")
      then some (record { directory = false; others_read = true; size = 0 })
      else none;
  opens = λ path. equal path (codes "/www/a.html") || equal path (codes "/www/empty.html");
  mmap = λ path n. if n == 0 then none else some page;
}

abbrev pub asked : Bytes → HttpResponse
asked path = record {
  code = pos 200;
  is_keep_alive = false;
  path = path;
  src_dir = codes "/www";
  mm_file = none;
  mm_file_stat = record { directory = false; others_read = false; size = 0 };
}

abbrev text_of : Result (HttpResponse × Buffer × ℕ) → Result (Option Bytes × Bytes)
text_of r = r >>= λ x. ok (x.0.mm_file, contents x.1)

page_run :
    text_of (make_response site (asked (codes "/a.html")) (new 64))
    ≡ ok (
      some page,
      codes
          "HTTP/1.1 200 OK\r\nConnection: close\r\nContent-type: text/html\r\nContent-length: 12\r\n\r\n",
    )
unfolding make_response new
page_run = refl

missing_run :
    text_of (make_response site (asked (codes "/b")) (new 64))
    ≡ ok (
      none,
      codes
          "HTTP/1.1 404 Not Found\r\nConnection: close\r\nContent-type: text/html\r\nContent-length: 126\r\n\r\n<html><title>Error</title><body bgcolor=\"ffffff\">404 : Not Found\n<p>File NotFound!</p><hr><em>TinyWebServer</em></body></html>",
    )
unfolding make_response new
missing_run = refl

pub new-IsValid : IsValid (new 64)
unfolding new
new-IsValid = record { ordered = omega arith; within = omega arith; bounded = omega arith }

make_response-Answered_example :
    Returns
      (make_response site (asked (codes "/a.html")) (new 64))
      (Answered site (asked (codes "/a.html")) (new 64))
unfolding file_len make_response new
make_response-Answered_example =
    make_response-Answered site (asked (codes "/a.html")) (new 64)
      (λ _. (page, refl, refl, omega arith)) new-IsValid (omega arith)

make_response-empty_example :
    make_response site (asked (codes "/empty.html")) (new 64) ≡ fault bad_access
unfolding file_len make_response new
make_response-empty_example =
    make_response-empty site (asked (codes "/empty.html")) (new 64) (λ _. refl) (refl) (refl)
      new-IsValid (omega arith)

number_from-to_string_example : number_from 0 (to_string (pos 1024)) ≡ 1024
number_from-to_string_example = number_from-to_string 1024
