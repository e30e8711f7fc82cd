-- ===== src/Http/Response.antt =====
-- src/httpresponse.cpp and include/httpresponse.h: the response to a request, written to the write
-- buffer of a connection, with the file to send mapped into memory. The file system is a parameter
-- of the operations that ask it. Log output is left out.
pub mod Answer
pub mod Whole
pub mod EmptyFile
use idc.Prelude.{
  Bytes, ℕ, suc, ◌+◌, Bool, true, false, not, ◌&&◌, ◌||◌, List, [], ◌∷◌, ◌++◌, Option, none, some,
  Result, ok, fault, ◌>>=◌, ◌>>◌, require, assertion, bad_access, if◌then◌else◌, ◌==◌, length, drop,
  get_or, ℤ, pos, negsuc, eq_ℤ,
}
use idc.Text.{codes, is_empty, Dict, lookup, find_last_of, c_string}
use idc.Text.Decimal.{to_string}
use idc.Buffer.{Buffer, append}

-- The parts of struct stat that the code reads.
pub record Stat : Type 0 where
  pub directory : Bool
  pub others_read : Bool
  pub size : ℕ

-- What the system calls give for a path: stat, whether open gives a descriptor, and the memory that
-- mmap of so many bytes gives, `none` for MAP_FAILED.
pub record Files : Type 0 where
  pub stat : Bytes → Option Stat
  pub opens : Bytes → Bool
  pub mmap : Bytes → ℕ → Option Bytes

-- `mm_file` is the mapped memory, `none` for null.
pub record HttpResponse : Type 0 where
  pub code : ℤ
  pub is_keep_alive : Bool
  pub path : Bytes
  pub src_dir : Bytes
  pub mm_file : Option Bytes
  pub mm_file_stat : Stat

abbrev pub suffix_type : Dict
suffix_type =
    (codes ".html", codes "text/html")
    ∷ (codes ".xml", codes "text/xml")
    ∷ (codes ".xhtml", codes "application/xhtml+xml")
    ∷ (codes ".txt", codes "text/plain")
    ∷ (codes ".rtf", codes "application/rtf")
    ∷ (codes ".pdf", codes "application/pdf")
    ∷ (codes ".word", codes "application/nsword")
    ∷ (codes ".png", codes "image/png")
    ∷ (codes ".gif", codes "image/gif")
    ∷ (codes ".jpg", codes "image/jpeg")
    ∷ (codes ".jpeg", codes "image/jpeg")
    ∷ (codes ".au", codes "audio/basic")
    ∷ (codes ".mpeg", codes "video/mpeg")
    ∷ (codes ".mpg", codes "video/mpeg")
    ∷ (codes ".avi", codes "video/x-msvideo")
    ∷ (codes ".gz", codes "application/x-gzip")
    ∷ (codes ".tar", codes "application/x-tar")
    ∷ (codes ".css", codes "text/css ")
    ∷ (codes ".js", codes "text/javascript ")
    ∷ []

-- A std::unordered_map<int, std::string>, looked up.
abbrev pub lookup_code : ℤ → List (ℤ × Bytes) → Option Bytes
lookup_code code [] = none
lookup_code code ((k, v) ∷ m) = if eq_ℤ k code then some v else lookup_code code m

abbrev pub code_status : List (ℤ × Bytes)
code_status =
    (pos 200, codes "OK")
    ∷ (pos 400, codes "Bad Request")
    ∷ (pos 403, codes "Forbidden")
    ∷ (pos 404, codes "Not Found")
    ∷ []

abbrev pub code_path : List (ℤ × Bytes)
code_path =
    (pos 400, codes "/400.html") ∷ (pos 403, codes "/403.html") ∷ (pos 404, codes "/404.html") ∷ []

abbrev pub no_stat : Stat
no_stat = record { directory = false; others_read = false; size = 0 }

unfoldable pub new : HttpResponse
new = record {
  code = negsuc 0;
  is_keep_alive = false;
  path = [];
  src_dir = [];
  mm_file = none;
  mm_file_stat = no_stat;
}

unfoldable pub unmap_file : HttpResponse → HttpResponse
unmap_file r = record r { mm_file = none }

-- Init, which unmaps a file that is still mapped.
unfoldable pub init : HttpResponse → Bytes → Bytes → Bool → ℤ → Result HttpResponse
unfolding unmap_file
init r src_dir path is_keep_alive code = do
  require (not (is_empty src_dir)) assertion
  ok (record (unmap_file r) {
    code = code;
    is_keep_alive = is_keep_alive;
    path = path;
    src_dir = src_dir;
    mm_file = none;
    mm_file_stat = no_stat;
  })

-- (srcDir_ + path_).data()
abbrev pub full_path : HttpResponse → Bytes
full_path r = c_string (r.src_dir ++ r.path)

-- stat(…, &mmFileStat_): a failure leaves the structure as it was.
unfoldable pub read_stat : Files → HttpResponse → HttpResponse
unfolding c_string
read_stat files r = elim (files.stat (full_path r)) [
  | none ↦ r
  | some st ↦ record r { mm_file_stat = st }
]

abbrev pub is_missing : Option Stat → Bool
is_missing none = true
is_missing (some st) = st.directory

abbrev pub is_unset : ℤ → Bool
is_unset code = eq_ℤ code (negsuc 0)

-- The branches at the start of MakeResponse.
unfoldable pub choose_code : Files → HttpResponse → HttpResponse
unfolding read_stat c_string
choose_code files r =
    let found = read_stat files r in
    if is_missing (files.stat (full_path r))
    then record found { code = pos 404 }
    else if not found.mm_file_stat.others_read
    then record found { code = pos 403 }
    else if is_unset found.code
    then record found { code = pos 200 }
    else found

unfoldable pub error_html : Files → HttpResponse → HttpResponse
unfolding read_stat
error_html files r = elim (lookup_code r.code code_path) [
  | none ↦ r
  | some path ↦ read_stat files (record r { path = path })
]

-- The branches of AddStateLine_: the code that is sent, and its text.
unfoldable pub known_code : ℤ → ℤ
known_code code = elim (lookup_code code code_status) [ none ↦ pos 400 | some status ↦ code ]

unfoldable pub status_of : ℤ → Bytes
status_of code = elim (lookup_code code code_status) [
  | none ↦ codes "Bad Request"
  | some status ↦ status
]

unfoldable pub add_state_line : HttpResponse → Buffer → Result (HttpResponse × Buffer)
unfolding append to_string known_code status_of
add_state_line r buff =
    append buff (
      codes "HTTP/1.1 "
      ++ (to_string (known_code r.code) ++ (codes " " ++ (status_of r.code ++ codes "\r\n"))))
    >>= λ next. ok (record r { code = known_code r.code }, next)

unfoldable pub get_file_type : HttpResponse → Bytes
unfolding find_last_of lookup
get_file_type r = elim (find_last_of b'.' r.path) [
  | none ↦ codes "text/plain"
  | some idx ↦ elim (lookup (drop idx r.path) suffix_type) [
    | none ↦ codes "text/plain"
    | some type ↦ type
  ]
]

unfoldable pub add_connection : Bool → Buffer → Result Buffer
unfolding append
add_connection true buff = do
  next ← append buff (codes "keep-alive\r\n")
  append next (codes "keep-alive: max=6, timeout=120\r\n")
add_connection false buff = append buff (codes "close\r\n")

unfoldable pub add_header : HttpResponse → Buffer → Result Buffer
unfolding append add_connection get_file_type
add_header r buff = do
  named ← append buff (codes "Connection: ")
  next ← add_connection r.is_keep_alive named
  append next (codes "Content-type: " ++ (get_file_type r ++ codes "\r\n"))

-- The page that ErrorContent makes.
unfoldable pub error_body : HttpResponse → Bytes → Bytes
unfolding to_string status_of
error_body r message =
    codes "<html><title>Error</title>"
    ++ (codes "<body bgcolor=\"ffffff\">"
        ++ (to_string r.code
            ++ (codes " : "
                ++ (status_of r.code
                    ++ (codes "\n"
                        ++ (codes "<p>"
                            ++ (message
                                ++ (codes "</p>"
                                    ++ codes "<hr><em>TinyWebServer</em></body></html>"))))))))

abbrev pub length_line : ℕ → Bytes
length_line n = codes "Content-length: " ++ (to_string (pos n) ++ codes "\r\n\r\n")

unfoldable pub error_content : HttpResponse → Buffer → Bytes → Result Buffer
unfolding append to_string error_body
error_content r buff message = do
  let body = error_body r message
  next ← append buff (length_line (length body))
  append next body

-- *mmRet == -1, for memory that is mapped: its first four bytes, zeros behind its end.
abbrev pub is_minus_one : Bytes → Bool
is_minus_one xs =
    get_or xs 0 0 == 255 && (get_or xs 1 0 == 255 && (get_or xs 2 0 == 255 && get_or xs 3 0 == 255))

-- The last component is the number of descriptors that stay open. MAP_FAILED is read through.
unfoldable pub add_content : Files → HttpResponse → Buffer → Result (HttpResponse × Buffer × ℕ)
unfolding append to_string error_content c_string
add_content files r buff =
    if not (files.opens (full_path r))
    then (do next ← error_content r buff (codes "File NotFound!"); ok (r, next, 0))
    else elim (files.mmap (full_path r) r.mm_file_stat.size) [
      | none ↦ fault bad_access
      | some memory ↦
          if is_minus_one memory
          then (do next ← error_content r buff (codes "File NotFound!"); ok (r, next, 1))
          else (do
            next ← append buff (length_line r.mm_file_stat.size)
            ok (record r { mm_file = some memory }, next, 0))
    ]

unfoldable pub make_response : Files → HttpResponse → Buffer → Result (HttpResponse × Buffer × ℕ)
unfolding choose_code error_html add_state_line add_header add_content
make_response files r buff = do
  (stated, named) ← add_state_line (error_html files (choose_code files r)) buff
  next ← add_header stated named
  add_content files stated next

unfoldable pub file_len : HttpResponse → ℕ
file_len r = r.mm_file_stat.size
