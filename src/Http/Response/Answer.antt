-- ===== src/Http/Response/Answer.antt =====
-- MakeResponse of src/httpresponse.cpp: the code, the text and the length that a client is sent.
use idc.Prelude.{
  Bytes, ℕ, ◌+◌, ◌^◌, ◌≤◌, ◌<◌, ◌≡◌, refl, sym, ◌∙◌, ap, ◌⊎◌, inl, inr, Bool, true, false, [], ◌++◌,
  append_assoc, some, Bool-cases, ok, ◌>>=◌, Returns, Returns-bind, Returns-mono, arith, length, ℤ,
  append-nil,
}
use idc.Text.{codes}
use idc.Text.Decimal.{to_string}
use idc.Buffer.{Buffer, max_size, append, contents, IsValid}
use idc.Buffer.Writes.{Adds, Room, append-Adds, append-then, Adds-then}
use idc.Http.Response.{
  HttpResponse, Files, full_path, known_code, status_of, get_file_type, add_connection, add_header,
  error_body, length_line, error_content, is_minus_one, add_content, file_len,
}

abbrev pub state_line : ℤ → Bytes
state_line code =
    codes "HTTP/1.1 "
    ++ (to_string (known_code code) ++ (codes " " ++ (status_of code ++ codes "\r\n")))

abbrev pub connection_text : Bool → Bytes
connection_text true = codes "keep-alive\r\n" ++ codes "keep-alive: max=6, timeout=120\r\n"
connection_text false = codes "close\r\n"

abbrev pub type_line : HttpResponse → Bytes
type_line r = codes "Content-type: " ++ (get_file_type r ++ codes "\r\n")

abbrev pub header_text : HttpResponse → Bytes
header_text r = codes "Connection: " ++ (connection_text r.is_keep_alive ++ type_line r)

add_connection-Adds :
    (keep : Bool) (b : Buffer)
    → IsValid b
    → Room b (connection_text keep) 2
    → Returns (add_connection keep b) (Adds b (connection_text keep) 2)
unfolding add_connection
add_connection-Adds true b v h =
    append-then b (codes "keep-alive\r\n") (codes "keep-alive: max=6, timeout=120\r\n") 1 _ v h
      (λ b' w k. append-Adds b' (codes "keep-alive: max=6, timeout=120\r\n") w k)
add_connection-Adds false b v h =
    Returns-mono (append b (codes "close\r\n")) (Adds b (codes "close\r\n") 1)
      (Adds b (codes "close\r\n") 2) (append-Adds b (codes "close\r\n") v (omega arith))
      λ b' a. record { valid = a.valid; holds = a.holds; growth = omega (arith, a) }

pub add_header-Adds :
    (r : HttpResponse) (b : Buffer)
    → IsValid b
    → Room b (header_text r) 4
    → Returns (add_header r b) (Adds b (header_text r) 4)
unfolding add_header
add_header-Adds r b v h =
    append-then b (codes "Connection: ") (connection_text r.is_keep_alive ++ type_line r) 3 _ v h
      λ b' w k.
        Adds-then b' (connection_text r.is_keep_alive) (type_line r) 2 1
          (add_connection r.is_keep_alive b') _ k (add_connection-Adds r.is_keep_alive b' w)
          λ b'' u l. append-Adds b'' (type_line r) u l

abbrev pub error_text : HttpResponse → Bytes
error_text r = let body = error_body r (codes "File NotFound!") in length_line (length body) ++ body

error_content-Adds :
    (r : HttpResponse) (b : Buffer)
    → IsValid b
    → Room b (error_text r) 2
    → Returns (error_content r b (codes "File NotFound!")) (Adds b (error_text r) 2)
unfolding error_content
error_content-Adds r b v h =
    let body = error_body r (codes "File NotFound!") in
    append-then b (length_line (length body)) body 1 _ v h λ b' w k. append-Adds b' body w k

-- Either a file is mapped, and its length declared, or a page of that length stands in the buffer.
abbrev pub Carries : HttpResponse → HttpResponse → ℕ → Bytes → Type 0
Carries r x n body =
    ((memory : Bytes) × (x.mm_file ≡ some memory)
      × (n ≡ file_len x)
      × (body ≡ [])
      × (length memory ≡ n)
      × (n < 2 ^ 63))
    ⊎ ((x.mm_file ≡ r.mm_file) × (n ≡ length body))

-- What is written: `before`, and then the length `n` that the client is told, and a body.
pub record Content (r : HttpResponse) (before : Bytes) (b : Buffer) (x : HttpResponse × Buffer × ℕ)
    : Type 0 where
  pub valid : IsValid x.1
  pub code : x.0.code ≡ r.code
  pub path : x.0.path ≡ r.path
  pub header : header_text x.0 ≡ header_text r
  pub n : ℕ
  pub body : Bytes
  pub text : contents x.1 ≡ contents b ++ (before ++ (length_line n ++ body))
  pub carries : Carries r x.0 n body

pub Adds-Content :
    (r : HttpResponse) (b b' : Buffer) (s before : Bytes) (k : ℕ) (x : HttpResponse × Buffer × ℕ)
    → Adds b s k b'
    → Content r before b' x
    → Content r (s ++ before) b x
Adds-Content r b b' s before k x a c = record {
  valid = c.valid;
  code = c.code;
  path = c.path;
  header = c.header;
  n = c.n;
  body = c.body;
  text =
      c.text
      ∙ ap (λ t. t ++ (before ++ (length_line c.n ++ c.body))) a.holds
      ∙ append_assoc (contents b) s (before ++ (length_line c.n ++ c.body))
      ∙ ap (λ t. contents b ++ t) (sym (append_assoc s before (length_line c.n ++ c.body)));
  carries = c.carries;
}

-- Both texts that may follow the headers fit.
abbrev pub ContentRoom : HttpResponse → Buffer → ℕ → Type 0
ContentRoom r b n =
    length b.buffer + length (length_line (file_len r)) + length (error_text r) + n ≤ max_size

error-Content :
    (r : HttpResponse) (b : Buffer) (fds : ℕ)
    → IsValid b
    → ContentRoom r b 2
    → Returns
        (error_content r b (codes "File NotFound!") >>= λ next. ok (r, next, fds))
        (Content r [] b)
error-Content r b fds v h =
    let body = error_body r (codes "File NotFound!") in
    Returns-bind (error_content r b (codes "File NotFound!")) _ (Adds b (error_text r) 2)
      (Content r [] b) (error_content-Adds r b v (omega arith))
      λ b' a. record {
        valid = a.valid;
        code = refl;
        path = refl;
        header = refl;
        n = length body;
        body = body;
        text = a.holds;
        carries = inr (refl, refl);
      }

file-Content :
    (r : HttpResponse) (b : Buffer) (memory : Bytes)
    → IsValid b
    → ContentRoom r b 2
    → length memory ≡ r.mm_file_stat.size
    → r.mm_file_stat.size < 2 ^ 63
    → Returns
        (append b (length_line r.mm_file_stat.size) >>= λ next.
          ok (record r { mm_file = some memory }, next, 0))
        (Content r [] b)
unfolding file_len get_file_type
file-Content r b memory v h len fits =
    Returns-bind (append b (length_line r.mm_file_stat.size)) _
      (Adds b (length_line r.mm_file_stat.size) 1) (Content r [] b)
      (append-Adds b (length_line r.mm_file_stat.size) v (omega arith))
      λ b' a. record {
        valid = a.valid;
        code = refl;
        path = refl;
        header = refl;
        n = r.mm_file_stat.size;
        body = [];
        text =
            a.holds
            ∙ ap (λ t. contents b ++ t) (sym (append-nil (length_line r.mm_file_stat.size)));
        carries = inl (memory, refl, refl, refl, len, fits);
      }

-- If the file of the response can be opened, mmap gives memory of its size, which fits into the address
-- space.
abbrev pub Maps : Files → HttpResponse → Type 0
Maps files r =
    files.opens (full_path r) ≡ true
    → (memory : Bytes) × (files.mmap (full_path r) (file_len r) ≡ some memory)
      × (length memory ≡ file_len r)
      × (file_len r < 2 ^ 63)

pub add_content-Content :
    (files : Files) (r : HttpResponse) (b : Buffer)
    → Maps files r
    → IsValid b
    → ContentRoom r b 2
    → Returns (add_content files r b) (Content r [] b)
unfolding add_content file_len
add_content-Content files r b maps v h = elim (Bool-cases (files.opens (full_path r))) [
  | inr closed ↦ rw (closed, add_content) (error-Content r b 0 v h)
  | inl opened ↦
      let (memory, mapped, len, fits) = maps opened in
      rw (opened, mapped, add_content)
        (elim (Bool-cases (is_minus_one memory)) [
          | inl odd ↦ rw odd (error-Content r b 1 v h)
          | inr plain ↦ rw plain (file-Content r b memory v h len fits)
        ])
]
