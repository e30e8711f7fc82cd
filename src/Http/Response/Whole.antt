-- ===== src/Http/Response/Whole.antt =====
-- MakeResponse of src/httpresponse.cpp as a whole: the code that it chooses, and the answer.
use idc.Prelude.{
  Bytes, ℕ, ◌+◌, ◌≤◌, ◌≡◌, refl, sym, ◌∙◌, ap, ap₂, inl, inr, not, [], ◌++◌, append_assoc,
  append-nil, Option, none, some, Option-cases, ◌>>=◌, Returns, Returns-bind, Returns-mono, arith,
  if◌then◌else◌, length, ℤ, pos, negsuc, eq_ℤ,
}
use idc.Buffer.{Buffer, max_size, append, contents, IsValid}
use idc.Buffer.Writes.{Adds, Room, append-Adds}
use idc.Http.Response.{
  HttpResponse, Files, Stat, full_path, read_stat, choose_code, error_html, known_code,
  add_state_line, add_header, length_line, get_file_type, add_content, make_response, file_len,
  lookup_code, code_path,
}
use idc.Http.Response.Answer.{
  state_line, header_text, error_text, add_header-Adds, Carries, Content, Adds-Content, Maps,
  add_content-Content,
}

-- The code for a file with this status, and the code that was asked for.
abbrev pub code_for : Option Stat → ℤ → ℤ
code_for none code = pos 404
code_for (some st) code =
    if st.directory
    then pos 404
    else if not st.others_read
    then pos 403
    else if eq_ℤ code (negsuc 0)
    then pos 200
    else code

-- The path of the page that is shown for a code.
abbrev pub page_for : ℤ → Bytes → Bytes
page_for code path = elim (lookup_code code code_path) [ none ↦ path | some page ↦ page ]

abbrev pub chosen : Files → HttpResponse → HttpResponse
chosen files r = error_html files (choose_code files r)

choose_code_lem :
    (files : Files) (r : HttpResponse)
    → let c = choose_code files r in
      (c.code ≡ code_for (files.stat (full_path r)) r.code)
      × (c.path ≡ r.path)
      × (c.is_keep_alive ≡ r.is_keep_alive)
      × (c.mm_file ≡ r.mm_file)
unfolding choose_code read_stat
choose_code_lem files r = elim (Option-cases (files.stat (full_path r))) [
  | inl missing ↦ rw (missing, choose_code, read_stat) (refl, refl, refl, refl)
  | inr (st, found) ↦ rw (found, choose_code, read_stat) (ground arith)
]

-- What a page of an error leaves as it was.
read_stat_lem :
    (files : Files) (r : HttpResponse)
    → let e = read_stat files r in
      (e.code ≡ r.code)
      × (e.path ≡ r.path)
      × (e.is_keep_alive ≡ r.is_keep_alive)
      × (e.mm_file ≡ r.mm_file)
unfolding read_stat
read_stat_lem files r = elim (Option-cases (files.stat (full_path r))) [
  | inl missing ↦ rw (missing, read_stat) (refl, refl, refl, refl)
  | inr (st, found) ↦ rw (found, read_stat) (refl, refl, refl, refl)
]

error_html_lem :
    (files : Files) (r : HttpResponse)
    → let e = error_html files r in
      (e.code ≡ r.code)
      × (e.path ≡ page_for r.code r.path)
      × (e.is_keep_alive ≡ r.is_keep_alive)
      × (e.mm_file ≡ r.mm_file)
unfolding error_html
error_html_lem files r = elim (Option-cases (lookup_code r.code code_path)) [
  | inl plain ↦ rw (plain, error_html, page_for) (refl, refl, refl, refl)
  | inr (page, known) ↦
      rw (known, error_html, page_for) (read_stat_lem files (record r { path = page }))
]

chosen_lem :
    (files : Files) (r : HttpResponse)
    → let d = chosen files r in
      let code = code_for (files.stat (full_path r)) r.code in
      (d.code ≡ code)
      × (d.path ≡ page_for code r.path)
      × (d.is_keep_alive ≡ r.is_keep_alive)
      × (d.mm_file ≡ r.mm_file)
chosen_lem files r =
    let c = choose_code_lem files r in
    let e = error_html_lem files (choose_code files r) in
    (e.0 ∙ c.0, e.1 ∙ ap₂ page_for c.0 c.1, e.2 ∙ c.2, e.3 ∙ c.3)

-- The answer to a request: the code that the file's status asks for, or 400 if it is none that the
-- code knows; the page for it; and behind the headers as many bytes as they declare, a mapped file or
-- a page in the buffer.
pub record Answered (files : Files) (r : HttpResponse) (b : Buffer) (x : HttpResponse × Buffer × ℕ)
    : Type 0 where
  pub valid : IsValid x.1
  pub code : x.0.code ≡ known_code (code_for (files.stat (full_path r)) r.code)
  pub path : x.0.path ≡ page_for (code_for (files.stat (full_path r)) r.code) r.path
  pub n : ℕ
  pub body : Bytes
  pub text :
      contents x.1
      ≡ contents b
        ++ (state_line (code_for (files.stat (full_path r)) r.code)
            ++ (header_text x.0 ++ (length_line n ++ body)))
  pub carries : Carries r x.0 n body

-- All that an answer may write fits.
abbrev pub AnswerRoom : Files → HttpResponse → Buffer → Type 0
AnswerRoom files r b =
    let d = chosen files r in
    let stated = record d { code = known_code d.code } in
    length b.buffer
      + length (state_line d.code)
      + length (header_text d)
      + length (length_line (file_len d))
      + length (error_text stated)
      + 7
    ≤ max_size

pub state_line-Adds :
    (r : HttpResponse) (b : Buffer)
    → IsValid b
    → Room b (state_line r.code) 1
    → Returns
        (add_state_line r b)
        (λ x. (x.0 ≡ record r { code = known_code r.code }) × Adds b (state_line r.code) 1 x.1)
unfolding add_state_line
state_line-Adds r b v h =
    Returns-bind (append b (state_line r.code)) _ (Adds b (state_line r.code) 1)
      (λ x. (x.0 ≡ record r { code = known_code r.code }) × Adds b (state_line r.code) 1 x.1)
      (append-Adds b (state_line r.code) v h) λ b' a. (refl, a)

header-Content :
    (files : Files) (r : HttpResponse) (b : Buffer)
    → Maps files r
    → IsValid b
    → length b.buffer
        + length (header_text r)
        + length (length_line (file_len r))
        + length (error_text r)
        + 6
      ≤ max_size
    → Returns
        (add_header r b >>= λ next. add_content files r next)
        (Content r (header_text r ++ []) b)
header-Content files r b maps v h =
    Returns-bind (add_header r b) _ (Adds b (header_text r) 4) (Content r (header_text r ++ []) b)
      (add_header-Adds r b v (omega arith))
      λ b' a.
        Returns-mono (add_content files r b') (Content r [] b') (Content r (header_text r ++ []) b)
          (add_content-Content files r b' maps a.valid (omega (arith, a)))
          λ x c. Adds-Content r b b' (header_text r) [] 4 x a c

-- The whole answer after the choice of the code and the page.
written-Content :
    (files : Files) (d : HttpResponse) (b : Buffer)
    → Maps files d
    → IsValid b
    → (let stated = record d { code = known_code d.code } in
        length b.buffer
          + length (state_line d.code)
          + length (header_text d)
          + length (length_line (file_len d))
          + length (error_text stated)
          + 7
        ≤ max_size)
    → Returns
        (add_state_line d b >>= λ (stated, named).
          add_header stated named >>= λ next. add_content files stated next)
        (Content
          (record d { code = known_code d.code })
          (state_line d.code ++ (header_text d ++ []))
          b)
unfolding file_len get_file_type
written-Content files d b maps v h =
    let stated = record d { code = known_code d.code } in
    Returns-bind (add_state_line d b) _ (λ x. (x.0 ≡ stated) × Adds b (state_line d.code) 1 x.1)
      (Content stated (state_line d.code ++ (header_text d ++ [])) b)
      (state_line-Adds d b v (omega arith))
      λ x a. rw a.0 (
        Returns-mono _ (Content stated (header_text stated ++ []) x.1)
          (Content stated (state_line d.code ++ (header_text d ++ [])) b)
          (header-Content files stated x.1 maps a.1.valid (omega (arith, a.1)))
          λ y c. Adds-Content stated b x.1 (state_line d.code) (header_text d ++ []) 1 y a.1 c)

-- With a valid write buffer that has room, and a file or error page that can be mapped if it can be
-- opened, MakeResponse returns: it sends the status line for the code that the file's status asks
-- for (404, 403, 200 or the code of Init, and 400 for an unknown one), the headers of the page shown,
-- and a Content-length that is the length of the mapped file, or of the page written behind it.
pub make_response-Answered :
    (files : Files) (r : HttpResponse) (b : Buffer)
    → Maps files (chosen files r)
    → IsValid b
    → AnswerRoom files r b
    → Returns (make_response files r b) (Answered files r b)
unfolding make_response get_file_type
make_response-Answered files r b maps v h =
    let d = chosen files r in
    let same = chosen_lem files r in
    Returns-mono (make_response files r b)
      (Content (record d { code = known_code d.code }) (state_line d.code ++ (header_text d ++ []))
        b)
      (Answered files r b) (written-Content files d b maps v h)
      λ x c.
        let tail = length_line c.n ++ c.body in
        record {
          valid = c.valid;
          code = c.code ∙ ap known_code same.0;
          path = c.path ∙ same.1;
          n = c.n;
          body = c.body;
          text =
              c.text
              ∙ ap (λ t. contents b ++ t)
                  (append_assoc (state_line d.code) (header_text d ++ []) tail
                    ∙ ap₂ (λ code h. state_line code ++ (h ++ tail)) same.0
                        (append-nil (header_text d) ∙ sym c.header));
          carries = elim c.carries [
            | inl mapped ↦ inl mapped
            | inr page ↦ inr (page.0 ∙ same.3, page.1)
          ];
        }
