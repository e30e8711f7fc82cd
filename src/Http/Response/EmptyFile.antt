-- ===== src/Http/Response/EmptyFile.antt =====
-- AddContent_ of src/httpresponse.cpp on a file without bytes.
use idc.Prelude.{
  Bytes, ◌+◌, ◌≤◌, ◌≡◌, refl, sym, subst, bind_ok, ◌∙◌, ap, true, none, fault, bad_access, ◌>>=◌,
  Returns-eq, arith, length,
}
use idc.Buffer.{Buffer, max_size, IsValid}
use idc.Buffer.Writes.{Adds}
use idc.Http.Response.{
  HttpResponse, Files, full_path, known_code, get_file_type, add_state_line, add_header,
  add_content, make_response, file_len,
}
use idc.Http.Response.Answer.{state_line, header_text, add_header-Adds}
use idc.Http.Response.Whole.{chosen, state_line-Adds}

add_content-empty :
    (files : Files) (r : HttpResponse) (b : Buffer)
    → files.opens (full_path r) ≡ true
    → files.mmap (full_path r) (file_len r) ≡ none
    → add_content files r b ≡ fault bad_access
unfolding add_content file_len
add_content-empty files r b opened failed = rw (opened, failed, add_content) refl

-- If mmap of no bytes fails, then for a file or error page that can be opened and is empty
-- MakeResponse reads through the pointer MAP_FAILED, when the buffer is valid and has room for the
-- status line and the headers.
pub make_response-empty :
    (files : Files) (r : HttpResponse) (b : Buffer)
    → ((path : Bytes) → files.mmap path 0 ≡ none)
    → files.opens (full_path (chosen files r)) ≡ true
    → file_len (chosen files r) ≡ 0
    → IsValid b
    → length b.buffer
        + length (state_line (chosen files r).code)
        + length (header_text (chosen files r))
        + 5
      ≤ max_size
    → make_response files r b ≡ fault bad_access
unfolding make_response file_len get_file_type
make_response-empty files r b no_bytes opened empty v h =
    let d = chosen files r in
    let stated = record d { code = known_code d.code } in
    let (x, e, (same, a)) =
      Returns-eq (add_state_line d b) (λ x. (x.0 ≡ stated) × Adds b (state_line d.code) 1 x.1)
        (state_line-Adds d b v (omega arith)) in
    let (b', e', a') =
      Returns-eq (add_header stated x.1) (Adds x.1 (header_text stated) 4)
        (add_header-Adds stated x.1 a.valid (omega (arith, a))) in
    let stops =
      add_content-empty files stated b' opened
        (ap (files.mmap (full_path d)) empty ∙ no_bytes (full_path d)) in
    bind_ok _ e
    ∙ subst (λ r. (add_header r x.1 >>= λ next. add_content files r next) ≡ fault bad_access)
        (sym same) (bind_ok _ e' ∙ stops)
