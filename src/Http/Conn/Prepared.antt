-- ===== src/Http/Conn/Prepared.antt =====
-- The end of HttpConn::process in src/httpconn.cpp: what a prepared connection offers to writev.
use idc.Prelude.{
  Bytes, ℕ, ◌+◌, ◌-◌, ◌^◌, ◌<◌, ◌≡◌, refl, sym, ap, ap₂, ◌∙◌, inl, inr, true, [], ◌++◌,
  append_assoc, append-nil, none, some, Option-cases, ok, ◌>>=◌, Returns, Returns-bind, arith, ltb,
  ◌==◌, Bool-cases, length, slice, length-slice, take-all, subst,
}
use idc.Buffer.{Buffer, contents, IsValid, readable_bytes}
use idc.Buffer.Contents.{readable_bytes-length}
use idc.Http.Response.{
  HttpResponse, Files, full_path, make_response, file_len, length_line, get_file_type,
}
use idc.Http.Response.Answer.{state_line, header_text, Maps}
use idc.Http.Response.Whole.{chosen, code_for, Answered, AnswerRoom, make_response-Answered}
use idc.Http.Conn.{HttpConn, Iovec, mapped, offered, prepare}
use idc.Http.Conn.Delivery.{Ready, offered_eq, length_zero}

header_part :
    (b : Buffer)
    → IsValid b
    → slice b.read_pos (b.read_pos + readable_bytes b) b.buffer ≡ contents b
unfolding readable_bytes
header_part b v = ap (λ e. slice b.read_pos e b.buffer) {y = b.write_pos} (omega (arith, v))

abbrev with_vectors : HttpConn → ℕ → Iovec → HttpConn
with_vectors c cnt iov_1 = record c {
  iov_cnt = cnt;
  iov_0 = record { base = c.write_buff.read_pos; len = readable_bytes c.write_buff };
  iov_1 = iov_1;
}

with_vectors-Ready :
    (c : HttpConn) (cnt : ℕ) (iov_1 : Iovec)
    → IsValid c.write_buff
    → length (mapped c.response.mm_file) < 2 ^ 63
    → iov_1.len < 2 ^ 63
    → ((cnt == 2) ≡ true → iov_1.base + iov_1.len ≡ length (mapped c.response.mm_file))
    → Ready (with_vectors c cnt iov_1)
with_vectors-Ready c cnt iov_1 v short small len = record {
  valid = v;
  len_0 = readable_bytes-length c.write_buff v;
  same_0 = header_part c.write_buff v;
  len_1 = len;
  short = short;
  sizes = omega (
    arith,
    v,
    readable_bytes-length c.write_buff v,
    length-slice c.write_buff.read_pos c.write_buff.write_pos c.write_buff.buffer v.within,
  );
}

-- Both responses have the same headers.
abbrev SamePage : HttpResponse → HttpResponse → Type 0
SamePage r s = (r.path ≡ s.path) × (r.is_keep_alive ≡ s.is_keep_alive)

SamePage-header_text : (r s : HttpResponse) → SamePage r s → header_text r ≡ header_text s
unfolding get_file_type
SamePage-header_text r s (p, k) =
    ap₂ (λ path keep. header_text (record r { path = path; is_keep_alive = keep })) p k

-- The connection is ready and offers the write buffer and then the mapped file.
abbrev pub Offers : HttpConn → Bytes → HttpConn → Type 0
Offers c file c' =
    Ready c' × (offered c' ≡ contents c.write_buff ++ file) × SamePage c'.response c.response

one_vector-Offers :
    (c : HttpConn)
    → IsValid c.write_buff
    → length (mapped c.response.mm_file) < 2 ^ 63
    → c.iov_1.len < 2 ^ 63
    → Offers c [] (with_vectors c 1 c.iov_1)
one_vector-Offers c v short stale =
    let r = with_vectors-Ready c 1 c.iov_1 v short stale (λ e. cc) in
    (r, offered_eq (with_vectors c 1 c.iov_1) r, (refl, refl))

two_vectors-Offers :
    (c : HttpConn) (memory : Bytes)
    → IsValid c.write_buff
    → c.response.mm_file ≡ some memory
    → length memory < 2 ^ 63
    → Offers c memory (with_vectors c 2 (record { base = 0; len = length memory }))
two_vectors-Offers c memory v e short =
    let i : Iovec = record { base = 0; len = length memory } in
    let m : mapped c.response.mm_file ≡ memory = ap mapped e in
    let r = with_vectors-Ready c 2 i v (rw m short) short (λ _. omega (arith, ap length m)) in
    (
      r,
      offered_eq (with_vectors c 2 i) r
          ∙ ap (λ t. contents c.write_buff ++ t)
              (ap (slice 0 (0 + length memory)) m
                ∙ take-all (0 + length memory - 0) memory (omega arith)),
      (refl, refl),
    )

prepare-Offers :
    (c : HttpConn)
    → IsValid c.write_buff
    → length (mapped c.response.mm_file) < 2 ^ 63
    → c.iov_1.len < 2 ^ 63
    → ((memory : Bytes) → c.response.mm_file ≡ some memory → length memory ≡ file_len c.response)
    → Offers c (mapped c.response.mm_file) (prepare c)
unfolding prepare
prepare-Offers c v short stale len = elim (Option-cases c.response.mm_file) [
  | inl off ↦ rw (off, prepare) (one_vector-Offers c v short stale)
  | inr (memory, on) ↦
      let n = len memory on in
      rw (on, prepare)
        (elim (Bool-cases (ltb 0 (file_len c.response))) [
          | inl some_bytes ↦ rw some_bytes (
              subst (λ k. Offers c memory (with_vectors c 2 (record { base = 0; len = k }))) n
                (two_vectors-Offers c memory v on (rw on at short)))
          | inr empty ↦ rw empty (
              subst (λ m. Offers c m (with_vectors c 1 c.iov_1))
                (sym (length_zero memory (ground (arith, n)))) (one_vector-Offers c v short stale))
        ])
]

-- What the vectors offer after an answer was made: behind what the write buffer held, the status
-- line, the headers, a length, and a payload of that length.
pub record Sends (files : Files) (c : HttpConn) (c' : HttpConn) : Type 0 where
  pub ready : Ready c'
  pub n : ℕ
  pub payload : Bytes
  pub declared : length payload ≡ n
  pub offers :
      offered c'
      ≡ contents c.write_buff
        ++ (state_line (code_for (files.stat (full_path c.response)) c.response.code)
            ++ (header_text c'.response ++ (length_line n ++ payload)))

add_end :
    (a s h l p f : Bytes) → (a ++ (s ++ (h ++ (l ++ p)))) ++ f ≡ a ++ (s ++ (h ++ (l ++ (p ++ f))))
add_end a s h l p f = simp append_assoc

module _ (files : Files) (c : HttpConn) (x : HttpResponse × Buffer × ℕ)
    (a : Answered files c.response c.write_buff x) (unmapped : c.response.mm_file ≡ none)
    (stale : c.iov_1.len < 2 ^ 63) where
  abbrev with_answer : HttpConn
  with_answer = record c { response = x.0; write_buff = x.1 }

  file-Sends :
      (file : Bytes)
      → length (a.body ++ file) ≡ a.n
      → Offers with_answer file (prepare with_answer)
      → Sends files c (prepare with_answer)
  file-Sends file e o =
      let start = state_line (code_for (files.stat (full_path c.response)) c.response.code) in
      record {
        ready = o.0;
        n = a.n;
        payload = a.body ++ file;
        declared = e;
        offers =
            o.1
            ∙ ap (λ t. t ++ file) a.text
            ∙ add_end (contents c.write_buff) start (header_text x.0) (length_line a.n) a.body file
            ∙ ap
                (λ h.
                  contents c.write_buff ++ (start ++ (h ++ (length_line a.n ++ (a.body ++ file)))))
                (sym (SamePage-header_text (prepare with_answer).response x.0 o.2));
      }

  answer-Sends : Sends files c (prepare with_answer)
  answer-Sends = elim a.carries [
    | inl (memory, on, n, none_there, len, short) ↦
        file-Sends memory (ap (λ b. length (b ++ memory)) none_there ∙ len) (
          subst (λ m. Offers with_answer m (prepare with_answer)) (ap mapped on)
            (prepare-Offers with_answer a.valid (rw on (omega (arith, len, short))) stale
              λ m e. let same : m ≡ memory = cc in omega (arith, ap length same, len, n)))
    | inr (kept, len) ↦
        let off : x.0.mm_file ≡ none = kept ∙ unmapped in
        file-Sends [] (ap length (append-nil a.body) ∙ sym len) (
          subst (λ m. Offers with_answer m (prepare with_answer)) (ap mapped off)
            (prepare-Offers with_answer a.valid (rw off (omega arith)) stale λ m e. cc))
  ]

-- For a connection without a mapped file, with a valid write buffer that has room, and a file or error
-- page that can be mapped if it can be opened, process ends with a connection that is ready to write, and
-- offers, behind what the write buffer held before, a status line, headers, a length, and a payload of
-- exactly that length; `iov_1` may hold any length below 2 ^ 63 before.
pub prepare-Sends :
    (files : Files) (c : HttpConn)
    → Maps files (chosen files c.response)
    → IsValid c.write_buff
    → AnswerRoom files c.response c.write_buff
    → c.response.mm_file ≡ none
    → c.iov_1.len < 2 ^ 63
    → Returns
        (make_response files c.response c.write_buff >>= λ (response, buff, fds).
          ok (prepare (record c { response = response; write_buff = buff })))
        (Sends files c)
prepare-Sends files c maps v h unmapped stale =
    Returns-bind (make_response files c.response c.write_buff) _
      (Answered files c.response c.write_buff) (Sends files c)
      (make_response-Answered files c.response c.write_buff maps v h)
      λ x a. answer-Sends files c x a unmapped stale
