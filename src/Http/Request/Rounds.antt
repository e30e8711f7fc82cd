-- ===== src/Http/Request/Rounds.antt =====
-- One round of the while loop in HttpRequest::parse of src/httprequest.cpp, over the read buffer.
use idc.Prelude.{
  Bytes, ℕ, suc, ◌+◌, ◌≤◌, ◌≡◌, ◌≢◌, refl, sym, ap, subst, ◌∙◌, true, false, [], ◌∷◌, ◌++◌, ok,
  arith, ◌==◌, length, length-append, length-slice, drop, take-append_left, drop-append_right,
  take-all, le→leb,
}
use idc.Text.{has}
use idc.Text.Search.{find_crlf-append, find_crlf_none}
use idc.Buffer.{Buffer, retrieve_until, contents, IsValid}
use idc.Buffer.Contents.{readable_bytes-length}
use idc.Buffer.Queue.Refinement.{retrieve_lem, retrieve_until_eq, advanced, advanced-StandsFor}
use idc.Http.Request.{
  HttpRequest, ParseState, parse_line, line_end, last_line, parse_round, is_finish, parse_loop,
}

-- The rest of the buffer once `n` bytes are taken from a valid one that has them.
pub taken_until :
    (buff : Buffer) (n : ℕ)
    → IsValid buff
    → n ≤ length (contents buff)
    → retrieve_until buff (buff.read_pos + n) ≡ ok (advanced buff n)
taken_until buff n v h =
    retrieve_until_eq buff n v
      (omega (arith, v, length-slice buff.read_pos buff.write_pos buff.buffer v.within))
    ∙ retrieve_lem buff n v
    ∙ rw (le→leb n (length (contents buff)) h)

-- The buffer holds `rest` and is valid.
pub record Holds (rest : Bytes) (buff : Buffer) : Type 0 where
  pub valid : IsValid buff
  pub holds : contents buff ≡ rest

pub advanced-Holds :
    (buff : Buffer) (n : ℕ)
    → IsValid buff
    → n ≤ length (contents buff)
    → Holds (drop n (contents buff)) (advanced buff n)
advanced-Holds buff n v h =
    let s = advanced-StandsFor buff n (length buff.buffer) v h (omega arith) in
    record { valid = s.valid; holds = s.holds }

nonzero : (line : Bytes) → line ≢ [] → (length line == 0) ≡ false
nonzero [] ne = absurd (ne refl)
nonzero (c ∷ line) ne = ground arith

crlf-ne-length :
    (line rest : Bytes) → (length line == length (line ++ (b'\r' ∷ b'\n' ∷ rest))) ≡ false
crlf-ne-length line rest = ground (arith, length-append line (b'\r' ∷ b'\n' ∷ rest))

nonempty : (line rest : Bytes) → (length (line ++ (b'\r' ∷ b'\n' ∷ rest)) == 0) ≡ false
nonempty line rest = ground (arith, length-append line (b'\r' ∷ b'\n' ∷ rest))

parse_round_line :
    (r r' : HttpRequest) (line rest : Bytes)
    → has b'\r' line ≡ false
    → parse_line r.state r line (length (line ++ (b'\r' ∷ b'\n' ∷ rest))) ≡ ok (r', true)
    → parse_round r (line ++ (b'\r' ∷ b'\n' ∷ rest)) (length (line ++ (b'\r' ∷ b'\n' ∷ rest)))
      ≡ ok (r', line_end (length line))
unfolding parse_round
parse_round_line r r' line rest n p =
    rw (find_crlf-append line rest n, parse_round)
      (rw
        (
          take-append_left line (b'\r' ∷ b'\n' ∷ rest) (length line) (omega arith),
          take-all (length line) line (omega arith),
          p,
        )
        (rw (crlf-ne-length line rest)))

parse_round_last :
    (r r' : HttpRequest) (line : Bytes)
    → has b'\r' line ≡ false
    → parse_line r.state r line (length line) ≡ ok (r', true)
    → parse_round r line (length line) ≡ ok (r', last_line)
unfolding parse_round
parse_round_last r r' line n p =
    rw (find_crlf_none line n, parse_round)
      (rw (take-all (length line) line (omega arith), p) (ground arith))

module _ (r r' : HttpRequest) (buff : Buffer) (line rest : Bytes) (fuel : ℕ) where
  -- A line with its end is taken from the buffer, and the loop goes on behind it.
  pub line_round :
      Holds (line ++ (b'\r' ∷ b'\n' ∷ rest)) buff
      → has b'\r' line ≡ false
      → (st : ParseState) → r.state ≡ st
      → is_finish st ≡ false
      → parse_line st r line (length (line ++ (b'\r' ∷ b'\n' ∷ rest))) ≡ ok (r', true)
      → Holds rest (advanced buff (length line + 2))
        × (parse_loop (suc fuel) r buff ≡ parse_loop fuel r' (advanced buff (length line + 2)))
  unfolding parse_loop
  line_round h n st e f' p' =
      let f = subst (λ t. is_finish t ≡ false) (sym e) f' in
      let p =
        subst (λ t. parse_line t r line (length (line ++ (b'\r' ∷ b'\n' ∷ rest))) ≡ ok (r', true))
          (sym e) p' in
      let len = length-append line (b'\r' ∷ b'\n' ∷ rest) in
      let enough : length line + 2 ≤ length (contents buff) = rw h.holds (omega (arith, len)) in
      (
        subst (λ t. Holds t (advanced buff (length line + 2)))
            (ap (drop (length line + 2)) h.holds
              ∙ drop-append_right line (b'\r' ∷ b'\n' ∷ rest) (length line + 2) 2 refl)
            (advanced-Holds buff (length line + 2) h.valid enough),
        rw (readable_bytes-length buff h.valid, parse_loop)
            (rw h.holds (
              rw (nonempty line rest, f)
                (rw (readable_bytes-length buff h.valid) (
                  rw h.holds (
                    rw (parse_round_line r r' line rest n p)
                      (rw (taken_until buff (length line + 2) h.valid enough))))))),
      )

-- The last line, which has no end, stays in the buffer.
pub last_round :
    (r r' : HttpRequest) (buff : Buffer) (line : Bytes) (fuel : ℕ)
    → Holds line buff
    → line ≢ []
    → has b'\r' line ≡ false
    → (st : ParseState) → r.state ≡ st
    → is_finish st ≡ false
    → parse_line st r line (length line) ≡ ok (r', true)
    → parse_loop (suc fuel) r buff ≡ ok (r', buff, true)
unfolding parse_loop
last_round r r' buff line fuel h ne n st e f' p' =
    let f = subst (λ t. is_finish t ≡ false) (sym e) f' in
    let p = subst (λ t. parse_line t r line (length line) ≡ ok (r', true)) (sym e) p' in
    rw (readable_bytes-length buff h.valid, parse_loop)
      (rw h.holds (
        rw (nonzero line ne, f)
          (rw (readable_bytes-length buff h.valid)
            (rw h.holds (rw (parse_round_last r r' line n p))))))
