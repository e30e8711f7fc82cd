-- ===== src/Http/Conn/Delivery.antt =====
-- The write loop of src/httpconn.cpp: the bytes on the wire against the bytes that are pending.
use idc.Prelude.{
  Bytes, ℕ, ◌+◌, ◌-◌, ◌^◌, ◌≤◌, ◌<◌, ◌≡◌, refl, sym, ap, ap₂, ◌∙◌, inl, inr, true, false, [], ◌∷◌,
  ◌++◌, append_assoc, Returns, arith, if◌then◌else◌, ltb, ◌==◌, Bool-cases, length, length-append,
  length-slice, take, drop, take-append-drop, take-append_left, take-append_right, drop-slice,
  slice, slice_empty, ==_iff, ltb→lt, lt→ltb, le→ltb, le→leb, length-drop, sub64,
}
use idc.Buffer.{Buffer, retrieve_all, contents, IsValid}
use idc.Buffer.Queue.{StandsFor}
use idc.Buffer.Queue.Refinement.{retrieve_lem, advanced, advanced-StandsFor, empty-StandsFor}
use idc.Http.Conn.{HttpConn, Iovec, mapped, offered, written}

-- The first vector is the readable part of the write buffer, and the second, where there is one, the
-- rest of the mapped file.
pub record Ready (c : HttpConn) : Type 0 where
  pub valid : IsValid c.write_buff
  pub len_0 : c.iov_0.len ≡ length (contents c.write_buff)
  pub same_0 :
      slice c.iov_0.base (c.iov_0.base + c.iov_0.len) c.write_buff.buffer ≡ contents c.write_buff
  pub len_1 :
      (c.iov_cnt == 2) ≡ true → c.iov_1.base + c.iov_1.len ≡ length (mapped c.response.mm_file)
  pub short : length (mapped c.response.mm_file) < 2 ^ 63
  pub sizes : c.iov_0.len + c.iov_1.len < 2 ^ 64

-- The part of the mapped file that is to be sent.
abbrev pub file_part : HttpConn → Bytes
file_part c =
    if c.iov_cnt == 2
    then slice c.iov_1.base (c.iov_1.base + c.iov_1.len) (mapped c.response.mm_file)
    else []

pub offered_eq : (c : HttpConn) → Ready c → offered c ≡ contents c.write_buff ++ file_part c
unfolding offered
offered_eq c r = ap (λ t. t ++ file_part c) r.same_0

-- After `len` bytes: the connection is ready for the others.
pub record Moved (c : HttpConn) (len : ℕ) (c' : HttpConn) : Type 0 where
  pub ready : Ready c'
  pub rest : take len (offered c) ++ offered c' ≡ offered c

split_left :
    (a f x : Bytes) (len : ℕ)
    → len ≤ length a
    → x ≡ drop len a
    → take len (a ++ f) ++ (x ++ f) ≡ a ++ f
split_left a f x len h e =
    ap₂ (λ s t. s ++ (t ++ f)) (take-append_left a f len h) e
    ∙ sym (append_assoc (take len a) (drop len a) f)
    ∙ ap (λ t. t ++ f) (take-append-drop len a)

split_right :
    (a f x g : Bytes) (len k : ℕ)
    → len ≡ length a + k
    → x ≡ []
    → g ≡ drop k f
    → take len (a ++ f) ++ (x ++ g) ≡ a ++ f
split_right a f x g len k h e d =
    ap₂ (λ s t. s ++ t) (take-append_right a f len k h) (ap₂ (λ s t. s ++ t) e d)
    ∙ append_assoc a (take k f) (drop k f)
    ∙ ap (λ t. a ++ t) (take-append-drop k f)

within_header :
    (c : HttpConn) (len : ℕ) → Ready c → len ≤ c.iov_0.len → Returns (written c len) (Moved c len)
unfolding written
within_header c len r h =
    let fits : len ≤ length (contents c.write_buff) = omega (arith, r.len_0) in
    rw (le→ltb c.iov_0.len len h, retrieve_lem c.write_buff len r.valid, le→leb len _ fits, written)
      (record {
        ready = ready fits;
        rest =
            ap₂ (λ x y. take len x ++ y) (offered_eq c r) (offered_eq next (ready fits))
            ∙ split_left (contents c.write_buff) (file_part c) (contents next.write_buff) len fits
                (stands fits).holds
            ∙ sym (offered_eq c r);
      })
  where
    next : HttpConn
    next = record c {
      iov_0 = record { base = c.iov_0.base + len; len = c.iov_0.len - len };
      write_buff = advanced c.write_buff len;
    }

    stands :
        len ≤ length (contents c.write_buff)
        → StandsFor
            (drop len (contents c.write_buff))
            (length c.write_buff.buffer)
            (advanced c.write_buff len)
    stands fits = advanced-StandsFor c.write_buff len _ r.valid fits (omega arith)

    ready : len ≤ length (contents c.write_buff) → Ready next
    ready fits = record {
      valid = (stands fits).valid;
      len_0 =
          omega (
            arith,
            r.len_0,
            ap length (stands fits).holds,
            length-drop len (contents c.write_buff),
          );
      same_0 =
          ap (λ e. slice (c.iov_0.base + len) e c.write_buff.buffer) (omega arith)
          ∙ sym (drop-slice c.iov_0.base (c.iov_0.base + c.iov_0.len) len c.write_buff.buffer)
          ∙ ap (drop len) r.same_0
          ∙ sym (stands fits).holds;
      len_1 = r.len_1;
      short = r.short;
      sizes = omega (arith, r.sizes);
    }

file_part-slice :
    (c : HttpConn)
    → (c.iov_cnt == 2) ≡ true
    → file_part c ≡ slice c.iov_1.base (c.iov_1.base + c.iov_1.len) (mapped c.response.mm_file)
file_part-slice c two = rw two refl

-- The header is drained, and `k` bytes of the file are sent.
module _ (c : HttpConn) (buff : Buffer) (iov_0 : Iovec) (k : ℕ) (r : Ready c) (v : IsValid buff)
    (no_header : iov_0.len ≡ 0) (drained : contents buff ≡ []) (two : (c.iov_cnt == 2) ≡ true)
    (fits : k ≤ c.iov_1.len) where
  abbrev left_over : HttpConn
  left_over = record c {
    iov_0 = iov_0;
    iov_1 = record { base = c.iov_1.base + k; len = sub64 c.iov_1.len k };
    write_buff = buff;
  }

  exact : sub64 c.iov_1.len k ≡ c.iov_1.len - k
  exact = omega (arith, r.len_1 two, r.short)

  left_over-Ready : Ready left_over
  left_over-Ready = record {
    valid = v;
    len_0 = no_header ∙ sym (ap length drained);
    same_0 =
        ap (λ n. slice iov_0.base (iov_0.base + n) buff.buffer) no_header
        ∙ ap (λ e. slice iov_0.base e buff.buffer) {y = iov_0.base} (omega arith)
        ∙ slice_empty iov_0.base buff.buffer
        ∙ sym drained;
    len_1 = λ _. omega (arith, r.len_1 two, exact);
    short = r.short;
    sizes = omega (arith, r.sizes, exact);
  }

  left_over-file : file_part left_over ≡ drop k (file_part c)
  left_over-file =
      let memory = mapped c.response.mm_file in
      file_part-slice left_over two
      ∙ ap (λ e. slice (c.iov_1.base + k) e memory) {y = c.iov_1.base + c.iov_1.len}
          (omega (arith, exact))
      ∙ sym (drop-slice c.iov_1.base (c.iov_1.base + c.iov_1.len) k memory)
      ∙ ap (drop k) (sym (file_part-slice c two))

  left_over-Moved : (len : ℕ) → len ≡ length (contents c.write_buff) + k → Moved c len left_over
  left_over-Moved len e = record {
    ready = left_over-Ready;
    rest =
        ap₂ (λ x y. take len x ++ y) (offered_eq c r) (offered_eq left_over left_over-Ready)
        ∙ split_right (contents c.write_buff) (file_part c) (contents buff) (file_part left_over)
            len k e drained left_over-file
        ∙ sym (offered_eq c r);
  }

pub length-file_part :
    (c : HttpConn) → Ready c → (c.iov_cnt == 2) ≡ true → length (file_part c) ≡ c.iov_1.len
length-file_part c r two =
    ap length (file_part-slice c two)
    ∙ length-slice c.iov_1.base (c.iov_1.base + c.iov_1.len) (mapped c.response.mm_file)
        (omega (arith, r.len_1 two))
    ∙ omega arith

pub length-offered :
    (c : HttpConn) → Ready c → length (offered c) ≡ c.iov_0.len + length (file_part c)
length-offered c r =
    ap length (offered_eq c r)
    ∙ omega (arith, length-append (contents c.write_buff) (file_part c), r.len_0)

pub length_zero : (xs : Bytes) → length xs ≡ 0 → xs ≡ []
length_zero [] e = refl
length_zero (x ∷ xs) e = absurd (omega (arith, e))

beyond_header :
    (c : HttpConn) (len : ℕ)
    → Ready c
    → c.iov_0.len < len
    → len ≤ length (offered c)
    → Returns (written c len) (Moved c len)
unfolding written retrieve_all
beyond_header c len r h k = elim (Bool-cases (c.iov_cnt == 2)) [
  | inr one ↦ absurd (omega (arith, length-offered c r, ap length (no_file one)))
  | inl two ↦
      let fits : len - c.iov_0.len ≤ c.iov_1.len =
        omega (arith, length-offered c r, length-file_part c r two) in
      let sum : len ≡ length (contents c.write_buff) + (len - c.iov_0.len) =
        omega (arith, r.len_0) in
      rw (lt→ltb c.iov_0.len len h, written)
        (elim (Bool-cases (c.iov_0.len == 0)) [
          | inl none_left ↦ rw none_left (
              left_over-Moved c c.write_buff c.iov_0 (len - c.iov_0.len) r r.valid
                ((==_iff c.iov_0.len 0).0 none_left) (no_bytes none_left) two fits len sum)
          | inr some_left ↦ rw some_left (
              left_over-Moved c (retrieve_all c.write_buff)
                (record { base = c.iov_0.base; len = 0 }) (len - c.iov_0.len) r (emptied.valid) refl
                emptied.holds two fits len sum)
        ])
]
  where
    emptied : StandsFor [] (length c.write_buff.buffer) (retrieve_all c.write_buff)
    emptied = empty-StandsFor c.write_buff (length c.write_buff.buffer) r.valid (omega arith)

    no_file : (c.iov_cnt == 2) ≡ false → file_part c ≡ []
    no_file one = rw one refl

    no_bytes : (c.iov_0.len == 0) ≡ true → contents c.write_buff ≡ []
    no_bytes e = length_zero (contents c.write_buff) (sym r.len_0 ∙ (==_iff c.iov_0.len 0).0 e)

-- A round of the loop sends the first `len` bytes and leaves the others.
pub written-Moved :
    (c : HttpConn) (len : ℕ)
    → Ready c
    → len ≤ length (offered c)
    → Returns (written c len) (Moved c len)
written-Moved c len r h = elim (Bool-cases (ltb c.iov_0.len len)) [
  | inl beyond ↦ beyond_header c len r (ltb→lt _ _ beyond) h
  | inr within ↦ within_header c len r (ground arith)
]
