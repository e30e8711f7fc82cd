-- ===== src/Buffer/Transfers.antt =====
-- ReadFd of src/buffer.cpp, with its scattered read.
use idc.Prelude.{
  Bytes, ℕ, ◌+◌, ◌-◌, ◌<◌, ◌≡◌, refl, ap, ◌∙◌, inl, inr, ◌++◌, Result, ok, tests, ◌>>=◌, Returns,
  Returns-bind, Returns-mono, arith, leb, Bool-cases, length, take, drop, take-append-drop,
  length-append, length-take, append_assoc, subst,
}
use idc.Buffer.Contents.{
  writable_bytes_eq, Written, write_bytes-Written, copy_at_eq, has_written-Written, length-splice,
}
use idc.Buffer.Space.{Fits, Extends, append-Extends}
use idc.Buffer.{
  Buffer, copy_at, has_written, write_bytes, append, Transfer, moved, read_fd, contents, IsValid,
}

-- The first part of the bytes, which fills the vector.
filled : Buffer → Bytes → Buffer
filled b str = record b {
  buffer = take b.write_pos b.buffer ++ (str ++ drop (b.write_pos + length str) b.buffer);
  write_pos = length b.buffer;
}

filled-Written :
    (b : Buffer) (str : Bytes)
    → IsValid b
    → b.write_pos + length str ≡ length b.buffer
    → Written b str (filled b str)
unfolding filled has_written
filled-Written b str v h =
    subst (Written b str)
      (ap (λ n. record (filled b str) { write_pos = n }) {y = length b.buffer} (omega (arith, v)))
      (has_written-Written b str _ v (omega arith)
        (length-splice b.buffer str b.write_pos (omega arith)))

long_read-Extends :
    (b : Buffer) (first rest : Bytes)
    → IsValid b
    → b.write_pos + length first ≡ length b.buffer
    → Fits b (length (first ++ rest))
    → Returns (append (filled b first) rest) (Extends b (first ++ rest))
unfolding filled
long_read-Extends b first rest v h k =
    let w = filled-Written b first v h in
    let n = length-append first rest in
    Returns-mono (append (filled b first) rest) (Extends (filled b first) rest)
      (Extends b (first ++ rest)) (append-Extends (filled b first) rest w.valid (omega (arith, n)))
      λ b' e. record {
        valid = e.valid;
        holds = e.holds ∙ ap (λ t. t ++ rest) w.holds ∙ append_assoc (contents b) first rest;
        growth = omega (arith, e, w, n);
      }

-- The buffer after ReadFd, and its result.
abbrev pub Reads : Buffer → Bytes → Buffer × Transfer ℕ → Type 0
Reads b str r = Extends b str r.0 × (r.1 ≡ moved (length str))

reported :
    (b : Buffer) (str : Bytes) (m : Result Buffer)
    → Returns m (Extends b str)
    → Returns (m >>= λ next. ok (next, moved (length str))) (Reads b str)
reported b str m h = Returns-bind m _ (Extends b str) (Reads b str) h λ next e. (e, refl)

Written-Extends : (b : Buffer) (str : Bytes) (b' : Buffer) → Written b str b' → Extends b str b'
Written-Extends b str b' w = record { valid = w.valid; holds = w.holds; growth = omega (arith, w) }

overflowing-Reads :
    (b : Buffer) (str : Bytes)
    → IsValid b
    → Fits b (length str)
    → length b.buffer - b.write_pos < length str
    → Returns
        (copy_at b.buffer b.write_pos (take (length b.buffer - b.write_pos) str) >>= λ buffer.
          append
            (record b { buffer = buffer; write_pos = length buffer })
            (drop (length b.buffer - b.write_pos) str)
          >>= λ next. ok (next, moved (length str)))
        (Reads b str)
unfolding filled
overflowing-Reads b str v h k =
    let room = length b.buffer - b.write_pos in
    let n = length-take room str in
    let joined = take-append-drop room str in
    rw
      (
        copy_at_eq b.buffer (take room str) b.write_pos (omega (arith, n)),
        length-splice b.buffer (take room str) b.write_pos (omega (arith, n)),
      )
      (reported b str _ (
        subst (λ s. Returns (append (filled b (take room str)) (drop room str)) (Extends b s))
          joined
          (long_read-Extends b (take room str) (drop room str) v (omega (arith, n)) (rw joined h))))

-- For a valid buffer whose vector can hold them, ReadFd returns the number of bytes that readv
-- delivered and appends exactly these to the readable bytes, through the spare array or not.
pub read_fd-Reads :
    (b : Buffer) (str : Bytes)
    → IsValid b
    → Fits b (length str)
    → Returns (read_fd b (moved str)) (Reads b str)
unfolding read_fd
read_fd-Reads b str v h =
    rw (writable_bytes_eq b v, read_fd)
      (elim (Bool-cases (leb (length str) (length b.buffer - b.write_pos))) [
        | inl fits ↦ rw fits (
            reported b str _ (
              Returns-mono (write_bytes b str) (Written b str) (Extends b str)
                (write_bytes-Written b str v (omega (tests, fits))) (Written-Extends b str)))
        | inr over ↦ rw over (overflowing-Reads b str v h (ground arith))
      ])
