-- ===== src/Buffer/Space.antt =====
-- MakeSpace_, EnsureWriteable and Append of src/buffer.cpp.
use idc.Prelude.{
  Bytes, ℕ, ◌+◌, ◌-◌, ◌≤◌, ◌≡◌, refl, ap, ◌∙◌, inl, inr, ◌++◌, ok, tests, ◌>>=◌, require, Returns,
  Returns-bind, Returns-mono, arith, ltb, leb, le→leb, Bool-cases, length, take, drop, take-all,
  replicate, length-append, length-take, length-drop, length-replicate, length-slice,
  take-append_left, add64, sub64, assertion,
}
use idc.Buffer.Contents.{slice-take, writable_bytes_eq, Written, write_bytes-Written}
use idc.Buffer.{
  Buffer, max_size, readable_bytes, writable_bytes, prependable_bytes, read_range, copy_at, resize,
  grow, compact, make_space, ensure_writeable, write_bytes, append, contents, IsValid,
}

-- Space for `len` more bytes has been made, and the readable bytes are the old ones.
pub record Roomy (b : Buffer) (len : ℕ) (b' : Buffer) : Type 0 where
  pub valid : IsValid b'
  pub holds : contents b' ≡ contents b
  pub room : b'.write_pos + len ≤ length b'.buffer
  pub growth : length b'.buffer ≤ length b.buffer + len + 1

abbrev pub Fits : Buffer → ℕ → Type 0
Fits b len = b.write_pos + len + 1 ≤ max_size

grow-Roomy :
    (b : Buffer) (len : ℕ)
    → IsValid b
    → Fits b len
    → length b.buffer ≤ b.write_pos + len
    → Returns (grow b len) (λ b'. Roomy b len b')
unfolding grow resize
grow-Roomy b len v h k =
    let n : add64 (add64 b.write_pos len) 1 ≡ b.write_pos + len + 1 = omega arith in
    rw (n, grow, resize)
      (rw (le→leb (b.write_pos + len + 1) max_size h) (record {
        valid = record {
          ordered = v.ordered;
          within = omega (arith, long);
          bounded = omega (arith, long);
        };
        holds =
            slice-take b.buffer _ b.read_pos b.write_pos (b.write_pos + len + 1) v.ordered
              (omega arith) v.within;
        room = omega (arith, long);
        growth = omega (arith, long);
      }))
  where
    long :
        length (
          take (b.write_pos + len + 1) b.buffer
          ++ replicate {A = ℕ} (b.write_pos + len + 1 - length b.buffer) 0)
        ≡ b.write_pos + len + 1
    long = omega (
      arith,
      length-append (take (b.write_pos + len + 1) b.buffer)
          (replicate (b.write_pos + len + 1 - length b.buffer) 0),
      length-take (b.write_pos + len + 1) b.buffer,
      length-replicate {A = ℕ} (b.write_pos + len + 1 - length b.buffer) 0,
    )

abbrev compacted : Buffer → Buffer
compacted b = record {
  buffer = contents b ++ drop (0 + length (contents b)) b.buffer;
  read_pos = 0;
  write_pos = b.write_pos - b.read_pos;
}

compact_eq : (b : Buffer) → IsValid b → compact b ≡ ok (compacted b)
unfolding compact read_range copy_at readable_bytes
compact_eq b v = ground (arith, length-slice b.read_pos b.write_pos b.buffer v.within)

compact-Roomy :
    (b : Buffer) (len : ℕ)
    → IsValid b
    → len ≤ length b.buffer - b.write_pos + b.read_pos
    → Returns (compact b) (λ b'. Roomy b len b')
compact-Roomy b len v h = rw (compact_eq b v) (record {
  valid = record {
    ordered = omega arith;
    within = omega (arith, long');
    bounded = omega (arith, long');
  };
  holds =
      ap (λ n. take n (contents b ++ drop (0 + length (contents b)) b.buffer)) (omega arith)
      ∙ take-append_left (contents b) _ (b.write_pos - b.read_pos) (omega (arith, short))
      ∙ take-all (b.write_pos - b.read_pos) (contents b) (omega (arith, short));
  room = omega (arith, long');
  growth = omega (arith, long');
})
  where
    short : length (contents b) ≡ b.write_pos - b.read_pos
    short = length-slice b.read_pos b.write_pos b.buffer v.within

    long' : length (compacted b).buffer ≡ length b.buffer
    long' = omega (
      arith,
      short,
      length-append (contents b) (drop (0 + length (contents b)) b.buffer),
      length-drop (0 + length (contents b)) b.buffer,
    )

make_space-Roomy :
    (b : Buffer) (len : ℕ)
    → IsValid b
    → Fits b len
    → length b.buffer ≤ b.write_pos + len
    → Returns (make_space b len) (λ b'. Roomy b len b')
unfolding make_space writable_bytes prependable_bytes
make_space-Roomy b len v h k =
    elim (Bool-cases (ltb (add64 (sub64 (length b.buffer) b.write_pos) b.read_pos) len)) [
      | inl few ↦ rw few (grow-Roomy b len v h k)
      | inr enough ↦ rw enough (compact-Roomy b len v (ground arith))
    ]

Roomy-already :
    (b : Buffer) (len : ℕ) → IsValid b → len ≤ length b.buffer - b.write_pos → Roomy b len b
Roomy-already b len v h = record {
  valid = v;
  holds = refl;
  room = omega arith;
  growth = omega arith;
}

checked-Roomy :
    (b b' : Buffer) (len : ℕ)
    → Roomy b len b'
    → Returns
        (require (leb len (writable_bytes b')) assertion >>= λ _. ok b')
        (λ b''. Roomy b len b'')
checked-Roomy b b' len r =
    rw (le→leb len (writable_bytes b') (omega (arith, r, writable_bytes_eq b' r.valid))) r

-- For a valid buffer whose vector may grow by `len`, EnsureWriteable returns: its assertion holds, the
-- buffer is valid with room for `len` bytes, the readable bytes are the old ones, and the vector
-- grew by at most `len` and one.
pub ensure_writeable-Roomy :
    (b : Buffer) (len : ℕ)
    → IsValid b
    → Fits b len
    → Returns (ensure_writeable b len) (λ b'. Roomy b len b')
unfolding ensure_writeable
ensure_writeable-Roomy b len v h = elim (Bool-cases (ltb (writable_bytes b) len)) [
  | inl few ↦ rw few (
      Returns-bind (make_space b len) _ (Roomy b len) (Roomy b len)
        (make_space-Roomy b len v h (omega (tests, few, writable_bytes_eq b v)))
        λ b' r. checked-Roomy b b' len r)
  | inr enough ↦
      rw enough
        (checked-Roomy b b len (Roomy-already b len v (ground (arith, writable_bytes_eq b v))))
]

-- What a buffer with `str` at its end is.
pub record Extends (b : Buffer) (str : Bytes) (b' : Buffer) : Type 0 where
  pub valid : IsValid b'
  pub holds : contents b' ≡ contents b ++ str
  pub growth : length b'.buffer ≤ length b.buffer + length str + 1

-- For a valid buffer whose vector can hold them, Append returns a valid buffer with the new bytes at
-- the end of the readable ones.
pub append-Extends :
    (b : Buffer) (str : Bytes)
    → IsValid b
    → Fits b (length str)
    → Returns (append b str) (Extends b str)
unfolding append
append-Extends b str v h =
    Returns-bind (ensure_writeable b (length str)) _ (Roomy b (length str)) (Extends b str)
      (ensure_writeable-Roomy b (length str) v h)
      λ b' r.
        Returns-mono (write_bytes b' str) (Written b' str) (Extends b str)
          (write_bytes-Written b' str r.valid r.room)
          λ b'' e. record {
            valid = e.valid;
            holds = e.holds ∙ ap (λ t. t ++ str) r.holds;
            growth = omega (arith, e, r);
          }
