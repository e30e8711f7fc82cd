-- ===== src/Buffer/Contents.antt =====
-- What the operations of src/buffer.cpp do to the readable bytes.
use idc.Prelude.{
  Bytes, ℕ, ◌+◌, ◌-◌, ◌≤◌, ◌≡◌, ap, ◌∙◌, ◌++◌, ok, Returns, arith, length, take, drop, take-all,
  take-take, slice, length-append, length-take, length-drop, length-slice, take-append_left,
  take-append_right, drop-append_left, drop-take, add64,
}
use idc.Buffer.{
  Buffer, readable_bytes, writable_bytes, copy_at, has_written, write_bytes, contents, IsValid,
}

-- Writing behind the readable places extends them.
slice-write :
    (xs str rest : Bytes) (r w : ℕ)
    → r ≤ w
    → w ≤ length xs
    → slice r (w + length str) (take w xs ++ (str ++ rest)) ≡ slice r w xs ++ str
slice-write xs str rest r w h k =
    ap (take (w + length str - r)) (
      drop-append_left (take w xs) (str ++ rest) r (omega (arith, length-take w xs))
      ∙ ap (λ t. t ++ (str ++ rest)) (drop-take r w xs))
    ∙ take-append_right (slice r w xs) (str ++ rest) (w + length str - r) (length str)
        (omega (arith, length-slice r w xs k))
    ∙ ap (◌++◌ (slice r w xs))
        (take-append_left str rest (length str) (omega arith) ∙ take-all _ str (omega arith))

-- What stands behind the readable places does not matter.
pub slice-take :
    (xs rest : Bytes) (r w n : ℕ)
    → r ≤ w
    → w ≤ n
    → w ≤ length xs
    → slice r w (take n xs ++ rest) ≡ slice r w xs
slice-take xs rest r w n h k l =
    ap (take (w - r)) (
      drop-append_left (take n xs) rest r (omega (arith, length-take n xs))
      ∙ ap (λ t. t ++ rest) (drop-take r n xs))
    ∙ take-append_left (slice r n xs) rest (w - r)
        (omega (arith, length-take (n - r) (drop r xs), length-drop r xs))
    ∙ take-take (w - r) (n - r) (drop r xs) (omega arith)

pub readable_bytes-length : (b : Buffer) → IsValid b → readable_bytes b ≡ length (contents b)
unfolding readable_bytes
readable_bytes-length b v = omega (arith, length-slice b.read_pos b.write_pos b.buffer v.within)

pub readable_bytes_eq : (b : Buffer) → IsValid b → readable_bytes b ≡ b.write_pos - b.read_pos
unfolding readable_bytes
readable_bytes_eq b v = omega arith

pub writable_bytes_eq : (b : Buffer) → IsValid b → writable_bytes b ≡ length b.buffer - b.write_pos
unfolding writable_bytes
writable_bytes_eq b v = omega arith

pub copy_at_eq :
    (xs str : Bytes) (pos : ℕ)
    → pos + length str ≤ length xs
    → copy_at xs pos str ≡ ok (take pos xs ++ (str ++ drop (pos + length str) xs))
unfolding copy_at
copy_at_eq xs str pos h = ground arith

pub length-splice :
    (xs str : Bytes) (pos : ℕ)
    → pos + length str ≤ length xs
    → length (take pos xs ++ (str ++ drop (pos + length str) xs)) ≡ length xs
length-splice xs str pos h = omega (
  arith,
  length-append (take pos xs) (str ++ drop (pos + length str) xs),
  length-append str (drop (pos + length str) xs),
  length-take pos xs,
  length-drop (pos + length str) xs,
)

-- The result holds the old bytes and then `str`, in the same vector.
pub record Written (b : Buffer) (str : Bytes) (b' : Buffer) : Type 0 where
  pub valid : IsValid b'
  pub holds : contents b' ≡ contents b ++ str
  pub size : length b'.buffer ≡ length b.buffer

pub has_written-Written :
    (b : Buffer) (str rest : Bytes)
    → IsValid b
    → b.write_pos + length str ≤ length b.buffer
    → length (take b.write_pos b.buffer ++ (str ++ rest)) ≡ length b.buffer
    → Written b str (
        has_written (record b { buffer = take b.write_pos b.buffer ++ (str ++ rest) }) (length str))
unfolding has_written
has_written-Written b str rest v h e =
    let w : add64 b.write_pos (length str) ≡ b.write_pos + length str = omega (arith, v) in
    record {
      valid = record {
        ordered = omega (arith, v);
        within = omega (arith, v);
        bounded = omega (arith, v);
      };
      holds =
          ap (λ e. slice b.read_pos e (take b.write_pos b.buffer ++ (str ++ rest))) w
          ∙ slice-write b.buffer str rest b.read_pos b.write_pos v.ordered v.within;
      size = e;
    }

pub write_bytes-Written :
    (b : Buffer) (str : Bytes)
    → IsValid b
    → b.write_pos + length str ≤ length b.buffer
    → Returns (write_bytes b str) (Written b str)
unfolding write_bytes
write_bytes-Written b str v h =
    rw (copy_at_eq b.buffer str b.write_pos h)
      (has_written-Written b str _ v h (length-splice b.buffer str b.write_pos h))
