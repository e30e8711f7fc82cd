-- ===== src/Buffer/Queue/Refinement.antt =====
-- The operations of src/buffer.cpp against those of the queue.
use idc.Prelude.{
  Bytes, ℕ, ◌+◌, ◌^◌, ◌≤◌, ◌<◌, ◌≡◌, sym, ap, ◌∙◌, inl, inr, List, [], ◌∷◌, ◌++◌, Option-cases,
  some, ok, fault, tests, ◌>>=◌, assertion, Returns, Returns-bind, Returns-mono, Returns-of_eq,
  arith, leb, Bool-cases, if◌then◌else◌, length, drop, replicate, length-replicate, length-slice,
  drop-slice, slice_empty, add64, subst,
}
use idc.Buffer.Contents.{readable_bytes_eq, readable_bytes-length}
use idc.Buffer.Space.{Extends, append-Extends, Roomy, ensure_writeable-Roomy}
use idc.Buffer.Transfers.{Reads, read_fd-Reads}
use idc.Buffer.Queue.{
  Op, appends, ensures, retrieves, retrieves_to, empties, reads, writes, step, run, dequeue,
  queue_step, queue_run, cost, total_cost, StandsFor,
}
use idc.Buffer.{
  Buffer, max_size, new, retrieve, retrieve_until, retrieve_all, retrieve_all_to_str, read_range,
  ensure_writeable, append, failed, moved, read_fd, write_fd, contents, IsValid,
}

-- A buffer gives up its first bytes exactly when it has as many; otherwise the assertion fails.
pub retrieve_lem :
    (b : Buffer) (len : ℕ)
    → IsValid b
    → retrieve b len ≡ (
        if leb len (length (contents b))
        then ok (record b { read_pos = b.read_pos + len })
        else fault assertion)
unfolding retrieve
retrieve_lem b len v =
    rw (readable_bytes-length b v, retrieve)
      (ground (arith, length-slice b.read_pos b.write_pos b.buffer v.within))

-- The buffer without its first `len` bytes.
abbrev pub advanced : Buffer → ℕ → Buffer
advanced b len = record b { read_pos = b.read_pos + len }

pub advanced-StandsFor :
    (b : Buffer) (len size : ℕ)
    → IsValid b
    → len ≤ length (contents b)
    → length b.buffer ≤ size
    → StandsFor (drop len (contents b)) size (advanced b len)
advanced-StandsFor b len size v h k =
    let n = length-slice b.read_pos b.write_pos b.buffer v.within in
    record {
      valid = record { ordered = omega (arith, n); within = v.within; bounded = v.bounded };
      holds = sym (drop-slice b.read_pos b.write_pos len b.buffer);
      small = k;
    }

retrieve-StandsFor :
    (b : Buffer) (len size : ℕ) {q : Bytes}
    → IsValid b
    → length b.buffer ≤ size
    → dequeue (contents b) len ≡ some q
    → Returns (retrieve b len) (StandsFor q size)
retrieve-StandsFor b len size v k e = elim (Bool-cases (leb len (length (contents b)))) [
  | inl enough ↦
      let r = rw enough at (retrieve_lem b len v) in
      let s = advanced-StandsFor b len size v (omega (tests, enough)) k in
      Returns-of_eq (StandsFor _ size) r
        (subst (λ q. StandsFor q size (advanced b len)) (ground arith) s)
  | inr few ↦ absurd (ground arith)
]

pub retrieve_until_eq :
    (b : Buffer) (k : ℕ)
    → IsValid b
    → b.read_pos + k < 2 ^ 64
    → retrieve_until b (b.read_pos + k) ≡ retrieve b k
unfolding retrieve_until retrieve
retrieve_until_eq b k v h = ground arith

write_fd-StandsFor :
    (b : Buffer) (len size : ℕ) {q : Bytes}
    → IsValid b
    → length b.buffer ≤ size
    → dequeue (contents b) len ≡ some q
    → StandsFor q size (write_fd b (moved len)).0
unfolding write_fd
write_fd-StandsFor b len size {q} v k e = elim (Bool-cases (leb len (length (contents b)))) [
  | inl enough ↦
      let s = advanced-StandsFor b len size v (omega (tests, enough)) k in
      subst (StandsFor q size)
        (ap (λ n. record b { read_pos = n }) {x = b.read_pos + len} {y = add64 b.read_pos len}
          (ground (arith, length-slice b.read_pos b.write_pos b.buffer v.within)))
        (subst (λ q. StandsFor q size (advanced b len)) (ground arith) s)
  | inr few ↦ absurd (ground arith)
]

pub empty-StandsFor :
    (b : Buffer) (size : ℕ)
    → IsValid b
    → length b.buffer ≤ size
    → StandsFor [] size (retrieve_all b)
unfolding retrieve_all
empty-StandsFor b size v k =
    let n = length-replicate {A = ℕ} (length b.buffer) 0 in
    record {
      valid = record { ordered = omega arith; within = omega arith; bounded = omega (arith, n) };
      holds = slice_empty 0 (replicate (length b.buffer) 0);
      small = omega (arith, n);
    }

module _ {q : Bytes} {size : ℕ} (b : Buffer) (v : IsValid b) where
  extended-StandsFor :
      (str : Bytes) {b' : Buffer}
      → Extends b str b'
      → contents b ++ str ≡ q
      → length b.buffer + (length str + 1) ≤ size
      → StandsFor q size b'
  extended-StandsFor str e h k = record {
    valid = e.valid;
    holds = e.holds ∙ h;
    small = omega (arith, e);
  }

  append-StandsFor :
      (str : Bytes)
      → contents b ++ str ≡ q
      → length b.buffer + (length str + 1) ≤ size
      → size ≤ max_size
      → Returns (append b str) (StandsFor q size)
  append-StandsFor str h k l =
      Returns-mono (append b str) (Extends b str) (StandsFor q size)
        (append-Extends b str v (omega (arith, v))) λ b' e. extended-StandsFor str e h k

  ensure-StandsFor :
      (len : ℕ)
      → contents b ≡ q
      → length b.buffer + (len + 1) ≤ size
      → size ≤ max_size
      → Returns (ensure_writeable b len) (StandsFor q size)
  ensure-StandsFor len h k l =
      Returns-mono (ensure_writeable b len) (Roomy b len) (StandsFor q size)
        (ensure_writeable-Roomy b len v (omega (arith, v)))
        λ b' r. record { valid = r.valid; holds = r.holds ∙ h; small = omega (arith, r) }

  read_fd-StandsFor :
      (str : Bytes)
      → contents b ++ str ≡ q
      → length b.buffer + (length str + 1) ≤ size
      → size ≤ max_size
      → Returns (read_fd b (moved str) >>= λ r. ok r.0) (StandsFor q size)
  read_fd-StandsFor str h k l =
      Returns-bind (read_fd b (moved str)) _ (Reads b str) (StandsFor q size)
        (read_fd-Reads b str v (omega (arith, v))) λ r e. extended-StandsFor str e.0 h k

unchanged-StandsFor :
    (b : Buffer) (size : ℕ) {q : Bytes}
    → IsValid b
    → contents b ≡ q
    → length b.buffer ≤ size
    → StandsFor q size b
unchanged-StandsFor b size v h k = record { valid = v; holds = h; small = k }

-- One operation does to the buffer what it does to the queue.
step-StandsFor :
    (b : Buffer) (op : Op) (size : ℕ) {q : Bytes}
    → IsValid b
    → queue_step (contents b) op ≡ some q
    → length b.buffer + cost op ≤ size
    → size ≤ max_size
    → Returns (step b op) (StandsFor q size)
unfolding step read_fd write_fd
step-StandsFor b (appends str) size v e h k = append-StandsFor b v str (cc) h k
step-StandsFor b (ensures len) size v e h k = ensure-StandsFor b v len (cc) h k
step-StandsFor b (retrieves len) size v e h k = retrieve-StandsFor b len size v (omega arith) e
step-StandsFor b (retrieves_to n) size v e h k =
    rw
      (retrieve_until_eq b n v
        (ground (arith, length-slice b.read_pos b.write_pos b.buffer v.within)))
      (retrieve-StandsFor b n size v (omega arith) e)
step-StandsFor b empties size {q} v e h k =
    subst (λ q. StandsFor q size (retrieve_all b)) (ground arith)
      (empty-StandsFor b size v (omega arith))
step-StandsFor b (reads (failed errno)) size v e h k =
    unchanged-StandsFor b size v (cc) (omega arith)
step-StandsFor b (reads (moved str)) size v e h k = read_fd-StandsFor b v str (cc) h k
step-StandsFor b (writes (failed errno)) size v e h k =
    unchanged-StandsFor b size v (cc) (omega arith)
step-StandsFor b (writes (moved len)) size v e h k = write_fd-StandsFor b len size v (omega arith) e

run-StandsFor :
    (ops : List Op) (b : Buffer) {q : Bytes}
    → IsValid b
    → queue_run (contents b) ops ≡ some q
    → length b.buffer + total_cost ops ≤ max_size
    → Returns (run b ops) (StandsFor q max_size)
unfolding run
run-StandsFor [] b v e h = record { valid = v; holds = ground arith; small = omega arith }
run-StandsFor (op ∷ ops) b {q} v e h = elim (Option-cases (queue_step (contents b) op)) [
  | inl refused ↦ absurd (ground arith)
  | inr (next, taken) ↦
      Returns-bind (step b op) _ (StandsFor next (length b.buffer + cost op)) (StandsFor q max_size)
        (step-StandsFor b op (length b.buffer + cost op) v taken (omega arith) (omega arith))
        λ b' s. run-StandsFor ops b' s.valid (rw s.holds (ground arith)) (omega (arith, s))
]

-- A buffer that starts with `size` vacant places goes through any history that takes no more
-- than was put in, without a fault, if the vector's limit leaves room for what the history adds;
-- it then is valid and its readable bytes are those of the queue.
pub run-queue :
    (size : ℕ) (ops : List Op) {q : Bytes}
    → queue_run [] ops ≡ some q
    → size + total_cost ops ≤ max_size
    → Returns (run (new size) ops) (StandsFor q max_size)
unfolding new
run-queue size ops e h =
    let n = length-replicate {A = ℕ} size 0 in
    run-StandsFor ops (new size)
      (record { ordered = omega arith; within = omega arith; bounded = omega (arith, n) })
      (rw (slice_empty 0 (replicate {A = ℕ} size 0)) e) (omega (arith, n))

-- RetrieveAllToStr of a valid buffer returns its readable bytes and leaves it empty.
pub retrieve_all_to_str_lem :
    (b : Buffer)
    → IsValid b
    → (retrieve_all_to_str b ≡ ok (contents b, retrieve_all b)) × (contents (retrieve_all b) ≡ [])
unfolding retrieve_all_to_str read_range
retrieve_all_to_str_lem b v = (
  rw (readable_bytes_eq b v, retrieve_all_to_str) (ground arith),
  (empty-StandsFor b (length b.buffer) v (omega arith)).holds,
)
