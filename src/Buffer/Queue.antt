-- ===== src/Buffer/Queue.antt =====
-- The buffer of src/buffer.cpp as a queue of bytes: any history of its operations, against a list
-- that is appended to at its end and taken from at its front.
pub mod Refinement
use idc.Prelude.{
  Bytes, ℕ, ◌+◌, ◌-◌, ◌^◌, ◌≤◌, ◌<◌, ◌≡◌, refl, sym, ap, ap₂, ◌∙◌, ◌⊎◌, inl, inr, true, false, List,
  [], ◌∷◌, ◌++◌, Option, none, some, Result, ok, fault, tests, ◌>>=◌, require, assertion, Returns,
  Returns-bind, Returns-mono, Returns-of_eq, arith, ltb, leb, le→leb, Bool-cases, if◌then◌else◌,
  length, take, drop, take-all, take-append-drop, replicate, slice, length-append, length-take,
  length-replicate, length-drop, length-slice, drop-slice, slice_empty, append_assoc, append-nil,
  add64, sub64, subst,
}
use idc.Buffer.Contents.{writable_bytes_eq, readable_bytes_eq, readable_bytes-length}
use idc.Buffer.Space.{Fits, Extends, append-Extends, Roomy, ensure_writeable-Roomy}
use idc.Buffer.Transfers.{Reads, read_fd-Reads}
use idc.Buffer.{
  Buffer, max_size, new, readable_bytes, retrieve, retrieve_until, retrieve_all,
  retrieve_all_to_str, read_range, ensure_writeable, append, Transfer, failed, moved, read_fd,
  write_fd, contents, IsValid,
}

pub data Op : Type 0 where
  appends : Bytes → Op
  ensures retrieves retrieves_to : ℕ → Op
  empties : Op
  reads : Transfer Bytes → Op
  writes : Transfer ℕ → Op

-- `retrieves_to k` is RetrieveUntil(Peek() + k).
pub step : Buffer → Op → Result Buffer
step b (appends str) = append b str
step b (ensures len) = ensure_writeable b len
step b (retrieves len) = retrieve b len
step b (retrieves_to k) = retrieve_until b (b.read_pos + k)
step b empties = ok (retrieve_all b)
step b (reads t) = read_fd b t >>= λ r. ok r.0
step b (writes t) = ok (write_fd b t).0

pub run : Buffer → List Op → Result Buffer
run b [] = ok b
run b (op ∷ ops) = step b op >>= λ next. run next ops

-- The first `n` bytes leave the queue, if it has as many.
abbrev pub dequeue : Bytes → ℕ → Option Bytes
dequeue q n = if leb n (length q) then some (drop n q) else none

-- What an operation means for the queue; `none` where the caller takes more than there is.
abbrev pub queue_step : Bytes → Op → Option Bytes
queue_step q (appends str) = some (q ++ str)
queue_step q (ensures len) = some q
queue_step q (retrieves len) = dequeue q len
queue_step q (retrieves_to k) = dequeue q k
queue_step q empties = some []
queue_step q (reads (failed errno)) = some q
queue_step q (reads (moved str)) = some (q ++ str)
queue_step q (writes (failed errno)) = some q
queue_step q (writes (moved len)) = dequeue q len

abbrev pub queue_run : Bytes → List Op → Option Bytes
queue_run q [] = some q
queue_run q (op ∷ ops) = elim (queue_step q op) [ none ↦ none | some next ↦ queue_run next ops ]

-- How much the vector may grow.
abbrev pub cost : Op → ℕ
cost (appends str) = length str + 1
cost (ensures len) = len + 1
cost (reads (moved str)) = length str + 1
cost _ = 0

abbrev pub total_cost : List Op → ℕ
total_cost [] = 0
total_cost (op ∷ ops) = cost op + total_cost ops

-- The buffer stands for the queue `q`, in a vector of at most `size` places.
pub record StandsFor (q : Bytes) (size : ℕ) (b : Buffer) : Type 0 where
  pub valid : IsValid b
  pub holds : contents b ≡ q
  pub small : length b.buffer ≤ size
