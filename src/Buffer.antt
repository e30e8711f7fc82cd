-- ===== src/Buffer.antt =====
-- src/buffer.cpp and include/buffer.h: the growable byte buffer of a connection.
-- `buffer` is the whole vector, the vacant places included; positions are size_t values, and their
-- arithmetic wraps. A failed assert, a length_error of the vector and a copy outside it are faults.
-- The kernel's part of readv and write is their outcome, an argument of `read_fd` and `write_fd`.
pub mod Contents
pub mod Space
pub mod Transfers
pub mod Queue
pub mod Writes
use idc.Prelude.{
  Bytes, ℕ, ◌+◌, ◌-◌, ◌^◌, ◌≤◌, Bool, ◌&&◌, List, [], ◌++◌, Option, none, some, Result, ok, fault,
  ◌>>=◌, ◌>>◌, require, assertion, length_error, out_of_range, if◌then◌else◌, ltb, leb, ◌==◌,
  length, take, drop, replicate, slice, add64, sub64,
}

pub record Buffer : Type 0 where
  pub buffer : Bytes
  pub read_pos : ℕ
  pub write_pos : ℕ

-- std::vector<char>::max_size(), PTRDIFF_MAX
abbrev pub max_size : ℕ
max_size = 2 ^ 63 - 1

unfoldable pub new : ℕ → Buffer
new size = record { buffer = replicate size 0; read_pos = 0; write_pos = 0 }

unfoldable pub readable_bytes : Buffer → ℕ
readable_bytes b = sub64 b.write_pos b.read_pos

unfoldable pub writable_bytes : Buffer → ℕ
writable_bytes b = sub64 (length b.buffer) b.write_pos

unfoldable pub prependable_bytes : Buffer → ℕ
prependable_bytes b = b.read_pos

-- What a reader of the places from `a` up to `e` of a vector sees.
unfoldable pub read_range : Bytes → ℕ → ℕ → Result Bytes
read_range xs a e = require (leb a e && leb e (length xs)) out_of_range >> ok (slice a e xs)

-- std::copy of `str` to place `pos` of a vector
unfoldable pub copy_at : Bytes → ℕ → Bytes → Result Bytes
copy_at xs pos str = do
  require (leb (pos + length str) (length xs)) out_of_range
  ok (take pos xs ++ (str ++ drop (pos + length str) xs))

-- std::vector<char>::resize
unfoldable pub resize : Bytes → ℕ → Result Bytes
resize xs n = require (leb n max_size) length_error >> ok (take n xs ++ replicate (n - length xs) 0)

unfoldable pub retrieve : Buffer → ℕ → Result Buffer
unfolding readable_bytes
retrieve b len = do
  require (leb len (readable_bytes b)) assertion
  ok (record b { read_pos = add64 b.read_pos len })

-- The pointer argument is given as its distance from the start of the vector.
unfoldable pub retrieve_until : Buffer → ℕ → Result Buffer
unfolding retrieve
retrieve_until b end = require (leb b.read_pos end) assertion >> retrieve b (sub64 end b.read_pos)

unfoldable pub retrieve_all : Buffer → Buffer
retrieve_all b = record { buffer = replicate (length b.buffer) 0; read_pos = 0; write_pos = 0 }

unfoldable pub retrieve_all_to_str : Buffer → Result (Bytes × Buffer)
unfolding retrieve_all read_range readable_bytes
retrieve_all_to_str b = do
  str ← read_range b.buffer b.read_pos (b.read_pos + readable_bytes b)
  ok (str, retrieve_all b)

unfoldable pub has_written : Buffer → ℕ → Buffer
has_written b len = record b { write_pos = add64 b.write_pos len }

-- The vector grows.
unfoldable pub grow : Buffer → ℕ → Result Buffer
unfolding resize
grow b len = do
  buffer ← resize b.buffer (add64 (add64 b.write_pos len) 1)
  ok (record b { buffer = buffer })

-- The readable bytes move to the front.
unfoldable pub compact : Buffer → Result Buffer
unfolding readable_bytes read_range copy_at
compact b = do
  let readable = readable_bytes b
  str ← read_range b.buffer b.read_pos b.write_pos
  buffer ← copy_at b.buffer 0 str
  let moved : Buffer = record { buffer = buffer; read_pos = 0; write_pos = add64 0 readable }
  require (readable == readable_bytes moved) assertion
  ok moved

unfoldable pub make_space : Buffer → ℕ → Result Buffer
unfolding grow compact writable_bytes prependable_bytes
make_space b len =
    if ltb (add64 (writable_bytes b) (prependable_bytes b)) len then grow b len else compact b

unfoldable pub ensure_writeable : Buffer → ℕ → Result Buffer
unfolding make_space writable_bytes
ensure_writeable b len = do
  roomy ← if ltb (writable_bytes b) len then make_space b len else ok b
  require (leb len (writable_bytes roomy)) assertion
  ok roomy

-- std::copy to BeginWrite() and HasWritten
unfoldable pub write_bytes : Buffer → Bytes → Result Buffer
unfolding copy_at has_written
write_bytes b str = do
  buffer ← copy_at b.buffer b.write_pos str
  ok (has_written (record b { buffer = buffer }) (length str))

unfoldable pub append : Buffer → Bytes → Result Buffer
unfolding ensure_writeable write_bytes
append b str = do roomy ← ensure_writeable b (length str); write_bytes roomy str

-- Append(const char*, size_t) and Append(const void*, size_t): `none` is a null pointer.
unfoldable pub append_ptr : Buffer → Option Bytes → Result Buffer
unfolding append
append_ptr b none = fault assertion
append_ptr b (some str) = append b str

unfoldable pub append_buffer : Buffer → Buffer → Result Buffer
unfolding append readable_bytes read_range
append_buffer b other = do
  str ← read_range other.buffer other.read_pos (other.read_pos + readable_bytes other)
  append b str

-- What a system call reports: an errno, or the bytes that it moved.
pub data Transfer (A : Type 0) : Type 0 where
  failed : ℕ → Transfer A
  moved : A → Transfer A

unfoldable pub read_fd : Buffer → Transfer Bytes → Result (Buffer × Transfer ℕ)
unfolding append writable_bytes copy_at write_bytes
read_fd b (failed errno) = ok (b, failed errno)
read_fd b (moved str) =
    if leb (length str) (writable_bytes b)
    then (do next ← write_bytes b str; ok (next, moved (length str)))
    else (do
      let writable = writable_bytes b
      buffer ← copy_at b.buffer b.write_pos (take writable str)
      next ← append (record b { buffer = buffer; write_pos = length buffer }) (drop writable str)
      ok (next, moved (length str)))

unfoldable pub write_fd : Buffer → Transfer ℕ → Buffer × Transfer ℕ
write_fd b (failed errno) = (b, failed errno)
write_fd b (moved len) = (record b { read_pos = add64 b.read_pos len }, moved len)

-- The bytes from Peek() up to BeginWrite().
abbrev pub contents : Buffer → Bytes
contents b = slice b.read_pos b.write_pos b.buffer

-- The positions are ordered and lie in the vector, which is no longer than a vector can be.
pub record IsValid (b : Buffer) : Type 0 where
  pub ordered : b.read_pos ≤ b.write_pos
  pub within : b.write_pos ≤ length b.buffer
  pub bounded : length b.buffer ≤ max_size
