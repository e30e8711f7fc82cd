-- ===== src/Buffer/Writes.antt =====
-- Sequences of Append of src/buffer.cpp.
use idc.Prelude.{
  Bytes, ℕ, ◌+◌, ◌≤◌, ◌≡◌, ◌∙◌, ap, ◌++◌, append_assoc, Result, ◌>>=◌, Returns, Returns-bind,
  Returns-mono, arith, length, length-append,
}
use idc.Buffer.{Buffer, max_size, append, contents, IsValid}
use idc.Buffer.Space.{Extends, append-Extends}

-- What a buffer with `str` at its end is, after at most `n` calls of Append.
pub record Adds (b : Buffer) (str : Bytes) (n : ℕ) (b' : Buffer) : Type 0 where
  pub valid : IsValid b'
  pub holds : contents b' ≡ contents b ++ str
  pub growth : length b'.buffer ≤ length b.buffer + length str + n

-- The vector may grow by `str` in `n` calls.
abbrev pub Room : Buffer → Bytes → ℕ → Type 0
Room b str n = length b.buffer + length str + n ≤ max_size

pub append-Adds :
    (b : Buffer) (str : Bytes) → IsValid b → Room b str 1 → Returns (append b str) (Adds b str 1)
append-Adds b str v h =
    Returns-mono (append b str) (Extends b str) (Adds b str 1)
      (append-Extends b str v (omega (arith, v)))
      λ b' e. record { valid = e.valid; holds = e.holds; growth = e.growth }

-- Two writes after each other.
pub Adds-then :
    (b : Buffer) (s t : Bytes) (n k : ℕ) (m : Result Buffer) (f : Buffer → Result Buffer)
    → Room b (s ++ t) (n + k)
    → (Room b s n → Returns m (Adds b s n))
    → ((b' : Buffer) → IsValid b' → Room b' t k → Returns (f b') (Adds b' t k))
    → Returns (m >>= f) (Adds b (s ++ t) (n + k))
Adds-then b s t n k m f h first next =
    let len = length-append s t in
    Returns-bind m f (Adds b s n) (Adds b (s ++ t) (n + k)) (first (omega (arith, len))) λ b' a.
      Returns-mono (f b') (Adds b' t k) (Adds b (s ++ t) (n + k))
        (next b' a.valid (omega (arith, a, len)))
        λ b'' c. record {
          valid = c.valid;
          holds = c.holds ∙ ap (λ x. x ++ t) a.holds ∙ append_assoc (contents b) s t;
          growth = omega (arith, a, c, len);
        }

pub append-then :
    (b : Buffer) (s t : Bytes) (k : ℕ) (f : Buffer → Result Buffer)
    → IsValid b
    → Room b (s ++ t) (1 + k)
    → ((b' : Buffer) → IsValid b' → Room b' t k → Returns (f b') (Adds b' t k))
    → Returns (append b s >>= f) (Adds b (s ++ t) (1 + k))
append-then b s t k f v h next = Adds-then b s t 1 k (append b s) f h (append-Adds b s v) next
