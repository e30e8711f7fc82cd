-- ===== src/Strings/Copies.antt =====
-- STRCPY and STRCAT of src/_public.cpp: what the array holds afterwards.
use idc.Prelude.{
  Bytes, ℕ, zero, suc, ◌+◌, ◌-◌, ◌^◌, ◌≤◌, ◌<◌, ◌≡◌, sym, ap, ◌∙◌, inl, inr, [], ◌∷◌, ◌++◌,
  append_assoc, append-nil, Option, some, Result, ok, ◌>>=◌, arith, tests, ltb, le→leb, Bool-cases,
  length, length-append, length-replicate, length-take, take, drop, take-all, drop-append_left,
  replicate, sub64,
}
use idc.Buffer.{copy_at}
use idc.Strings.{clear, strcpy, strncpy, safe_strcpy}

-- A text, with null characters up to `n` places.
abbrev pub padded : Bytes → ℕ → Bytes
padded text n = text ++ replicate (n - length text) 0

pub drop-replicate : (k n a : ℕ) → drop k (replicate n a) ≡ replicate (n - k) a
drop-replicate zero n a = ap (λ m. replicate m a) (omega arith)
drop-replicate (suc k) zero a = ap (λ m. replicate m a) {x = 0} (omega arith)
drop-replicate (suc k) (suc n) a = drop-replicate k n a ∙ ap (λ m. replicate m a) (omega arith)

write_start :
    (dest str : Bytes)
    → length str ≤ length dest
    → copy_at dest 0 str ≡ ok (str ++ drop (length str) dest)
unfolding copy_at
write_start dest str h =
    rw (le→leb (0 + length str) (length dest) (omega arith), copy_at)
      (ap {B = Result Bytes} (λ n. ok (str ++ drop n dest)) (omega arith))

-- `head` is written over the start of a cleared array.
over_cleared :
    (head tail : Bytes) (n : ℕ)
    → length head ≤ n
    → copy_at (replicate n 0 ++ tail) 0 head ≡ ok (padded head n ++ tail)
over_cleared head tail n h =
    let k = length-replicate {A = ℕ} n 0 in
    write_start (replicate n 0 ++ tail) head
      (omega (arith, k, length-append (replicate {A = ℕ} n 0) tail))
    ∙ ap {B = Result Bytes} (λ t. ok (head ++ t))
        (drop-append_left (replicate n 0) tail (length head) (omega (arith, k))
          ∙ ap (λ t. t ++ tail) (drop-replicate (length head) n 0))
    ∙ ap {B = Result Bytes} (λ t. ok t)
        (sym (append_assoc head (replicate (n - length head) 0) tail))

pub clear_eq :
    (dest : Bytes) (n : ℕ) → n ≤ length dest → clear dest n ≡ ok (replicate n 0 ++ drop n dest)
unfolding clear
clear_eq dest n h =
    let k = length-replicate {A = ℕ} n 0 in
    write_start dest (replicate n 0) (omega (arith, k))
    ∙ ap {B = Result Bytes} (λ m. ok (replicate n 0 ++ drop m dest)) k

pub strcpy-padded :
    (src tail : Bytes) (n : ℕ)
    → length src < n
    → strcpy (replicate n 0 ++ tail) src ≡ ok (padded src n ++ tail)
unfolding strcpy
strcpy-padded src tail n h =
    let len = length-append src (0 ∷ []) in
    over_cleared (src ++ (0 ∷ [])) tail n (omega (arith, len))
    ∙ ap {B = Result Bytes} (λ t. ok (t ++ tail))
        (append_assoc src (0 ∷ []) (replicate (n - length (src ++ (0 ∷ []))) 0)
          ∙ ap (λ m. src ++ replicate m 0) {x = suc (n - length (src ++ (0 ∷ [])))}
              {y = n - length src} (omega (arith, len)))

strncpy-padded :
    (src tail : Bytes) (n : ℕ)
    → n ≤ length src
    → strncpy (replicate (suc n) 0 ++ tail) src n ≡ ok (padded (take n src) (suc n) ++ tail)
unfolding strncpy
strncpy-padded src tail n h =
    ap (λ t. copy_at (replicate (suc n) 0 ++ tail) 0 t)
      (ap (λ m. take n src ++ replicate m 0) {y = 0} (omega arith) ∙ append-nil (take n src))
    ∙ over_cleared (take n src) tail (suc n) (omega (arith, length-take n src))

-- For an array of at least `destlen` places, one at least, STRCPY stores the first destlen - 1 bytes of
-- the source, fills the places up to destlen with null characters, and changes no place behind them.
pub safe_strcpy_lem :
    (dest src : Bytes) (destlen : ℕ)
    → 0 < destlen
    → destlen < 2 ^ 64
    → destlen ≤ length dest
    → safe_strcpy (some dest) destlen (some src)
      ≡ ok (some (padded (take (destlen - 1) src) destlen ++ drop destlen dest))
unfolding safe_strcpy
safe_strcpy_lem dest src zero p b h = absurd (omega arith)
safe_strcpy_lem dest src (suc n) p b h =
    let last : sub64 (suc n) 1 ≡ n = omega arith in
    let less : suc n - 1 ≡ n = omega arith in
    let cleared = clear_eq dest (suc n) h in
    elim (Bool-cases (ltb n (length src))) [
      | inl long ↦
          rw (cleared, last, long, less, safe_strcpy)
            (ap {B = Result (Option Bytes)} (λ t. t >>= λ x. ok (some x))
              (strncpy-padded src (drop (suc n) dest) n (omega (tests, long))))
      | inr short ↦
          rw (cleared, last, short, less, safe_strcpy)
            (ap {B = Result (Option Bytes)} (λ t. t >>= λ x. ok (some x))
                (strcpy-padded src (drop (suc n) dest) (suc n) (ground arith))
              ∙ ap {B = Result (Option Bytes)}
                  (λ t. ok (some (padded t (suc n) ++ drop (suc n) dest)))
                  (sym (take-all n src (ground arith))))
    ]
