-- ===== src/Strings/Joined.antt =====
-- STRCAT of src/_public.cpp: what the array holds afterwards.
use idc.Prelude.{
  Bytes, ℕ, suc, ◌+◌, ◌-◌, ◌%◌, ◌^◌, ◌≤◌, ◌<◌, ◌≡◌, refl, sym, ap, ap₂, ◌∙◌, inl, inr, false, [],
  ◌∷◌, ◌++◌, append_assoc, Option, some, Result, ok, ◌>>=◌, arith, tests, ltb, ◌==◌, true, le→leb,
  Bool-cases, bind_ok, length, length-append, length-take, take, drop, take-all, drop-append_right,
  take-append_left, sub64,
}
use idc.Text.{has}
use idc.Buffer.{copy_at}
use idc.Strings.{strlen, strncat, strcat, safe_strcat}

-- A C string `text` in an array, with `rest` behind its null character.
abbrev pub in_array : Bytes → Bytes → Bytes
in_array text rest = text ++ (0 ∷ rest)

pub strlen-in_array :
    (text rest : Bytes) → has 0 text ≡ false → strlen (in_array text rest) ≡ ok (length text)
unfolding strlen
strlen-in_array [] rest h = refl
strlen-in_array (c ∷ cs) rest h = elim (Bool-cases (c == 0)) [
  | inl null ↦ absurd (cc (rw null at h))
  | inr other ↦ rw (other, strlen-in_array cs rest (rw other at h), strlen) refl
]

-- Bytes are written behind `text`.
pub write_behind :
    (text tail str : Bytes) (pos : ℕ)
    → pos ≡ length text
    → length str ≤ length tail
    → copy_at (text ++ tail) pos str ≡ ok (text ++ (str ++ drop (length str) tail))
unfolding copy_at
write_behind text tail str pos p h =
    let len = length-append text tail in
    rw (le→leb (pos + length str) (length (text ++ tail)) (omega (arith, len)), copy_at)
      (ap₂ {C = Result Bytes} (λ a b. ok (a ++ (str ++ b)))
        (take-append_left text tail pos (omega arith) ∙ take-all pos text (omega arith))
        (drop-append_right text tail (pos + length str) (length str) (omega arith)))

strncat-in_array :
    (text rest src : Bytes) (n : ℕ)
    → has 0 text ≡ false
    → n ≤ length src
    → n ≤ length rest
    → strncat (in_array text rest) src n ≡ ok (in_array (text ++ take n src) (drop n rest))
unfolding strncat
strncat-in_array text rest src n no_null h k =
    let taken = length-take n src in
    let len = length-append (take n src) (0 ∷ []) in
    rw (strlen-in_array text rest no_null, strncat)
      (write_behind text (0 ∷ rest) (take n src ++ (0 ∷ [])) (length text) refl
          (omega (arith, taken, len))
        ∙ ap {B = Result Bytes} (λ t. ok (text ++ t))
            (append_assoc (take n src) (0 ∷ []) (drop (length (take n src ++ (0 ∷ []))) (0 ∷ rest))
              ∙ ap (λ m. take n src ++ (0 ∷ drop m (0 ∷ rest))) {y = suc n}
                  (omega (arith, taken, len)))
        ∙ ap {B = Result Bytes} (λ t. ok t)
            (sym (append_assoc text (take n src) (0 ∷ drop n rest))))

-- A null character is written where one stands.
write_null :
    (text rest : Bytes) (pos : ℕ)
    → pos ≡ length text
    → copy_at (in_array text rest) pos (0 ∷ []) ≡ ok (in_array text rest)
write_null text rest pos p = write_behind text (0 ∷ rest) (0 ∷ []) pos p (omega arith)

strcat-in_array :
    (text rest src : Bytes)
    → has 0 text ≡ false
    → length src ≤ length rest
    → strcat (in_array text rest) src ≡ ok (in_array (text ++ src) (drop (length src) rest))
unfolding strcat
strcat-in_array text rest src no_null k =
    let len = length-append src (0 ∷ []) in
    rw (strlen-in_array text rest no_null, strcat)
      (write_behind text (0 ∷ rest) (src ++ (0 ∷ [])) (length text) refl (omega (arith, len))
        ∙ ap {B = Result Bytes} (λ t. ok (text ++ t))
            (append_assoc src (0 ∷ []) (drop (length (src ++ (0 ∷ []))) (0 ∷ rest))
              ∙ ap (λ m. src ++ (0 ∷ drop m (0 ∷ rest))) {y = suc (length src)}
                  (omega (arith, len)))
        ∙ ap {B = Result Bytes} (λ t. ok t)
            (sym (append_assoc text src (0 ∷ drop (length src) rest))))

-- For a C string in an array of at least `destlen` places, in front of that place, and `destlen` below
-- 2 ^ 32, STRCAT leaves the string with as much of the source behind it as fits into destlen - 1 bytes,
-- its null character, and the places behind that as they were.
pub safe_strcat_lem :
    (text rest src : Bytes) (destlen : ℕ)
    → has 0 text ≡ false
    → length text < destlen
    → destlen < 2 ^ 32
    → destlen ≤ length (in_array text rest)
    → let added = take (destlen - 1 - length text) src in
      safe_strcat (some (in_array text rest)) destlen (some src)
      ≡ ok (some (in_array (text ++ added) (drop (length added) rest)))
unfolding safe_strcat
safe_strcat_lem text rest src destlen no_null p b h =
    let left = destlen - 1 - length text in
    let room : sub64 (sub64 destlen 1) (length text) % 2 ^ 32 ≡ left = omega arith in
    let fits : left ≤ length rest = omega (arith, length-append text (0 ∷ rest)) in
    bind_ok _ (strlen-in_array text rest no_null)
    ∙ rw (room, safe_strcat)
        (elim (Bool-cases (ltb left (length src))) [
          | inl long ↦
              let size = length-take left src in
              rw long (
                ap {B = Result (Option Bytes)}
                  (λ t. (t >>= λ cut. copy_at cut (sub64 destlen 1) (0 ∷ [])) >>= λ x. ok (some x))
                  (strncat-in_array text rest src left no_null (omega (tests, long)) fits)
                ∙ ap {B = Result (Option Bytes)} (λ t. t >>= λ x. ok (some x))
                    (write_null (text ++ take left src) (drop left rest) (sub64 destlen 1)
                      (omega (tests, long, size, length-append text (take left src))))
                ∙ ap {B = Result (Option Bytes)}
                    (λ m. ok (some (in_array (text ++ take left src) (drop m rest))))
                    (omega (tests, long, size)))
          | inr short ↦
              let all = take-all left src (ground arith) in
              rw short (
                ap {B = Result (Option Bytes)} (λ t. t >>= λ x. ok (some x))
                  (strcat-in_array text rest src no_null (ground arith))
                ∙ ap {B = Result (Option Bytes)}
                    (λ t. ok (some (in_array (text ++ t) (drop (length t) rest)))) (sym all))
        ])

-- The room in STRCAT is an unsigned int: at a `destlen` of 2 ^ 32 + 1 nothing is added to an empty string.
pub safe_strcat_wraps :
    (rest src : Bytes)
    → 2 ^ 32 ≤ length rest
    → ltb 0 (length src) ≡ true
    → safe_strcat (some (in_array [] rest)) (2 ^ 32 + 1) (some src)
      ≡ (copy_at (in_array [] rest) (2 ^ 32) (0 ∷ []) >>= λ joined. ok (some joined))
unfolding safe_strcat strlen
safe_strcat_wraps rest src room filled =
    let none_added : strncat (in_array [] rest) src 0 ≡ ok (in_array [] rest) =
      strncat-in_array [] rest src 0 refl (omega arith) (omega arith) in
    rw (filled, safe_strcat)
      (ap {B = Result (Option Bytes)}
        (λ t. (t >>= λ cut. copy_at cut (2 ^ 32) (0 ∷ [])) >>= λ x. ok (some x)) none_added)
