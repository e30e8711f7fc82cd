-- ===== src/Strings/Trimmed.antt =====
-- DeleteLChar of src/_public.cpp, and the letters of ToUpper: what the array holds afterwards.
use idc.Prelude.{
  Bytes, ℕ, suc, ◌+◌, ◌-◌, ◌≤◌, ◌<◌, ◌≡◌, refl, sym, ap, ◌∙◌, inl, inr, false, [], ◌∷◌, ◌++◌,
  append_assoc, Result, ok, arith, if◌then◌else◌, ◌==◌, Bool-cases, bind_ok, length, length-append,
  length-drop, take, drop, take-all, take-append_left, take-append_right, drop-append_right,
  replicate,
}
use idc.Text.{has}
use idc.Strings.{clear, strcpy, count_leading, delete_l_char}
use idc.Strings.Copies.{padded, clear_eq, strcpy-padded}
use idc.Strings.Joined.{in_array, strlen-in_array}

-- The text without the leading characters `chr`.
abbrev pub strip_left : ℕ → Bytes → Bytes
strip_left chr [] = []
strip_left chr (c ∷ cs) = if c == chr then strip_left chr cs else c ∷ cs

-- The loop stops at the null character at the latest.
leading :
    (text : Bytes) (chr : ℕ)
    → 0 < chr
    → (n : ℕ) × (count_leading (text ++ (0 ∷ [])) chr ≡ ok n)
      × (n ≤ length text)
      × (drop n text ≡ strip_left chr text)
unfolding count_leading
leading [] chr h = (0, ground arith, omega arith, refl)
leading (c ∷ cs) chr h = elim (Bool-cases (c == chr)) [
  | inr other ↦ (0, rw (other, count_leading) refl, omega arith, rw other refl)
  | inl same ↦
      let (n, e, le, d) = leading cs chr h in
      (suc n, rw (same, e, count_leading) refl, omega arith, rw same d)
]

-- For a C string in an array, and a character that is not null, DeleteLChar leaves the string without
-- its leading characters of that kind, null characters up to where it ended, and the places behind
-- that as they were.
pub delete_l_char_lem :
    (text rest : Bytes) (chr : ℕ)
    → has 0 text ≡ false
    → 0 < chr
    → let left = strip_left chr text in
      delete_l_char (in_array text rest) chr
      ≡ ok (in_array left (replicate (length text - length left) 0 ++ rest))
unfolding delete_l_char
delete_l_char_lem [] rest chr no_null h =
    ap {B = Result Bytes} (λ m. ok (0 ∷ (replicate m 0 ++ rest))) {x = 0} {y = 0 - 0} (omega arith)
delete_l_char_lem (c ∷ cs) rest chr no_null h =
    let text = c ∷ cs in
    let (n, e, le, d) = leading text chr h in
    let left = strip_left chr text in
    let array = in_array text rest in
    let len : length left ≡ length text - n = sym (ap length d) ∙ length-drop n text in
    let copy : take (suc (length text)) array ≡ text ++ (0 ∷ []) =
      take-append_right text (0 ∷ rest) (suc (length text)) 1 (omega arith) in
    let start : take (length text) array ≡ text =
      take-append_left text (0 ∷ rest) (length text) (omega arith)
      ∙ take-all (length text) text (omega arith) in
    let cleared : clear array (length text + 1) ≡ ok (replicate (length text + 1) 0 ++ rest) =
      clear_eq array (length text + 1) (omega (arith, length-append text (0 ∷ rest)))
      ∙ ap {B = Result Bytes} (λ t. ok (replicate (length text + 1) 0 ++ t))
          (drop-append_right text (0 ∷ rest) (length text + 1) 1 (omega arith)) in
    let stored : strcpy (replicate (length text + 1) 0 ++ rest) left
        ≡ ok (padded left (length text + 1) ++ rest) =
      strcpy-padded left rest (length text + 1) (omega (arith, len)) in
    let some_left : (length text == 0) ≡ false = ground arith in
    bind_ok _ (strlen-in_array text rest no_null)
    ∙ rw (some_left, delete_l_char)
        (bind_ok _ (ap (λ t. count_leading t chr) copy ∙ e)
          ∙ bind_ok _ cleared
          ∙ ap (strcpy (replicate (length text + 1) 0 ++ rest)) (ap (drop n) start ∙ d)
          ∙ stored
          ∙ ap {B = Result Bytes} (λ t. ok t)
              (append_assoc left (replicate (length text + 1 - length left) 0) rest
                ∙ ap (λ m. left ++ (replicate m 0 ++ rest)) {y = suc (length text - length left)}
                    (omega (arith, len))))
