-- ===== src/Strings/Xml/Stored.antt =====
-- What GetXMLBuffer of src/_public.cpp stores of a value.
use idc.Prelude.{
  Bytes, ℕ, zero, suc, ◌+◌, ◌-◌, ◌<◌, ◌≡◌, refl, sym, ap, ap₂, ◌∙◌, true, false, [], ◌∷◌, ◌++◌,
  append-nil, some, Result, ok, bind_ok, arith, ◌==◌, ◌||◌, leb, le→leb, length, length-append,
  length-replicate, length-drop, take, drop, take-all, take-append_left, drop-append_right,
  drop-drop, replicate, get_or, pos,
}
use idc.Text.{has}
use idc.Strings.{strncpy, delete_r_char, trim_end, delete_lr_char}
use idc.Strings.Joined.{in_array, write_behind, strlen-in_array}
use idc.Strings.Copies.{clear_eq}
use idc.Strings.Trimmed.{strip_left, delete_l_char_lem}
use idc.Strings.Xml.{store_value, copy_found, clear_value}

get_or-append :
    (text rest : Bytes) (i d : ℕ) → i < length text → get_or (text ++ rest) i d ≡ get_or text i d
get_or-append [] rest i d h = absurd (omega arith)
get_or-append (c ∷ cs) rest zero d h = refl
get_or-append (c ∷ cs) rest (suc i) d h = get_or-append cs rest i d (omega arith)

trim_end_stays :
    (len : ℕ) (text rest : Bytes)
    → len ≡ length text
    → (get_or text (len - 1) 0 == b' ') ≡ false
    → trim_end len (in_array text rest) b' ' ≡ in_array text rest
unfolding trim_end
trim_end_stays zero text rest size last = refl
trim_end_stays (suc n) text rest size last =
    let before : suc n - 1 ≡ n = omega arith in
    let same : (get_or (in_array text rest) n 0 == b' ') ≡ false =
      ap (λ c. c == b' ') (get_or-append text (0 ∷ rest) n 0 (omega arith))
      ∙ ap (λ i. get_or text i 0 == b' ') (sym before)
      ∙ last in
    rw (same, trim_end) refl

delete_r_char_stays :
    (text rest : Bytes)
    → has 0 text ≡ false
    → (get_or text (length text - 1) 0 == b' ') ≡ false
    → delete_r_char (in_array text rest) b' ' ≡ ok (in_array text rest)
unfolding delete_r_char
delete_r_char_stays text rest no_null last =
    bind_ok _ (strlen-in_array text rest no_null)
    ∙ ap {B = Result Bytes} (λ t. ok t) (trim_end_stays (length text) text rest refl last)

-- Without blanks at either end, DeleteLRChar leaves a text as it is.
delete_lr_char_stays :
    (text rest : Bytes)
    → has 0 text ≡ false
    → strip_left b' ' text ≡ text
    → (get_or text (length text - 1) 0 == b' ') ≡ false
    → delete_lr_char (in_array text rest) b' ' ≡ ok (in_array text rest)
unfolding delete_lr_char
delete_lr_char_stays text rest no_null first last =
    bind_ok _ (delete_l_char_lem text rest b' ' no_null (omega arith))
    ∙ ap (λ t. delete_r_char t b' ') {y = in_array text rest}
        (ap (λ left. in_array left (replicate (length text - length left) 0 ++ rest)) first
          ∙ ap (λ n. in_array text (replicate n 0 ++ rest)) {y = 0} (omega arith))
    ∙ delete_r_char_stays text rest no_null last

-- A value with its null character is stored.
store_value_lem :
    (cleared value more : Bytes) (ilen : ℕ)
    → (leb (length value) ilen || ilen == 0) ≡ true
    → length value < length cleared
    → store_value cleared (value ++ more) (length value) (pos ilen)
      ≡ ok (in_array value (drop (suc (length value)) cleared))
unfolding store_value strncpy
store_value_lem cleared value more ilen fits room =
    let n = length value in
    let none' : n - length (value ++ more) ≡ 0 = omega (arith, length-append value more) in
    let str : take n (value ++ more) ++ replicate (n - length (value ++ more)) 0 ≡ value =
      ap₂ {C = Bytes} (λ a k. a ++ replicate k 0)
        (take-append_left value more n (omega arith) ∙ take-all n value (omega arith)) none'
      ∙ append-nil value in
    rw (fits, str, store_value, strncpy)
      (bind_ok _ (write_behind [] cleared value 0 refl (omega arith))
        ∙ write_behind value (drop n cleared) (0 ∷ []) n refl (omega (arith, length-drop n cleared))
        ∙ ap {B = Result Bytes} (λ t. ok (value ++ (0 ∷ t)))
            (drop-drop n 1 cleared ∙ ap (λ k. drop k cleared) {y = suc n} (omega arith)))

-- What the array holds in front of the copy.
abbrev pub cleared_array : Bytes → ℕ → Bytes
cleared_array array zero = array
cleared_array array (suc n) = replicate (suc n + 1) 0 ++ drop (suc n + 1) array

pub clear_value_lem :
    (array : Bytes) (ilen : ℕ)
    → ilen < length array
    → clear_value array (pos ilen) ≡ ok (cleared_array array ilen)
unfolding clear_value
clear_value_lem array zero h = refl
clear_value_lem array (suc n) h = clear_eq array (suc n + 1) (omega arith)

pub length-cleared_array :
    (array : Bytes) (ilen : ℕ)
    → ilen < length array
    → length (cleared_array array ilen) ≡ length array
length-cleared_array array zero h = refl
length-cleared_array array (suc n) h =
    length-append (replicate (suc n + 1) 0) (drop (suc n + 1) array)
    ∙ omega (arith, length-replicate {A = ℕ} (suc n + 1) 0, length-drop (suc n + 1) array)

pub copy_found_lem :
    (cleared name value more : Bytes) (ilen : ℕ)
    → has 0 value ≡ false
    → strip_left b' ' value ≡ value
    → (get_or value (length value - 1) 0 == b' ') ≡ false
    → length value < length cleared
    → (leb (length value) ilen || ilen == 0) ≡ true
    → copy_found cleared name
        (
          b'<' ∷ ((name ++ (b'>' ∷ [])) ++ (value ++ more)),
          suc (length ((name ++ (b'>' ∷ [])) ++ value)),
        )
        (pos ilen)
      ≡ ok (true, some (in_array value (drop (suc (length value)) cleared)))
unfolding copy_found
copy_found_lem cleared name value more ilen no_null first last room fits =
    let tail = name ++ (b'>' ∷ []) in
    let size : length tail ≡ length name + 1 = length-append name (b'>' ∷ []) in
    let whole : length (tail ++ value) ≡ length tail + length value = length-append tail value in
    let behind : drop (length name + 2) (b'<' ∷ (tail ++ (value ++ more))) ≡ value ++ more =
      drop-append_right (b'<' ∷ tail) (value ++ more) (length name + 2) 0 (omega (arith, size)) in
    let left : suc (length (tail ++ value)) - (length name + 2) ≡ length value =
      omega (arith, size, whole) in
    rw
      (
        le→leb (length name + 2) (suc (length (tail ++ value))) (omega (arith, size, whole)),
        behind,
        left,
        copy_found,
      )
      (bind_ok _ (store_value_lem cleared value more ilen fits room)
        ∙ bind_ok _
            (delete_lr_char_stays value (drop (suc (length value)) cleared) no_null first last))
