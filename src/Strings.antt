-- ===== src/Strings.antt =====
-- The string functions of src/_public.cpp, on character arrays. An array is the memory of the object
-- that a pointer points to, from there on; an access outside it is a fault. A C string that is only
-- read is the bytes in front of its null character, and `none` is a null pointer.
pub mod Copies
pub mod Joined
pub mod Trimmed
pub mod Fields
pub mod Picked
pub mod Xml
pub mod Match
use idc.Prelude.{
  Bytes, ℕ, zero, suc, ◌+◌, ◌-◌, ◌%◌, ◌^◌, Bool, true, false, not, ◌&&◌, ◌||◌, [], ◌∷◌, ◌++◌,
  Option, none, some, Result, ok, fault, ◌>>=◌, ◌>>◌, require, out_of_range, if◌then◌else◌, ltb,
  leb, ◌==◌, length, take, drop, set, get_or, replicate, sub64,
}
use idc.Text.{c_string}
use idc.Buffer.{copy_at}

-- strlen of an array
unfoldable pub strlen : Bytes → Result ℕ
strlen [] = fault out_of_range
strlen (c ∷ cs) = elim (c == 0) [ true ↦ ok 0 | false ↦ strlen cs >>= λ n. ok (suc n) ]

-- memset(dest, 0, n), strcpy, strncpy, strcat and strncat
unfoldable pub clear : Bytes → ℕ → Result Bytes
unfolding copy_at
clear dest n = copy_at dest 0 (replicate n 0)

unfoldable pub strcpy : Bytes → Bytes → Result Bytes
unfolding copy_at
strcpy dest src = copy_at dest 0 (src ++ (0 ∷ []))

unfoldable pub strncpy : Bytes → Bytes → ℕ → Result Bytes
unfolding copy_at
strncpy dest src n = copy_at dest 0 (take n src ++ replicate (n - length src) 0)

unfoldable pub strncat : Bytes → Bytes → ℕ → Result Bytes
unfolding copy_at strlen
strncat dest src n = do len ← strlen dest; copy_at dest len (take n src ++ (0 ∷ []))

unfoldable pub strcat : Bytes → Bytes → Result Bytes
unfolding copy_at strlen
strcat dest src = do len ← strlen dest; copy_at dest len (src ++ (0 ∷ []))

-- STRCPY, whose result is the array, or null.
unfoldable pub safe_strcpy : Option Bytes → ℕ → Option Bytes → Result (Option Bytes)
unfolding clear strcpy strncpy
safe_strcpy none destlen src = ok none
safe_strcpy (some dest) destlen none = do cleared ← clear dest destlen; ok (some cleared)
safe_strcpy (some dest) destlen (some src) = do
  cleared ← clear dest destlen
  copied ←
      if ltb (sub64 destlen 1) (length src)
      then strncpy cleared src (sub64 destlen 1)
      else strcpy cleared src
  ok (some copied)

-- STRNCPY
unfoldable pub safe_strncpy : Option Bytes → ℕ → Option Bytes → ℕ → Result (Option Bytes)
unfolding clear strncpy
safe_strncpy none destlen src n = ok none
safe_strncpy (some dest) destlen none n = do cleared ← clear dest destlen; ok (some cleared)
safe_strncpy (some dest) destlen (some src) n = do
  cleared ← clear dest destlen
  copied ←
      if ltb (sub64 destlen 1) n
      then strncpy cleared src (sub64 destlen 1)
      else strncpy cleared src n
  ok (some copied)

-- STRCAT; `left` is an unsigned int.
unfoldable pub safe_strcat : Option Bytes → ℕ → Option Bytes → Result (Option Bytes)
unfolding strlen strcat strncat copy_at
safe_strcat none destlen src = ok none
safe_strcat (some dest) destlen none = ok (some dest)
safe_strcat (some dest) destlen (some src) = do
  len ← strlen dest
  let left = sub64 (sub64 destlen 1) len % 2 ^ 32
  joined ←
      if ltb left (length src)
      then (strncat dest src left >>= λ cut. copy_at cut (sub64 destlen 1) (0 ∷ []))
      else strcat dest src
  ok (some joined)

-- STRNCAT; `left` is a size_t.
unfoldable pub safe_strncat : Option Bytes → ℕ → Option Bytes → ℕ → Result (Option Bytes)
unfolding strlen strncat copy_at
safe_strncat none destlen src n = ok none
safe_strncat (some dest) destlen none n = ok (some dest)
safe_strncat (some dest) destlen (some src) n = do
  len ← strlen dest
  let left = sub64 (sub64 destlen 1) len
  joined ←
      if ltb left n
      then (strncat dest src left >>= λ cut. copy_at cut (sub64 destlen 1) (0 ∷ []))
      else strncat dest src n
  ok (some joined)

-- The loop of DeleteLChar over its copy of the string.
unfoldable pub count_leading : Bytes → ℕ → Result ℕ
count_leading [] chr = fault out_of_range
count_leading (c ∷ cs) chr = elim (c == chr) [
  | true ↦ count_leading cs chr >>= λ n. ok (suc n)
  | false ↦ ok 0
]

unfoldable pub delete_l_char : Bytes → ℕ → Result Bytes
unfolding strlen count_leading clear strcpy
delete_l_char str chr = do
  len ← strlen str
  if len == 0 then ok str else (do
    n ← count_leading (take (suc len) str) chr
    cleared ← clear str (len + 1)
    strcpy cleared (drop n (take len str)))

-- The loop of DeleteRChar, at `istrlen`.
unfoldable pub trim_end : ℕ → Bytes → ℕ → Bytes
trim_end zero str chr = str
trim_end (suc n) str chr = elim (get_or str n 0 == chr) [
  | true ↦ trim_end n (set str n 0) chr
  | false ↦ str
]

unfoldable pub delete_r_char : Bytes → ℕ → Result Bytes
unfolding strlen trim_end
delete_r_char str chr = do len ← strlen str; ok (trim_end len str chr)

unfoldable pub delete_lr_char : Bytes → ℕ → Result Bytes
unfolding delete_l_char delete_r_char
delete_lr_char str chr = delete_l_char str chr >>= λ left. delete_r_char left chr

-- The loops of ToUpper and ToLower over the first `n` places.
unfoldable pub upper_loop : ℕ → Bytes → Bytes
upper_loop zero str = str
upper_loop (suc n) [] = []
upper_loop (suc n) (c ∷ cs) = (if leb b'a' c && leb c b'z' then c - 32 else c) ∷ upper_loop n cs

unfoldable pub to_upper : Bytes → Result Bytes
unfolding strlen upper_loop
to_upper str = do len ← strlen str; ok (upper_loop len str)

unfoldable pub lower_loop : ℕ → Bytes → Bytes
lower_loop zero str = str
lower_loop (suc n) [] = []
lower_loop (suc n) (c ∷ cs) = (if leb b'A' c && leb c b'Z' then c + 32 else c) ∷ lower_loop n cs

unfoldable pub to_lower : Bytes → Result Bytes
unfolding strlen lower_loop
to_lower str = do len ← strlen str; ok (lower_loop len str)

-- The tests in the loop of PickNumber.
unfoldable pub is_picked : Bool → Bool → ℕ → Bool
is_picked bsigned bdot c =
    (bsigned && c == b'+')
    || ((bsigned && c == b'-') || ((bdot && c == b'.') || (leb b'0' c && leb c b'9')))

-- The loop of PickNumber, which writes to `dest` from place `pos` on, and the null behind it.
unfoldable pub pick_loop : Bool → Bool → Bytes → Bytes → ℕ → Result Bytes
unfolding copy_at is_picked
pick_loop bsigned bdot [] dest pos = copy_at dest pos (0 ∷ [])
pick_loop bsigned bdot (c ∷ cs) dest pos = elim (is_picked bsigned bdot c) [
  | true ↦ copy_at dest pos (c ∷ []) >>= λ next. pick_loop bsigned bdot cs next (pos + 1)
  | false ↦ pick_loop bsigned bdot cs dest pos
]

unfoldable pub pick_number : Option Bytes → Option Bytes → Bool → Bool → Result (Option Bytes)
unfolding strcpy delete_lr_char pick_loop c_string
pick_number src none bsigned bdot = ok none
pick_number none (some dest) bsigned bdot = do emptied ← strcpy dest []; ok (some emptied)
pick_number (some src) (some dest) bsigned bdot = do
  temp ← strcpy (replicate (length src + 1) 0) src
  trimmed ← delete_lr_char temp b' '
  picked ← pick_loop bsigned bdot (c_string trimmed) dest 0
  ok (some picked)
