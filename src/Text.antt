-- ===== src/Text.antt =====
-- Byte strings, as std::string and the C string functions treat them. A byte is a number below 256.
pub mod Search
pub mod Decimal
use Prim.Native.Char.{code}
use Prim.Native.String.{String}
use idc.Prelude.{
  ℕ, zero, suc, ◌+◌, ◌-◌, ◌*◌, ◌/◌, ◌%◌, Bool, true, false, not, ◌&&◌, ◌||◌, List, [], ◌∷◌, ◌++◌,
  Option, none, some, Result, ok, ◌>>◌, require, bad_position, if◌then◌else◌, ltb, leb, ◌==◌,
  length, take, drop, Bytes,
}

-- The bytes of an ASCII literal. `String` has its own `[]` and `∷`.
abbrev pub codes : String → Bytes
codes String.[] = []
codes (String.◌∷◌ c s) = code c ∷ codes s

-- operator== of std::string
unfoldable pub equal : Bytes → Bytes → Bool
equal [] [] = true
equal [] (y ∷ ys) = false
equal (x ∷ xs) [] = false
equal (x ∷ xs) (y ∷ ys) = x == y && equal xs ys

abbrev pub is_empty : Bytes → Bool
is_empty [] = true
is_empty (c ∷ cs) = false

-- Whether `c` occurs.
abbrev pub has : ℕ → Bytes → Bool
has c [] = false
has c (x ∷ xs) = x == c || has c xs

-- The text before the first `c`, and the text behind it.
unfoldable pub split_at : ℕ → Bytes → Option (Bytes × Bytes)
split_at c [] = none
split_at c (x ∷ xs) =
    let rest = split_at c xs in
    if x == c then some ([], xs) else elim rest [ none ↦ none | some (l, r) ↦ some (x ∷ l, r) ]

-- The text behind `prefix`, if `s` starts with it.
unfoldable pub strip_prefix : Bytes → Bytes → Option Bytes
strip_prefix [] s = some s
strip_prefix (p ∷ ps) [] = none
strip_prefix (p ∷ ps) (c ∷ cs) = if p == c then strip_prefix ps cs else none

-- std::search for "\r\n": the place of the first one, or the length.
unfoldable pub find_crlf : Bytes → ℕ
find_crlf [] = 0
find_crlf (c ∷ []) = 1
find_crlf (c ∷ d ∷ cs) = if c == b'\r' && d == b'\n' then 0 else suc (find_crlf (d ∷ cs))

-- std::string::substr
unfoldable pub substr : Bytes → ℕ → ℕ → Result Bytes
substr s pos n = require (leb pos (length s)) bad_position >> ok (take n (drop pos s))

-- std::unordered_map<std::string, std::string>: no code here depends on its order.
abbrev pub Dict : Type 0
Dict = List (Bytes × Bytes)

unfoldable pub lookup : Bytes → Dict → Option Bytes
unfolding equal
lookup k [] = none
lookup k ((j, v) ∷ m) = if equal j k then some v else lookup k m

-- m[k] = v
unfoldable pub assign : Bytes → Bytes → Dict → Dict
unfolding equal
assign k v [] = (k, v) ∷ []
assign k v ((j, w) ∷ m) = if equal j k then (j, v) ∷ m else (j, w) ∷ assign k v m

-- count(k) == 1
unfoldable pub contains : Bytes → Dict → Bool
unfolding lookup
contains k m = elim (lookup k m) [ none ↦ false | some v ↦ true ]

-- m[k] as a value: a missing key is inserted with the empty string.
unfoldable pub subscript : Bytes → Dict → Bytes × Dict
unfolding lookup assign
subscript k m = elim (lookup k m) [ none ↦ ([], assign k [] m) | some v ↦ (v, m) ]

-- std::string::find_last_of, for one character.
unfoldable pub find_last_of : ℕ → Bytes → Option ℕ
find_last_of c [] = none
find_last_of c (x ∷ xs) = elim (find_last_of c xs) [
  | none ↦ if x == c then some 0 else none
  | some k ↦ some (suc k)
]

-- The C string at data(): it ends at the first null character.
unfoldable pub c_string : Bytes → Bytes
c_string [] = []
c_string (c ∷ cs) = if c == 0 then [] else c ∷ c_string cs
