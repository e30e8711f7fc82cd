-- ===== src/Strings/Xml.antt =====
-- The readers of fields in src/_public.cpp: GetXMLBuffer, which finds a value between two tags, and
-- GetValue of CCmdStr. atoi, atol and atof are arguments.
pub mod Tags
pub mod Stored
pub mod Tagged
use idc.Prelude.{
  Bytes, ℕ, zero, suc, ◌+◌, ◌-◌, Bool, true, false, not, ◌&&◌, ◌||◌, List, [], ◌∷◌, ◌++◌, Option,
  none, some, Result, ok, fault, ◌>>=◌, ◌>>◌, require, out_of_range, if◌then◌else◌, ltb, leb, ◌==◌,
  length, take, drop, get_elem?, replicate, ℤ, pos, negsuc,
}
use idc.Text.{codes, equal, c_string}
use idc.Buffer.{copy_at}
use idc.Strings.{clear, strcpy, strncpy, strlen, delete_lr_char, to_upper}
use idc.Strings.Fields.{find}

-- SNPRINTF of "<%s>" and "</%s>" into arrays of 51 bytes, with n = 50: the first 49 bytes remain.
unfoldable pub open_tag : Bytes → Bytes
open_tag fieldname = take 49 (b'<' ∷ (fieldname ++ (b'>' ∷ [])))

unfoldable pub close_tag : Bytes → Bytes
close_tag fieldname = take 49 (b'<' ∷ b'/' ∷ (fieldname ++ (b'>' ∷ [])))

-- The two calls of strstr: what stands behind the place of the first tag, and the distance of the
-- second.
unfoldable pub find_pair : Bytes → Bytes → Bytes → Option (Bytes × ℕ)
unfolding find
find_pair s_field_name e_field_name xmlbuffer = elim (find s_field_name xmlbuffer) [
  | none ↦ none
  | some at ↦ elim (find e_field_name (drop at xmlbuffer)) [
    | none ↦ none
    | some distance ↦ some (drop at xmlbuffer, distance)
  ]
]

unfoldable pub find_tags : Bytes → Bytes → Option (Bytes × ℕ)
unfolding find_pair open_tag close_tag
find_tags xmlbuffer fieldname = find_pair (open_tag fieldname) (close_tag fieldname) xmlbuffer

-- What is copied to `value`: m_ValueLen bytes, or as many as `ilen` admits, and a null character. A
-- negative number of bytes is a size beyond every array.
unfoldable pub store_value : Bytes → Bytes → ℕ → ℤ → Result Bytes
unfolding strncpy copy_at
store_value value src value_len (negsuc n) = fault out_of_range
store_value value src value_len (pos ilen) =
    let n = if leb value_len ilen || ilen == 0 then value_len else ilen in
    strncpy value src n >>= λ copied. copy_at copied n (0 ∷ [])

-- `if (ilen>0) memset(value,0,ilen+1)`
unfoldable pub clear_value : Bytes → ℤ → Result Bytes
unfolding clear
clear_value value (negsuc n) = ok value
clear_value value (pos zero) = ok value
clear_value value (pos (suc n)) = clear value (suc n + 1)

-- The end of GetXMLBuffer, with the tags found. A second tag that begins inside the first one makes
-- m_ValueLen negative.
unfoldable pub copy_found : Bytes → Bytes → Bytes × ℕ → ℤ → Result (Bool × Option Bytes)
unfolding store_value delete_lr_char
copy_found cleared fieldname (start, distance) ilen =
    let skipped = length fieldname + 2 in
    require (leb skipped distance) out_of_range
    >> store_value cleared (drop skipped start) (distance - skipped) ilen
    >>= λ stored. delete_lr_char stored b' ' >>= λ trimmed. ok (true, some trimmed)

-- GetXMLBuffer of a string
unfoldable pub get_xml_buffer : Bytes → Bytes → Option Bytes → ℤ → Result (Bool × Option Bytes)
unfolding clear_value find_tags copy_found
get_xml_buffer xmlbuffer fieldname none ilen = ok (false, none)
get_xml_buffer xmlbuffer fieldname (some value) ilen = clear_value value ilen >>= λ cleared.
    elim (find_tags xmlbuffer fieldname) [
      | none ↦ ok (false, some cleared)
      | some found ↦ copy_found cleared fieldname found ilen
    ]

abbrev pub text_of : Option Bytes → Bytes
text_of none = []
text_of (some array) = c_string array

-- GetXMLBuffer of a bool: whether the value is "TRUE" in any case. The result and `value` are the same.
unfoldable pub get_xml_bool : Bytes → Bytes → Result Bool
unfolding get_xml_buffer to_upper equal c_string
get_xml_bool xmlbuffer fieldname =
    get_xml_buffer xmlbuffer fieldname (some (replicate 51 0)) (pos 10) >>= λ (success, value).
    if success
    then (elim value [
      | none ↦ ok false
      | some array ↦ to_upper array >>= λ upper. ok (equal (c_string upper) (codes "TRUE"))
    ])
    else ok false

-- GetXMLBuffer of a number, which `convert` reads.
unfoldable pub get_xml_number : (Bytes → ℤ) → Bytes → Bytes → Result (Bool × ℤ)
unfolding get_xml_buffer c_string
get_xml_number convert xmlbuffer fieldname =
    get_xml_buffer xmlbuffer fieldname (some (replicate 51 0)) (pos 50) >>= λ (success, value).
    ok (if success then (true, convert (text_of value)) else (false, pos 0))

-- m_vCmdStr[inum]: a number below zero is out of range.
unfoldable pub field_at : List Bytes → ℤ → Option (Result Bytes)
field_at fields (negsuc n) = some (fault out_of_range)
field_at fields (pos n) = elim (get_elem? fields n) [ none ↦ none | some field ↦ some (ok field) ]

-- GetValue of a string. An `ilen` below zero is a huge length when it is compared.
unfoldable pub get_value : List Bytes → ℤ → Option Bytes → ℤ → Result (Bool × Option Bytes)
unfolding field_at clear_value strcpy strncpy copy_at c_string
get_value fields inum none ilen = ok (false, none)
get_value fields inum (some value) ilen = elim (field_at fields inum) [
  | none ↦ ok (false, some value)
  | some found ↦ clear_value value ilen >>= λ cleared. found >>= λ field. elim ilen [
    | negsuc n ↦ strcpy cleared (c_string field) >>= λ copied. ok (true, some copied)
    | pos n ↦
        if leb (length field) n || n == 0
        then (strcpy cleared (c_string field) >>= λ copied. ok (true, some copied))
        else strncpy cleared (c_string field) n >>= λ copied.
            copy_at copied n (0 ∷ []) >>= λ closed. ok (true, some closed)
  ]
]

-- GetValue of a number, which `convert` reads.
unfoldable pub get_value_number : (Bytes → ℤ) → List Bytes → ℤ → Result (Bool × ℤ)
unfolding field_at c_string
get_value_number convert fields inum = elim (field_at fields inum) [
  | none ↦ ok (false, pos 0)
  | some found ↦ found >>= λ field. ok (true, convert (c_string field))
]

-- GetValue of a bool
unfoldable pub get_value_bool : List Bytes → ℤ → Result (Bool × Bool)
unfolding field_at strncpy to_upper equal c_string
get_value_bool fields inum = elim (field_at fields inum) [
  | none ↦ ok (false, false)
  | some found ↦ found >>= λ field. strncpy (replicate 11 0) (c_string field) 10 >>= λ copied.
      to_upper copied >>= λ upper. ok (true, equal (c_string upper) (codes "TRUE"))
]
