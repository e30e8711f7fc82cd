-- ===== src/Tests/StringRuns.antt =====
-- Runs of the string functions of src/_public.cpp.
use idc.Prelude.{Returns, false, Bytes, refl, true, false, [], ◌∷◌, some, ok, arith, ◌≡◌, pos}
use idc.Text.{codes}
use idc.Strings.{safe_strcpy, safe_strcat, delete_lr_char, pick_number, to_upper}
use idc.Strings.Copies.{safe_strcpy_lem}
use idc.Strings.Joined.{safe_strcat_lem}
use idc.Strings.Fields.{split_to_cmd}
use idc.Strings.Fields.Split.{Splits, split_to_cmd-Splits}
use idc.Strings.Xml.{get_xml_buffer, get_xml_bool}
use idc.Strings.Xml.Tagged.{get_xml_buffer-xml_text}

-- Six places that hold "ab".
abbrev array : Bytes
array = b'a' ∷ b'b' ∷ 0 ∷ b'x' ∷ b'y' ∷ b'z' ∷ []

safe_strcpy_lem_example :
    safe_strcpy (some array) 4 (some (codes "hello"))
    ≡ ok (some (b'h' ∷ b'e' ∷ b'l' ∷ 0 ∷ b'y' ∷ b'z' ∷ []))
safe_strcpy_lem_example =
    safe_strcpy_lem array (codes "hello") 4 (omega arith) (omega arith) (omega arith)

safe_strcat_lem_example :
    safe_strcat (some array) 5 (some (codes "cdef"))
    ≡ ok (some (b'a' ∷ b'b' ∷ b'c' ∷ b'd' ∷ 0 ∷ b'z' ∷ []))
safe_strcat_lem_example =
    safe_strcat_lem (codes "ab") (b'x' ∷ b'y' ∷ b'z' ∷ []) (codes "cdef") 5 refl (omega arith)
      (omega arith) (omega arith)

trimmed : delete_lr_char (b' ' ∷ b'a' ∷ b' ' ∷ 0 ∷ []) b' ' ≡ ok (b'a' ∷ 0 ∷ 0 ∷ 0 ∷ [])
unfolding delete_lr_char
trimmed = refl

picked :
    pick_number (some (codes " a-1.5b ")) (some array) true true
    ≡ ok (some (b'-' ∷ b'1' ∷ b'.' ∷ b'5' ∷ 0 ∷ b'z' ∷ []))
unfolding pick_number
picked = refl

raised : to_upper array ≡ ok (b'A' ∷ b'B' ∷ 0 ∷ b'x' ∷ b'y' ∷ b'z' ∷ [])
unfolding to_upper
raised = refl

split_to_cmd-Splits_example :
    Returns (split_to_cmd (codes "a,b,,c") (codes ",") false) (Splits (codes ",") (codes "a,b,,c"))
split_to_cmd-Splits_example = split_to_cmd-Splits (codes "a,b,,c") (codes ",") refl

fields : split_to_cmd (codes "a~!~ b ~!~") (codes "~!~") true ≡ ok (codes "a" ∷ codes "b" ∷ [] ∷ [])
unfolding split_to_cmd
fields = refl

get_xml_buffer-xml_text_example :
    get_xml_buffer (codes "<id>x1</id>...") (codes "id") (some array) (pos 4)
    ≡ ok (true, some (b'x' ∷ b'1' ∷ 0 ∷ 0 ∷ 0 ∷ b'z' ∷ []))
get_xml_buffer-xml_text_example =
    get_xml_buffer-xml_text [] (codes "id") (codes "x1") (codes "...") array 4
      (omega arith, refl, refl, refl) refl refl refl refl refl (omega arith) (omega arith) refl

is_true : get_xml_bool (codes "<ok> true </ok>") (codes "ok") ≡ ok true
unfolding get_xml_bool
is_true = refl
