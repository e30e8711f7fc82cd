-- ===== src/Strings/Xml/Tagged.antt =====
-- GetXMLBuffer of src/_public.cpp on a text with the tags of the field.
use idc.Prelude.{
  Bytes, ℕ, suc, ◌-◌, ◌<◌, ◌≡◌, refl, ap, ap₂, ◌∙◌, Bool, true, false, [], ◌∷◌, ◌++◌, Option, none,
  some, Result, ok, bind_ok, arith, ◌==◌, ◌||◌, leb, length, drop, get_or, pos,
}
use idc.Text.{has}
use idc.Text.Search.{has-append}
use idc.Strings.Joined.{in_array}
use idc.Strings.Trimmed.{strip_left}
use idc.Strings.Xml.{find_pair, copy_found, get_xml_buffer}
use idc.Strings.Xml.Tags.{tags_whole, starts_filled, find_pair_lem, IsName, xml_text}
use idc.Strings.Xml.Stored.{cleared_array, clear_value_lem, length-cleared_array, copy_found_lem}

-- For a value without '<', null characters or blanks at its ends, between the tags of a name of 1 to 46
-- bytes that has no '<' and does not start with '/', of which the first is the first '<' of the text,
-- GetXMLBuffer stores the value, with its null character, if the array has room for it and for the
-- ilen + 1 bytes that are cleared first, and `ilen` is zero or not less than the length of the value.
pub get_xml_buffer-xml_text :
    (before name value after array : Bytes) (ilen : ℕ)
    → IsName name
    → has b'<' before ≡ false
    → has b'<' value ≡ false
    → has 0 value ≡ false
    → strip_left b' ' value ≡ value
    → (get_or value (length value - 1) 0 == b' ') ≡ false
    → length value < length array
    → ilen < length array
    → (leb (length value) ilen || ilen == 0) ≡ true
    → get_xml_buffer (xml_text before name value after) name (some array) (pos ilen)
      ≡ ok (true, some (in_array value (drop (suc (length value)) (cleared_array array ilen))))
unfolding get_xml_buffer
get_xml_buffer-xml_text before name value after array ilen is_name clean clean' no_null first last
      room room' fits =
    let cleared = cleared_array array ilen in
    let (short, filled, slash, plain) = is_name in
    let tail = name ++ (b'>' ∷ []) in
    let (opened, closed) = tags_whole name short in
    let found =
      ap₂ {C = Option (Bytes × ℕ)} (λ o c. find_pair o c (xml_text before name value after)) opened
        closed
      ∙ find_pair_lem tail before value after (starts_filled name (b'>' ∷ []) filled).0
          ((starts_filled name (b'>' ∷ []) filled).1 ∙ slash)
          (has-append b'<' name (b'>' ∷ []) ∙ rw plain refl) clean clean' in
    bind_ok _ (clear_value_lem array ilen room')
    ∙ ap {B = Result (Bool × Option Bytes)}
        (λ f. elim f [
          | none ↦ ok (false, some cleared)
          | some tags ↦ copy_found cleared name tags (pos ilen)
        ])
        found
    ∙ copy_found_lem cleared name value (b'<' ∷ b'/' ∷ (tail ++ after)) ilen no_null first last
        (omega (arith, length-cleared_array array ilen room')) fits
