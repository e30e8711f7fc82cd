-- ===== src/Http/Request/Form.antt =====
-- HttpRequest::ParseFromUrlencoded_ and ConverHex of src/httprequest.cpp. The body is rewritten in
-- place; an access to it at or behind its end is a fault. Its length is below 2 ^ 31, where `int`
-- indices are exact.
use idc.Prelude.{
  Bytes, ℕ, zero, suc, ◌+◌, ◌-◌, true, false, not, ◌&&◌, [], Result, ok, fault, ◌>>=◌, ◌>>◌,
  require, assertion, out_of_range, exhausted, if◌then◌else◌, ltb, leb, ◌==◌, length, set, get_or,
  ℤ, pos, ◌+ℤ◌, ◌*ℤ◌, div_ℤ, mod_ℤ, signed_char, to_byte,
}
use idc.Text.{substr, Dict, assign, contains, is_empty}

unfoldable pub conver_hex : ℕ → ℤ
unfolding signed_char ◌+ℤ◌
conver_hex ch =
    if leb b'A' ch && leb ch b'F'
    then pos (ch - b'A' + 10)
    else if leb b'a' ch && leb ch b'f'
    then pos (ch - b'a' + 10)
    else signed_char ch

-- The local variables of the loop, and the maps and text that it changes.
pub record Scan : Type 0 where
  pub text : Bytes
  pub i : ℕ
  pub j : ℕ
  pub key : Bytes
  pub post : Dict

-- The number that the two bytes at `i` and behind it stand for.
unfoldable pub hex_number : Bytes → ℕ → ℤ
unfolding conver_hex ◌+ℤ◌ ◌*ℤ◌
hex_number text i = conver_hex (get_or text i 0) *ℤ pos 16 +ℤ conver_hex (get_or text (i + 1) 0)

-- The digit of a number, as the byte that is stored for it.
unfoldable pub digit_byte : ℤ → ℕ
unfolding ◌+ℤ◌ to_byte
digit_byte digit = to_byte (digit +ℤ pos b'0')

-- case '%', before `i += 2`: the two bytes behind the sign are replaced.
unfoldable pub decode_percent : Bytes → ℕ → Result Bytes
unfolding hex_number digit_byte div_ℤ mod_ℤ
decode_percent text i = do
  require (ltb (i + 2) (length text)) out_of_range
  let num = hex_number text (i + 1)
  ok (set (set text (i + 2) (digit_byte (mod_ℤ num 10))) (i + 1) (digit_byte (div_ℤ num 10)))

-- The body of the for loop, with its `i++`.
unfoldable pub scan_step : Scan → Result Scan
unfolding decode_percent substr assign
scan_step s =
    let ch = get_or s.text s.i 0 in
    if ch == b'='
    then (do
      key ← substr s.text s.j (s.i - s.j)
      ok (record s { i = s.i + 1; j = s.i + 1; key = key }))
    else if ch == b'+'
    then ok (record s { text = set s.text s.i b' '; i = s.i + 1 })
    else if ch == b'%'
    then (do text ← decode_percent s.text s.i; ok (record s { text = text; i = s.i + 3 }))
    else if ch == b'&'
    then (do
      value ← substr s.text s.j (s.i - s.j)
      ok (record s { i = s.i + 1; j = s.i + 1; post = assign s.key value s.post }))
    else ok (record s { i = s.i + 1 })

-- The for loop; `n` is the length of the body, and each round advances.
unfoldable pub scan : ℕ → ℕ → Scan → Result Scan
unfolding scan_step
scan zero n s = fault exhausted
scan (suc fuel) n s = elim (ltb s.i n) [
  | true ↦ scan_step s >>= λ next. scan fuel n next
  | false ↦ ok s
]

-- The last value, which no '&' follows.
unfoldable pub finish_form : Scan → Result (Bytes × Dict)
unfolding substr assign contains
finish_form s = do
  require (leb s.j s.i) assertion
  if not (contains s.key s.post) && ltb s.j s.i
      then (do value ← substr s.text s.j (s.i - s.j); ok (s.text, assign s.key value s.post))
      else ok (s.text, s.post)

-- The text and the fields that it leaves.
unfoldable pub parse_from_urlencoded : Bytes → Dict → Result (Bytes × Dict)
unfolding scan finish_form
parse_from_urlencoded text post = if is_empty text then ok (text, post) else (do
  s ←
      scan (suc (length text)) (length text)
        (record { text = text; i = 0; j = 0; key = []; post = post })
  finish_form s)
