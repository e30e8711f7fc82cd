-- ===== src/Log/Formatter/RoundTrip.antt =====
-- LogFormatter::init of src/log.cpp on the text of a list of items.
use idc.Prelude.{
  Bytes, ℕ, ◌+◌, ◌≡◌, refl, sym, ap, ◌∙◌, ◌⊎◌, inl, inr, Bool, true, false, ◌||◌, List, [], ◌∷◌,
  ◌++◌, append_assoc, append-nil, ◌==◌, arith, length, length-append, if◌then◌else◌,
}
use idc.Text.{has}
use idc.Log.Formatter.{
  FormatItem, found, is_alpha, next_is, Entry, text, scan_name, scan_format, push_text, with_place,
  pattern_loop, items_loop, make_formatter,
}
use idc.Log.Formatter.Pattern.{
  Shape, words, bare, dated, shape, shape_text, pattern_of, ends_name, ShapeFits, is_words,
  Separable, shape_entry, entries, IsLetter, shape-IsLetter, item_of-shape_entry,
}

or_false : (a b : Bool) → a || b ≡ false → (a ≡ false) × (b ≡ false)
or_false true b h = absurd (cc h)
or_false false b h = (refl, h)

-- Characters other than '%' are added to the text.
pattern_loop_text :
    (s rest nstr : Bytes)
    → has b'%' s ≡ false
    → pattern_loop 0 (s ++ rest) nstr ≡ pattern_loop 0 rest (nstr ++ s)
unfolding pattern_loop
pattern_loop_text [] rest nstr h = ap (pattern_loop 0 rest) (sym (append-nil nstr))
pattern_loop_text (c ∷ cs) rest nstr h =
    let (other, later) = or_false (c == b'%') (has b'%' cs) h in
    rw (other, pattern_loop)
      (pattern_loop_text cs rest (nstr ++ (c ∷ [])) later
        ∙ ap (pattern_loop 0 rest) (append_assoc nstr (c ∷ []) cs))

-- The characters of a placeholder are skipped.
pattern_loop_skip :
    (s rest nstr : Bytes) → pattern_loop (length s) (s ++ rest) nstr ≡ pattern_loop 0 rest nstr
unfolding pattern_loop
pattern_loop_skip [] rest nstr = refl
pattern_loop_skip (c ∷ cs) rest nstr = pattern_loop_skip cs rest nstr

scan_format_closed :
    (fmt rest str acc : Bytes)
    → has b'}' fmt ≡ false
    → scan_format (fmt ++ (b'}' ∷ rest)) str acc
      ≡ found str (acc ++ fmt) (length str + 1 + length (acc ++ fmt) + 1)
unfolding scan_format
scan_format_closed [] rest str acc h = rw (append-nil acc) refl
scan_format_closed (c ∷ cs) rest str acc h =
    let (other, later) = or_false (c == b'}') (has b'}' cs) h in
    rw (other, scan_format)
      (scan_format_closed cs rest str (acc ++ (c ∷ [])) later
        ∙ ap (λ s. found str s (length str + 1 + length s + 1)) (append_assoc acc (c ∷ []) cs))

-- A letter is neither of the characters that the parser looks for.
letter_tests : (key : ℕ) → is_alpha key ≡ true → ((key == b'%') ≡ false) × ((key == b'{') ≡ false)
letter_tests key letter = (ground arith, ground arith)

scan_name_end :
    (rest str : Bytes) → ends_name rest ≡ true → scan_name rest str ≡ found str [] (length str)
unfolding scan_name
scan_name_end [] str ends = refl
scan_name_end (c ∷ cs) str ends = rw (ends, scan_name) refl

scan_name_letter :
    (key : ℕ) (rest : Bytes)
    → is_alpha key ≡ true
    → ends_name rest ≡ true
    → scan_name (key ∷ rest) [] ≡ found (key ∷ []) [] 1
unfolding scan_name
scan_name_letter key rest letter ends =
    let (_, brace) = letter_tests key letter in
    rw (letter, brace, scan_name) (scan_name_end rest (key ∷ []) ends)

pattern_loop_found :
    (cs nstr str fmt : Bytes) (taken : ℕ)
    → next_is b'%' cs ≡ false
    → scan_name cs [] ≡ found str fmt taken
    → pattern_loop 0 (b'%' ∷ cs) nstr ≡ with_place nstr str fmt (pattern_loop taken cs [])
unfolding pattern_loop
pattern_loop_found cs nstr str fmt taken h e = rw (h, e, pattern_loop) refl

-- A shape in front of a pattern whose entries are known.
pattern_loop_shape :
    (x : Shape) (rest nstr : Bytes) (after : Bool) (vec : List Entry)
    → IsLetter x
    → ShapeFits after x rest
    → (after ≡ true) ⊎ (nstr ≡ [])
    → ((front : Bytes)
        → (is_words x ≡ true) ⊎ (front ≡ [])
        → pattern_loop 0 rest front ≡ (push_text front vec, false))
    → pattern_loop 0 (shape_text x rest) nstr ≡ (push_text nstr (shape_entry x ∷ vec), false)
unfolding pattern_loop push_text
pattern_loop_shape (words s) rest nstr after vec letter (alone, filled, plain) (inl before) ih =
    absurd (cc (alone, before))
pattern_loop_shape (words s) rest nstr after vec letter (alone, filled, plain) (inr empty) ih =
    rw empty (
      pattern_loop_text s rest [] plain
      ∙ ih s (inl refl)
      ∙ ap {B = List Entry × Bool} (λ b. (if b then vec else text s ∷ vec, false)) filled)
pattern_loop_shape (bare key) rest nstr after vec letter ends front ih =
    let (percent, _) = letter_tests key letter in
    pattern_loop_found (key ∷ rest) nstr (key ∷ []) [] 1 percent
      (scan_name_letter key rest letter ends)
    ∙ ap (with_place nstr (key ∷ []) []) (pattern_loop_skip (key ∷ []) rest [] ∙ ih [] (inr refl))
pattern_loop_shape (dated fmt) rest nstr after vec letter (filled, closed) front ih =
    let closed_text : Bytes = b'd' ∷ b'{' ∷ (fmt ++ (b'}' ∷ [])) in
    pattern_loop_found (b'd' ∷ b'{' ∷ (fmt ++ (b'}' ∷ rest))) nstr (b'd' ∷ []) fmt
      (2 + length fmt + 1) refl (scan_format_closed fmt rest (b'd' ∷ []) [] closed)
    ∙ ap (with_place nstr (b'd' ∷ []) fmt) (
        ap (λ t. pattern_loop (2 + length fmt + 1) (b'd' ∷ b'{' ∷ t) [])
          (sym (append_assoc fmt (b'}' ∷ []) rest))
        ∙ ap (λ n. pattern_loop n (closed_text ++ rest) []) {y = length closed_text}
            (omega (arith, length-append fmt (b'}' ∷ [])))
        ∙ pattern_loop_skip closed_text rest []
        ∙ ih [] (inr refl))

-- A loop that starts with the text `nstr`, which is empty unless a text stands in front.
pattern_loop_items :
    (items : List FormatItem) (after : Bool) (nstr : Bytes)
    → Separable after items
    → (after ≡ true) ⊎ (nstr ≡ [])
    → pattern_loop 0 (pattern_of items) nstr ≡ (push_text nstr (entries items), false)
unfolding pattern_loop
pattern_loop_items [] after nstr h front = refl
pattern_loop_items (i ∷ items) after nstr (fits, h) front =
    pattern_loop_shape (shape i) (pattern_of items) nstr after (entries items) (shape-IsLetter i)
      fits front (λ text. pattern_loop_items items (is_words (shape i)) text h)

items_loop-entries :
    (items : List FormatItem) (after : Bool)
    → Separable after items
    → items_loop (entries items) false ≡ (items, false)
unfolding items_loop
items_loop-entries [] after h = refl
items_loop-entries (i ∷ items) after (fits, h) =
    rw
      (
        item_of-shape_entry after i (pattern_of items) fits,
        items_loop-entries items (is_words (shape i)) h,
      )
      refl

-- The text of a list of items whose texts can be told apart from the placeholders is parsed, without
-- an error, to that list.
pub make_formatter-pattern_of :
    (items : List FormatItem)
    → Separable false items
    → make_formatter (pattern_of items)
      ≡ record { pattern = pattern_of items; items = items; is_error = false }
unfolding make_formatter
make_formatter-pattern_of items h =
    rw (pattern_loop_items items false [] h (inr refl), items_loop-entries items false h) refl
