-- ===== src/Log/Formatter/Pattern.antt =====
-- The patterns that LogFormatter::init of src/log.cpp is meant for: the text of a list of items, and
-- when the items can be told apart in it.
use idc.Prelude.{Bytes, ℕ, ◌≡◌, refl, Bool, true, false, not, ◌&&◌, List, [], ◌∷◌, ◌++◌, ◌==◌}
use idc.Text.{is_empty, has, equal}
use idc.Log.Formatter.{
  FormatItem, message, level, elapse, name, thread_id, new_line, date_time, file, line, tab,
  fiber_id, thread_name, literal, is_alpha, Entry, text, place, item_of, find_item, make_date_time,
}

-- How an item is written: as itself, with its letter, or with its letter and a format in braces.
pub data Shape : Type 0 where
  words : Bytes → Shape
  bare : ℕ → Shape
  dated : Bytes → Shape

abbrev pub shape : FormatItem → Shape
shape message = bare b'm'
shape level = bare b'p'
shape elapse = bare b'r'
shape name = bare b'c'
shape thread_id = bare b't'
shape new_line = bare b'n'
shape (date_time fmt) = dated fmt
shape file = bare b'f'
shape line = bare b'l'
shape tab = bare b'T'
shape fiber_id = bare b'F'
shape thread_name = bare b'N'
shape (literal s) = words s

abbrev pub shape_text : Shape → Bytes → Bytes
shape_text (words s) rest = s ++ rest
shape_text (bare key) rest = b'%' ∷ key ∷ rest
shape_text (dated fmt) rest = b'%' ∷ b'd' ∷ b'{' ∷ (fmt ++ (b'}' ∷ rest))

abbrev pub pattern_of : List FormatItem → Bytes
pattern_of [] = []
pattern_of (i ∷ items) = shape_text (shape i) (pattern_of items)

-- A letter in front of this text ends there.
abbrev pub ends_name : Bytes → Bool
ends_name [] = true
ends_name (c ∷ cs) = not (is_alpha c) && (not (c == b'{') && not (c == b'}'))

-- `after` says whether a text stands in front.
abbrev pub ShapeFits : Bool → Shape → Bytes → Type 0
ShapeFits after (words s) rest = (after ≡ false) × (is_empty s ≡ false) × (has b'%' s ≡ false)
ShapeFits after (bare key) rest = ends_name rest ≡ true
ShapeFits after (dated fmt) rest = (is_empty fmt ≡ false) × (has b'}' fmt ≡ false)

abbrev pub is_words : Shape → Bool
is_words (words s) = true
is_words (bare key) = false
is_words (dated fmt) = false

-- No text is empty, next to another, or has a '%'; nothing that would belong to a letter stands behind
-- it; a time format has no '}' and is not empty.
abbrev pub Separable : Bool → List FormatItem → Type 0
Separable after [] = Unit {0}
Separable after (i ∷ items) =
    ShapeFits after (shape i) (pattern_of items) × Separable (is_words (shape i)) items

abbrev pub shape_entry : Shape → Entry
shape_entry (words s) = text s
shape_entry (bare key) = place (key ∷ []) []
shape_entry (dated fmt) = place (b'd' ∷ []) fmt

abbrev pub entries : List FormatItem → List Entry
entries [] = []
entries (i ∷ items) = shape_entry (shape i) ∷ entries items

abbrev pub IsLetter : Shape → Type 0
IsLetter (words s) = Unit {0}
IsLetter (bare key) = is_alpha key ≡ true
IsLetter (dated fmt) = Unit {0}

pub shape-IsLetter : (i : FormatItem) → IsLetter (shape i)
shape-IsLetter message = refl
shape-IsLetter level = refl
shape-IsLetter elapse = refl
shape-IsLetter name = refl
shape-IsLetter thread_id = refl
shape-IsLetter new_line = refl
shape-IsLetter file = refl
shape-IsLetter line = refl
shape-IsLetter tab = refl
shape-IsLetter fiber_id = refl
shape-IsLetter thread_name = refl
shape-IsLetter (date_time fmt) = tt
shape-IsLetter (literal s) = tt

-- An item that fits is the item of its entry, and no error.
pub item_of-shape_entry :
    (after : Bool) (i : FormatItem) (rest : Bytes)
    → ShapeFits after (shape i) rest
    → item_of (shape_entry (shape i)) ≡ (i, false)
unfolding item_of find_item make_date_time equal
item_of-shape_entry after message rest h = refl
item_of-shape_entry after level rest h = refl
item_of-shape_entry after elapse rest h = refl
item_of-shape_entry after name rest h = refl
item_of-shape_entry after thread_id rest h = refl
item_of-shape_entry after new_line rest h = refl
item_of-shape_entry after file rest h = refl
item_of-shape_entry after line rest h = refl
item_of-shape_entry after tab rest h = refl
item_of-shape_entry after fiber_id rest h = refl
item_of-shape_entry after thread_name rest h = refl
item_of-shape_entry after (literal s) rest h = refl
item_of-shape_entry after (date_time fmt) rest (filled, closed) = rw filled refl
