-- ===== src/Log/Formatter.antt =====
-- LogFormatter of src/log.cpp: the pattern is parsed to format items, each of which writes a part of
-- a line. strftime with localtime_r is an argument of what formats a time.
pub mod Pattern
pub mod RoundTrip
use idc.Prelude.{
  Bytes, ℕ, zero, suc, ◌+◌, Bool, true, false, not, ◌&&◌, ◌||◌, List, [], ◌∷◌, ◌++◌, Option, none,
  some, if◌then◌else◌, leb, ◌==◌, length, take, ℤ, pos,
}
use idc.Text.{codes, equal, is_empty, c_string}
use idc.Text.Decimal.{to_string}
use idc.Log.Level.{LogLevel, LogEvent, level_to_string}

-- The subclasses of FormatItem
pub data FormatItem : Type 0 where
  message level elapse name thread_id new_line : FormatItem
  date_time : Bytes → FormatItem
  file line tab fiber_id thread_name : FormatItem
  literal : Bytes → FormatItem

-- The constructor of DateTimeFormatItem
unfoldable pub make_date_time : Bytes → FormatItem
make_date_time format =
    if is_empty format then date_time (codes "%Y:%m:%d %H:%M:%S") else date_time format

-- s_format_items
abbrev pub format_items : List (ℕ × (Bytes → FormatItem))
format_items =
    (b'm', λ fmt. message)
    ∷ (b'p', λ fmt. level)
    ∷ (b'r', λ fmt. elapse)
    ∷ (b'c', λ fmt. name)
    ∷ (b't', λ fmt. thread_id)
    ∷ (b'n', λ fmt. new_line)
    ∷ (b'd', λ fmt. make_date_time fmt)
    ∷ (b'f', λ fmt. file)
    ∷ (b'l', λ fmt. line)
    ∷ (b'T', λ fmt. tab)
    ∷ (b'F', λ fmt. fiber_id)
    ∷ (b'N', λ fmt. thread_name)
    ∷ []

-- s_format_items.find
unfoldable pub find_item : Bytes → List (ℕ × (Bytes → FormatItem)) → Option (Bytes → FormatItem)
unfolding equal
find_item str [] = none
find_item str ((key, make) ∷ items) =
    if equal str (key ∷ []) then some make else find_item str items

-- isalpha
abbrev pub is_alpha : ℕ → Bool
is_alpha c = (leb b'A' c && leb c b'Z') || (leb b'a' c && leb c b'z')

-- What the inner loop of init finds behind a '%': a placeholder, with the number of characters behind
-- the '%' that it takes, or a format without its '}' (fmt_status is 1 at the end).
pub data Placeholder : Type 0 where
  found : (str fmt : Bytes) → (taken : ℕ) → Placeholder
  unclosed : Placeholder

-- The inner loop while fmt_status is 1. `fmt` is what stands between fmt_begin and `n`.
unfoldable pub scan_format : Bytes → Bytes → Bytes → Placeholder
scan_format [] str fmt = unclosed
scan_format (c ∷ cs) str fmt = elim (c == b'}') [
  | true ↦ found str fmt (length str + 1 + length fmt + 1)
  | false ↦ scan_format cs str (fmt ++ (c ∷ []))
]

-- The inner loop while fmt_status is 0. `str` is what stands between the '%' and `n`.
unfoldable pub scan_name : Bytes → Bytes → Placeholder
unfolding scan_format
scan_name [] str = found str [] (length str)
scan_name (c ∷ cs) str = elim (not (is_alpha c) && (not (c == b'{') && not (c == b'}'))) [
  | true ↦ found str [] (length str)
  | false ↦ elim (c == b'{') [
    | true ↦ scan_format cs str []
    | false ↦ scan_name cs (str ++ (c ∷ []))
  ]
]

-- The entries of `vec`: its third component is 0 for a text and for a "<<pattern_error>>", else 1.
pub data Entry : Type 0 where
  text : Bytes → Entry
  place : (str fmt : Bytes) → Entry

-- A text that is not empty is pushed, before what follows.
unfoldable pub push_text : Bytes → List Entry → List Entry
push_text nstr vec = if is_empty nstr then vec else text nstr ∷ vec

-- `(i + 1) < m_pattern.size()` and the next character is `c`.
abbrev pub next_is : ℕ → Bytes → Bool
next_is c [] = false
next_is c (d ∷ ds) = d == c

abbrev pub with_place : Bytes → Bytes → Bytes → List Entry × Bool → List Entry × Bool
with_place nstr str fmt (vec, m_error) = (push_text nstr (place str fmt ∷ vec), m_error)

abbrev pub with_error : List Entry × Bool → List Entry × Bool
with_error (vec, m_error) = (text (codes "<<pattern_error>>") ∷ vec, true)

-- The outer loop of init, which gives `vec` and m_error. `skip` characters still belong to the
-- placeholder that was found last, since `i` stands behind it; `nstr` is the text so far.
unfoldable pub pattern_loop : ℕ → Bytes → Bytes → List Entry × Bool
unfolding scan_name push_text
pattern_loop skip [] nstr = (push_text nstr [], false)
pattern_loop (suc skip) (c ∷ cs) nstr = pattern_loop skip cs nstr
pattern_loop zero (c ∷ cs) nstr = elim (c == b'%') [
  | false ↦ pattern_loop 0 cs (nstr ++ (c ∷ []))
  | true ↦ elim (next_is b'%' cs) [
    | true ↦ pattern_loop 0 cs (nstr ++ (b'%' ∷ []))
    | false ↦ elim (scan_name cs []) [
      | found str fmt taken ↦ with_place nstr str fmt (pattern_loop taken cs [])
      | unclosed ↦ with_error (pattern_loop 0 cs nstr)
    ]
  ]
]

-- The item of an entry, and whether it is an error.
unfoldable pub item_of : Entry → FormatItem × Bool
unfolding find_item make_date_time
item_of (text s) = (literal s, false)
item_of (place str fmt) = elim (find_item str format_items) [
  | none ↦ (literal (codes "<<error_format %" ++ (str ++ codes ">>")), true)
  | some make ↦ (make fmt, false)
]

-- The last loop of init, which gives m_items and m_error.
unfoldable pub items_loop : List Entry → Bool → List FormatItem × Bool
unfolding item_of
items_loop [] m_error = ([], m_error)
items_loop (entry ∷ vec) m_error =
    let (item, failed) = item_of entry in
    let (m_items, m_error') = items_loop vec (m_error || failed) in (item ∷ m_items, m_error')

pub record LogFormatter : Type 0 where
  pub pattern : Bytes
  pub items : List FormatItem
  pub is_error : Bool

-- The constructor, with init.
unfoldable pub make_formatter : Bytes → LogFormatter
unfolding pattern_loop items_loop
make_formatter pattern =
    let (vec, failed) = pattern_loop 0 pattern [] in
    let (m_items, m_error) = items_loop vec failed in
    record { pattern = pattern; items = m_items; is_error = m_error }

module _ (strftime : Bytes → ℕ → Bytes) where
  -- FormatItem::format, as what is written to the stream.
  unfoldable pub format_item : FormatItem → LogLevel → LogEvent → Bytes
  unfolding to_string level_to_string c_string
  format_item message lvl event = event.content
  format_item level lvl event = level_to_string lvl
  format_item elapse lvl event = to_string (pos event.elapse)
  format_item name lvl event = event.logger_name
  format_item thread_id lvl event = to_string (pos event.thread_id)
  format_item new_line lvl event = b'\n' ∷ []
  format_item (date_time m_format) lvl event = strftime (c_string m_format) event.time
  format_item file lvl event = event.file
  format_item line lvl event = to_string event.line
  format_item tab lvl event = b'\t' ∷ []
  format_item fiber_id lvl event = to_string (pos event.fiber_id)
  format_item thread_name lvl event = event.thread_name
  format_item (literal m_string) lvl event = m_string

  -- The loop of both LogFormatter::format.
  unfoldable pub format : List FormatItem → LogLevel → LogEvent → Bytes
  unfolding format_item
  format [] lvl event = []
  format (i ∷ m_items) lvl event = format_item i lvl event ++ format m_items lvl event
