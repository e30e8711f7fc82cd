-- ===== src/Strings/Xml/Tags.antt =====
-- Where GetXMLBuffer of src/_public.cpp finds the tags of a field.
use idc.Prelude.{
  Bytes, ℕ, suc, ◌≤◌, ◌≡◌, refl, sym, ap, ◌∙◌, Bool, true, false, [], ◌∷◌, ◌++◌, append_assoc, some,
  arith, ◌==◌, ◌||◌, length, length-append, drop, take-all, drop-append_right,
}
use idc.Text.{is_empty, has, strip_prefix}
use idc.Text.Search.{strip_prefix-append, has-append}
use idc.Strings.Fields.{find}
use idc.Strings.Xml.{find_pair, open_tag, close_tag}

apart : (c b : ℕ) (others : Bool) → b == c || others ≡ false → ((c == b) ≡ false) × (others ≡ false)
apart c b others h = ground arith

-- A text that starts with a character is not found before that character.
find-append :
    (c : ℕ) (cs before rest : Bytes)
    → has c before ≡ false
    → find (c ∷ cs) (before ++ ((c ∷ cs) ++ rest)) ≡ some (length before)
unfolding find strip_prefix
find-append c cs [] rest h =
    let same : (c == c) ≡ true = ground arith in rw (same, strip_prefix-append cs rest, find) refl
find-append c cs (b ∷ before) rest h =
    let (other, later) = apart c b (has c before) h in
    rw (other, find-append c cs before rest later, find) refl

-- The tags of a short name are whole.
pub tags_whole :
    (name : Bytes)
    → length name ≤ 46
    → (open_tag name ≡ b'<' ∷ (name ++ (b'>' ∷ [])))
      × (close_tag name ≡ b'<' ∷ b'/' ∷ (name ++ (b'>' ∷ [])))
unfolding open_tag close_tag
tags_whole name h =
    let size = length-append name (b'>' ∷ []) in
    (
      take-all 49 (b'<' ∷ (name ++ (b'>' ∷ []))) (omega (arith, size)),
      take-all 49 (b'<' ∷ b'/' ∷ (name ++ (b'>' ∷ []))) (omega (arith, size)),
    )

abbrev pub starts_slash : Bytes → Bool
starts_slash [] = false
starts_slash (c ∷ cs) = b'/' == c

-- The second tag is not found at the first one.
find_behind :
    (cs before rest : Bytes)
    → is_empty before ≡ false
    → starts_slash before ≡ false
    → has b'<' before ≡ false
    → find (b'<' ∷ b'/' ∷ cs) (b'<' ∷ (before ++ ((b'<' ∷ b'/' ∷ cs) ++ rest)))
      ≡ some (suc (length before))
unfolding find strip_prefix
find_behind cs [] rest filled slash none' = absurd (cc filled)
find_behind cs (b ∷ before) rest filled slash none' =
    rw (slash, find-append b'<' (b'/' ∷ cs) (b ∷ before) rest none', find, strip_prefix) refl

-- A name that tags can have: short, and without what would begin another tag.
abbrev pub IsName : Bytes → Type 0
IsName name =
    (length name ≤ 46)
    × (is_empty name ≡ false)
    × (starts_slash name ≡ false)
    × (has b'<' name ≡ false)

-- A value in its tags, with what stands in front of them and behind them.
abbrev pub behind_open : Bytes → Bytes → Bytes → Bytes
behind_open name value after = value ++ (b'<' ∷ b'/' ∷ ((name ++ (b'>' ∷ [])) ++ after))

abbrev pub xml_text : Bytes → Bytes → Bytes → Bytes → Bytes
xml_text before name value after =
    before ++ (b'<' ∷ ((name ++ (b'>' ∷ [])) ++ behind_open name value after))

pub starts_filled :
    (tail value : Bytes)
    → is_empty tail ≡ false
    → (is_empty (tail ++ value) ≡ false) × (starts_slash (tail ++ value) ≡ starts_slash tail)
starts_filled [] value h = absurd (cc h)
starts_filled (c ∷ tail) value h = (refl, refl)

pub find_pair_lem :
    (tail before value after : Bytes)
    → is_empty tail ≡ false
    → starts_slash tail ≡ false
    → has b'<' tail ≡ false
    → has b'<' before ≡ false
    → has b'<' value ≡ false
    → let start = b'<' ∷ (tail ++ (value ++ (b'<' ∷ b'/' ∷ (tail ++ after)))) in
      find_pair (b'<' ∷ tail) (b'<' ∷ b'/' ∷ tail) (before ++ start)
      ≡ some (start, suc (length (tail ++ value)))
unfolding find_pair
find_pair_lem tail before value after filled slash clean clean' clean'' =
    let behind = value ++ (b'<' ∷ b'/' ∷ (tail ++ after)) in
    let start = b'<' ∷ (tail ++ behind) in
    let dropped : drop (length before) (before ++ start) ≡ start =
      drop-append_right before start (length before) 0 (omega arith) in
    let second : find (b'<' ∷ b'/' ∷ tail) start ≡ some (suc (length (tail ++ value))) =
      ap (λ t. find (b'<' ∷ b'/' ∷ tail) (b'<' ∷ t))
        (sym (append_assoc tail value (b'<' ∷ b'/' ∷ (tail ++ after))))
      ∙ find_behind tail (tail ++ value) after (starts_filled tail value filled).0
          ((starts_filled tail value filled).1 ∙ slash)
          (has-append b'<' tail value ∙ rw (clean, clean'') refl) in
    rw (find-append b'<' tail before behind clean', dropped, second, find_pair, dropped) refl
