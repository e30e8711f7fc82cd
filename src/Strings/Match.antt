-- ===== src/Strings/Match.antt =====
-- MatchStr of src/_public.cpp: names that match one of several rules, in which a star stands for any
-- text. The sizes fit an int.
pub mod Ends
use idc.Prelude.{
  Bytes, ℕ, ◌+◌, ◌-◌, Bool, true, false, not, ◌&&◌, List, [], ◌∷◌, Option, none, some, Result, ok,
  fault, ◌>>=◌, out_of_range, if◌then◌else◌, ltb, length, take, drop, replicate,
}
use idc.Text.{codes, equal, is_empty, c_string}
use idc.Strings.{safe_strcpy, to_upper}
use idc.Strings.Fields.{find, split_to_cmd}

-- ToUpper of a std::string
unfoldable pub upper_text : Bytes → Result Bytes
unfolding safe_strcpy to_upper c_string
upper_text str =
    if is_empty str
    then ok str
    else (safe_strcpy (some (replicate (length str + 1) 0)) (length str + 1) (some (c_string str))
        >>= λ copied. elim copied [
          | none ↦ ok str
          | some array ↦ to_upper array >>= λ upper. ok (c_string upper)
        ])

-- strncmp(name, piece, piece.size()) == 0
unfoldable pub starts_with : Bytes → Bytes → Bool
unfolding c_string equal
starts_with name piece = equal (take (length piece) (c_string name)) (c_string piece)

-- strcmp of the end of the name. The pointer to it is in front of a name that is shorter.
unfoldable pub ends_with : Bytes → Bytes → Result Bool
unfolding c_string equal
ends_with name piece =
    if ltb (length name) (length piece)
    then fault out_of_range
    else ok (equal (c_string (drop (length name - length piece) name)) (c_string piece))

-- The test for the last piece
unfoldable pub tail_test : Bytes → Bytes → List Bytes → Result Bool
unfolding ends_with
tail_test name piece [] = ends_with name piece
tail_test name piece (next ∷ pieces) = ok true

-- The loop over the pieces of a rule from one on, with `pos` for iPOS1.
unfoldable pub match_pieces : Bool → List Bytes → Bytes → ℕ → Result Bool
unfolding starts_with tail_test find
match_pieces first [] name pos = ok true
match_pieces first (piece ∷ pieces) name pos =
    if first && not (starts_with name piece)
    then ok false
    else tail_test name piece pieces >>= λ fits. elim fits [
      | false ↦ ok false
      | true ↦ elim (find piece (drop pos name)) [
        | none ↦ ok false
        | some k ↦ match_pieces false pieces name (pos + k + length piece)
      ]
    ]

-- The loop over the rules
unfoldable pub match_rules : List Bytes → Bytes → Result Bool
unfolding split_to_cmd match_pieces
match_rules [] name = ok false
match_rules (rule ∷ rules) name = elim (is_empty rule) [
  | true ↦ match_rules rules name
  | false ↦ split_to_cmd rule (codes "*") false >>= λ pieces.
      match_pieces true pieces name 0 >>= λ matches. elim matches [
        | true ↦ ok true
        | false ↦ match_rules rules name
      ]
]

unfoldable pub match_str : Bytes → Bytes → Result Bool
unfolding upper_text split_to_cmd match_rules equal
match_str str rules =
    if is_empty rules
    then ok false
    else if equal rules (codes "*")
    then ok true
    else upper_text str >>= λ name. upper_text rules >>= λ upper.
        split_to_cmd upper (codes ",") false >>= λ fields. match_rules fields name
