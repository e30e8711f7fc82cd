-- ===== src/Strings/Fields.antt =====
-- CCmdStr of src/_public.cpp: a text that is split at a separator. The fields are m_vCmdStr.
pub mod Split
use idc.Prelude.{
  if◌then◌else◌, Bytes, ℕ, zero, suc, ◌+◌, ◌-◌, ◌≤◌, ◌<◌, ◌≡◌, ◌≢◌, refl, sym, ap, ap₂, subst, ◌∙◌,
  inl, inr, Bool, true, false, List, [], ◌∷◌, ◌++◌, append_assoc, Option, none, some, Option-cases,
  Result, ok, fault, exhausted, ◌>>=◌, Returns, Returns-bind, arith, length, length-append,
  length-drop, take, drop, take-append-drop, replicate,
}
use idc.Text.{is_empty, strip_prefix, c_string}
use idc.Text.Search.{strip_prefix-append, strip_prefix_sound}
use idc.Strings.{safe_strcpy, delete_lr_char}

-- std::string::find for a C string
unfoldable pub find : Bytes → Bytes → Option ℕ
unfolding strip_prefix
find sep [] = if is_empty sep then some 0 else none
find sep (c ∷ cs) = elim (strip_prefix sep (c ∷ cs)) [
  | some rest ↦ some 0
  | none ↦ elim (find sep cs) [ none ↦ none | some pos ↦ some (suc pos) ]
]

-- What is stored for a field: with `bdelspace`, without the spaces around it.
unfoldable pub tidy : Bool → Bytes → Result Bytes
unfolding safe_strcpy delete_lr_char c_string
tidy false str = ok str
tidy true str =
    safe_strcpy (some (replicate (length str + 1) 0)) (length str + 1) (some (c_string str))
    >>= λ copied. elim copied [
      | none ↦ ok []
      | some array ↦ delete_lr_char array b' ' >>= λ trimmed. ok (c_string trimmed)
    ]

-- The loop of SplitToCmd. Each round takes a separator out, so with one that is not empty fuel above
-- the length of the text is enough.
unfoldable pub split_loop : ℕ → Bytes → Bytes → Bool → Result (List Bytes)
unfolding find tidy
split_loop zero src sep bdelspace = fault exhausted
split_loop (suc fuel) src sep bdelspace = elim (find sep src) [
  | none ↦ tidy bdelspace src >>= λ field. ok (field ∷ [])
  | some pos ↦ tidy bdelspace (take pos src) >>= λ field.
      split_loop fuel (drop (pos + length sep) src) sep bdelspace >>= λ fields. ok (field ∷ fields)
]

unfoldable pub split_to_cmd : Bytes → Bytes → Bool → Result (List Bytes)
unfolding split_loop
split_to_cmd buffer sep bdelspace = split_loop (suc (length buffer)) buffer sep bdelspace

unfoldable pub cmd_count : List Bytes → ℕ
cmd_count fields = length fields
