-- ===== src/Strings/Fields/Split.antt =====
-- SplitToCmd of src/_public.cpp without bdelspace, and the text that its fields come from.
use idc.Prelude.{
  Bytes, ℕ, zero, suc, ◌+◌, ◌<◌, ◌≡◌, refl, sym, ap, subst, ◌∙◌, inl, inr, Bool, true, false, List,
  [], ◌∷◌, ◌++◌, append_assoc, none, some, Option-cases, Returns, Returns-bind, arith, length,
  length-append, take, drop, take-append-drop, drop-append_right,
}
use idc.Text.{is_empty, strip_prefix}
use idc.Text.Search.{strip_prefix-append, strip_prefix_sound}
use idc.Strings.Fields.{find, tidy, split_loop, split_to_cmd}

-- The fields with the separator between them.
abbrev pub join : Bytes → List Bytes → Bytes
join sep [] = []
join sep (field ∷ []) = field
join sep (field ∷ next ∷ fields) = field ++ (sep ++ join sep (next ∷ fields))

abbrev pub NoneIn : Bytes → List Bytes → Type 0
NoneIn sep [] = Unit {0}
NoneIn sep (field ∷ fields) = (find sep field ≡ none) × NoneIn sep fields

abbrev pub is_nil : List Bytes → Bool
is_nil [] = true
is_nil (field ∷ fields) = false

nonempty : (xs : Bytes) → is_empty xs ≡ false → 0 < length xs
nonempty [] h = absurd (cc h)
nonempty (x ∷ xs) h = omega arith

-- What find says: the separator stands at `pos`, and nowhere in front of it.
record Found (sep src : Bytes) (pos : ℕ) : Type 0 where
  there : src ≡ take pos src ++ (sep ++ drop (pos + length sep) src)
  first : find sep (take pos src) ≡ none

strip_prefix-take :
    (p s : Bytes) (n : ℕ) → strip_prefix p s ≡ none → strip_prefix p (take n s) ≡ none
strip_prefix-take p s n h = elim (Option-cases (strip_prefix p (take n s))) [
  | inl nothing ↦ nothing
  | inr (r, e) ↦
      let whole : s ≡ p ++ (r ++ drop n s) =
        sym (take-append-drop n s)
        ∙ ap (λ t. t ++ drop n s) (strip_prefix_sound p (take n s) e)
        ∙ append_assoc p r (drop n s) in
      let found = ap (strip_prefix p) whole ∙ strip_prefix-append p (r ++ drop n s) in
      absurd (cc (h, found))
]

here-Found :
    (sep src : Bytes) {rest : Bytes}
    → is_empty sep ≡ false
    → strip_prefix sep src ≡ some rest
    → Found sep src 0
unfolding find
here-Found sep src {rest} ne on =
    let sound = strip_prefix_sound sep src on in
    record {
      there =
          sound
          ∙ ap (λ t. sep ++ t)
              (sym (
                ap (drop (0 + length sep)) sound
                ∙ drop-append_right sep rest (0 + length sep) 0 (omega arith)));
      first = rw ne refl;
    }

later-Found :
    (sep cs : Bytes) (c n : ℕ)
    → strip_prefix sep (c ∷ cs) ≡ none
    → Found sep cs n
    → Found sep (c ∷ cs) (suc n)
unfolding find
later-Found sep cs c n off f = record {
  there =
      ap (◌∷◌ c) f.there
      ∙ ap (λ m. c ∷ (take n cs ++ (sep ++ drop m (c ∷ cs)))) {x = suc (n + length sep)}
          {y = suc n + length sep} (omega arith);
  first = rw (strip_prefix-take sep (c ∷ cs) (suc n) off, f.first, find) refl;
}

find-Found :
    (sep src : Bytes) {pos : ℕ} → is_empty sep ≡ false → find sep src ≡ some pos → Found sep src pos
unfolding find
find-Found sep [] {pos} ne e = absurd (cc (rw ne at e))
find-Found sep (c ∷ cs) {pos} ne e = elim (Option-cases (strip_prefix sep (c ∷ cs))) [
  | inr (rest, on) ↦
      let start = rw (on, find) at e in
      let same : 0 ≡ pos = cc in subst (Found sep (c ∷ cs)) same (here-Found sep (c ∷ cs) ne on)
  | inl off ↦ elim (Option-cases (find sep cs)) [
    | inl nothing ↦ absurd (cc (rw (off, nothing, find) at e))
    | inr (n, later) ↦
        let next = rw (off, later, find) at e in
        let same : suc n ≡ pos = cc in
        subst (Found sep (c ∷ cs)) same (later-Found sep cs c n off (find-Found sep cs ne later))
  ]
]

-- The fields of a text: joined they make it, and none has the separator.
pub record Splits (sep src : Bytes) (fields : List Bytes) : Type 0 where
  pub joined : join sep fields ≡ src
  pub apart : NoneIn sep fields
  pub some_field : is_nil fields ≡ false

join-cons :
    (sep field : Bytes) (fields : List Bytes)
    → is_nil fields ≡ false
    → join sep (field ∷ fields) ≡ field ++ (sep ++ join sep fields)
join-cons sep field [] h = absurd (cc h)
join-cons sep field (next ∷ fields) h = refl

split_loop-Splits :
    (fuel : ℕ) (src sep : Bytes)
    → is_empty sep ≡ false
    → length src < fuel
    → Returns (split_loop fuel src sep false) (Splits sep src)
unfolding split_loop tidy
split_loop-Splits zero src sep ne h = absurd (omega arith)
split_loop-Splits (suc fuel) src sep ne h = elim (Option-cases (find sep src)) [
  | inl off ↦ rw (off, split_loop) (record { joined = refl; apart = (off, tt); some_field = refl })
  | inr (pos, on) ↦
      let f = find-Found sep src ne on in
      rw (on, split_loop)
        (Returns-bind (split_loop fuel (drop (pos + length sep) src) sep false) _
          (Splits sep (drop (pos + length sep) src)) (Splits sep src)
          (split_loop-Splits fuel (drop (pos + length sep) src) sep ne (shorter f))
          λ fields s. record {
            joined =
                join-cons sep (take pos src) fields s.some_field
                ∙ ap (λ t. take pos src ++ (sep ++ t)) s.joined
                ∙ sym f.there;
            apart = (f.first, s.apart);
            some_field = refl;
          })
]
  where
    sep_length : 0 < length sep
    sep_length = nonempty sep ne

    shorter : {pos : ℕ} → Found sep src pos → length (drop (pos + length sep) src) < fuel
    shorter {pos} f = omega (
      arith,
      h,
      sep_length,
      ap length f.there,
      length-append (take pos src) (sep ++ drop (pos + length sep) src),
      length-append sep (drop (pos + length sep) src),
    )

-- For a separator that is not empty, SplitToCmd without bdelspace ends; its fields with the separator
-- between them are the text again, there is one at least, and none of them has the separator.
pub split_to_cmd-Splits :
    (buffer sep : Bytes)
    → is_empty sep ≡ false
    → Returns (split_to_cmd buffer sep false) (Splits sep buffer)
unfolding split_to_cmd
split_to_cmd-Splits buffer sep ne =
    split_loop-Splits (suc (length buffer)) buffer sep ne (omega arith)
