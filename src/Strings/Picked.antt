-- ===== src/Strings/Picked.antt =====
-- The loop of PickNumber in src/_public.cpp: what it writes to the array.
use idc.Prelude.{
  Bytes, ℕ, suc, ◌+◌, ◌<◌, ◌≡◌, sym, ap, ap₂, ◌∙◌, inl, inr, Bool, [], ◌∷◌, ◌++◌, append_assoc,
  append-nil, Result, ok, arith, if◌then◌else◌, Bool-cases, bind_ok, length, length-append,
  length-drop, drop, drop-drop,
}
use idc.Buffer.{copy_at}
use idc.Strings.{is_picked, pick_loop}
use idc.Strings.Joined.{in_array, write_behind}

-- The characters of a text that PickNumber keeps.
abbrev pub kept : Bool → Bool → Bytes → Bytes
kept bsigned bdot [] = []
kept bsigned bdot (c ∷ cs) =
    if is_picked bsigned bdot c then c ∷ kept bsigned bdot cs else kept bsigned bdot cs

write_one :
    (text tail : Bytes) (c pos : ℕ)
    → pos ≡ length text
    → 0 < length tail
    → copy_at (text ++ tail) pos (c ∷ []) ≡ ok ((text ++ (c ∷ [])) ++ drop 1 tail)
write_one text tail c pos p h =
    write_behind text tail (c ∷ []) pos p (omega arith)
    ∙ ap {B = Result Bytes} (λ t. ok t) (sym (append_assoc text (c ∷ []) (drop 1 tail)))

-- Behind what stands in the array up to `pos`, the loop writes the signs, dots and digits of the text
-- that are asked for, in their order, and a null character, and leaves the places behind that as they
-- were, if the array has room for them.
pub pick_loop_lem :
    (bsigned bdot : Bool) (src text tail : Bytes) (pos : ℕ)
    → pos ≡ length text
    → length (kept bsigned bdot src) < length tail
    → pick_loop bsigned bdot src (text ++ tail) pos
      ≡ ok (
          in_array
            (text ++ kept bsigned bdot src)
            (drop (suc (length (kept bsigned bdot src))) tail))
unfolding pick_loop
pick_loop_lem bsigned bdot [] text tail pos p h =
    write_behind text tail (0 ∷ []) pos p (omega arith)
    ∙ ap {B = Result Bytes} (λ t. ok (t ++ (0 ∷ drop 1 tail))) (sym (append-nil text))
pick_loop_lem bsigned bdot (c ∷ cs) text tail pos p h =
    elim (Bool-cases (is_picked bsigned bdot c)) [
      | inr other ↦
          rw (other, pick_loop) (pick_loop_lem bsigned bdot cs text tail pos p (rw other at h))
      | inl fits ↦
          let room : suc (length (kept bsigned bdot cs)) < length tail = rw fits at h in
          let text' = text ++ (c ∷ []) in
          rw (fits, pick_loop)
            (bind_ok _ (write_one text tail c pos p (omega arith))
              ∙ pick_loop_lem bsigned bdot cs text' (drop 1 tail) (pos + 1)
                  (omega (arith, length-append text (c ∷ []))) (omega (arith, length-drop 1 tail))
              ∙ ap₂ {C = Result Bytes} (λ a b. ok (in_array a b))
                  (append_assoc text (c ∷ []) (kept bsigned bdot cs))
                  (drop-drop 1 (suc (length (kept bsigned bdot cs))) tail
                    ∙ ap (λ m. drop m tail) {y = suc (suc (length (kept bsigned bdot cs)))}
                        (omega arith)))
    ]
