-- ===== src/Http/Request/FormText.antt =====
-- A form as text, for ParseFromUrlencoded_ of src/httprequest.cpp.
use idc.Prelude.{
  take, drop, drop-append_right, take-all, Bytes, ℕ, zero, suc, ◌+◌, ◌-◌, ◌<◌, ◌≡◌, refl, sym, ap,
  subst, ◌∙◌, inl, inr, true, false, not, ◌&&◌, [], ◌∷◌, ◌++◌, append_assoc, append-nil, ok, arith,
  if◌then◌else◌, ltb, Bool-cases, length, length-append, le→leb, le→ltb,
}
use idc.Text.{Dict, substr, assign, contains, is_empty}
use idc.Http.Request.Form.{Scan, scan, finish_form, parse_from_urlencoded}
use idc.Http.Request.Scan.{IsScan}
use idc.Http.Request.Fields.{
  Scans, here, more, Scans-trans, scan-Scans, is_plain, at, word-Scans, key_step, value_step,
  end_inside,
}
use idc.Http.Request.Written.{assign_all}

-- Fields joined by '&', the last one apart.
abbrev pub form_text : Dict → Bytes × Bytes → Bytes
form_text [] (key, value) = key ++ (b'=' ∷ value)
form_text ((k, v) ∷ fs) last = k ++ (b'=' ∷ (v ++ (b'&' ∷ form_text fs last)))

abbrev pub PlainFields : Dict → Type 0
PlainFields [] = Unit {0}
PlainFields ((k, v) ∷ fs) = (is_plain k ≡ true) × (is_plain v ≡ true) × PlainFields fs

module _ (text : Bytes) where
  -- From the start of a field to the start of its value.
  key-Scans :
      (a k b : Bytes) (i : ℕ) (key : Bytes) (post : Dict)
      → i ≡ length a
      → text ≡ a ++ (k ++ (b'=' ∷ b))
      → is_plain k ≡ true
      → Scans
          (length text)
          (at text i i key post)
          (at text (i + length k + 1) (i + length k + 1) k post)
  key-Scans a k b i key post p e h =
      Scans-trans (word-Scans text k a (b'=' ∷ b) i i key post p e h) (
        more (end_inside text a k b b'=' (i + length k) i p (omega arith) e)
          (key_step text a k b b'=' (i + length k) i p (omega arith) e key post refl) here)

  field-Scans :
      (a k v b : Bytes) (i : ℕ) (key : Bytes) (post : Dict)
      → i ≡ length a
      → text ≡ a ++ (k ++ (b'=' ∷ (v ++ (b'&' ∷ b))))
      → is_plain k ≡ true
      → is_plain v ≡ true
      → Scans (length text) (at text i i key post) (
          at text
            (i + length k + 1 + length v + 1)
            (i + length k + 1 + length v + 1)
            k
            (assign k v post))
  field-Scans a k v b i key post p e h l =
      let a1 = a ++ (k ++ (b'=' ∷ [])) in
      let i1 = i + length k + 1 in
      let p1 : i1 ≡ length a1 =
        omega (arith, p, length-append a (k ++ (b'=' ∷ [])), length-append k (b'=' ∷ [])) in
      let e1 : text ≡ a1 ++ (v ++ (b'&' ∷ b)) = e ∙ simp append_assoc in
      Scans-trans (key-Scans a k (v ++ (b'&' ∷ b)) i key post p e h) (
        Scans-trans (word-Scans text v a1 (b'&' ∷ b) i1 i1 k post p1 e1 l) (
          more (end_inside text a1 v b b'&' (i1 + length v) i1 p1 (omega arith) e1)
            (value_step text a1 v b b'&' (i1 + length v) i1 p1 (omega arith) e1 k post refl) here))

  last-Scans :
      (a k v : Bytes) (i : ℕ) (key : Bytes) (post : Dict)
      → i ≡ length a
      → text ≡ a ++ (k ++ (b'=' ∷ v))
      → is_plain k ≡ true
      → is_plain v ≡ true
      → Scans
          (length text)
          (at text i i key post)
          (at text (i + length k + 1 + length v) (i + length k + 1) k post)
  last-Scans a k v i key post p e h l =
      let a1 = a ++ (k ++ (b'=' ∷ [])) in
      let i1 = i + length k + 1 in
      let p1 : i1 ≡ length a1 =
        omega (arith, p, length-append a (k ++ (b'=' ∷ [])), length-append k (b'=' ∷ [])) in
      let e1 : text ≡ a1 ++ (v ++ []) = e ∙ simp (append_assoc, append-nil) in
      Scans-trans (key-Scans a k v i key post p e h) (word-Scans text v a1 [] i1 i1 k post p1 e1 l)

  -- The loop comes to the end of the text, with the last key, the place of the last value and the
  -- fields before it.
  form-Scans :
      (fs : Dict) (k v a : Bytes) (i : ℕ) (key : Bytes) (post : Dict)
      → i ≡ length a
      → text ≡ a ++ form_text fs (k, v)
      → PlainFields fs
      → is_plain k ≡ true
      → is_plain v ≡ true
      → (b : Bytes) × (text ≡ b ++ v)
        × Scans
            (length text)
            (at text i i key post)
            (at text (length text) (length b) k (assign_all fs post))
  form-Scans [] k v a i key post p e w h l =
      let b = a ++ (k ++ (b'=' ∷ [])) in
      let split : text ≡ b ++ v = e ∙ simp append_assoc in
      let p1 : i + length k + 1 ≡ length b =
        omega (arith, p, length-append a (k ++ (b'=' ∷ [])), length-append k (b'=' ∷ [])) in
      let p2 : i + length k + 1 + length v ≡ length text =
        omega (arith, p1, ap length split, length-append b v) in
      (
        b,
        split,
        subst (λ m. Scans (length text) (at text i i key post) (at text (length text) m k post)) p1
            (subst
              (λ m.
                Scans (length text) (at text i i key post) (at text m (i + length k + 1) k post))
              p2 (last-Scans a k v i key post p e h l)),
      )
  form-Scans ((k', v') ∷ fs) k v a i key post p e w h l =
      let a1 = a ++ (k' ++ (b'=' ∷ (v' ++ (b'&' ∷ [])))) in
      let i1 = i + length k' + 1 + length v' + 1 in
      let p1 : i1 ≡ length a1 = omega (
        arith,
        p,
        length-append a (k' ++ (b'=' ∷ (v' ++ (b'&' ∷ [])))),
        length-append k' (b'=' ∷ (v' ++ (b'&' ∷ []))),
        length-append v' (b'&' ∷ []),
      ) in
      let e1 : text ≡ a1 ++ form_text fs (k, v) = e ∙ simp append_assoc in
      let (b, split, later) = form-Scans fs k v a1 i1 k' (assign k' v' post) p1 e1 w.2 h l in
      (
        b,
        split,
        Scans-trans (field-Scans a k' v' (form_text fs (k, v)) i key post p e w.0 w.1) later,
      )

-- What the last field adds to the others: nothing if its key is there already or its value is empty.
abbrev pub add_last : Bytes × Bytes → Dict → Dict
add_last (k, v) m = if not (contains k m) && not (is_empty v) then assign k v m else m

ltb-append : (b v : Bytes) → ltb (length b) (length (b ++ v)) ≡ not (is_empty v)
ltb-append b [] = rw append-nil (ground arith)
ltb-append b (c ∷ v) = ground (arith, length-append b (c ∷ v))

tail_cut : (b v : Bytes) → take (length (b ++ v) - length b) (drop (length b) (b ++ v)) ≡ v
tail_cut b v =
    ap (take (length (b ++ v) - length b)) (drop-append_right b v (length b) 0 (omega arith))
    ∙ take-all (length (b ++ v) - length b) v (omega (arith, length-append b v))

finish_form-last :
    (b v k : Bytes) (m : Dict)
    → finish_form (at (b ++ v) (length (b ++ v)) (length b) k m) ≡ ok (b ++ v, add_last (k, v) m)
unfolding finish_form substr
finish_form-last b v k m =
    let inside = le→leb (length b) (length (b ++ v)) (omega (arith, length-append b v)) in
    rw inside (
      rw (ltb-append b v) (elim (Bool-cases (not (contains k m) && not (is_empty v))) [
        | inl adds ↦ rw adds (rw (tail_cut b v))
        | inr drops ↦ rw drops
      ]))

scan_stops : (left n : ℕ) (s : Scan) → s.i ≡ n → 0 < left → scan left n s ≡ ok s
unfolding scan
scan_stops zero n s e h = absurd (omega arith)
scan_stops (suc left) n s e h = rw (le→ltb s.i n (omega (arith, e)), scan)

scan_reaches : {n : ℕ} {s u : Scan} → Scans n s u → IsScan n s → u.i ≡ n → scan (suc n) n s ≡ ok u
scan_reaches {n} {s} {u} steps v e =
    let r = scan-Scans (suc n) steps v (omega arith) in
    r.1 ∙ scan_stops r.0 n u e (omega (arith, r.2))

form_text-ne : (fs : Dict) (last : Bytes × Bytes) → is_empty (form_text fs last) ≡ false
form_text-ne [] ([], v) = refl
form_text-ne [] (c ∷ k, v) = refl
form_text-ne (([], v) ∷ fs) last = refl
form_text-ne ((c ∷ k, v) ∷ fs) last = refl

-- A form of fields without '=', '+', '%' and '&' is read as written: every field but the last is
-- assigned in order, the last one only if its key is new and its value is not empty, and the text
-- stays as it was.
pub parse-form_text :
    (fs : Dict) (k v : Bytes) (post : Dict)
    → PlainFields fs
    → is_plain k ≡ true
    → is_plain v ≡ true
    → parse_from_urlencoded (form_text fs (k, v)) post
      ≡ ok (form_text fs (k, v), add_last (k, v) (assign_all fs post))
unfolding parse_from_urlencoded
parse-form_text fs k v post w h l =
    let text = form_text fs (k, v) in
    let (b, split, steps) = form-Scans text fs k v [] 0 [] post refl refl w h l in
    let start : IsScan (length text) (at text 0 0 [] post) = record {
      ordered = omega arith;
      within = omega arith;
      size = refl;
    } in
    rw (form_text-ne fs (k, v)) (
      rw (scan_reaches steps start refl) (
        subst
          (λ t.
            finish_form (at t (length t) (length b) k (assign_all fs post))
            ≡ ok (t, add_last (k, v) (assign_all fs post)))
          (sym split) (finish_form-last b v k (assign_all fs post))))
