-- ===== src/Http/Request/Fields.antt =====
-- What the scan of src/httprequest.cpp makes of a form that a client writes.
use idc.Prelude.{
  Bytes, ℕ, zero, suc, ◌+◌, ◌-◌, ◌<◌, ◌≡◌, refl, sym, ap, subst, ◌∙◌, Bool, true, false, not, ◌&&◌,
  ◌||◌, [], ◌∷◌, ◌++◌, append_assoc, ok, arith, ◌==◌, length, length-append, get_or, lt→ltb,
}
use idc.Text.{Dict, substr, assign}
use idc.Text.Search.{get_or-append, substr-append}
use idc.Http.Request.Form.{Scan, scan_step, scan}
use idc.Http.Request.Scan.{IsScan, Advances, Guarded, scan_step-Guarded}

-- Rounds of the loop, from one state to another.
pub data Scans (n : ℕ) : Scan → Scan → Type 0 where
  here : {s : Scan} → Scans n s s
  more : {s t u : Scan} → s.i < n → scan_step s ≡ ok t → Scans n t u → Scans n s u

pub Scans-trans : {n : ℕ} {s t u : Scan} → Scans n s t → Scans n t u → Scans n s u
Scans-trans here b = b
Scans-trans (more h e a) b = more h e (Scans-trans a b)

step-Advances :
    (n : ℕ) (s t : Scan) → IsScan n s → s.i < n → scan_step s ≡ ok t → IsScan n t × (s.i < t.i)
step-Advances n s t v h e = subst (Guarded (Advances n s.i)) e (scan_step-Guarded n s v h)

-- The loop follows its rounds, whatever fuel above the bytes that are left it has.
pub scan-Scans :
    {n : ℕ} {s u : Scan} (fuel : ℕ)
    → Scans n s u
    → IsScan n s
    → n - s.i < fuel
    → (left : ℕ) × (scan fuel n s ≡ scan left n u) × (n - u.i < left) × IsScan n u
unfolding scan
scan-Scans fuel here v f = (fuel, refl, f, v)
scan-Scans zero (more h e later) v f = absurd (omega arith)
scan-Scans {n} {s} (suc fuel) (more {t} h e later) v f =
    let a = step-Advances n s t v h e in
    let (left, same, enough, w) = scan-Scans fuel later a.0 (omega (arith, a)) in
    (left, rw (lt→ltb s.i n h, scan) (rw e same), enough, w)

-- A byte that the loop passes over.
abbrev pub plain : ℕ → Bool
plain c = not (c == b'=' || c == b'+' || c == b'%' || c == b'&')

abbrev pub is_plain : Bytes → Bool
is_plain [] = true
is_plain (c ∷ cs) = plain c && is_plain cs

module _ (text : Bytes) where
  abbrev pub at : ℕ → ℕ → Bytes → Dict → Scan
  at i j key post = record { text = text; i = i; j = j; key = key; post = post }

  module _ (a b : Bytes) (c i : ℕ) (place : i ≡ length a) (e : text ≡ a ++ (c ∷ b)) where
    here_is : get_or text i 0 ≡ c
    here_is =
        ap (λ n. get_or text n 0) place ∙ ap (λ t. get_or t (length a) 0) e ∙ get_or-append a b c 0

    inside : i < length text
    inside = omega (arith, place, ap length e, length-append a (c ∷ b))

    plain_step :
        (j : ℕ) (key : Bytes) (post : Dict)
        → plain c ≡ true
        → scan_step (at i j key post) ≡ ok (at (i + 1) j key post)
    unfolding scan_step
    plain_step j key post p =
        let c1 : (c == b'=') ≡ false = ground arith in
        let c2 : (c == b'+') ≡ false = ground arith in
        let c3 : (c == b'%') ≡ false = ground arith in
        let c4 : (c == b'&') ≡ false = ground arith in rw here_is (rw c1 (rw c2 (rw c3 (rw c4))))

  pub word-Scans :
      (w a b : Bytes) (i j : ℕ) (key : Bytes) (post : Dict)
      → i ≡ length a
      → text ≡ a ++ (w ++ b)
      → is_plain w ≡ true
      → Scans (length text) (at i j key post) (at (i + length w) j key post)
  word-Scans [] a b i j key post p e h =
      subst (λ m. Scans (length text) (at i j key post) (at m j key post)) {y = i + 0} (omega arith)
        here
  word-Scans (c ∷ w) a b i j key post p e h =
      let rest =
        word-Scans w (a ++ (c ∷ [])) b (i + 1) j key post
          (omega (arith, p, length-append a (c ∷ []))) (e ∙ sym (append_assoc a (c ∷ []) (w ++ b)))
          (ground arith) in
      more (inside a (w ++ b) c i p e) (plain_step a (w ++ b) c i p e j key post (ground arith)) (
        subst (λ m. Scans (length text) (at (i + 1) j key post) (at m j key post)) (omega arith)
          rest)

  -- The text between the places `j` and `i` is `w`.
  module _ (a w b : Bytes) (c i j : ℕ) (from : j ≡ length a) (to : i ≡ length a + length w)
      (e : text ≡ a ++ (w ++ (c ∷ b))) where
    pub cut : substr text j (i - j) ≡ ok w
    cut =
        ap (λ n. substr text n (i - j)) from
        ∙ ap (λ n. substr text (length a) n) (omega arith)
        ∙ ap (λ t. substr t (length a) (length w)) e
        ∙ substr-append a w (c ∷ b)

    end_is : get_or text i 0 ≡ c
    end_is =
        here_is (a ++ w) b c i (omega (arith, length-append a w))
          (e ∙ sym (append_assoc a w (c ∷ b)))

    pub end_inside : i < length text
    end_inside =
        inside (a ++ w) b c i (omega (arith, length-append a w))
          (e ∙ sym (append_assoc a w (c ∷ b)))

    pub key_step :
        (key : Bytes) (post : Dict)
        → c ≡ b'='
        → scan_step (at i j key post) ≡ ok (at (i + 1) (i + 1) w post)
    unfolding scan_step
    key_step key post k = let c1 : (c == b'=') ≡ true = ground arith in rw end_is (rw c1 (rw cut))

    pub value_step :
        (key : Bytes) (post : Dict)
        → c ≡ b'&'
        → scan_step (at i j key post) ≡ ok (at (i + 1) (i + 1) key (assign key w post))
    unfolding scan_step
    value_step key post k =
        let c1 : (c == b'=') ≡ false = ground arith in
        let c2 : (c == b'+') ≡ false = ground arith in
        let c3 : (c == b'%') ≡ false = ground arith in
        let c4 : (c == b'&') ≡ true = ground arith in
        rw end_is (rw c1 (rw c2 (rw c3 (rw c4 (rw cut)))))
