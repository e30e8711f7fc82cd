-- ===== src/Http/Request/Scan.antt =====
-- The scan of a form in src/httprequest.cpp: its places, its end and its faults.
use idc.Prelude.{
  Bytes, ℕ, zero, suc, ◌+◌, ◌-◌, ◌≤◌, ◌<◌, ◌≡◌, refl, ap, ◌∙◌, inl, inr, not, ◌&&◌, [], ◌∷◌, Result,
  ok, fault, ◌>>=◌, out_of_range, arith, ltb, ◌==◌, Bool-cases, length, length-set, get_or, le→leb,
  ltb→lt, tests, take, drop,
}
use idc.Text.{Dict, substr, contains}
use idc.Http.Request.Form.{
  Scan, decode_percent, scan_step, scan, finish_form, parse_from_urlencoded,
}

-- `j` is at most `i`, and `i` is in a text of length `n` or at its end.
pub record IsScan (n : ℕ) (s : Scan) : Type 0 where
  pub ordered : s.j ≤ s.i
  pub within : s.i ≤ n
  pub size : length s.text ≡ n

-- Either the code returns a value that satisfies `P`, or it accesses memory behind a string, which is
-- another fault than the exception of substr.
abbrev pub Guarded {ℓ} : {A : Type ℓ} → (A → Type 0) → Result A → Type 0
Guarded P (ok a) = P a
Guarded P (fault e) = e ≡ out_of_range

pub Guarded-bind {ℓ κ} :
    {A : Type ℓ} {B : Type κ} (P : A → Type 0) (Q : B → Type 0) (m : Result A) (f : A → Result B)
    → Guarded P m
    → ((a : A) → P a → Guarded Q (f a))
    → Guarded Q (m >>= f)
Guarded-bind P Q (ok a) f h k = k a h
Guarded-bind P Q (fault e) f h k = h

pub Guarded-mono {ℓ} :
    {A : Type ℓ} (P Q : A → Type 0) (m : Result A)
    → Guarded P m
    → ((a : A) → P a → Q a)
    → Guarded Q m
Guarded-mono P Q (ok a) h k = k a h
Guarded-mono P Q (fault e) h k = h

pub substr_ok : (s : Bytes) (p n : ℕ) → p ≤ length s → substr s p n ≡ ok (take n (drop p s))
unfolding substr
substr_ok s p n h = rw (le→leb p (length s) h)

-- A round moves on and keeps the order.
abbrev pub Advances : ℕ → ℕ → Scan → Type 0
Advances n i t = IsScan n t × (i < t.i)

decode_percent-Guarded :
    (text : Bytes) (i : ℕ)
    → Guarded
        (λ text'. (length text' ≡ length text) × (i + 2 < length text))
        (decode_percent text i)
unfolding decode_percent
decode_percent-Guarded text i = elim (Bool-cases (ltb (i + 2) (length text))) [
  | inl inside ↦ rw inside (length-set _ (i + 1) _ ∙ length-set text (i + 2) _, ltb→lt _ _ inside)
  | inr outside ↦ rw outside refl
]

pub scan_step-Guarded :
    (n : ℕ) (s : Scan) → IsScan n s → s.i < n → Guarded (Advances n s.i) (scan_step s)
unfolding scan_step
scan_step-Guarded n s v h =
    let text = s.text in
    let here = get_or text s.i 0 in
    let cut = substr_ok text s.j (s.i - s.j) (omega arith) in
    elim (Bool-cases (here == b'=')) [
      | inl is_key ↦
          rw (is_key, cut)
            (record { ordered = omega arith; within = omega arith; size = v.size }, omega arith)
      | inr c1 ↦ rw c1 (elim (Bool-cases (here == b'+')) [
        | inl is_plus ↦ rw is_plus (
          record {
            ordered = omega arith;
            within = omega arith;
            size = length-set text s.i b' ' ∙ v.size;
          },
          omega arith,
        )
        | inr c2 ↦ rw c2 (elim (Bool-cases (here == b'%')) [
          | inl is_percent ↦ rw is_percent (
              Guarded-bind _ (λ t. IsScan n t × (s.i < t.i)) (decode_percent text s.i) _
                (decode_percent-Guarded text s.i)
                λ text' e. (
                  record { ordered = omega arith; within = omega arith; size = e.0 ∙ v.size },
                  omega arith,
                ))
          | inr c3 ↦ rw c3 (elim (Bool-cases (here == b'&')) [
            | inl is_end ↦
                rw (is_end, cut)
                  (
                    record { ordered = omega arith; within = omega arith; size = v.size },
                    omega arith,
                  )
            | inr c4 ↦
                rw c4 (
                  record { ordered = omega arith; within = omega arith; size = v.size },
                  omega arith,
                )
          ])
        ])
      ])
    ]

pub scan-Guarded :
    (fuel n : ℕ) (s : Scan)
    → IsScan n s
    → n - s.i < fuel
    → Guarded (λ t. IsScan n t × (t.i ≡ n)) (scan fuel n s)
unfolding scan
scan-Guarded zero n s v h = absurd (omega arith)
scan-Guarded (suc fuel) n s v h = elim (Bool-cases (ltb s.i n)) [
  | inl inside ↦
      rw (inside, scan)
        (Guarded-bind (λ t. IsScan n t × (s.i < t.i)) (λ t. IsScan n t × (t.i ≡ n)) (scan_step s)
          (λ next. scan fuel n next) (scan_step-Guarded n s v (omega (tests, inside)))
          λ t a. scan-Guarded fuel n t a.0 (omega (tests, a, inside)))
  | inr done ↦ rw (done, scan) (v, ground arith)
]

pub finish_form-ok :
    (n : ℕ) (s : Scan) → IsScan n s → (r : Bytes × Dict) × (finish_form s ≡ ok r) × (r.0 ≡ s.text)
unfolding finish_form
finish_form-ok n s v =
    let cut = substr_ok s.text s.j (s.i - s.j) (omega arith) in
    rw (le→leb s.j s.i v.ordered) (elim (Bool-cases (not (contains s.key s.post) && ltb s.j s.i)) [
      | inl more ↦ rw (more, cut) (_, refl, refl)
      | inr none_left ↦ rw none_left (_, refl, refl)
    ])

-- On any body and any fields the scan of the form ends; its assertion does not fail, substr throws no
-- exception for a position behind the body, and the only fault left is an access at or behind the end of
-- the body. The body that it rewrites keeps its length.
pub parse_from_urlencoded-Guarded :
    (text : Bytes) (post : Dict)
    → Guarded (λ r. length r.0 ≡ length text) (parse_from_urlencoded text post)
unfolding parse_from_urlencoded
parse_from_urlencoded-Guarded [] post = refl
parse_from_urlencoded-Guarded (c ∷ cs) post =
    let text = c ∷ cs in
    let n = length text in
    let start : Scan = record { text = text; i = 0; j = 0; key = []; post = post } in
    Guarded-bind (λ t. IsScan n t × (t.i ≡ n)) (λ r. length r.0 ≡ n) (scan (suc n) n start)
      finish_form
      (scan-Guarded (suc n) n start
        (record { ordered = omega arith; within = omega arith; size = refl }) (omega arith))
      λ t v. let (r, e, same) = finish_form-ok n t v.0 in rw e (ap length same ∙ v.0.size)
