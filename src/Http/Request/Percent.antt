-- ===== src/Http/Request/Percent.antt =====
-- The '%' case of ParseFromUrlencoded_ in src/httprequest.cpp.
use idc.Prelude.{
  Bytes, ℕ, zero, suc, ◌+◌, ◌-◌, ◌*◌, ◌/◌, ◌%◌, ◌≤◌, ◌<◌, ◌≡◌, refl, sym, ap, subst, ◌∙◌, inl, inr,
  false, [], ◌∷◌, ok, fault, out_of_range, arith, ◌==◌, Bool-cases, length, length-set, set, get_or,
  take, drop, le→ltb, lt→ltb, pos, ◌+ℤ◌, ◌*ℤ◌,
}
use idc.Text.{Dict, assign}
use idc.Http.Request.Form.{
  Scan, conver_hex, hex_number, digit_byte, decode_percent, scan_step, scan, parse_from_urlencoded,
}
use idc.Http.Request.Scan.{IsScan, substr_ok}
use idc.Http.Request.Fields.{Scans, here, more, scan-Scans}

conver_hex-digit : (a : ℕ) → a < 10 → conver_hex (b'0' + a) ≡ pos (b'0' + a)
unfolding conver_hex
conver_hex-digit a h = ground arith

hex_number-digits :
    (text : Bytes) (i a b : ℕ)
    → a < 10
    → b < 10
    → get_or text i 0 ≡ b'0' + a
    → get_or text (i + 1) 0 ≡ b'0' + b
    → hex_number text i ≡ pos (816 + 16 * a + b)
unfolding hex_number ◌+ℤ◌ ◌*ℤ◌
hex_number-digits text i a b h k p q =
    rw (p, q) (rw (conver_hex-digit a h, conver_hex-digit b k) (ground arith))

digit_byte-pos : (n : ℕ) → n < 200 → digit_byte (pos n) ≡ b'0' + n
unfolding digit_byte
digit_byte-pos n h = ground arith

-- For '%' and two decimal digits `a` and `b` inside the body, the code writes the last decimal digit
-- of 816 + 16 * a + b in place of the second one and 48 plus its other digits in place of the first,
-- not the byte 16 * a + b; the sign stays.
pub decode_percent-digits :
    (text : Bytes) (i a b : ℕ)
    → a < 10
    → b < 10
    → i + 2 < length text
    → get_or text (i + 1) 0 ≡ b'0' + a
    → get_or text (i + 1 + 1) 0 ≡ b'0' + b
    → decode_percent text i
      ≡ ok (
          set
            (set text (i + 2) (b'0' + (816 + 16 * a + b) % 10))
            (i + 1)
            (b'0' + (816 + 16 * a + b) / 10))
unfolding decode_percent
decode_percent-digits text i a b h k l p q = rw (lt→ltb (i + 2) (length text) l) (
    rw (hex_number-digits text (i + 1) a b h k p q) (
      rw (
        digit_byte-pos ((816 + 16 * a + b) % 10) (omega arith),
        digit_byte-pos ((816 + 16 * a + b) / 10) (omega arith),
      )))

get_or-set_ne : (xs : Bytes) (i k v : ℕ) → i < k → get_or (set xs i v) k 0 ≡ get_or xs k 0
get_or-set_ne [] i k v h = refl
get_or-set_ne (x ∷ xs) zero zero v h = absurd (omega arith)
get_or-set_ne (x ∷ xs) zero (suc k) v h = refl
get_or-set_ne (x ∷ xs) (suc i) zero v h = absurd (omega arith)
get_or-set_ne (x ∷ xs) (suc i) (suc k) v h = get_or-set_ne xs i k v (omega arith)

-- A round from `s` to `t` at a byte that is no '%'.
record Passed (n : ℕ) (s t : Scan) : Type 0 where
  valid : IsScan n t
  moved : t.i ≡ s.i + 1
  ahead : (k : ℕ) → s.i < k → get_or t.text k 0 ≡ get_or s.text k 0

pass :
    (n : ℕ) (s : Scan)
    → IsScan n s
    → s.i < n
    → (get_or s.text s.i 0 == b'%') ≡ false
    → (t : Scan) × (scan_step s ≡ ok t) × Passed n s t
unfolding scan_step
pass n s v h c3 =
    let here = get_or s.text s.i 0 in
    let cut = substr_ok s.text s.j (s.i - s.j) (omega (arith, v)) in
    elim (Bool-cases (here == b'=')) [
      | inl c1 ↦ (
        record s { i = s.i + 1; j = s.i + 1; key = take (s.i - s.j) (drop s.j s.text) },
        rw c1 (rw cut),
        record {
          valid = record { ordered = omega arith; within = omega arith; size = v.size };
          moved = refl;
          ahead = λ k _. refl;
        },
      )
      | inr c1 ↦ elim (Bool-cases (here == b'+')) [
        | inl c2 ↦ (
          record s { text = set s.text s.i b' '; i = s.i + 1 },
          rw c1 (rw c2),
          record {
            valid = record {
              ordered = omega arith;
              within = omega arith;
              size = length-set s.text s.i b' ' ∙ v.size;
            };
            moved = refl;
            ahead = λ k l. get_or-set_ne s.text s.i k b' ' l;
          },
        )
        | inr c2 ↦ elim (Bool-cases (here == b'&')) [
          | inl c4 ↦ (
            record s {
              i = s.i + 1;
              j = s.i + 1;
              post = assign s.key (take (s.i - s.j) (drop s.j s.text)) s.post;
            },
            rw c1 (rw c2 (rw c3 (rw c4 (rw cut)))),
            record {
              valid = record { ordered = omega arith; within = omega arith; size = v.size };
              moved = refl;
              ahead = λ k _. refl;
            },
          )
          | inr c4 ↦ (
            record s { i = s.i + 1 },
            rw c1 (rw c2 (rw c3 (rw c4))),
            record {
              valid = record { ordered = omega arith; within = omega arith; size = v.size };
              moved = refl;
              ahead = λ k _. refl;
            },
          )
        ]
      ]
    ]

-- No '%' stands from place `i` up to place `m`.
abbrev pub NoPercent : Bytes → ℕ → ℕ → Type 0
NoPercent text i m = (k : ℕ) → i ≤ k → k < m → (get_or text k 0 == b'%') ≡ false

-- The loop comes to place `m`, in front of which there is no '%', with the same bytes ahead.
record Reached (n m : ℕ) (s t : Scan) : Type 0 where
  valid : IsScan n t
  place : t.i ≡ m
  ahead : (k : ℕ) → m ≤ k → get_or t.text k 0 ≡ get_or s.text k 0
  steps : Scans n s t

reach :
    (d n m : ℕ) (s : Scan)
    → IsScan n s
    → s.i + d ≡ m
    → m ≤ n
    → NoPercent s.text s.i m
    → (t : Scan) × Reached n m s t
reach zero n m s v e h none_here =
    (s, record { valid = v; place = omega arith; ahead = λ k _. refl; steps = here })
reach (suc d) n m s v e h none_here =
    let (t, step, p) = pass n s v (omega arith) (none_here s.i (omega arith) (omega arith)) in
    let next : NoPercent t.text t.i m = λ k l u.
      subst (λ c. (c == b'%') ≡ false) (sym (p.ahead k (omega (arith, p))))
        (none_here k (omega (arith, p)) u) in
    let (u, r) = reach d n m t p.valid (omega (arith, p)) h next in
    (
      u,
      record {
        valid = r.valid;
        place = r.place;
        ahead = λ k l. r.ahead k l ∙ p.ahead k (omega arith);
        steps = more (omega arith) step r.steps;
      },
    )

percent_step :
    (s : Scan)
    → get_or s.text s.i 0 ≡ b'%'
    → length s.text ≤ s.i + 2
    → scan_step s ≡ fault out_of_range
unfolding scan_step decode_percent
percent_step s e h = rw e (rw (le→ltb (s.i + 2) (length s.text) h))

scan-fault :
    (left n : ℕ) (s : Scan)
    → 0 < left
    → s.i < n
    → scan_step s ≡ fault out_of_range
    → scan left n s ≡ fault out_of_range
unfolding scan
scan-fault zero n s l h e = absurd (omega arith)
scan-fault (suc left) n s l h e = rw (lt→ltb s.i n h, scan) (rw e)

-- A body whose first '%' is one of its last two bytes makes the code access memory behind it.
pub parse-truncated :
    (text : Bytes) (post : Dict) (m : ℕ)
    → NoPercent text 0 m
    → get_or text m 0 ≡ b'%'
    → m < length text
    → length text ≤ m + 2
    → parse_from_urlencoded text post ≡ fault out_of_range
unfolding parse_from_urlencoded
parse-truncated [] post m h e k l = absurd (omega arith)
parse-truncated (c ∷ cs) post m h e k l =
    let text = c ∷ cs in
    let n = length text in
    let start : Scan = record { text = text; i = 0; j = 0; key = []; post = post } in
    let v : IsScan n start = record { ordered = omega arith; within = omega arith; size = refl } in
    let (t, r) = reach m n m start v (omega arith) (omega arith) h in
    let ran = scan-Scans (suc n) r.steps v (omega arith) in
    let here_percent : get_or t.text t.i 0 ≡ b'%' =
      ap (λ k. get_or t.text k 0) r.place ∙ r.ahead m (omega arith) ∙ e in
    let stops = percent_step t here_percent (omega (arith, r, r.valid)) in
    rw (ran.1 ∙ scan-fault ran.0 n t (omega (arith, ran.2)) (omega (arith, r)) stops)
