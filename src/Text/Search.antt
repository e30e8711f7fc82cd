-- ===== src/Text/Search.antt =====
-- Where the searches over byte strings find what they look for.
use idc.Prelude.{
  Bytes, ℕ, ◌+◌, ◌≤◌, ◌≡◌, none, refl, ◌↔◌, ◌⊎◌, inl, inr, true, false, ◌||◌, [], ◌∷◌, ◌++◌, some,
  Option-cases, ok, arith, ◌==◌, Bool-cases, length, length-append, get_or, take-append_left,
  drop-append_right, take-all, le→leb,
}
use idc.Text.{equal, has, split_at, strip_prefix, find_crlf, substr}

pub equal_iff : (a b : Bytes) → (equal a b ≡ true) ↔ (a ≡ b)
unfolding equal
equal_iff [] [] = (λ h. refl, λ h. refl)
equal_iff [] (y ∷ b) = ground arith
equal_iff (x ∷ a) [] = ground arith
equal_iff (x ∷ a) (y ∷ b) = ground (arith, equal_iff a b)

pub equal_refl : (a : Bytes) → equal a a ≡ true
equal_refl a = (equal_iff a a).1 refl

pub has-append : (c : ℕ) (a b : Bytes) → has c (a ++ b) ≡ (has c a || has c b)
has-append c [] b = refl
has-append c (x ∷ a) b = ground (arith, has-append c a b)

pub split_at-append :
    (c : ℕ) (l r : Bytes) → has c l ≡ false → split_at c (l ++ (c ∷ r)) ≡ some (l, r)
unfolding split_at
split_at-append c [] r h = ground arith
split_at-append c (x ∷ l) r h = ground (arith, split_at-append c l r)

pub split_at_absent : (c : ℕ) (s : Bytes) → has c s ≡ false → split_at c s ≡ none
unfolding split_at
split_at_absent c [] h = refl
split_at_absent c (x ∷ s) h = ground (arith, split_at_absent c s)

pub split_at_sound :
    (c : ℕ) (s : Bytes) {l r : Bytes}
    → split_at c s ≡ some (l, r)
    → (s ≡ l ++ (c ∷ r)) × (has c l ≡ false)
unfolding split_at
split_at_sound c [] e = cc
split_at_sound c (x ∷ s) {l} {r} e = elim (Bool-cases (x == c)) [
  | inl hit ↦ ground arith
  | inr miss ↦ elim (Option-cases (split_at c s)) [
    | inl off ↦ cc (rw (miss, off, split_at) at e)
    | inr ((l', r'), on) ↦ let ih = split_at_sound c s on in ground arith
  ]
]

pub strip_prefix-append : (p s : Bytes) → strip_prefix p (p ++ s) ≡ some s
unfolding strip_prefix
strip_prefix-append [] s = refl
strip_prefix-append (x ∷ p) s = ground (arith, strip_prefix-append p s)

pub strip_prefix_sound : (p s : Bytes) {r : Bytes} → strip_prefix p s ≡ some r → s ≡ p ++ r
unfolding strip_prefix
strip_prefix_sound [] s e = ground arith
strip_prefix_sound (x ∷ p) [] e = cc
strip_prefix_sound (x ∷ p) (c ∷ s) {r} e =
    ground (arith, λ (h : strip_prefix p s ≡ some r). strip_prefix_sound p s h)

-- The first line end stands behind the first text that has no carriage return.
pub find_crlf-append :
    (l r : Bytes) → has b'\r' l ≡ false → find_crlf (l ++ (b'\r' ∷ b'\n' ∷ r)) ≡ length l
unfolding find_crlf
find_crlf-append [] r h = refl
find_crlf-append (x ∷ []) r h = ground arith
find_crlf-append (x ∷ y ∷ l) r h = ground (arith, find_crlf-append (y ∷ l) r)

pub find_crlf_none : (l : Bytes) → has b'\r' l ≡ false → find_crlf l ≡ length l
unfolding find_crlf
find_crlf_none [] h = refl
find_crlf_none (x ∷ []) h = refl
find_crlf_none (x ∷ y ∷ l) h = ground (arith, find_crlf_none (y ∷ l))

-- A line end that is found has its two bytes.
pub find_crlf_bound : (s : Bytes) → (find_crlf s ≡ length s) ⊎ (find_crlf s + 2 ≤ length s)
unfolding find_crlf
find_crlf_bound [] = inl refl
find_crlf_bound (x ∷ []) = inl refl
find_crlf_bound (x ∷ y ∷ s) = ground (arith, find_crlf_bound (y ∷ s))

pub get_or-append : (a b : Bytes) (c d : ℕ) → get_or (a ++ (c ∷ b)) (length a) d ≡ c
get_or-append [] b c d = refl
get_or-append (x ∷ a) b c d = get_or-append a b c d

pub substr-append : (a w b : Bytes) → substr (a ++ (w ++ b)) (length a) (length w) ≡ ok w
unfolding substr
substr-append a w b =
    rw
      (
        drop-append_right a (w ++ b) (length a) 0 (omega arith),
        take-append_left w b (length w) (omega arith),
        take-all (length w) w (omega arith),
      )
      (rw (le→leb (length a) (length (a ++ (w ++ b))) (omega (arith, length-append a (w ++ b)))))
