-- ===== src/Text/Decimal.antt =====
-- std::to_string, and how a decimal number is read.
use idc.Prelude.{
  Bytes, ℕ, zero, suc, ◌+◌, ◌-◌, ◌*◌, ◌/◌, ◌%◌, ◌<◌, ◌≡◌, ◌∙◌, refl, inl, inr, [], ◌∷◌, ◌++◌, true,
  false, ltb, Bool-cases, arith, ℤ, pos, negsuc,
}

-- `fuel` above the number is enough: every digit divides it by ten.
unfoldable pub digits : ℕ → ℕ → Bytes
digits zero n = []
digits (suc fuel) n = elim (ltb n 10) [
  | true ↦ (b'0' + n) ∷ []
  | false ↦ digits fuel (n / 10) ++ ((b'0' + n % 10) ∷ [])
]

unfoldable pub to_string : ℤ → Bytes
unfolding digits
to_string (pos n) = digits (suc n) n
to_string (negsuc n) = b'-' ∷ digits (suc (suc n)) (suc n)

-- The number that decimal digits stand for, behind those that make `acc`.
abbrev pub number_from : ℕ → Bytes → ℕ
number_from acc [] = acc
number_from acc (c ∷ cs) = number_from (acc * 10 + (c - b'0')) cs

number_from-append :
    (acc : ℕ) (xs : Bytes) (c : ℕ)
    → number_from acc (xs ++ (c ∷ [])) ≡ number_from acc xs * 10 + (c - b'0')
number_from-append acc [] c = refl
number_from-append acc (x ∷ xs) c = number_from-append (acc * 10 + (x - b'0')) xs c

number_from-digits : (fuel n : ℕ) → n < fuel → number_from 0 (digits fuel n) ≡ n
unfolding digits
number_from-digits zero n h = absurd (omega arith)
number_from-digits (suc fuel) n h = elim (Bool-cases (ltb n 10)) [
  | inl one ↦ rw (one, digits) (omega arith)
  | inr more ↦
      rw (more, digits)
        (number_from-append 0 (digits fuel (n / 10)) (b'0' + n % 10)
          ∙ omega (arith, number_from-digits fuel (n / 10) (ground arith)))
]

-- The decimal text of a number that is not negative reads back as that number.
pub number_from-to_string : (n : ℕ) → number_from 0 (to_string (pos n)) ≡ n
unfolding to_string
number_from-to_string n = number_from-digits (suc n) n (omega arith)
