-- ===== src/Strings/Match/Ends.antt =====
-- MatchStr of src/_public.cpp: rules with one star.
use idc.Prelude.{
  Bytes, ℕ, ◌+◌, ◌-◌, ◌≡◌, refl, sym, ap, ◌∙◌, inl, inr, Bool, true, false, not, ◌&&◌, List, [],
  ◌∷◌, ◌++◌, append_assoc, append-nil, suc, none, some, Option, Option-cases, Result, ok, arith,
  length, length-append, drop, take-append_left, take-all, drop-append_right, ltb, ◌==◌,
}
use idc.Text.{strip_prefix, has, c_string}
use idc.Text.Search.{strip_prefix-append, equal_refl}
use idc.Strings.Fields.{find}
use idc.Strings.Match.{match_pieces, starts_with, ends_with, tail_test}

-- A text that stands at the end is found.
find_at_end : (q w : Bytes) → (k : ℕ) × (find q (w ++ q) ≡ some k)
unfolding find strip_prefix
find_at_end [] [] = (0, refl)
find_at_end (c ∷ q) [] =
    let same : (c == c) ≡ true = ground arith in
    (0, rw (same, rw (append-nil q) at (strip_prefix-append q []), find) refl)
find_at_end q (x ∷ w) = elim (Option-cases (strip_prefix q (x ∷ (w ++ q)))) [
  | inr (r, e) ↦ (0, rw (e, find) refl)
  | inl e ↦ let (k, later) = find_at_end q w in (suc k, rw (e, later, find) refl)
]

c_string_all : (s : Bytes) → has 0 s ≡ false → c_string s ≡ s
unfolding c_string
c_string_all [] h = refl
c_string_all (c ∷ s) h = ground (arith, c_string_all s)

find_at_start : (p r : Bytes) → find p (p ++ r) ≡ some 0
unfolding find strip_prefix
find_at_start [] [] = refl
find_at_start [] (c ∷ r) = refl
find_at_start (c ∷ p) r =
    let same : (c == c) ≡ true = ground arith in rw (same, strip_prefix-append p r, find) refl

starts_with-append :
    (p r : Bytes) → has 0 p ≡ false → has 0 (p ++ r) ≡ false → starts_with (p ++ r) p ≡ true
unfolding starts_with
starts_with-append p r clean whole =
    rw
      (
        c_string_all (p ++ r) whole,
        c_string_all p clean,
        take-append_left p r (length p) (omega arith),
        take-all (length p) p (omega arith),
      )
      (equal_refl p)

ends_with-append : (s q : Bytes) → has 0 q ≡ false → ends_with (s ++ q) q ≡ ok true
unfolding ends_with
ends_with-append s q clean =
    let long : ltb (length (s ++ q)) (length q) ≡ false = ground (arith, length-append s q) in
    rw
      (
        long,
        drop-append_right s q (length (s ++ q) - length q) 0 (omega (arith, length-append s q)),
        c_string_all q clean,
        equal_refl q,
      )
      refl

-- A piece that passes the tests of its place and is found.
piece_step :
    (first : Bool) (piece : Bytes) (pieces : List Bytes) (name : Bytes) (pos k : ℕ)
    → (first && not (starts_with name piece)) ≡ false
    → tail_test name piece pieces ≡ ok true
    → find piece (drop pos name) ≡ some k
    → match_pieces first (piece ∷ pieces) name pos
      ≡ match_pieces false pieces name (pos + k + length piece)
unfolding match_pieces
piece_step first piece pieces name pos k starts fits found =
    rw (starts, fits, match_pieces)
      (ap {B = Result Bool}
        (λ (place : Option ℕ). elim place [
          | none ↦ ok false
          | some k ↦ match_pieces false pieces name (pos + k + length piece)
        ])
        found)

-- A name without null characters matches a rule with one star if it starts with the text in front of the
-- star and ends with the one behind it, and these do not overlap.
pub match_pieces_two :
    (p w q : Bytes)
    → has 0 p ≡ false
    → has 0 q ≡ false
    → has 0 (p ++ (w ++ q)) ≡ false
    → match_pieces true (p ∷ q ∷ []) (p ++ (w ++ q)) 0 ≡ ok true
unfolding match_pieces tail_test
match_pieces_two p w q clean clean' whole =
    let (k, found) = find_at_end q w in
    let name = p ++ (w ++ q) in
    piece_step true p (q ∷ []) name 0 0 (rw (starts_with-append p (w ++ q) clean whole) refl) refl
      (find_at_start p (w ++ q))
    ∙ piece_step false q [] name (0 + 0 + length p) k refl
        (ap (λ name. ends_with name q) (sym (append_assoc p w q))
          ∙ ends_with-append (p ++ w) q clean')
        (ap (find q) (drop-append_right p (w ++ q) (0 + 0 + length p) 0 (omega arith)) ∙ found)

-- A rule without a star does not stand for itself alone: a name that begins and ends with it matches.
pub match_pieces_doubled :
    (p w : Bytes)
    → has 0 p ≡ false
    → has 0 (p ++ (w ++ p)) ≡ false
    → match_pieces true (p ∷ []) (p ++ (w ++ p)) 0 ≡ ok true
unfolding match_pieces tail_test
match_pieces_doubled p w clean whole =
    piece_step true p [] (p ++ (w ++ p)) 0 0 (rw (starts_with-append p (w ++ p) clean whole) refl)
      (ap (λ name. ends_with name p) (sym (append_assoc p w p)) ∙ ends_with-append (p ++ w) p clean)
      (find_at_start p (w ++ p))
