-- ===== src/Timer/Order.antt =====
-- The order of the timer set in src/timer.cpp, for insert, find and erase.
use idc.Prelude.{
  ℕ, ◌≡◌, ◌≢◌, refl, ap, inl, inr, Bool, true, false, not, ◌&&◌, ◌||◌, List, [], ◌∷◌, arith, ◌==◌,
  ==_iff, Bool-cases,
}
use idc.Timer.{Timer, update, comparator, before, insert, find, erase}

abbrev pub mem : ℕ → List ℕ → Bool
mem p [] = false
mem p (q ∷ qs) = q == p || mem p qs

-- `p` comes before all of the list.
abbrev pub Leads : (ℕ → Timer) → ℕ → List ℕ → Type 0
Leads heap p [] = Unit {0}
Leads heap p (q ∷ qs) = (before heap p q ≡ true) × Leads heap p qs

abbrev pub Sorted : (ℕ → Timer) → List ℕ → Type 0
Sorted heap [] = Unit {0}
Sorted heap (q ∷ qs) = Leads heap q qs × Sorted heap qs

module _ (heap : ℕ → Timer) where
  pub before_trans :
      (p q r : ℕ) → before heap p q ≡ true → before heap q r ≡ true → before heap p r ≡ true
  unfolding comparator
  before_trans p q r h k = ground arith

  pub before_irrefl : (p : ℕ) → before heap p p ≡ false
  unfolding comparator
  before_irrefl p = ground arith

  pub before-asymm : (p q : ℕ) → before heap p q ≡ true → before heap q p ≡ false
  unfolding comparator
  before-asymm p q h = ground arith

  -- Two timers are never equivalent.
  pub before-total : (p q : ℕ) → p ≢ q → before heap p q ≡ false → before heap q p ≡ true
  unfolding comparator
  before-total p q ne h = ground arith

  pub Leads-mono :
      (p q : ℕ) (qs : List ℕ) → before heap p q ≡ true → Leads heap q qs → Leads heap p qs
  Leads-mono p q [] h l = tt
  Leads-mono p q (r ∷ qs) h l = (before_trans p q r h l.0, Leads-mono p q qs h l.1)

  pub Leads-mem : (p : ℕ) (qs : List ℕ) → Leads heap p qs → mem p qs ≡ false
  Leads-mem p [] l = refl
  Leads-mem p (q ∷ qs) l = ground (arith, Leads-mem p qs l.1, before_irrefl p)

  pub Leads-before :
      (p q : ℕ) (qs : List ℕ) → Leads heap q qs → mem p qs ≡ true → before heap q p ≡ true
  Leads-before p q [] l h = cc
  Leads-before p q (r ∷ qs) l h = ground (arith, Leads-before p q qs l.1)

  pub find-mem : (p : ℕ) (qs : List ℕ) → Sorted heap qs → find heap p qs ≡ mem p qs
  unfolding find
  find-mem p [] s = refl
  find-mem p (q ∷ qs) s =
      let later = λ (h : before heap p q ≡ true). Leads-mem p qs (Leads-mono p q qs h s.0) in
      ground (arith, find-mem p qs s.1, before_irrefl p, before-total q p, later)

  Leads-insert :
      (p q : ℕ) (qs : List ℕ)
      → before heap q p ≡ true
      → Leads heap q qs
      → Leads heap q (insert heap p qs)
  unfolding insert
  Leads-insert p q [] h l = (h, tt)
  Leads-insert p q (r ∷ qs) h l = ground (arith, Leads-insert p q qs h l.1)

  pub insert-Sorted :
      (p : ℕ) (qs : List ℕ) → mem p qs ≡ false → Sorted heap qs → Sorted heap (insert heap p qs)
  unfolding insert
  insert-Sorted p [] n s = (tt, tt)
  insert-Sorted p (q ∷ qs) n s =
      ground (arith, insert-Sorted p qs, Leads-insert p q qs, Leads-mono p q qs, before-total q p)

  pub mem-insert :
      (p r : ℕ) (qs : List ℕ) → mem p qs ≡ false → mem r (insert heap p qs) ≡ (p == r || mem r qs)
  unfolding insert
  mem-insert p r [] n = refl
  mem-insert p r (q ∷ qs) n = ground (arith, mem-insert p r qs, before-total q p)

  pub Leads-erase : (p q : ℕ) (qs : List ℕ) → Leads heap q qs → Leads heap q (erase heap p qs)
  unfolding erase
  Leads-erase p q [] l = tt
  Leads-erase p q (r ∷ qs) l = ground (arith, Leads-erase p q qs l.1)

  pub erase-Sorted : (p : ℕ) (qs : List ℕ) → Sorted heap qs → Sorted heap (erase heap p qs)
  unfolding erase
  erase-Sorted p [] s = tt
  erase-Sorted p (q ∷ qs) s = ground (arith, erase-Sorted p qs s.1, Leads-erase p q qs s.0)

  -- `erase` takes out the timer, which is there, and no other.
  pub mem-erase :
      (p r : ℕ) (qs : List ℕ)
      → Sorted heap qs
      → mem p qs ≡ true
      → mem r (erase heap p qs) ≡ (mem r qs && not (p == r))
  unfolding erase
  mem-erase p r [] s h = cc
  mem-erase p r (q ∷ qs) s h =
      ground
        (arith, mem-erase p r qs s.1, Leads-before p q qs s.0, Leads-mem q qs s.0, before_irrefl q)

module _ (heap heap' : ℕ → Timer) where
  Leads-cong :
      (p : ℕ) (qs : List ℕ)
      → ((q : ℕ) → (p == q || mem q qs) ≡ true → (heap' q).next ≡ (heap q).next)
      → Leads heap p qs
      → Leads heap' p qs
  unfolding comparator
  Leads-cong p [] h l = tt
  Leads-cong p (q ∷ qs) h l =
      (ground (arith, h p, h q), Leads-cong p qs (λ r m. h r (ground arith)) l.1)

  -- The order sees the expiry times alone.
  pub Sorted-cong :
      (qs : List ℕ)
      → ((q : ℕ) → mem q qs ≡ true → (heap' q).next ≡ (heap q).next)
      → Sorted heap qs
      → Sorted heap' qs
  Sorted-cong [] h s = tt
  Sorted-cong (q ∷ qs) h s = (
    Leads-cong q qs (λ r m. h r (ground arith)) s.0,
    Sorted-cong qs (λ r m. h r (ground arith)) s.1,
  )

pub Sorted-update :
    (heap : ℕ → Timer) (p : ℕ) (t : Timer) (qs : List ℕ)
    → mem p qs ≡ false
    → Sorted heap qs
    → Sorted (update heap p t) qs
Sorted-update heap p t qs h s =
    Sorted-cong heap (update heap p t) qs
      (λ q m. elim (Bool-cases (p == q)) [
        | inl same ↦ cc (ap (λ x. mem x qs) ((==_iff p q).0 same))
        | inr other ↦ rw other
      ])
      s
