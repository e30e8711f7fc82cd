-- ===== src/Timer/Expiry.antt =====
-- Which timers TimerManager::listExpiredCb of src/timer.cpp takes out of the set, and what
-- getNextTimer promises.
use idc.Prelude.{
  ℕ, suc, ◌+◌, ◌≤◌, ◌<◌, ◌≡◌, refl, ap, ap₂, subst, ◌-◌, ◌⊎◌, inl, inr, Bool, true, false, List, [],
  ◌∷◌, ◌++◌, arith, if◌then◌else◌, ltb, leb, ◌==◌, ==_iff, Bool-cases, sub64, u64_mod,
}
use idc.Timer.{
  Timer, TimerManager, update, comparator, before, lower_bound, skip_equal, expired_range,
  get_next_timer,
}
use idc.Timer.Order.{mem, Leads, Sorted, Leads-before}
use idc.Timer.Invariant.{IsValid}

abbrev pub select : (ℕ → Bool) → List ℕ → List ℕ
select test [] = []
select test (q ∷ qs) = if test q then q ∷ select test qs else select test qs

abbrev pub due : (ℕ → Timer) → ℕ → ℕ → Bool
due heap now q = leb (heap q).next now

abbrev pub later : (ℕ → Timer) → ℕ → ℕ → Bool
later heap now q = ltb now (heap q).next

-- All expire at `t` or after.
abbrev From : (ℕ → Timer) → ℕ → List ℕ → Type 0
From heap t [] = Unit {0}
From heap t (q ∷ qs) = (t ≤ (heap q).next) × From heap t qs

module _ (heap : ℕ → Timer) where
  pub before-le : (p q : ℕ) → before heap p q ≡ true → (heap p).next ≤ (heap q).next
  unfolding comparator
  before-le p q h = ground arith

  Leads-From : (p t : ℕ) (qs : List ℕ) → t ≤ (heap p).next → Leads heap p qs → From heap t qs
  Leads-From p t [] h l = tt
  Leads-From p t (q ∷ qs) h l = (ground (arith, before-le p q l.0), Leads-From p t qs h l.1)

  From-select :
      (now : ℕ) (qs : List ℕ)
      → From heap (suc now) qs
      → (select (due heap now) qs ≡ []) × (select (later heap now) qs ≡ qs)
  From-select now [] f = (refl, refl)
  From-select now (q ∷ qs) f = ground (arith, From-select now qs f.1)

  skip_equal-select :
      (now : ℕ) (qs : List ℕ)
      → Sorted heap qs
      → From heap now qs
      → ((skip_equal heap now qs).0 ≡ select (due heap now) qs)
        × ((skip_equal heap now qs).1 ≡ select (later heap now) qs)
  unfolding skip_equal
  skip_equal-select now [] s f = (refl, refl)
  skip_equal-select now (q ∷ qs) s f = elim (Bool-cases ((heap q).next == now)) [
    | inl same ↦ ground (arith, skip_equal-select now qs s.1 f.1)
    | inr other ↦
        let above : suc now ≤ (heap q).next = ground arith in
        ground (arith, From-select now qs (Leads-From q (suc now) qs above s.0))
  ]

  module _ (probe now : ℕ) (t : Timer) (expires : t.next ≡ now) where
    -- Where `q` stands against now_timer says which of the two expires first.
    probe_key :
        (q : ℕ)
        → (q == probe) ≡ false
        → (before (update heap probe t) q probe ≡ true → (heap q).next ≤ now)
          × (before (update heap probe t) q probe ≡ false → now ≤ (heap q).next)
    unfolding comparator
    probe_key q n = (λ h. ground arith, λ h. ground arith)

    lower_bound-select :
        (qs : List ℕ)
        → Sorted heap qs
        → mem probe qs ≡ false
        → let (l, r) = lower_bound (update heap probe t) probe qs in
          (l ++ (skip_equal heap now r).0 ≡ select (due heap now) qs)
          × ((skip_equal heap now r).1 ≡ select (later heap now) qs)
    unfolding lower_bound
    lower_bound-select [] s n = unfold skip_equal in (refl, refl)
    lower_bound-select (q ∷ qs) s n = elim (Bool-cases (before (update heap probe t) q probe)) [
      | inl earlier ↦
          let h = (probe_key q (ground arith)).0 earlier in
          rw earlier (ground (arith, lower_bound-select qs s.1 (ground arith)))
      | inr not_earlier ↦
          let h = (probe_key q (ground arith)).1 not_earlier in
          rw not_earlier (skip_equal-select now (q ∷ qs) s (h, Leads-From q now qs h s.0))
    ]

-- The timers that a call at `now` takes out.
abbrev pub taken : TimerManager → ℕ → Bool → List ℕ
taken m now rollover = if rollover then m.timers else select (due m.heap now) m.timers

abbrev pub kept : TimerManager → ℕ → Bool → List ℕ
kept m now rollover = if rollover then [] else select (later m.heap now) m.timers

-- The range that listExpiredCb takes out is all the timers that are due, or the whole set after
-- the clock went back, and what stays is the rest; the address of now_timer does not matter.
pub expired_range-select :
    (m : TimerManager) (probe now : ℕ) (rollover : Bool)
    → IsValid m
    → mem probe m.timers ≡ false
    → expired_range m probe now rollover ≡ (taken m now rollover, kept m now rollover)
unfolding expired_range
expired_range-select m probe now true v n = refl
expired_range-select m probe now false v n =
    let r = lower_bound-select m.heap probe now _ refl m.timers v.sorted n in
    ap₂ {C = List ℕ × List ℕ} (λ x y. (x, y)) r.0 r.1

-- The first timer of a valid set expires no later than any other.
first-le :
    (heap : ℕ → Timer) (p q : ℕ) (qs : List ℕ)
    → Leads heap p qs
    → mem q (p ∷ qs) ≡ true
    → (heap p).next ≤ (heap q).next
first-le heap p q qs l h = elim (Bool-cases (p == q)) [
  | inl same ↦ omega (arith, ap (λ x. (heap x).next) ((==_iff p q).0 same))
  | inr other ↦ before-le heap p q (Leads-before heap q p qs l (rw other at h))
]

-- The delay `wait` from `now` passes over no timer of the set: it is 0 as soon as one is due, and
-- else ends no later than the first expiry.
abbrev pub Covers : TimerManager → ℕ → ℕ → Type 0
Covers m now wait =
    (q : ℕ)
    → mem q m.timers ≡ true
    → ((m.heap q).next ≤ now → wait ≡ 0) × (now < (m.heap q).next → now + wait ≤ (m.heap q).next)

-- The delay ends at the expiry of a timer in the set, or is 0 with one due.
abbrev pub Attained : TimerManager → ℕ → ℕ → Type 0
Attained m now wait =
    (q : ℕ) × (mem q m.timers ≡ true)
    × ((now + wait ≡ (m.heap q).next) ⊎ ((m.heap q).next ≤ now) × (wait ≡ 0))

next_delay :
    (m : TimerManager) (p now : ℕ) (ps : List ℕ)
    → Leads m.heap p ps
    → m.timers ≡ p ∷ ps
    → (m.heap p).next < u64_mod
    → (wait : ℕ) → wait ≡ (if leb (m.heap p).next now then 0 else sub64 (m.heap p).next now)
    → Covers m now wait × Attained m now wait
next_delay m p now ps l e h wait w = (
  λ q k. let le = first-le m.heap p q ps l (rw e at k) in ground arith,
  (p, rw e (ground arith), ground arith),
)

-- For a valid set of timers whose expiry fits a word, getNextTimer gives ~0 on the empty set, and
-- otherwise a delay that covers every timer and is attained by one of them.
pub get_next_timer_lem :
    (m : TimerManager) (now : ℕ)
    → IsValid m
    → ((q : ℕ) → mem q m.timers ≡ true → (m.heap q).next < u64_mod)
    → let wait = (get_next_timer m now).1 in
      ((m.timers ≡ []) × (wait ≡ u64_mod - 1)) ⊎ (Covers m now wait × Attained m now wait)
unfolding get_next_timer
get_next_timer_lem m now v h = go m.timers refl
  where
    go :
        (ts : List ℕ)
        → m.timers ≡ ts
        → let wait = (get_next_timer m now).1 in
          ((m.timers ≡ []) × (wait ≡ u64_mod - 1)) ⊎ (Covers m now wait × Attained m now wait)
    go [] e = inl (e, rw (e, get_next_timer))
    go (p ∷ ps) e = inr (
        next_delay m p now ps (subst (Sorted m.heap) e v.sorted).0 e (h p (rw e (ground arith))) _
          (rw (e, get_next_timer)))
