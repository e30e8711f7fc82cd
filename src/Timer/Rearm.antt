-- ===== src/Timer/Rearm.antt =====
-- What TimerManager::listExpiredCb of src/timer.cpp leaves behind: the callbacks that it lists, the
-- recurring timers that it arms anew and the others that it disarms.
use idc.Prelude.{
  ℕ, ◌≡◌, refl, ap, subst, ◌∙◌, inl, inr, Bool, true, false, ◌&&◌, ◌||◌, List, [], ◌∷◌, map, Option,
  none, arith, if◌then◌else◌, ◌==◌, ==_iff, Bool-cases, add64,
}
use idc.Timer.{Timer, Callback, update, insert, rearm}
use idc.Timer.Order.{mem, Leads, Sorted, Leads-mem, insert-Sorted, mem-insert, Sorted-update}
use idc.Timer.Expiry.{select}

-- What becomes of an expired timer.
abbrev pub rearmed : ℕ → Timer → Timer
rearmed now t = if t.recurring then record t { next = add64 now t.ms } else record t { cb = none }

abbrev pub Distinct : List ℕ → Type 0
Distinct [] = Unit {0}
Distinct (p ∷ ps) = (mem p ps ≡ false) × Distinct ps

abbrev pub callbacks : (ℕ → Timer) → List ℕ → List (Option Callback)
callbacks heap ps = map (λ p. (heap p).cb) ps

-- The loop's outcome over the expired timers `ps`, from `heap` and the set `ts`.
pub record Rearmed (now : ℕ) (ps : List ℕ) (heap : ℕ → Timer) (ts : List ℕ)
    (r : (ℕ → Timer) × List ℕ × List (Option Callback)) : Type 0 where
  pub sorted : Sorted r.0 r.1
  pub listed : r.2 ≡ callbacks heap ps
  pub stored : (q : ℕ) → r.0 q ≡ (if mem q ps then rearmed now (heap q) else heap q)
  pub members : (q : ℕ) → mem q r.1 ≡ (mem q ts || mem q ps && (heap q).recurring)

callbacks-update :
    (heap : ℕ → Timer) (p : ℕ) (t : Timer) (ps : List ℕ)
    → mem p ps ≡ false
    → callbacks (update heap p t) ps ≡ callbacks heap ps
callbacks-update heap p t [] n = refl
callbacks-update heap p t (q ∷ ps) n = elim (Bool-cases (p == q)) [
  | inl same ↦ absurd (ground arith)
  | inr other ↦ rw other (ap (◌∷◌ (heap q).cb) (callbacks-update heap p t ps (ground arith)))
]

mem-ne : (p q : ℕ) (ps : List ℕ) → mem p ps ≡ false → mem q ps ≡ true → (p == q) ≡ false
mem-ne p q ps n k = elim (Bool-cases (p == q)) [
  | inl same ↦ cc (ap (λ x. mem x ps) ((==_iff p q).0 same))
  | inr other ↦ other
]

insert_if-Sorted :
    (heap : ℕ → Timer) (b : Bool) (p : ℕ) (ts : List ℕ)
    → mem p ts ≡ false
    → Sorted heap ts
    → Sorted heap (if b then insert heap p ts else ts)
insert_if-Sorted heap true p ts n s = insert-Sorted heap p ts n s
insert_if-Sorted heap false p ts n s = s

-- One round of the loop, for the timer at `p`.
module _ (now p : ℕ) (heap : ℕ → Timer) (ts : List ℕ) (free : mem p ts ≡ false) where
  heap_after : ℕ → Timer
  heap_after = update heap p (rearmed now (heap p))

  set_after : List ℕ
  set_after = if (heap p).recurring then insert heap_after p ts else ts

  set_after-Sorted : Sorted heap ts → Sorted heap_after set_after
  unfolding heap_after set_after
  set_after-Sorted s =
      insert_if-Sorted heap_after (heap p).recurring p ts free
        (Sorted-update heap p (rearmed now (heap p)) ts free s)

  mem-set_after : (q : ℕ) → mem q set_after ≡ (mem q ts || p == q && (heap p).recurring)
  unfolding set_after
  mem-set_after q = ground (arith, mem-insert heap_after p q ts free)

  heap_after-recurring : (q : ℕ) → (heap_after q).recurring ≡ (heap q).recurring
  unfolding heap_after
  heap_after-recurring q = elim (Bool-cases (p == q)) [
    | inl same ↦ rw same (rw ((==_iff p q).0 same) (ground arith))
    | inr other ↦ rw other
  ]

  Rearmed-cons :
      (ps : List ℕ) {r : (ℕ → Timer) × List ℕ × List (Option Callback)}
      → mem p ps ≡ false
      → Rearmed now ps heap_after set_after r
      → Rearmed now (p ∷ ps) heap ts (r.0, r.1, (heap p).cb ∷ r.2)
  unfolding heap_after
  Rearmed-cons ps n r = record {
    sorted = r.sorted;
    listed = ap (◌∷◌ (heap p).cb) (r.listed ∙ callbacks-update heap p (rearmed now (heap p)) ps n);
    stored = λ q. elim (Bool-cases (p == q)) [
      | inl same ↦
          let e = (==_iff p q).0 same in
          let absent : mem q ps ≡ false = subst (λ x. mem x ps ≡ false) e n in
          rw same (rw (absent, same) at (r.stored q) ∙ ap (λ x. rearmed now (heap x)) e)
      | inr other ↦ rw other (rw other at (r.stored q))
    ];
    members = λ q.
        rw (r.members q, mem-set_after q, heap_after-recurring q)
          (elim (Bool-cases (p == q)) [
            | inl same ↦ ground (arith, ap (λ x. (heap x).recurring) ((==_iff p q).0 same))
            | inr other ↦ ground arith
          ]);
  }

pub rearm-Rearmed :
    (now : ℕ) (ps : List ℕ) (heap : ℕ → Timer) (ts : List ℕ)
    → Distinct ps
    → ((q : ℕ) → mem q ps ≡ true → mem q ts ≡ false)
    → Sorted heap ts
    → Rearmed now ps heap ts (rearm now ps heap ts)
unfolding rearm heap_after set_after
rearm-Rearmed now [] heap ts d a s = record {
  sorted = s;
  listed = refl;
  stored = λ q. refl;
  members = λ q. ground arith;
}
rearm-Rearmed now (p ∷ ps) heap ts d a s =
    let free = a p (ground arith) in
    Rearmed-cons now p heap ts free ps d.0 (
      rearm-Rearmed now ps (heap_after now p heap ts free) (set_after now p heap ts free) d.1
        (λ q k. rw (mem-set_after now p heap ts free q, mem-ne p q ps d.0 k) (ground (arith, a q)))
        (set_after-Sorted now p heap ts free s))

pub mem-select :
    (test : ℕ → Bool) (q : ℕ) (qs : List ℕ) → mem q (select test qs) ≡ (mem q qs && test q)
mem-select test q [] = refl
mem-select test q (p ∷ qs) = elim (Bool-cases (p == q)) [
  | inl same ↦ ground (arith, mem-select test q qs, ap test ((==_iff p q).0 same))
  | inr other ↦ ground (arith, mem-select test q qs)
]

Leads-select :
    (heap : ℕ → Timer) (test : ℕ → Bool) (p : ℕ) (qs : List ℕ)
    → Leads heap p qs
    → Leads heap p (select test qs)
Leads-select heap test p [] l = tt
Leads-select heap test p (q ∷ qs) l = ground (arith, Leads-select heap test p qs l.1)

pub select-Sorted :
    (heap : ℕ → Timer) (test : ℕ → Bool) (qs : List ℕ)
    → Sorted heap qs
    → Sorted heap (select test qs)
select-Sorted heap test [] s = tt
select-Sorted heap test (q ∷ qs) s =
    ground (arith, select-Sorted heap test qs s.1, Leads-select heap test q qs s.0)

pub Sorted-Distinct : (heap : ℕ → Timer) (qs : List ℕ) → Sorted heap qs → Distinct qs
Sorted-Distinct heap [] s = tt
Sorted-Distinct heap (q ∷ qs) s = (Leads-mem heap q qs s.0, Sorted-Distinct heap qs s.1)
