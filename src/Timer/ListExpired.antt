-- ===== src/Timer/ListExpired.antt =====
-- TimerManager::listExpiredCb of src/timer.cpp as a whole, on each of its branches.
use idc.Prelude.{
  ℕ, ◌<◌, ◌≡◌, refl, inl, inr, Bool, true, false, not, ◌&&◌, List, [], ◌∷◌, Option, arith,
  if◌then◌else◌, ltb→lt, Bool-cases,
}
use idc.Timer.{
  Timer, TimerManager, Callback, rearm, first_after, is_empty, detect_clock_rollover, take_expired,
  list_expired_cb,
}
use idc.Timer.Order.{mem, Leads, Sorted}
use idc.Timer.Invariant.{IsValid, has_cb}
use idc.Timer.Expiry.{select, due, later, before-le, taken, kept, expired_range-select}
use idc.Timer.Rearm.{
  rearmed, callbacks, Rearmed, rearm-Rearmed, mem-select, select-Sorted, Sorted-Distinct,
}

-- What a call at `now` that takes out the timers `ps` leaves behind.
pub record Expired (m : TimerManager) (now : ℕ) (ps : List ℕ)
    (r : TimerManager × List (Option Callback)) : Type 0 where
  pub valid : IsValid r.0
  pub listed : r.1 ≡ callbacks m.heap ps
  pub stored : (q : ℕ) → r.0.heap q ≡ (if mem q ps then rearmed now (m.heap q) else m.heap q)
  pub members :
      (q : ℕ) → mem q r.0.timers ≡ (mem q m.timers && not (mem q ps && not (m.heap q).recurring))

rearmed-armed : (now : ℕ) (t : Timer) → has_cb (rearmed now t).cb ≡ true → t.recurring ≡ true
rearmed-armed now t h = ground arith

module _ (m : TimerManager) (now : ℕ) (rollover : Bool) (v : IsValid m) where
  mem-kept :
      (q : ℕ) → mem q (kept m now rollover) ≡ (mem q m.timers && not (mem q (taken m now rollover)))
  mem-kept q =
      ground
        (arith, mem-select (due m.heap now) q m.timers, mem-select (later m.heap now) q m.timers)

  mem-taken : (q : ℕ) → mem q (taken m now rollover) ≡ true → mem q m.timers ≡ true
  mem-taken q h = ground (arith, mem-select (due m.heap now) q m.timers)

  taken-Sorted : Sorted m.heap (taken m now rollover)
  taken-Sorted = ground (arith, select-Sorted m.heap (due m.heap now) m.timers v.sorted)

  kept-Sorted : Sorted m.heap (kept m now rollover)
  kept-Sorted = ground (arith, select-Sorted m.heap (later m.heap now) m.timers v.sorted)

  abbrev after_loop : (ℕ → Timer) × List ℕ × List (Option Callback)
  after_loop = rearm now (taken m now rollover) m.heap (kept m now rollover)

  loop-Rearmed : Rearmed now (taken m now rollover) m.heap (kept m now rollover) after_loop
  loop-Rearmed =
      rearm-Rearmed now (taken m now rollover) m.heap (kept m now rollover)
        (Sorted-Distinct m.heap (taken m now rollover) taken-Sorted)
        (λ q h. rw (mem-kept q, h) (ground arith)) kept-Sorted

  loop-armed : (q : ℕ) → has_cb (after_loop.0 q).cb ≡ true → mem q after_loop.1 ≡ true
  loop-armed q h = elim (Bool-cases (mem q (taken m now rollover))) [
    | inl out ↦
        let t = rw out at (loop-Rearmed.stored q) in
        let again : (m.heap q).recurring ≡ true = rearmed-armed now (m.heap q) (rw t at h) in
        rw (loop-Rearmed.members q, out, again) (ground arith)
    | inr in_set ↦
        let t = rw in_set at (loop-Rearmed.stored q) in
        rw (loop-Rearmed.members q, mem-kept q, in_set, v.armed q (rw t at h))
  ]

  loop-Expired :
      (previous : ℕ)
      → Expired m now (taken m now rollover) (
        record {
          heap = after_loop.0;
          timers = after_loop.1;
          tickled = m.tickled;
          previous_time = previous;
        },
        after_loop.2,
      )
  loop-Expired previous = record {
    valid = record { sorted = loop-Rearmed.sorted; armed = loop-armed };
    listed = loop-Rearmed.listed;
    stored = loop-Rearmed.stored;
    members = λ q. rw (loop-Rearmed.members q, mem-kept q) (ground (arith, mem-taken q));
  }

Leads-select :
    (heap : ℕ → Timer) (now p : ℕ) (qs : List ℕ)
    → now < (heap p).next
    → Leads heap p qs
    → select (due heap now) qs ≡ []
Leads-select heap now p [] h l = refl
Leads-select heap now p (q ∷ qs) h l =
    ground (arith, before-le heap p q l.0, Leads-select heap now p qs h l.1)

-- Nothing is due when the first timer is not.
none-due :
    (heap : ℕ → Timer) (now : ℕ) (ts : List ℕ)
    → Sorted heap ts
    → first_after heap now ts ≡ true
    → select (due heap now) ts ≡ []
none-due heap now [] s h = refl
none-due heap now (p ∷ ts) s h = ground (arith, Leads-select heap now p ts (ltb→lt _ _ h) s.0)

-- A call that takes nothing out.
untouched :
    (m : TimerManager) (now previous : ℕ)
    → IsValid m
    → Expired m now [] (record m { previous_time = previous }, [])
untouched m now previous v = record {
  valid = record { sorted = v.sorted; armed = v.armed };
  listed = refl;
  stored = λ q. refl;
  members = λ q. ground arith;
}

-- The manager after detectClockRollover.
abbrev clocked : TimerManager → ℕ → TimerManager
clocked m now = record m { previous_time = now }

module _ (m : TimerManager) (probe now : ℕ) (v : IsValid m) (n : mem probe m.timers ≡ false) where
  take_expired-Expired :
      (rollover : Bool)
      → Expired m now (taken m now rollover) (take_expired (clocked m now) probe now rollover)
  unfolding take_expired
  take_expired-Expired rollover =
      let clocked_valid : IsValid (clocked m now) = record { sorted = v.sorted; armed = v.armed } in
      rw (expired_range-select (clocked m now) probe now rollover clocked_valid n, take_expired)
        (loop-Expired m now rollover v now)

  none_taken :
      (rollover : Bool) (previous : ℕ)
      → taken m now rollover ≡ []
      → Expired m now (taken m now rollover) (record m { previous_time = previous }, [])
  none_taken rollover previous e = rw e (untouched m now previous v)

  in_time-Expired :
      (rollover : Bool)
      → Expired m now (taken m now rollover) (
          if not rollover && first_after m.heap now m.timers
          then (clocked m now, [])
          else take_expired (clocked m now) probe now rollover)
  in_time-Expired true = take_expired-Expired true
  in_time-Expired false = elim (Bool-cases (first_after m.heap now m.timers)) [
    | inl early ↦ rw early (none_taken false now (none-due m.heap now m.timers v.sorted early))
    | inr ready ↦ rw ready (take_expired-Expired false)
  ]

taken_empty :
    (m : TimerManager) (now : ℕ) (rollover : Bool)
    → is_empty m.timers ≡ true
    → taken m now rollover ≡ []
taken_empty m now rollover h = ground arith

-- For a valid set and a fresh now_timer, listExpiredCb lists the callbacks of exactly the timers
-- that are due at `now`, or of all timers if the clock went back, in the order of the set; it arms
-- the recurring ones anew from `now`, disarms the others and takes these out, leaves every other
-- timer as it was, and the set stays valid.
pub list_expired_cb-Expired :
    (m : TimerManager) (probe now : ℕ)
    → IsValid m
    → mem probe m.timers ≡ false
    → Expired m now (taken m now (detect_clock_rollover m now).1) (list_expired_cb m probe now)
unfolding list_expired_cb detect_clock_rollover
list_expired_cb-Expired m probe now v n = elim (Bool-cases (is_empty m.timers)) [
  | inl none_set ↦
      rw none_set (none_taken m probe now v n _ m.previous_time (taken_empty m now _ none_set))
  | inr some_set ↦ rw some_set (in_time-Expired m probe now v n _)
]
