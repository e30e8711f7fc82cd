-- ===== src/Timer/Moved.antt =====
-- refresh and reset of src/timer.cpp: the result, the timer and the members of the set.
use idc.Prelude.{
  ℕ, ◌≡◌, ◌⊎◌, refl, ap, inl, inr, Bool, true, false, not, ◌&&◌, Option-cases, arith, if◌then◌else◌,
  ◌==◌, ==_iff, Bool-cases, add64, sub64,
}
use idc.Timer.{Timer, TimerManager, update, insert, erase, add_to_set, refresh, reset}
use idc.Timer.Order.{mem, find-mem, mem-insert, mem-erase}
use idc.Timer.Invariant.{IsValid, has_cb, refresh-IsValid, reset-IsValid}

-- A timer that is taken out and put back leaves the set with the same members.
same_members :
    (m : TimerManager) (p : ℕ) (t : Timer)
    → IsValid m
    → mem p m.timers ≡ true
    → (q : ℕ) → mem q (insert (update m.heap p t) p (erase m.heap p m.timers)) ≡ mem q m.timers
same_members m p t v held q =
    let out : mem p (erase m.heap p m.timers) ≡ false =
      ground (arith, mem-erase m.heap p p m.timers v.sorted held) in
    rw
      (
        mem-insert (update m.heap p t) p q (erase m.heap p m.timers) out,
        mem-erase m.heap p q m.timers v.sorted held,
      )
      (elim (Bool-cases (p == q)) [
        | inr other ↦ rw other (ground arith)
        | inl same ↦ rw same (ground (arith, ap (λ x. mem x m.timers) ((==_iff p q).0 same)))
      ])

-- What refresh and reset leave behind, where `t` is the timer with its new expiry.
pub record Moves (m : TimerManager) (p : ℕ) (t : Timer) (r : TimerManager × Bool) : Type 0 where
  pub valid : IsValid r.0
  pub was_armed : r.1 ≡ has_cb (m.heap p).cb
  pub stored : r.0.heap ≡ (if has_cb (m.heap p).cb then update m.heap p t else m.heap)
  pub members : (q : ℕ) → mem q r.0.timers ≡ mem q m.timers

-- In a valid set, refresh returns whether the timer has a callback; if so, it expires one period from
-- now, and otherwise it stays as it was; no other timer changes, the set keeps its members and is valid.
pub refresh-Moves :
    (m : TimerManager) (now p : ℕ)
    → IsValid m
    → Moves m p (record (m.heap p) { next = add64 now (m.heap p).ms }) (refresh m now p)
unfolding refresh
refresh-Moves m now p v = elim (Option-cases (m.heap p).cb) [
  | inl off ↦ record {
    valid = refresh-IsValid m now p v;
    was_armed = rw (off, refresh) refl;
    stored = rw (off, refresh) refl;
    members = λ q. rw (off, refresh) refl;
  }
  | inr (cb, on) ↦
      let held = v.armed p (rw on) in
      let found = find-mem m.heap p m.timers v.sorted in
      record {
        valid = refresh-IsValid m now p v;
        was_armed = rw (on, refresh) (rw (found, held) refl);
        stored =
            rw (on, refresh)
              (rw (found, held)
                (ap
                  (λ cb.
                    update m.heap p (record (m.heap p) { next = add64 now (m.heap p).ms; cb = cb }))
                  on));
        members = λ q. rw (on, refresh) (rw (found, held) (same_members m p _ v held q));
      }
]

-- The timer that reset makes of one.
abbrev pub restarted : Timer → ℕ → ℕ → Bool → Timer
restarted t now ms from_now = record t {
  ms = ms;
  next = add64 (if from_now then now else sub64 t.next t.ms) ms;
}

-- In a valid set, reset with the same period and not from now returns true and changes nothing; else it
-- returns whether the timer has a callback, and if so, the timer has the new period and expires one
-- period after now, or after the start of its old one; no other timer changes, the set keeps its members
-- and is valid.
pub reset-Moves :
    (m : TimerManager) (now p ms : ℕ) (from_now : Bool)
    → IsValid m
    → let r = reset m now p ms from_now in
      (((ms == (m.heap p).ms && not from_now) ≡ true) × (r ≡ (m, true)))
      ⊎ Moves m p (restarted (m.heap p) now ms from_now) r
unfolding reset add_to_set
reset-Moves m now p ms from_now v = elim (Bool-cases (ms == (m.heap p).ms && not from_now)) [
  | inl same ↦ inl (same, rw same refl)
  | inr other ↦ inr (elim (Option-cases (m.heap p).cb) [
    | inl off ↦ record {
      valid = reset-IsValid m now p ms from_now v;
      was_armed = rw (other, off, reset) refl;
      stored = rw (other, off, reset) refl;
      members = λ q. rw (other, off, reset) refl;
    }
    | inr (cb, on) ↦
        let held = v.armed p (rw on) in
        let found = find-mem m.heap p m.timers v.sorted in
        record {
          valid = reset-IsValid m now p ms from_now v;
          was_armed = rw (other, on, reset) (rw (found, held) refl);
          stored =
              rw (other, on, reset)
                (rw (found, held)
                  (ap
                    (λ cb.
                      update m.heap p (record (restarted (m.heap p) now ms from_now) { cb = cb }))
                    on));
          members = λ q. rw (other, on, reset) (rw (found, held) (same_members m p _ v held q));
        }
  ])
]
