-- ===== src/Timer/Invariant.antt =====
-- The invariant of the timer set in src/timer.cpp, and what the operations make of it.
use idc.Prelude.{
  ℕ, ◌≡◌, ap, inl, inr, Bool, true, false, not, ◌&&◌, List, Option, none, some, Option-cases,
  Returns, arith, ◌==◌, ==_iff, Bool-cases,
}
use idc.Timer.{
  Timer, TimerManager, Callback, update, insert, erase, erase_found, new, add_to_set, add_timer,
  cancel, refresh, reset,
}
use idc.Timer.Order.{
  mem, Sorted, find-mem, insert-Sorted, mem-insert, erase-Sorted, mem-erase, Sorted-cong,
  Sorted-update,
}

abbrev pub has_cb : Option Callback → Bool
has_cb none = false
has_cb (some cb) = true

-- The set is ordered, so that each timer occurs once, and has every timer with a callback.
pub record IsValid (m : TimerManager) : Type 0 where
  pub sorted : Sorted m.heap m.timers
  pub armed : (p : ℕ) → has_cb (m.heap p).cb ≡ true → mem p m.timers ≡ true

pub new-IsValid : (now : ℕ) → IsValid (new now)
unfolding new
new-IsValid now = record { sorted = tt; armed = λ p h. cc }

-- `t` is stored at `p`, which is put into a set that lacks it.
enter-IsValid :
    (heap : ℕ → Timer) (p : ℕ) (t : Timer) (qs : List ℕ) (tickled : Bool) (previous : ℕ)
    → mem p qs ≡ false
    → Sorted heap qs
    → ((q : ℕ) → has_cb (heap q).cb ≡ true → (p == q) ≡ false → mem q qs ≡ true)
    → IsValid (record {
      heap = update heap p t;
      timers = insert (update heap p t) p qs;
      tickled = tickled;
      previous_time = previous;
    })
enter-IsValid heap p t qs tickled previous n s a = record {
  sorted = insert-Sorted (update heap p t) p qs n (Sorted-update heap p t qs n s);
  armed = λ q h. rw (mem-insert (update heap p t) p q qs n) (elim (Bool-cases (p == q)) [
    | inl same ↦ rw same
    | inr other ↦ rw other (a q (rw other at h) other)
  ]);
}

-- addTimer keeps a set valid, whatever the callback, if the new timer's address is not in it.
pub add_timer-IsValid :
    (m : TimerManager) (p now ms : ℕ) (cb : Option Callback) (recurring : Bool)
    → IsValid m
    → mem p m.timers ≡ false
    → IsValid (add_timer m p now ms cb recurring)
unfolding add_timer
add_timer-IsValid m p now ms cb recurring v n =
    enter-IsValid m.heap p _ m.timers _ m.previous_time n v.sorted (λ q h _. v.armed q h)

-- A timer that the set holds leaves it, and is put back with another expiry.
module _ (m : TimerManager) (p : ℕ) (t : Timer) (v : IsValid m) (held : mem p m.timers ≡ true) where
  erase-mem_self : mem p (erase m.heap p m.timers) ≡ false
  erase-mem_self = ground (arith, mem-erase m.heap p p m.timers v.sorted held)

  move-IsValid :
      (tickled : Bool)
      → IsValid (record {
        heap = update m.heap p t;
        timers = insert (update m.heap p t) p (erase m.heap p m.timers);
        tickled = tickled;
        previous_time = m.previous_time;
      })
  move-IsValid tickled =
      enter-IsValid m.heap p t (erase m.heap p m.timers) tickled m.previous_time erase-mem_self
        (erase-Sorted m.heap p m.timers v.sorted)
        λ q h other. rw (mem-erase m.heap p q m.timers v.sorted held, v.armed q h, other)

-- refresh keeps a set valid at every clock, for every timer, armed or not.
pub refresh-IsValid : (m : TimerManager) (now p : ℕ) → IsValid m → IsValid (refresh m now p).0
unfolding refresh
refresh-IsValid m now p v = elim (Option-cases (m.heap p).cb) [
  | inl off ↦ rw (off, refresh) v
  | inr (cb, on) ↦
      let held = v.armed p (rw on) in
      rw (on, refresh)
        (rw (find-mem m.heap p m.timers v.sorted, held) (move-IsValid m p _ v held m.tickled))
]

-- reset keeps a set valid for every timer, period and start.
pub reset-IsValid :
    (m : TimerManager) (now p ms : ℕ) (from_now : Bool)
    → IsValid m
    → IsValid (reset m now p ms from_now).0
unfolding reset add_to_set
reset-IsValid m now p ms from_now v = elim (Bool-cases (ms == (m.heap p).ms && not from_now)) [
  | inl same ↦ rw same v
  | inr other ↦ rw other (elim (Option-cases (m.heap p).cb) [
    | inl off ↦ rw (off, reset) v
    | inr (cb, on) ↦
        let held = v.armed p (rw on) in
        rw (on, reset)
          (rw (find-mem m.heap p m.timers v.sorted, held) (move-IsValid m p _ v held _))
  ])
]

abbrev disarmed : TimerManager → ℕ → ℕ → Timer
disarmed m p = update m.heap p (record (m.heap p) { cb = none })

disarmed-Sorted : (m : TimerManager) (p : ℕ) → IsValid m → Sorted (disarmed m p) m.timers
disarmed-Sorted m p v =
    Sorted-cong m.heap (disarmed m p) m.timers
      (λ q h. elim (Bool-cases (p == q)) [
        | inl same ↦ rw same (ap (λ x. (m.heap x).next) ((==_iff p q).0 same))
        | inr other ↦ rw other
      ])
      v.sorted

-- What a cancelled timer leaves behind.
pub record Cancelled (m : TimerManager) (p : ℕ) (r : TimerManager × Bool) : Type 0 where
  pub valid : IsValid r.0
  pub was_armed : r.1 ≡ has_cb (m.heap p).cb
  pub unarmed : (r.0.heap p).cb ≡ none
  pub others : (q : ℕ) → mem q r.0.timers ≡ (mem q m.timers && not (r.1 && p == q))

Cancelled-off :
    (m : TimerManager) (p : ℕ) → IsValid m → (m.heap p).cb ≡ none → Cancelled m p (m, false)
Cancelled-off m p v off = record {
  valid = v;
  was_armed = rw off;
  unarmed = off;
  others = λ q. ground arith;
}

Cancelled-on :
    (m : TimerManager) (p : ℕ) (cb : Callback)
    → IsValid m
    → (m.heap p).cb ≡ some cb
    → Cancelled m p
        (record m { heap = disarmed m p; timers = erase (disarmed m p) p m.timers }, true)
Cancelled-on m p cb v on =
    let held = v.armed p (rw on) in
    let s = disarmed-Sorted m p v in
    record {
      valid = record {
        sorted = erase-Sorted (disarmed m p) p m.timers s;
        armed = λ q h. elim (Bool-cases (p == q)) [
          | inl same ↦ cc (rw same at h)
          | inr other ↦
              rw (mem-erase (disarmed m p) p q m.timers s held, other, v.armed q (rw other at h))
        ];
      };
      was_armed = rw on;
      unarmed = ground arith;
      others = λ q. mem-erase (disarmed m p) p q m.timers s held;
    }

-- In a valid set, cancel returns for every timer and never erases end(): the set stays valid, the
-- result says whether the timer had a callback, it has none afterwards, and the set loses that timer
-- if the result is true and no other timer.
pub cancel-Cancelled : (m : TimerManager) (p : ℕ) → IsValid m → Returns (cancel m p) (Cancelled m p)
unfolding cancel erase_found
cancel-Cancelled m p v = elim (Option-cases (m.heap p).cb) [
  | inl off ↦ rw (off, cancel) (Cancelled-off m p v off)
  | inr (cb, on) ↦
      let held = v.armed p (rw on) in
      let s = disarmed-Sorted m p v in
      rw (on, cancel) (rw (find-mem (disarmed m p) p m.timers s, held) (Cancelled-on m p cb v on))
]
