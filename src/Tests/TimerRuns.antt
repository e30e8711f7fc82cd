-- ===== src/Tests/TimerRuns.antt =====
-- Runs of the timers of src/timer.cpp.
use idc.Prelude.{
  ◌==◌, ◌↔◌, ◌+◌, ◌&&◌, not, ℕ, refl, [], ◌∷◌, none, some, true, false, arith, Returns, ◌≡◌, ◌⊎◌,
  ◌-◌, u64_mod, ◌<◌,
}
use idc.Timer.{
  hour, comparator, TimerManager, call, new, add_timer, reset, cancel, get_next_timer,
  detect_clock_rollover, list_expired_cb, expired_range,
}
use idc.Timer.Order.{mem}
use idc.Timer.Invariant.{IsValid, new-IsValid, add_timer-IsValid, Cancelled, cancel-Cancelled}
use idc.Timer.Expiry.{taken, kept, Covers, Attained, expired_range-select, get_next_timer_lem}
use idc.Timer.Rollover.{detect_clock_rollover_iff}
use idc.Timer.Moved.{Moves, restarted, reset-Moves}
use idc.Timer.ListExpired.{Expired, list_expired_cb-Expired}

-- One recurring timer at 10, then one that fires once, before it.
abbrev one : TimerManager
one = add_timer (new 100) 10 100 50 (some (call 1)) true

abbrev two : TimerManager
two = add_timer one 7 110 20 (some (call 2)) false

two_timers : two.timers ≡ 7 ∷ 10 ∷ []
unfolding add_timer new comparator
two_timers = refl

one-IsValid : IsValid one
one-IsValid =
    add_timer-IsValid (new 100) 10 100 50 (some (call 1)) true (new-IsValid 100)
      (unfold new in refl)

two-IsValid : IsValid two
two-IsValid =
    add_timer-IsValid one 7 110 20 (some (call 2)) false one-IsValid
      (unfold add_timer in unfold new in refl)

fresh : mem 3 two.timers ≡ false
fresh = rw two_timers refl

expiries : (q : ℕ) → mem q two.timers ≡ true → (two.heap q).next < u64_mod
unfolding add_timer new comparator
expiries q h = ground arith

list_expired_cb-Expired_example :
    Expired two 140 (taken two 140 (detect_clock_rollover two 140).1) (list_expired_cb two 3 140)
list_expired_cb-Expired_example = list_expired_cb-Expired two 3 140 two-IsValid fresh

cancel-Cancelled_example : Returns (cancel two 10) (Cancelled two 10)
cancel-Cancelled_example = cancel-Cancelled two 10 two-IsValid

add_timer-IsValid_example : IsValid (add_timer two 4 120 30 none true)
add_timer-IsValid_example =
    add_timer-IsValid two 4 120 30 none true two-IsValid (rw two_timers refl)

reset-Moves_example :
    let r = reset two 120 10 5 true in
    (((5 == (two.heap 10).ms && not true) ≡ true) × (r ≡ (two, true)))
    ⊎ Moves two 10 (restarted (two.heap 10) 120 5 true) r
reset-Moves_example = reset-Moves two 120 10 5 true two-IsValid

detect_clock_rollover_iff_example :
    ((detect_clock_rollover two 90).1 ≡ true
      ↔ (90 < two.previous_time) × ((90 + hour < two.previous_time) ⊎ (two.previous_time < hour)))
    × ((detect_clock_rollover two 90).0 ≡ record two { previous_time = 90 })
unfolding add_timer new
detect_clock_rollover_iff_example = detect_clock_rollover_iff two 90 (omega arith)

get_next_timer_lem_example :
    let wait = (get_next_timer two 115).1 in
    ((two.timers ≡ []) × (wait ≡ u64_mod - 1)) ⊎ (Covers two 115 wait × Attained two 115 wait)
get_next_timer_lem_example = get_next_timer_lem two 115 two-IsValid expiries

expired_range-select_example :
    expired_range two 3 140 false ≡ (taken two 140 false, kept two 140 false)
expired_range-select_example = expired_range-select two 3 140 false two-IsValid fresh
