-- ===== src/Timer/Rollover.antt =====
-- TimerManager::detectClockRollover of src/timer.cpp: when the clock counts as set back.
use idc.Prelude.{
  ℕ, ◌+◌, ◌<◌, ◌≡◌, ◌↔◌, ◌⊎◌, inl, inr, refl, true, Bool-cases, tests, arith, ltb, u64_mod,
}
use idc.Timer.{TimerManager, hour, detect_clock_rollover}

-- For a previous time that fits a word, the clock counts as set back exactly when it is behind the
-- previous time, and either by more than an hour, or the previous time is within the first hour, where
-- the difference wraps; the new time becomes the previous one in any case.
pub detect_clock_rollover_iff :
    (m : TimerManager) (now : ℕ)
    → m.previous_time < u64_mod
    → ((detect_clock_rollover m now).1 ≡ true
        ↔ (now < m.previous_time) × ((now + hour < m.previous_time) ⊎ (m.previous_time < hour)))
      × ((detect_clock_rollover m now).0 ≡ record m { previous_time = now })
unfolding detect_clock_rollover
detect_clock_rollover_iff m now h = ((λ e. back e, λ e. forth e.0 e.1), refl)
  where
    back :
        (detect_clock_rollover m now).1 ≡ true
        → (now < m.previous_time) × ((now + hour < m.previous_time) ⊎ (m.previous_time < hour))
    back e = elim (Bool-cases (ltb m.previous_time hour)) [
      | inl early ↦ (ground arith, inr (omega (tests, early)))
      | inr late ↦ (ground arith, inl (ground arith))
    ]

    forth :
        now < m.previous_time
        → (now + hour < m.previous_time) ⊎ (m.previous_time < hour)
        → (detect_clock_rollover m now).1 ≡ true
    forth behind (inl far) = ground arith
    forth behind (inr early) = ground arith
