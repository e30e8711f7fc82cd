-- ===== src/Tests/HeartbeatRuns.antt =====
-- Runs of CPActive of src/_public.cpp.
use idc.Prelude.{ℕ, zero, suc, ◌≢◌, refl, inl, inr, pos, put, arith}
use idc.Heartbeat.{ProcessInfo, make_active, register}
use idc.Heartbeat.Slots.{IsUnique, Registered, register-Registered}
use idc.Text.{codes}

abbrev nobody : ProcessInfo
nobody = record { pid = 0; pname = codes ""; timeout = pos 0; atime = 0 }

abbrev collector : ProcessInfo
collector = record { pid = 7; pname = codes "collector"; timeout = pos 30; atime = 100 }

-- A process registers in empty memory, in which another one takes the first place meanwhile.
abbrev taken : ℕ → ProcessInfo
taken = put (λ q. nobody) 0 (record { pid = 3; pname = codes "ftp"; timeout = pos 30; atime = 90 })

never : (j : ℕ) → (taken j).pid ≢ 7
never zero h = ground (arith, h)
never (suc j) h = ground (arith, h)

taken-IsUnique : IsUnique taken
taken-IsUnique zero zero hi hj same = inl refl
taken-IsUnique zero (suc j) hi hj same = absurd (ground (arith, same))
taken-IsUnique (suc i) j hi hj same = inr (ground arith)

register-Registered_example :
    Registered taken collector (register make_active (λ q. nobody) taken collector)
unfolding make_active
register-Registered_example =
    register-Registered make_active (λ q. nobody) taken collector taken-IsUnique
      (λ j. (λ h. absurd (ground (arith, h)), λ h. absurd (never j h))) refl
