-- ===== src/Heartbeat/Slots.antt =====
-- CPActive of src/_public.cpp: which place of the shared memory a process has.
use idc.Prelude.{
  ℕ, zero, suc, ◌+◌, ◌≤◌, ◌<◌, ◌≡◌, ◌≢◌, ◌↔◌, refl, sym, ap, ◌∙◌, ◌⊎◌, inl, inr, Bool, true, false,
  Bool-cases, ◌==◌, arith, pos, put,
}
use idc.Net.Client.{minus_one}
use idc.Heartbeat.{
  ProcessInfo, CpActive, max_processes, search_pid, choose_position, store_info, register,
}

-- No process has two places.
abbrev pub IsUnique : (ℕ → ProcessInfo) → Type 0
IsUnique shm =
    (i j : ℕ)
    → i < max_processes
    → j < max_processes
    → (shm i).pid ≡ (shm j).pid
    → (i ≡ j) ⊎ ((shm i).pid ≡ 0)

-- What a search finds.
search_pid_lem :
    (count ii : ℕ) (shm : ℕ → ProcessInfo) (pid : ℕ)
    → ((k : ℕ) × (search_pid count ii shm pid ≡ pos k) × ((shm k).pid ≡ pid) × (k < ii + count))
      ⊎ ((search_pid count ii shm pid ≡ minus_one)
          × ((j : ℕ) → ii ≤ j → j < ii + count → (shm j).pid ≢ pid))
unfolding search_pid
search_pid_lem zero ii shm pid = inr (refl, λ j low high e. omega arith)
search_pid_lem (suc count) ii shm pid = elim (Bool-cases ((shm ii).pid == pid)) [
  | inl here ↦ inl (ii, rw (here, search_pid) refl, ground arith, omega arith)
  | inr other ↦ elim (search_pid_lem count (suc ii) shm pid) [
    | inl (k, e, same, high) ↦ inl (k, rw (other, search_pid) e, same, omega arith)
    | inr (e, absent) ↦ inr (
      rw (other, search_pid) e,
      λ j low high same. elim (Bool-cases (ii == j)) [
        | inl at ↦
            let found : (shm ii).pid ≡ pid = ap (λ q. (shm q).pid) {y = j} (ground arith) ∙ same in
            ground arith
        | inr apart ↦ absent j (ground arith) (omega arith) same
      ],
    )
  ]
]

-- The place of a process: its own, or any if it has none.
abbrev IsOwn : (ℕ → ProcessInfo) → ℕ → ℕ → Type 0
IsOwn shm k pid = ((shm k).pid ≡ pid) ⊎ ((j : ℕ) → j < max_processes → (shm j).pid ≢ pid)

-- Another place has the process only if it is none.
other_place :
    (shm : ℕ → ProcessInfo) (k j pid : ℕ)
    → IsUnique shm
    → IsOwn shm k pid
    → k < max_processes
    → j < max_processes
    → (k == j) ≡ false
    → (shm j).pid ≡ pid
    → pid ≡ 0
other_place shm k j pid unique (inr absent) hk hj apart same = absurd (absent j hj same)
other_place shm k j pid unique (inl own) hk hj apart same =
    elim (unique k j hk hj (own ∙ sym same)) [
      | inl at ↦ absurd (ground (arith, at))
      | inr none' ↦ sym own ∙ none'
    ]

put-IsUnique :
    (shm : ℕ → ProcessInfo) (k : ℕ) (info : ProcessInfo)
    → IsUnique shm
    → k < max_processes
    → IsOwn shm k info.pid
    → IsUnique (put shm k info)
put-IsUnique shm k info unique below chosen i j hi hj same = elim (Bool-cases (k == i)) [
  | inl at_i ↦ elim (Bool-cases (k == j)) [
    | inl at_j ↦ inl (ground arith)
    | inr off_j ↦
        let moved : (shm j).pid ≡ info.pid = sym (rw (at_i, off_j) at same) in
        inr (rw at_i (other_place shm k j info.pid unique chosen below hj off_j moved))
  ]
  | inr off_i ↦ elim (Bool-cases (k == j)) [
    | inl at_j ↦
        let moved : (shm i).pid ≡ info.pid = rw (off_i, at_j) at same in
        inr (rw off_i (moved ∙ other_place shm k i info.pid unique chosen below hi off_i moved))
    | inr off_j ↦ rw off_i (unique i j hi hj (rw (off_i, off_j) at same))
  ]
]

-- What a registration leaves: the process has the place that is kept, no other place is changed, and
-- no process has two; or there was no free place and nothing is changed.
abbrev pub Registered :
    (ℕ → ProcessInfo) → ProcessInfo → Bool × CpActive × (ℕ → ProcessInfo) → Type 0
Registered shm info (success, p', shm') =
    ((k : ℕ) × (success ≡ true)
      × (p'.position ≡ pos k)
      × (k < max_processes)
      × (((shm k).pid ≡ info.pid) ⊎ ((shm k).pid ≡ 0))
      × (shm' ≡ put shm k info)
      × IsUnique shm')
    ⊎ ((success ≡ false)
        × (shm' ≡ shm)
        × ((j : ℕ) → j < max_processes → ((shm j).pid ≢ 0) × ((shm j).pid ≢ info.pid)))

-- If no process has two places, a process that had no place, or left one in an earlier run, gets exactly
-- one place, its old one or a free one, and still none has two; if all are taken by others, the
-- registration fails and nothing changes. Until it has the semaphore, other processes may write to the
-- memory, but not to places with its number, nor its number.
pub register-Registered :
    (p : CpActive) (seen shm : ℕ → ProcessInfo) (info : ProcessInfo)
    → IsUnique shm
    → ((j : ℕ) → ((seen j).pid ≡ info.pid) ↔ ((shm j).pid ≡ info.pid))
    → p.position ≡ minus_one
    → Registered shm info (register p seen shm info)
unfolding register choose_position store_info
register-Registered p seen shm info unique same fresh =
    elim (search_pid_lem max_processes 0 seen info.pid) [
      | inl (k, e, own, below) ↦
          let here = (same k).0 own in
          rw (e, register)
            (inl (
              k,
              refl,
              refl,
              omega arith,
              inl here,
              refl,
              put-IsUnique shm k info unique (omega arith) (inl here),
            ))
      | inr (e, absent) ↦
          let none' : (j : ℕ) → j < max_processes → (shm j).pid ≢ info.pid =
            λ j h found. absent j (omega arith) (omega arith) ((same j).1 found) in
          elim (search_pid_lem max_processes 0 shm 0) [
            | inl (k, e', free, below) ↦
                rw (e, fresh, e', register)
                  (inl (
                    k,
                    refl,
                    refl,
                    omega arith,
                    inr free,
                    refl,
                    put-IsUnique shm k info unique (omega arith) (inr none'),
                  ))
            | inr (e', full) ↦
                rw (e, fresh, e', register)
                  (inr (refl, refl, λ j h. (full j (omega arith) (omega arith), none' j h)))
          ]
    ]
