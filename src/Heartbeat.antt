-- ===== src/Heartbeat.antt =====
-- CSEM and CPActive of src/_public.cpp: the heartbeats of processes in shared memory, with the
-- semaphore that guards it. What the system calls give is an argument; the part between P and V is one
-- step, which it is if P() succeeds; AddPInfo goes on if it fails.
pub mod Slots
use idc.Prelude.{
  Bytes, [], ℕ, zero, suc, ◌+◌, Bool, true, false, not, ◌&&◌, Option, none, some, Result, ok, fault,
  ◌>>=◌, bad_access, out_of_range, if◌then◌else◌, ◌==◌, ℤ, pos, negsuc, put, replicate,
}
use idc.Strings.{safe_strncpy}
use idc.Net.Frame.{is_minus_one}
use idc.Net.Client.{minus_one, is_negative}

pub record CSem : Type 0 where
  pub semid : ℤ
  pub sem_flg : ℤ

-- The constructor; SEM_UNDO is 0x1000.
unfoldable pub make_sem : CSem
make_sem = record { semid = minus_one; sem_flg = pos 4096 }

-- What the calls in init give: semget, its errno, semget that creates, its errno, the last semget, and
-- semctl.
pub record SemCalls : Type 0 where
  pub got : ℤ
  pub got_errno : ℕ
  pub created : ℤ
  pub created_errno : ℕ
  pub got_again : ℤ
  pub initialised : ℤ

-- Init behind a semget that found no semaphore. EEXIST is 17.
unfoldable pub create_sem : CSem → SemCalls → Bool × CSem
create_sem s calls =
    if is_minus_one calls.created
    then (if calls.created_errno == 17
        then (not (is_minus_one calls.got_again), record s { semid = calls.got_again })
        else (false, record s { semid = calls.created }))
    else (not (is_negative calls.initialised), record s { semid = calls.created })

-- CSEM::init. ENOENT is 2.
unfoldable pub sem_init : CSem → ℤ → SemCalls → Bool × CSem
unfolding create_sem
sem_init s sem_flg calls =
    if not (is_minus_one s.semid)
    then (false, s)
    else let s' = record s { semid = calls.got; sem_flg = sem_flg } in
      if not (is_minus_one calls.got)
      then (true, s')
      else if calls.got_errno == 2
      then create_sem s' calls
      else (false, s')

-- P, V and destroy, with what semop or semctl gives.
unfoldable pub sem_call : CSem → ℤ → Bool
sem_call s result = not (is_minus_one s.semid) && not (is_minus_one result)

-- st_pinfo
pub record ProcessInfo : Type 0 where
  pub pid : ℕ
  pub pname : Bytes
  pub timeout : ℤ
  pub atime : ℕ

-- `attached` is whether m_shm is not null.
pub record CpActive : Type 0 where
  pub sem : CSem
  pub shmid : ℤ
  pub position : ℤ
  pub attached : Bool

unfoldable pub make_active : CpActive
unfolding make_sem
make_active = record { sem = make_sem; shmid = minus_one; position = minus_one; attached = false }

-- The loops of AddPInfo: the first of the places from `ii` on, `count` of them, with this process.
unfoldable pub search_pid : ℕ → ℕ → (ℕ → ProcessInfo) → ℕ → ℤ
search_pid zero ii shm pid = minus_one
search_pid (suc count) ii shm pid =
    let later = search_pid count (suc ii) shm pid in if (shm ii).pid == pid then pos ii else later

-- MAXNUMP_
abbrev pub max_processes : ℕ
max_processes = 1000

-- AddPInfo from the second search on: the place is the one of the process, or a free one.
unfoldable pub choose_position : ℤ → (ℕ → ProcessInfo) → ℤ
unfolding search_pid
choose_position position shm =
    if is_minus_one position then search_pid max_processes 0 shm 0 else position

-- What is stored, in a structure that is cleared before.
unfoldable pub make_info : ℕ → ℤ → Option Bytes → ℕ → Result ProcessInfo
unfolding safe_strncpy
make_info pid timeout pname atime = safe_strncpy (some (replicate 51 0)) 51 pname 50 >>= λ stored.
    elim stored [
      | none ↦ ok (record { pid = pid; pname = []; timeout = timeout; atime = atime })
      | some text ↦ ok (record { pid = pid; pname = text; timeout = timeout; atime = atime })
    ]

-- memcpy to the place
unfoldable pub store_info : (ℕ → ProcessInfo) → ℤ → ProcessInfo → Bool × (ℕ → ProcessInfo)
store_info shm (pos place) info = (true, put shm place info)
store_info shm (negsuc n) info = (false, shm)

-- AddPInfo when the memory and the semaphore are there. The first search is made before P(): it sees
-- the memory `seen`, which other processes can change until the semaphore is taken, when it is `shm`.
unfoldable pub register :
    CpActive
    → (ℕ → ProcessInfo)
    → (ℕ → ProcessInfo)
    → ProcessInfo
    → Bool × CpActive × (ℕ → ProcessInfo)
unfolding search_pid choose_position store_info
register p seen shm info =
    let own = search_pid max_processes 0 seen info.pid in
    let position = choose_position (if is_minus_one own then p.position else own) shm in
    let (success, shm') = store_info shm position info in
    (success, record p { position = position }, shm')

-- AddPInfo. `shmid` is what shmget gives, and getpid and time the process and the time; `seen` and `shm`
-- are those of `register`.
unfoldable pub add_pinfo :
    CpActive
    → (ℕ → ProcessInfo)
    → (ℕ → ProcessInfo)
    → ℤ
    → SemCalls
    → ℕ
    → ℕ
    → ℤ
    → Option Bytes
    → Result (Bool × CpActive × (ℕ → ProcessInfo))
unfolding sem_init make_info register
add_pinfo p seen shm shmid calls pid now timeout pname =
    let p₁ = record p { shmid = shmid } in
    if is_minus_one shmid
    then ok (false, p₁, shm)
    else let (ready, sem) = sem_init p₁.sem (pos 4096) calls in
      let p₂ = record p₁ { sem = sem } in
      if not ready
      then ok (false, p₂, shm)
      else make_info pid timeout pname now >>= λ info.
          ok (register (record p₂ { attached = true }) seen shm info)

-- UptATime
unfoldable pub update_atime : CpActive → (ℕ → ProcessInfo) → ℕ → Result (Bool × (ℕ → ProcessInfo))
update_atime p shm now = elim p.position [
  | negsuc n ↦ ok (false, shm)
  | pos place ↦
      if p.attached
      then ok (true, put shm place (record (shm place) { atime = now }))
      else fault bad_access
]

-- The destructor, which does not test m_pos.
unfoldable pub leave : CpActive → (ℕ → ProcessInfo) → Result (ℕ → ProcessInfo)
leave p shm = if not p.attached then fault bad_access else elim p.position [
  | negsuc n ↦ fault out_of_range
  | pos place ↦
      ok (put shm place (record { pid = 0; pname = replicate 51 0; timeout = pos 0; atime = 0 }))
]
