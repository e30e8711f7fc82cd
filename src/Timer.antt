-- ===== src/Timer.antt =====
-- src/timer.cpp and include/timer.h: timers in a set ordered by expiry, under the manager's lock.
-- A timer is shared by its handle: `timers` is the heap, a handle is an address in it, and the
-- set holds addresses, its first element first. The clock is an argument of each operation, in
-- milliseconds; the two reads of the clock in `Timer` and its manager are the caller's `now`.
-- A new timer's address is the allocator's choice, an argument too.
-- The lock is held by one thread at a time, so an operation is one step.

pub mod Order
pub mod Invariant
pub mod Expiry
pub mod Rearm
pub mod ListExpired
pub mod Rollover
pub mod Moved
use idc.Prelude.{
  ℕ, suc, ◌+◌, ◌-◌, ◌*◌, ◌≤◌, ◌<◌, ◌≡◌, Bool, true, false, not, ◌&&◌, ◌||◌, List, [], ◌∷◌, ◌++◌,
  Option, none, some, Result, ok, fault, ◌>>=◌, end_iterator, if◌then◌else◌, ltb, leb, ◌==◌, add64,
  sub64, u64_mod,
}

-- std::function<void()>: a callable `k`, or OnTimer bound to a condition and a callable.
pub data Callback : Type 0 where
  call : ℕ → Callback
  on_timer : ℕ → ℕ → Callback

pub record Timer : Type 0 where
  pub recurring : Bool
  pub ms : ℕ
  pub next : ℕ
  pub cb : Option Callback

pub record TimerManager : Type 0 where
  pub heap : ℕ → Timer
  pub timers : List ℕ
  pub tickled : Bool
  pub previous_time : ℕ

abbrev pub update : (ℕ → Timer) → ℕ → Timer → ℕ → Timer
update heap p t q = if p == q then t else heap q

-- Timer::Comparator, on pointers: `none` is null.
unfoldable pub comparator : (ℕ → Timer) → Option ℕ → Option ℕ → Bool
comparator heap none none = false
comparator heap none (some rhs) = true
comparator heap (some lhs) none = false
comparator heap (some lhs) (some rhs) =
    if ltb (heap lhs).next (heap rhs).next
    then true
    else if ltb (heap rhs).next (heap lhs).next
    then false
    else ltb lhs rhs

abbrev pub before : (ℕ → Timer) → ℕ → ℕ → Bool
before heap p q = comparator heap (some p) (some q)

-- std::set<Timer::ptr, Comparator>: insert, find, erase and lower_bound on the ordered elements.
unfoldable pub insert : (ℕ → Timer) → ℕ → List ℕ → List ℕ
insert heap p [] = p ∷ []
insert heap p (q ∷ qs) =
    if before heap q p
    then q ∷ insert heap p qs
    else if before heap p q
    then p ∷ (q ∷ qs)
    else q ∷ qs

unfoldable pub find : (ℕ → Timer) → ℕ → List ℕ → Bool
find heap p [] = false
find heap p (q ∷ qs) = if before heap q p then find heap p qs else not (before heap p q)

unfoldable pub erase : (ℕ → Timer) → ℕ → List ℕ → List ℕ
erase heap p [] = []
erase heap p (q ∷ qs) = if before heap q p then q ∷ erase heap p qs else qs

-- erase(find(p)): erasing end() is undefined.
unfoldable pub erase_found : (ℕ → Timer) → ℕ → List ℕ → Result (List ℕ)
unfolding find erase
erase_found heap p qs = if find heap p qs then ok (erase heap p qs) else fault end_iterator

unfoldable pub new : ℕ → TimerManager
new now = record {
  heap = λ _. record { recurring = false; ms = 0; next = 0; cb = none };
  timers = [];
  tickled = false;
  previous_time = now;
}

abbrev pub first_is : ℕ → List ℕ → Bool
first_is p [] = false
first_is p (q ∷ qs) = p == q

-- addTimer(Timer::ptr, WriteLock&)
unfoldable pub add_to_set : TimerManager → ℕ → TimerManager
unfolding insert
add_to_set m p =
    let timers = insert m.heap p m.timers in
    record m { timers = timers; tickled = m.tickled || (first_is p timers && not m.tickled) }

-- addTimer(uint64_t, std::function<void()>, bool), the new timer at address `p`
unfoldable pub add_timer : TimerManager → ℕ → ℕ → ℕ → Option Callback → Bool → TimerManager
unfolding add_to_set
add_timer m p now ms cb recurring =
    let timer : Timer = record { recurring = recurring; ms = ms; next = add64 now ms; cb = cb } in
    add_to_set (record m { heap = update m.heap p timer }) p

-- What std::bind(&OnTimer, weak_cond, cb) makes is never empty.
unfoldable pub add_condition_timer : TimerManager → ℕ → ℕ → ℕ → ℕ → ℕ → Bool → TimerManager
unfolding add_timer
add_condition_timer m p now ms cb weak_cond recurring =
    add_timer m p now ms (some (on_timer weak_cond cb)) recurring

-- What a call of the callback runs, where `alive` tells which conditions can still be locked.
unfoldable pub fire : (ℕ → Bool) → Callback → Option ℕ
fire alive (call k) = some k
fire alive (on_timer cond k) = if alive cond then some k else none

unfoldable pub cancel : TimerManager → ℕ → Result (TimerManager × Bool)
unfolding erase_found
cancel m p = elim (m.heap p).cb [
  | none ↦ ok (m, false)
  | some cb ↦ do
    let heap = update m.heap p (record (m.heap p) { cb = none })
    timers ← erase_found heap p m.timers
    ok (record m { heap = heap; timers = timers }, true)
]

unfoldable pub refresh : TimerManager → ℕ → ℕ → TimerManager × Bool
unfolding find erase insert
refresh m now p = elim (m.heap p).cb [
  | none ↦ (m, false)
  | some cb ↦
      if not (find m.heap p m.timers)
      then (m, false)
      else let heap = update m.heap p (record (m.heap p) { next = add64 now (m.heap p).ms }) in
        (record m { heap = heap; timers = insert heap p (erase m.heap p m.timers) }, true)
]

unfoldable pub reset : TimerManager → ℕ → ℕ → ℕ → Bool → TimerManager × Bool
unfolding find erase add_to_set
reset m now p ms from_now =
    if ms == (m.heap p).ms && not from_now then (m, true) else elim (m.heap p).cb [
      | none ↦ (m, false)
      | some cb ↦
          if not (find m.heap p m.timers)
          then (m, false)
          else let start = if from_now then now else sub64 (m.heap p).next (m.heap p).ms in
            let timer = record (m.heap p) { ms = ms; next = add64 start ms } in
            (
              add_to_set
                  (record m { heap = update m.heap p timer; timers = erase m.heap p m.timers }) p,
              true,
            )
    ]

unfoldable pub get_next_timer : TimerManager → ℕ → TimerManager × ℕ
get_next_timer m now = elim m.timers [
  | [] ↦ (record m { tickled = false }, u64_mod - 1)
  | p ∷ _ ↦ (
    record m { tickled = false },
    if leb (m.heap p).next now then 0 else sub64 (m.heap p).next now,
  )
]

unfoldable pub has_timer : TimerManager → Bool
has_timer m = elim m.timers [ [] ↦ false | p ∷ _ ↦ true ]

abbrev pub hour : ℕ
hour = 60 * 60 * 1000

unfoldable pub detect_clock_rollover : TimerManager → ℕ → TimerManager × Bool
detect_clock_rollover m now = (
  record m { previous_time = now },
  ltb now m.previous_time && ltb now (sub64 m.previous_time hour),
)

-- The range before m_timers.lower_bound(probe), and the one from it on.
unfoldable pub lower_bound : (ℕ → Timer) → ℕ → List ℕ → List ℕ × List ℕ
lower_bound heap probe [] = ([], [])
lower_bound heap probe (q ∷ qs) =
    let (l, r) = lower_bound heap probe qs in
    if before heap q probe then (q ∷ l, r) else ([], q ∷ qs)

-- The loop over the timers of that very millisecond.
unfoldable pub skip_equal : (ℕ → Timer) → ℕ → List ℕ → List ℕ × List ℕ
skip_equal heap now [] = ([], [])
skip_equal heap now (q ∷ qs) =
    let (l, r) = skip_equal heap now qs in if (heap q).next == now then (q ∷ l, r) else ([], q ∷ qs)

-- `probe` is the address of now_timer.
unfoldable pub expired_range : TimerManager → ℕ → ℕ → Bool → List ℕ × List ℕ
unfolding lower_bound skip_equal
expired_range m probe now rollover =
    let now_timer : Timer = record { recurring = false; ms = 0; next = now; cb = none } in
    if rollover
    then (m.timers, [])
    else let (l, r) = lower_bound (update m.heap probe now_timer) probe m.timers in
      let (l', r') = skip_equal m.heap now r in (l ++ l', r')

-- The loop over `expired`: the heap, the set and the callbacks listed.
unfoldable pub rearm :
    ℕ → List ℕ → (ℕ → Timer) → List ℕ → (ℕ → Timer) × List ℕ × List (Option Callback)
unfolding insert
rearm now [] heap timers = (heap, timers, [])
rearm now (p ∷ ps) heap timers =
    let timer = heap p in
    let heap' = update heap p (
      if timer.recurring
      then record timer { next = add64 now timer.ms }
      else record timer { cb = none }) in
    let timers' = if timer.recurring then insert heap' p timers else timers in
    let (h, t, cbs) = rearm now ps heap' timers' in (h, t, timer.cb ∷ cbs)

abbrev pub first_after : (ℕ → Timer) → ℕ → List ℕ → Bool
first_after heap now [] = false
first_after heap now (p ∷ _) = ltb now (heap p).next

abbrev pub is_empty : List ℕ → Bool
is_empty [] = true
is_empty (p ∷ _) = false

unfoldable pub take_expired : TimerManager → ℕ → ℕ → Bool → TimerManager × List (Option Callback)
unfolding expired_range rearm
take_expired m probe now rollover =
    let (expired, rest) = expired_range m probe now rollover in
    let (heap, timers, cbs) = rearm now expired m.heap rest in
    (record m { heap = heap; timers = timers }, cbs)

unfoldable pub list_expired_cb : TimerManager → ℕ → ℕ → TimerManager × List (Option Callback)
unfolding detect_clock_rollover take_expired
list_expired_cb m probe now =
    if is_empty m.timers
    then (m, [])
    else let (m', rollover) = detect_clock_rollover m now in
      if not rollover && first_after m'.heap now m'.timers
      then (m', [])
      else take_expired m' probe now rollover
