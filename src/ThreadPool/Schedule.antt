-- ===== src/ThreadPool/Schedule.antt =====
-- ThreadPool of src/threadpool.cpp under every schedule: the tasks run once each, in the order in which
-- they were added.
use idc.Prelude.{
  ℕ, zero, suc, ◌+◌, ◌-◌, ◌≤◌, ◌<◌, ◌≡◌, refl, sym, ap, ◌∙◌, ◌⊎◌, inl, inr, Bool, true, false,
  Bool-cases, List-cases, List, [], ◌∷◌, ◌++◌, append_assoc, append-nil, map, arith, length,
  length-append, get_or, set, replicate, subst, ok, fault, bad_access, Returns, Returns-of_eq,
  if◌then◌else◌, ◌>>=◌, ◌&&◌,
}
use idc.ThreadPool.{
  ThreadPool, make_pool, worker_turn, add_task, close_pool, worker_round, PoolEvent, added, closed,
  destroyed, turn, pool_step, pool_run, destroy_pool,
}

-- The tasks of a history, in the order in which they are added.
abbrev pub tasks_of : List PoolEvent → List ℕ
tasks_of [] = []
tasks_of (added task ∷ es) = task ∷ tasks_of es
tasks_of (closed ∷ es) = tasks_of es
tasks_of (destroyed ∷ es) = tasks_of es
tasks_of (turn i ∷ es) = tasks_of es

-- The history of a pool that keeps its members.
unfoldable live_step : ThreadPool → PoolEvent → ThreadPool
unfolding worker_turn add_task close_pool
live_step p (added task) = add_task p task
live_step p closed = close_pool p
live_step p destroyed = p
live_step p (turn i) = worker_turn p i

unfoldable live_run : ThreadPool → List PoolEvent → ThreadPool
unfolding live_step
live_run p [] = p
live_run p (e ∷ es) = live_run (live_step p e) es

-- What a round does: nothing, if the worker has returned or there is nothing to do; or it runs the
-- first task; or the worker returns from a closed pool.
data Round (p : ThreadPool) (i : ℕ) : ThreadPool → Type 0 where
  idle : (get_or p.workers i false ≡ false) ⊎ (p.tasks ≡ []) → Round p i p
  took :
      (task : ℕ) (rest : List ℕ)
      → p.tasks ≡ task ∷ rest
      → Round p i (record p { tasks = rest; ran = p.ran ++ (task ∷ []) })
  returned :
      p.is_closed ≡ true → p.tasks ≡ [] → Round p i (record p { workers = set p.workers i false })

round_cases : (p : ThreadPool) (i : ℕ) → Round p i (worker_turn p i)
unfolding worker_turn
round_cases p i = elim (Bool-cases (get_or p.workers i false)) [
  | inr back ↦ subst (Round p i) {x = p} (rw (back, worker_turn) refl) (idle (inl back))
  | inl works ↦ elim (List-cases p.tasks) [
    | inr (task, rest, e) ↦
        subst (Round p i) {x = record p { tasks = rest; ran = p.ran ++ (task ∷ []) }}
          (rw (works, e, worker_turn) refl) (took task rest e)
    | inl e ↦ elim (Bool-cases p.is_closed) [
      | inl shut ↦
          subst (Round p i) {x = record p { workers = set p.workers i false }}
            (rw (works, e, shut, worker_turn, e) refl) (returned shut e)
      | inr unshut ↦
          subst (Round p i) {x = p} (rw (works, e, unshut, worker_turn, e) refl) (idle (inr e))
    ]
  ]
]

round_order :
    (p : ThreadPool) (i : ℕ) (p' : ThreadPool)
    → Round p i p'
    → p'.ran ++ p'.tasks ≡ p.ran ++ p.tasks
round_order p i p' (idle h) = refl
round_order p i p' (took task rest e) =
    append_assoc p.ran (task ∷ []) rest ∙ ap (λ t. p.ran ++ t) (sym e)
round_order p i p' (returned shut e) = refl

-- The tasks that ran and those that wait are those that were added, in their order.
live_run-tasks_of :
    (es : List PoolEvent) (p : ThreadPool)
    → (live_run p es).ran ++ (live_run p es).tasks ≡ (p.ran ++ p.tasks) ++ tasks_of es
unfolding live_run live_step add_task close_pool
live_run-tasks_of [] p = sym (append-nil (p.ran ++ p.tasks))
live_run-tasks_of (added task ∷ es) p =
    live_run-tasks_of es (add_task p task)
    ∙ ap (λ t. t ++ tasks_of es) (sym (append_assoc p.ran p.tasks (task ∷ [])))
    ∙ append_assoc (p.ran ++ p.tasks) (task ∷ []) (tasks_of es)
live_run-tasks_of (closed ∷ es) p = live_run-tasks_of es (close_pool p)
live_run-tasks_of (destroyed ∷ es) p = live_run-tasks_of es p
live_run-tasks_of (turn i ∷ es) p =
    live_run-tasks_of es (worker_turn p i)
    ∙ ap (λ t. t ++ tasks_of es) (round_order p i (worker_turn p i) (round_cases p i))

-- No task is added to a pool that is closed, and the members are kept.
abbrev pub Legal : Bool → List PoolEvent → Type 0
Legal is_closed [] = Unit {0}
Legal is_closed (added task ∷ es) = (is_closed ≡ false) × Legal is_closed es
Legal is_closed (closed ∷ es) = Legal true es
Legal is_closed (destroyed ∷ es) = ⊥
Legal is_closed (turn i ∷ es) = Legal is_closed es

-- A worker only returns from a closed pool without tasks.
abbrev IsAlive : ℕ → ThreadPool → Type 0
IsAlive n p =
    (i : ℕ) → i < n → (get_or p.workers i false ≡ true) ⊎ ((p.is_closed ≡ true) × (p.tasks ≡ []))

get_or-replicate : (n i : ℕ) → i < n → get_or (replicate n true) i false ≡ true
get_or-replicate zero i h = absurd (omega arith)
get_or-replicate (suc n) zero h = refl
get_or-replicate (suc n) (suc i) h = get_or-replicate n i (omega arith)

round-IsAlive :
    (n : ℕ) (p : ThreadPool) (i : ℕ) (p' : ThreadPool) → Round p i p' → IsAlive n p → IsAlive n p'
round-IsAlive n p i p' (idle h) alive = alive
round-IsAlive n p i p' (returned shut e) alive = λ q h. inr (shut, e)
round-IsAlive n p i p' (took task rest e) alive =
    λ q h. elim (alive q h) [ inl works ↦ inl works | inr (shut, none') ↦ absurd (cc (e, none')) ]

round_closed :
    (p : ThreadPool) (i : ℕ) (p' : ThreadPool) → Round p i p' → p'.is_closed ≡ p.is_closed
round_closed p i p' (idle h) = refl
round_closed p i p' (took task rest e) = refl
round_closed p i p' (returned shut e) = refl

round_kept :
    (p : ThreadPool) (i : ℕ) (p' : ThreadPool) → Round p i p' → p'.is_destroyed ≡ p.is_destroyed
round_kept p i p' (idle h) = refl
round_kept p i p' (took task rest e) = refl
round_kept p i p' (returned shut e) = refl

-- A round takes a task, if there is one.
round_progress :
    (n : ℕ) (p : ThreadPool) (i : ℕ) (p' : ThreadPool)
    → Round p i p'
    → IsAlive n p
    → i < n
    → length p'.tasks ≡ length p.tasks - 1
round_progress n p i p' (took task rest e) alive h = rw e (omega arith)
round_progress n p i p' (returned shut e) alive h = rw e refl
round_progress n p i p' (idle (inr e)) alive h = rw e refl
round_progress n p i p' (idle (inl back)) alive h = elim (alive i h) [
  | inl works ↦ absurd (cc (works, back))
  | inr (shut, e) ↦ rw e refl
]

live_run-IsAlive :
    (n : ℕ) (es : List PoolEvent) (p : ThreadPool)
    → Legal p.is_closed es
    → IsAlive n p
    → IsAlive n (live_run p es)
unfolding live_run live_step add_task close_pool
live_run-IsAlive n [] p legal alive = alive
live_run-IsAlive n (added task ∷ es) p (not_closed, legal) alive =
    live_run-IsAlive n es (add_task p task) legal (λ i h. elim (alive i h) [
      | inl works ↦ inl works
      | inr (shut, e) ↦ absurd (cc (not_closed, shut))
    ])
live_run-IsAlive n (closed ∷ es) p legal alive =
    live_run-IsAlive n es (close_pool p) legal
      (λ i h. elim (alive i h) [ inl works ↦ inl works | inr (shut, e) ↦ inr (refl, e) ])
live_run-IsAlive n (destroyed ∷ es) p legal alive = absurd legal
live_run-IsAlive n (turn i ∷ es) p legal alive =
    live_run-IsAlive n es (worker_turn p i)
      (subst (λ b. Legal b es) (sym (round_closed p i (worker_turn p i) (round_cases p i))) legal)
      (round-IsAlive n p i (worker_turn p i) (round_cases p i) alive)

-- The workers of these turns exist.
abbrev pub AllBelow : ℕ → List ℕ → Type 0
AllBelow n [] = Unit {0}
AllBelow n (i ∷ turns) = (i < n) × AllBelow n turns

turns_progress :
    (n : ℕ) (turns : List ℕ) (p : ThreadPool)
    → IsAlive n p
    → AllBelow n turns
    → length (live_run p (map turn turns)).tasks ≡ length p.tasks - length turns
unfolding live_run live_step
turns_progress n [] p alive below = omega arith
turns_progress n (i ∷ turns) p alive (h, below) =
    let p' = worker_turn p i in
    let round = round_cases p i in
    turns_progress n turns p' (round-IsAlive n p i p' round alive) below
    ∙ omega (arith, round_progress n p i p' round alive h)

live_run-append :
    (es fs : List PoolEvent) (p : ThreadPool) → live_run p (es ++ fs) ≡ live_run (live_run p es) fs
unfolding live_run
live_run-append [] fs p = refl
live_run-append (e ∷ es) fs p = live_run-append es fs (live_step p e)

tasks_of-turns :
    (es : List PoolEvent) (turns : List ℕ) → tasks_of (es ++ map turn turns) ≡ tasks_of es
tasks_of-turns [] [] = refl
tasks_of-turns [] (i ∷ turns) = tasks_of-turns [] turns
tasks_of-turns (added task ∷ es) turns = ap (λ t. task ∷ t) (tasks_of-turns es turns)
tasks_of-turns (closed ∷ es) turns = tasks_of-turns es turns
tasks_of-turns (destroyed ∷ es) turns = tasks_of-turns es turns
tasks_of-turns (turn i ∷ es) turns = tasks_of-turns es turns

empty_of_length : (xs : List ℕ) → length xs ≡ 0 → xs ≡ []
empty_of_length [] h = refl
empty_of_length (x ∷ xs) h = absurd (omega arith)

-- Enough rounds run all tasks.
live_run-turns :
    (n : ℕ) (es : List PoolEvent) (turns : List ℕ)
    → Legal false es
    → AllBelow n turns
    → length (tasks_of es) ≤ length turns
    → let p = live_run (make_pool n) (es ++ map turn turns) in
      (p.ran ≡ tasks_of es) × (p.tasks ≡ [])
unfolding make_pool
live_run-turns n es turns legal below enough =
    let history = es ++ map turn turns in
    let start = make_pool n in
    let p₀ = live_run start es in
    let alive = live_run-IsAlive n es start legal (λ i h. inl (get_or-replicate n i h)) in
    let waiting : length p₀.ran + length p₀.tasks ≡ length (tasks_of es) =
      sym (length-append p₀.ran p₀.tasks) ∙ ap (λ t. length t) (live_run-tasks_of es start) in
    let left : length (live_run start history).tasks ≡ 0 =
      ap (λ p. length p.tasks) (live_run-append es (map turn turns) start)
      ∙ turns_progress n turns p₀ alive below
      ∙ omega arith in
    let none' = empty_of_length (live_run start history).tasks left in
    (
      sym (append-nil (live_run start history).ran)
          ∙ ap (λ t. (live_run start history).ran ++ t) (sym none')
          ∙ live_run-tasks_of history start
          ∙ tasks_of-turns es turns,
      none',
    )

-- Without a fault, a legal history of a pool with its members is that of its parts.
live_run-Legal :
    (es : List PoolEvent) (p : ThreadPool)
    → p.is_destroyed ≡ false
    → Legal p.is_closed es
    → pool_run p es ≡ ok (live_run p es)
unfolding pool_run pool_step live_run live_step worker_round add_task close_pool
live_run-Legal [] p kept legal = refl
live_run-Legal (added task ∷ es) p kept (not_closed, legal) =
    ap (λ b. (if b then fault bad_access else ok (add_task p task)) >>= λ next. pool_run next es)
      kept
    ∙ live_run-Legal es (add_task p task) kept legal
live_run-Legal (closed ∷ es) p kept legal = live_run-Legal es (close_pool p) kept legal
live_run-Legal (destroyed ∷ es) p kept legal = absurd legal
live_run-Legal (turn i ∷ es) p kept legal =
    let round = round_cases p i in
    ap
      (λ b.
        (if b && get_or p.workers i false then fault bad_access else ok (worker_turn p i))
        >>= λ next. pool_run next es)
      kept
    ∙ live_run-Legal es (worker_turn p i) (round_kept p i (worker_turn p i) round ∙ kept)
        (subst (λ b. Legal b es) (sym (round_closed p i (worker_turn p i) round)) legal)

Legal-turns :
    (es : List PoolEvent) (turns : List ℕ) (b : Bool) → Legal b es → Legal b (es ++ map turn turns)
Legal-turns [] [] b legal = tt
Legal-turns [] (i ∷ turns) b legal = Legal-turns [] turns b tt
Legal-turns (added task ∷ es) turns b (h, legal) = (h, Legal-turns es turns b legal)
Legal-turns (closed ∷ es) turns b legal = Legal-turns es turns true legal
Legal-turns (destroyed ∷ es) turns b legal = absurd legal
Legal-turns (turn i ∷ es) turns b legal = Legal-turns es turns b legal

-- While a pool keeps its members and no task is added once the body of its destructor has run, no round
-- meets a fault, and behind any history as many rounds of its workers as there are tasks, by whichever of
-- them, have run all tasks that were added, once each and in their order, and leave none. Nothing in the
-- destructor waits for these rounds: it destroys the members right behind its body, and then the next
-- round of a worker that has not returned is a fault, whatever the state of the pool.
pub pool_run-turns :
    (n : ℕ) (es : List PoolEvent) (turns : List ℕ) (p : ThreadPool) (i : ℕ)
    → Legal false es
    → AllBelow n turns
    → length (tasks_of es) ≤ length turns
    → get_or p.workers i false ≡ true
    → Returns
        (pool_run (make_pool n) (es ++ map turn turns))
        (λ p. (p.ran ≡ tasks_of es) × (p.tasks ≡ []))
      × (pool_run p (destroyed ∷ turn i ∷ []) ≡ fault bad_access)
unfolding make_pool pool_run pool_step worker_round destroy_pool
pool_run-turns n es turns p i legal below enough works = (
  Returns-of_eq (λ p. (p.ran ≡ tasks_of es) × (p.tasks ≡ []))
      (live_run-Legal (es ++ map turn turns) (make_pool n) refl (Legal-turns es turns false legal))
      (live_run-turns n es turns legal below enough),
  ap
      (λ b.
        (if b then fault bad_access else ok (worker_turn (destroy_pool p) i)) >>= λ next. ok next)
      works,
)
