-- ===== src/ThreadPool.antt =====
-- src/threadpool.cpp and include/threadpool.h: workers that take tasks from a queue. A task is its
-- number, and a turn of a worker is one round of its loop, from taking the lock to letting it go, so a
-- schedule is the list of the workers whose rounds follow each other.
pub mod Schedule
use idc.Prelude.{
  ℕ, zero, suc, ◌+◌, Bool, true, false, List, [], ◌∷◌, ◌++◌, ◌&&◌, Result, ok, fault, ◌>>=◌,
  bad_access, if◌then◌else◌, get_or, set, replicate,
}

-- `workers` says which of them have not returned, `sem` is the count of m_sem, and `ran` has the tasks
-- that were called, in their order. `is_destroyed` is whether the members are gone, which the workers, of
-- which none is joined, can outlive.
pub record ThreadPool : Type 0 where
  pub is_closed : Bool
  pub sem : ℕ
  pub workers : List Bool
  pub tasks : List ℕ
  pub ran : List ℕ
  pub is_destroyed : Bool

-- The constructor
unfoldable pub make_pool : ℕ → ThreadPool
make_pool thread_count = record {
  is_closed = false;
  sem = 0;
  workers = replicate thread_count true;
  tasks = [];
  ran = [];
  is_destroyed = false;
}

-- A round of the worker `i` of a pool that has its members: it goes on or returns.
unfoldable pub worker_turn : ThreadPool → ℕ → ThreadPool
worker_turn p i = elim (get_or p.workers i false) [
  | false ↦ p
  | true ↦ elim (p.tasks) [
    | task ∷ tasks ↦ record p { tasks = tasks; ran = p.ran ++ (task ∷ []) }
    | [] ↦ if p.is_closed then record p { workers = set p.workers i false } else p
  ]
]

-- A round of any pool: a worker that has not returned takes the lock, which is a member.
unfoldable pub worker_round : ThreadPool → ℕ → Result ThreadPool
unfolding worker_turn
worker_round p i =
    if p.is_destroyed && get_or p.workers i false then fault bad_access else ok (worker_turn p i)

-- addTask
unfoldable pub add_task : ThreadPool → ℕ → ThreadPool
add_task p task = record p { tasks = p.tasks ++ (task ∷ []); sem = p.sem + 1 }

-- The body of the destructor
unfoldable pub close_pool : ThreadPool → ThreadPool
close_pool p = record p { is_closed = true; sem = p.sem + 1 }

-- What the destructor does behind its body: the tasks are dropped, and ~Thread only detaches a worker.
unfoldable pub destroy_pool : ThreadPool → ThreadPool
destroy_pool p = record p { tasks = []; is_destroyed = true }

-- What happens to a pool; the two parts of the destructor are events, since rounds come in between.
pub data PoolEvent : Type 0 where
  added : ℕ → PoolEvent
  closed destroyed : PoolEvent
  turn : ℕ → PoolEvent

unfoldable pub pool_step : ThreadPool → PoolEvent → Result ThreadPool
unfolding worker_round add_task close_pool destroy_pool
pool_step p (added task) = if p.is_destroyed then fault bad_access else ok (add_task p task)
pool_step p closed = ok (close_pool p)
pool_step p destroyed = ok (destroy_pool p)
pool_step p (turn i) = worker_round p i

unfoldable pub pool_run : ThreadPool → List PoolEvent → Result ThreadPool
unfolding pool_step
pool_run p [] = ok p
pool_run p (e ∷ es) = pool_step p e >>= λ next. pool_run next es
