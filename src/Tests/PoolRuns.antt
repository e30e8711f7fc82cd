-- ===== src/Tests/PoolRuns.antt =====
-- Runs of src/threadpool.cpp.
use idc.Prelude.{◌≡◌, refl, List, [], ◌∷◌, ◌++◌, map, arith, true, fault, bad_access, Returns}
use idc.ThreadPool.{ThreadPool, make_pool, PoolEvent, added, closed, destroyed, turn, pool_run}
use idc.ThreadPool.Schedule.{pool_run-turns}

abbrev history : List PoolEvent
history = added 4 ∷ turn 1 ∷ added 5 ∷ added 6 ∷ closed ∷ turn 0 ∷ []

abbrev closing : ThreadPool
closing = record (make_pool 2) { is_closed = true; tasks = 9 ∷ [] }

pool_run-turns_example :
    Returns
      (pool_run (make_pool 2) (history ++ map turn (1 ∷ 0 ∷ 1 ∷ [])))
      (λ p. (p.ran ≡ 4 ∷ 5 ∷ 6 ∷ []) × (p.tasks ≡ []))
    × (pool_run closing (destroyed ∷ turn 1 ∷ []) ≡ fault bad_access)
unfolding make_pool
pool_run-turns_example =
    pool_run-turns 2 history (1 ∷ 0 ∷ 1 ∷ []) closing 1 (refl, (refl, (refl, tt)))
      (omega arith, (omega arith, (omega arith, tt))) (omega arith) refl
