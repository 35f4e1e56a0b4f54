-- ===== src/Pool/Examples.antt =====
-- The theorem on the pool at a concrete history.
use restoreguard.Common.{[], ◌∷◌}
use restoreguard.Pool.{
  new_worker_pool, submitting, cancelling, finishing, taking, closing, run_pool,
}
use restoreguard.Pool.Order.{IsQueue, run_pool-IsQueue}

run_pool-IsQueue_example : IsQueue 1 (
    run_pool
      (submitting "d1"
        ∷ submitting "d2"
        ∷ taking
        ∷ taking
        ∷ finishing "d1"
        ∷ taking
        ∷ cancelling "d2"
        ∷ closing
        ∷ [])
      (new_worker_pool 1))
run_pool-IsQueue_example = run_pool-IsQueue 1 (
    submitting "d1"
    ∷ submitting "d2"
    ∷ taking
    ∷ taking
    ∷ finishing "d1"
    ∷ taking
    ∷ cancelling "d2"
    ∷ closing
    ∷ [])
