-- ===== src/Pool/Order.antt =====
-- The order of the jobs.
use mathlib.Core.List.{append_assoc}
use restoreguard.Common.{
  ℕ, ◌≤◌, ◌<◌, ◌≡◌, refl, sym, ap, ◌∙◌, Bool, true, List, [], ◌∷◌, ◌++◌, map, String, ltb, length,
  length-append, filter, if_cases, if_either, All, arith,
}
use restoreguard.Pool.{
  Running, WorkerPool, new_worker_pool, queue_size, submit, cancel, cancel_entry, is_other,
  start_job, take_job, remove_one, finish_job, cancel_any, close_pool, Operation, submitting,
  cancelling, finishing, taking, closing, step, run_pool,
}

-- The pool implements a first-in first-out queue: the jobs that were taken, followed by those that
-- wait, are the jobs that were accepted; and the queue and the workers are bounded.
pub record IsQueue (n : ℕ) (p : WorkerPool) : Type 0 where
  pub workers : p.concurrency ≡ n
  pub order : p.taken ++ p.jobs ≡ p.accepted
  pub bounded : length p.jobs ≤ queue_size
  pub busy : length p.active ≤ n
  -- a closed pool has no context that goes on
  pub stopped : p.closed ≡ true → All (λ (r : Running). r.cancelled ≡ true) p.running

length-remove_one : (id : String) (xs : List String) → length (remove_one id xs) ≤ length xs
length-remove_one id [] = omega arith
length-remove_one id (x ∷ xs) = ground (arith, length-remove_one id xs)

abbrev AllStopped : List Running → Type 0
AllStopped rs = All (λ (r : Running). r.cancelled ≡ true) rs

filter-AllStopped :
    (id : String) (rs : List Running) → AllStopped rs → AllStopped (filter (is_other id) rs)
filter-AllStopped id [] h = tt
filter-AllStopped id (r ∷ rs) (h, hs) =
    if_either AllStopped (is_other id r) (h, filter-AllStopped id rs hs)
      (filter-AllStopped id rs hs)

cancel-AllStopped :
    (id : String) (rs : List Running) → AllStopped rs → AllStopped (map (cancel_entry id) rs)
cancel-AllStopped id [] h = tt
cancel-AllStopped id (r ∷ rs) (h, hs) = (ground (arith, h), cancel-AllStopped id rs hs)

any-AllStopped : (rs : List Running) → AllStopped (map cancel_any rs)
any-AllStopped [] = tt
any-AllStopped (r ∷ rs) = (refl, any-AllStopped rs)

module _ (n : ℕ) where
  submit-IsQueue : (id : String) (p : WorkerPool) → IsQueue n p → IsQueue n (submit id p).1
  unfolding submit
  submit-IsQueue id p q =
      if_cases (λ (r : Bool × WorkerPool). IsQueue n r.1) (ltb (length p.jobs) queue_size)
        (λ room. record {
          workers = q.workers;
          order = sym (append_assoc p.taken p.jobs (id ∷ [])) ∙ ap (λ l. l ++ id ∷ []) q.order;
          bounded = ground (arith, room, length-append p.jobs (id ∷ []));
          busy = q.busy;
          stopped = q.stopped;
        })
        (λ _. q)

  start_job-IsQueue :
      (p : WorkerPool) (jobs : List String)
      → p.jobs ≡ jobs
      → length p.active < n
      → IsQueue n p
      → IsQueue n (start_job p jobs)
  start_job-IsQueue p [] e h q = q
  start_job-IsQueue p (id ∷ jobs) e h q = record {
    workers = q.workers;
    order = append_assoc p.taken (id ∷ []) jobs ∙ ap (λ l. p.taken ++ l) (sym e) ∙ q.order;
    bounded = omega (arith, q.bounded, ap length e);
    busy = omega (arith, h);
    stopped = λ c. (c, filter-AllStopped id p.running (q.stopped c));
  }

  step-IsQueue : (o : Operation) (p : WorkerPool) → IsQueue n p → IsQueue n (step o p)
  unfolding step cancel take_job finish_job close_pool
  step-IsQueue (submitting id) p q = submit-IsQueue id p q
  step-IsQueue (cancelling id) p q = record {
    workers = q.workers;
    order = q.order;
    bounded = q.bounded;
    busy = q.busy;
    stopped = λ c. cancel-AllStopped id p.running (q.stopped c);
  }
  step-IsQueue (finishing id) p q = record {
    workers = q.workers;
    order = q.order;
    bounded = q.bounded;
    busy = omega (arith, q.busy, length-remove_one id p.active);
    stopped = λ c. filter-AllStopped id p.running (q.stopped c);
  }
  step-IsQueue taking p q =
      if_cases (IsQueue n) (ltb (length p.active) p.concurrency)
        (λ h. start_job-IsQueue p p.jobs refl (ground (arith, h, q.workers)) q) (λ _. q)
  step-IsQueue closing p q = record {
    workers = q.workers;
    order = q.order;
    bounded = q.bounded;
    busy = q.busy;
    stopped = λ c. any-AllStopped p.running;
  }

  keeps-IsQueue : (os : List Operation) (p : WorkerPool) → IsQueue n p → IsQueue n (run_pool os p)
  unfolding run_pool
  keeps-IsQueue [] p q = q
  keeps-IsQueue (o ∷ os) p q = keeps-IsQueue os (step o p) (step-IsQueue o p q)

  -- Whatever the interleaving of callers and workers on a new pool: the jobs taken followed by the
  -- jobs waiting are the jobs accepted, in order, so that no job is lost, repeated or overtaken; at
  -- most a hundred wait and at most n run; and after Close every registered context is cancelled.
  pub run_pool-IsQueue : (os : List Operation) → IsQueue n (run_pool os (new_worker_pool n))
  unfolding new_worker_pool
  run_pool-IsQueue os = keeps-IsQueue os (new_worker_pool n) (record {
    workers = refl;
    order = refl;
    bounded = omega arith;
    busy = omega arith;
    stopped = λ _. tt;
  })
