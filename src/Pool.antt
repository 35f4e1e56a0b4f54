-- ===== src/Pool.antt =====
-- The queue of the worker pool (backend/internal/drill/worker.go: NewWorkerPool, Submit, Cancel,
-- Close, worker, and the registration at the beginning and the end of run). The workers and the
-- callers interleave: a history is a sequence of operations, each of which is one send, one receive
-- or one use of the locked map.
pub mod Order
pub mod Examples
use restoreguard.Common.{
  ℕ, zero, suc, Bool, true, false, List, [], ◌∷◌, ◌++◌, map, String, str_eq, ltb, length, filter,
  not, if◌then◌else◌,
}

-- An entry of the map `running`: the drill, and whether its context is cancelled.
pub record Running : Type 0 where
  pub id : String
  pub cancelled : Bool

pub record WorkerPool : Type 0 where
  pub concurrency : ℕ
  pub jobs : List String
  -- the drills that the workers are running
  pub active : List String
  pub running : List Running
  -- the root context is cancelled
  pub closed : Bool
  -- the drills that Submit accepted and that workers took, in order
  pub accepted : List String
  pub taken : List String

unfoldable pub new_worker_pool : ℕ → WorkerPool
new_worker_pool concurrency = record {
  concurrency = concurrency;
  jobs = [];
  active = [];
  running = [];
  closed = false;
  accepted = [];
  taken = [];
}

-- The capacity of the channel.
abbrev pub queue_size : ℕ
queue_size = 100

-- The result tells whether the queue is full.
unfoldable pub submit : String → WorkerPool → Bool × WorkerPool
submit id p =
    if ltb (length p.jobs) queue_size
    then (false, record p { jobs = p.jobs ++ id ∷ []; accepted = p.accepted ++ id ∷ [] })
    else (true, p)

abbrev pub cancel_entry : String → Running → Running
cancel_entry id r = if str_eq r.id id then record r { cancelled = true } else r

unfoldable pub cancel : String → WorkerPool → WorkerPool
cancel id p = record p { running = map (cancel_entry id) p.running }

abbrev pub is_other : String → Running → Bool
is_other id r = not (str_eq r.id id)

-- `p.running[id] = cancel`; the context is a child of the root.
abbrev register : Bool → String → List Running → List Running
register closed id rs = record { id = id; cancelled = closed } ∷ filter (is_other id) rs

abbrev pub start_job : WorkerPool → List String → WorkerPool
start_job p [] = p
start_job p (id ∷ jobs) = record p {
  jobs = jobs;
  active = id ∷ p.active;
  running = register p.closed id p.running;
  taken = p.taken ++ id ∷ [];
}

-- An idle worker receives a job. After Close its `select` may still choose the channel.
unfoldable pub take_job : WorkerPool → WorkerPool
take_job p = if ltb (length p.active) p.concurrency then start_job p p.jobs else p

-- One occurrence less.
abbrev pub remove_one : String → List String → List String
remove_one id [] = []
remove_one id (x ∷ xs) = let rest = remove_one id xs in if str_eq x id then xs else x ∷ rest

-- The deferred function of run: the entry is deleted, and the worker is idle again.
unfoldable pub finish_job : String → WorkerPool → WorkerPool
finish_job id p = record p {
  active = remove_one id p.active;
  running = filter (is_other id) p.running;
}

abbrev pub cancel_any : Running → Running
cancel_any r = record r { cancelled = true }

-- Close cancels the root, and with it every context below it.
unfoldable pub close_pool : WorkerPool → WorkerPool
close_pool p = record p { closed = true; running = map cancel_any p.running }

pub data Operation : Type 0 where
  submitting cancelling finishing : String → Operation
  taking closing : Operation

unfoldable pub step : Operation → WorkerPool → WorkerPool
unfolding submit cancel take_job finish_job close_pool
step (submitting id) p = (submit id p).1
step (cancelling id) p = cancel id p
step (finishing id) p = finish_job id p
step taking p = take_job p
step closing p = close_pool p

unfoldable pub run_pool : List Operation → WorkerPool → WorkerPool
unfolding step
run_pool [] p = p
run_pool (o ∷ os) p = run_pool os (step o p)
