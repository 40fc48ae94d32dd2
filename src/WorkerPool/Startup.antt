-- ===== src/WorkerPool/Startup.antt =====
-- The constructor of src/worker_pool.cpp where a thread may not start, `shutdown` and the joins.
use http_server.Prelude.{
  ℕ, zero, suc, ◌≡◌, ap, ◌∙◌, ◌≤◌, refl, Bool, true, false, [], Option, none, some, arith, ◌==◌,
  if◌then◌else◌, Bool-cases, inl, inr,
}
use http_server.BoundedQueue
use http_server.BoundedQueue.{BoundedQueue}
use http_server.Connection.{ConnectionConfig}
use http_server.Descriptor.{Fd}
use http_server.WorkerPool.{WorkerPool, create, popping_workers, request_shutdown}
use http_server.WorkerPool.Fresh.{fresh, fresh-create}

-- The threads that the loop of the constructor starts before one fails, and whether none does;
-- `starts i` tells whether the constructor of thread `i` returns.
unfoldable pub start_workers : (ℕ → Bool) → ℕ → ℕ → ℕ × Bool
start_workers starts i zero = (0, true)
start_workers starts i (suc left) =
    let (count, all) = start_workers starts (suc i) left in
    if starts i then (suc count, all) else (0, false)

-- What the constructor comes to: a pool; an argument of zero; or a thread that did not start, and the
-- pool whose threads the handler joins before it throws on.
pub data Construction : Type 0 where
  ready : WorkerPool → Construction
  invalid_argument : Construction
  abandoned : WorkerPool → Construction

abbrev pub idle_pool : ConnectionConfig → BoundedQueue Fd → ℕ → WorkerPool
idle_pool config queue count = record {
  shared = record { queue = queue; counters = λ c. 0; dispatching = [] };
  workers = popping_workers count;
  config = config;
}

-- `request_shutdown` on the pool.
abbrev pub shut : WorkerPool → WorkerPool
shut pool = record pool { shared = request_shutdown pool.shared }

abbrev started_with : ConnectionConfig → BoundedQueue Fd → ℕ × Bool → Construction
started_with config queue (count, true) = ready (idle_pool config queue count)
started_with config queue (count, false) = abandoned (shut (idle_pool config queue count))

abbrev over_queue : (ℕ → Bool) → ℕ → ConnectionConfig → Option (BoundedQueue Fd) → Construction
over_queue starts worker_count config none = invalid_argument
over_queue starts worker_count config (some queue) =
    if worker_count == 0
    then invalid_argument
    else started_with config queue (start_workers starts 0 worker_count)

-- The constructor. A thread that has started waits in `pop` until the queue is closed: it is empty.
unfoldable pub construct : (ℕ → Bool) → ℕ → ℕ → ConnectionConfig → Construction
construct starts worker_count queue_capacity config =
    over_queue starts worker_count config (BoundedQueue.create queue_capacity)

-- The workers that start are counted.
start_workers-le : (starts : ℕ → Bool) (i n : ℕ) → (start_workers starts i n).0 ≤ n
unfolding start_workers
start_workers-le starts i zero = omega arith
start_workers-le starts i (suc n) = elim (Bool-cases (starts i)) [
  | inl started ↦ rw started (omega (arith, start_workers-le starts (suc i) n))
  | inr failed ↦ rw failed (omega arith)
]

abbrev pub empty_queue : ℕ → BoundedQueue Fd
empty_queue capacity = record {
  capacity = capacity;
  queue = [];
  high_water_mark = 0;
  closed = false;
}

not_abandoned {ℓ} : {C : Type ℓ} {p : WorkerPool} → invalid_argument ≡ abandoned p → C
not_abandoned h = cc

with-abandoned :
    (config : ConnectionConfig) (capacity worker_count : ℕ) (count : ℕ × Bool) (p : WorkerPool)
    → count.0 ≤ worker_count
    → started_with config (empty_queue capacity) count ≡ abandoned p
    → (n : ℕ) × (n ≤ worker_count) × (shut (idle_pool config (empty_queue capacity) n) ≡ p)
with-abandoned config capacity worker_count (n, true) p h e = cc
with-abandoned config capacity worker_count (n, false) p h e = (n, h, cc)

-- The pool whose construction was given up: its queue is closed and empty, and no more workers have
-- started than it was to have.
pub construct-abandoned :
    (starts : ℕ → Bool) (worker_count capacity : ℕ) (config : ConnectionConfig) (p : WorkerPool)
    → construct starts worker_count capacity config ≡ abandoned p
    → (n : ℕ) × (n ≤ worker_count) × (shut (idle_pool config (empty_queue capacity) n) ≡ p)
unfolding construct BoundedQueue.create
construct-abandoned starts worker_count capacity config p h = elim (Bool-cases (capacity == 0)) [
  | inl none_wide ↦ not_abandoned (rw none_wide at h)
  | inr wide ↦ elim (Bool-cases (worker_count == 0)) [
    | inl no_worker ↦ not_abandoned (rw (wide, no_worker) at h)
    | inr workers ↦
        with-abandoned config capacity worker_count (start_workers starts 0 worker_count) p
          (start_workers-le starts 0 worker_count) (rw (wide, workers) at h)
  ]
]

not_true {ℓ} : {C : Type ℓ} → false ≡ true → C
not_true e = cc

all_started :
    (starts : ℕ → Bool) (i n : ℕ)
    → (start_workers starts i n).1 ≡ true
    → (start_workers starts i n).0 ≡ n
unfolding start_workers
all_started starts i zero h = refl
all_started starts i (suc n) h = elim (Bool-cases (starts i)) [
  | inl started ↦ rw started (ap suc (all_started starts (suc i) n (rw started at h)))
  | inr failed ↦ not_true (rw failed at h)
]

with-ready :
    (config : ConnectionConfig) (capacity worker_count : ℕ) (count : ℕ × Bool) (p : WorkerPool)
    → (count.1 ≡ true → count.0 ≡ worker_count)
    → started_with config (empty_queue capacity) count ≡ ready p
    → fresh worker_count capacity config ≡ p
with-ready config capacity worker_count (n, true) p h e = rw (← h refl) (ready_inj e)
  where
    ready_inj : {a b : WorkerPool} → ready a ≡ ready b → a ≡ b
    ready_inj e = cc
with-ready config capacity worker_count (n, false) p h e = cc

not_ready {ℓ} : {C : Type ℓ} {p : WorkerPool} → invalid_argument ≡ ready p → C
not_ready h = cc

-- Where every thread starts, the constructor leaves the pool that `create` makes.
pub construct-ready :
    (starts : ℕ → Bool) (worker_count capacity : ℕ) (config : ConnectionConfig) (p : WorkerPool)
    → construct starts worker_count capacity config ≡ ready p
    → create worker_count capacity config ≡ some p
unfolding construct BoundedQueue.create
construct-ready starts worker_count capacity config p h = elim (Bool-cases (capacity == 0)) [
  | inl none_wide ↦ not_ready (rw none_wide at h)
  | inr wide ↦ elim (Bool-cases (worker_count == 0)) [
    | inl no_worker ↦ not_ready (rw (wide, no_worker) at h)
    | inr workers ↦
        fresh-create worker_count capacity config (ground arith) (ground arith)
        ∙ ap some (
            with-ready config capacity worker_count (start_workers starts 0 worker_count) p
              (all_started starts 0 worker_count) (rw (wide, workers) at h))
  ]
]
