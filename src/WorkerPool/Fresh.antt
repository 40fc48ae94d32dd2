-- ===== src/WorkerPool/Fresh.antt =====
-- The pool that the constructor of src/worker_pool.cpp leaves.
use http_server.Prelude.{
  ℕ, ◌≡◌, ◌<◌, refl, false, [], none, some, ◌==◌, arith, Bool-cases, inl, inr,
}
use http_server.BoundedQueue
use http_server.BoundedQueue.{BoundedQueue}
use http_server.Connection.{ConnectionConfig}
use http_server.WorkerPool.{WorkerPool, create, popping_workers}

abbrev pub fresh : ℕ → ℕ → ConnectionConfig → WorkerPool
fresh worker_count capacity config = record {
  shared = record {
    queue = record { capacity = capacity; queue = []; high_water_mark = 0; closed = false };
    counters = λ c. 0;
    dispatching = [];
  };
  workers = popping_workers worker_count;
  config = config;
}

some_inj {ℓ} : {A : Type ℓ} {a b : A} → some a ≡ some b → b ≡ a
some_inj h = cc

not_some {ℓ κ} : {A : Type ℓ} {C : Type κ} {a : A} → none ≡ some a → C
not_some h = cc

pub create-fresh :
    (worker_count capacity : ℕ) (config : ConnectionConfig) (p : WorkerPool)
    → create worker_count capacity config ≡ some p
    → (p ≡ fresh worker_count capacity config) × (0 < worker_count) × (0 < capacity)
unfolding create BoundedQueue.create
create-fresh worker_count capacity config p made = elim (Bool-cases (capacity == 0)) [
  | inl none_wide ↦ not_some (rw none_wide at made)
  | inr wide ↦ elim (Bool-cases (worker_count == 0)) [
    | inl no_worker ↦ not_some (rw (wide, no_worker) at made)
    | inr workers ↦ (some_inj (rw (wide, workers) at made), ground arith, ground arith)
  ]
]

pub fresh-create :
    (worker_count capacity : ℕ) (config : ConnectionConfig)
    → 0 < worker_count
    → 0 < capacity
    → create worker_count capacity config ≡ some (fresh worker_count capacity config)
unfolding create BoundedQueue.create
fresh-create worker_count capacity config workers wide =
    let some_worker : (worker_count == 0) ≡ false = ground arith in
    let some_place : (capacity == 0) ≡ false = ground arith in rw (some_place, some_worker) refl
