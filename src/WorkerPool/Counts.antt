-- ===== src/WorkerPool/Counts.antt =====
-- What the counters of src/worker_pool.cpp say of the pool, while no thread is between two additions
-- of one act. Counters are compared modulo 2^64, where they wrap.
use http_server.Prelude.{
  ℕ, zero, suc, ◌+◌, ◌*◌, ◌%◌, ◌≡◌, refl, List, [], ◌∷◌, some, arith, size_limit, length, All,
}
use http_server.Connection.{ConnectionConfig, Site}
use http_server.WorkerPool.{
  Counter, dispatched_connections, active_connections, completed_connections, worker_errors,
  Addition, Shared, Worker, popping, adding, WorkerPool, minus_one, create, popping_workers,
}
use http_server.WorkerPool.Loop.{Event, run}
use http_server.WorkerPool.Totals.{sum_of, total}
use http_server.WorkerPool.Accounts.{
  Account, IsKept, signed, signed-add, balance_by, balance, run-balance,
}
use http_server.WorkerPool.Fresh.{create-fresh}
use http_server.WorkerPool.Connections.{
  holding, is_serving, reasons, connections, reasoned, active, connections-IsKept, reasoned-IsKept,
  active-IsKept,
}

abbrev pub additions : Worker → List Addition
additions (adding more) = more
additions _ = []

-- No thread is between two additions of one act.
pub record IsSettled (p : WorkerPool) : Type 0 where
  pub no_dispatch : p.shared.dispatching ≡ []
  pub no_addition : All (λ w. additions w ≡ []) p.workers

sum_of-zero : (cs : List Counter) → sum_of cs (λ c. 0) ≡ 0
sum_of-zero [] = refl
sum_of-zero (c ∷ cs) = omega (arith, sum_of-zero cs)

balance_by-settled : (a : Account) (w : Worker) → additions w ≡ [] → balance_by a w ≡ a.held w
balance_by-settled a popping h = omega (arith, sum_of-zero a.plus, sum_of-zero a.minus)
balance_by-settled a (adding []) h = omega (arith, sum_of-zero a.plus, sum_of-zero a.minus)
balance_by-settled a (adding (x ∷ more)) h = cc
balance_by-settled a _ h = omega (arith, sum_of-zero a.plus, sum_of-zero a.minus)

total-settled :
    (a : Account) (ws : List Worker)
    → All (λ w. additions w ≡ []) ws
    → total (balance_by a) ws ≡ total a.held ws
total-settled a [] h = refl
total-settled a (w ∷ ws) h = omega (arith, balance_by-settled a w h.0, total-settled a ws h.1)

total-minus :
    (f : Worker → ℕ) (ws : List Worker) → total (λ w. minus_one * f w) ws ≡ minus_one * total f ws
total-minus f [] = refl
total-minus f (w ∷ ws) = omega (arith, total-minus f ws)

total-zero : (ws : List Worker) → total (λ w. 0) ws ≡ 0
total-zero [] = refl
total-zero (w ∷ ws) = omega (arith, total-zero ws)

module _ (a : Account) (no_hold : a.held popping ≡ 0) (no_queue : a.queued [] ≡ 0) where
  total-popping : (n : ℕ) → total (balance_by a) (popping_workers n) ≡ 0
  total-popping zero = refl
  total-popping (suc n) = omega (arith, total-popping n, sum_of-zero a.plus, sum_of-zero a.minus)

  -- The accounts of a new pool are even.
  create-balance :
      (worker_count capacity : ℕ) (config : ConnectionConfig) (p : WorkerPool)
      → create worker_count capacity config ≡ some p
      → total (balance_by a) p.workers + balance a p.shared ≡ 0
  create-balance worker_count capacity config p made =
      rw ((create-fresh worker_count capacity config p made).0)
        (omega (arith, total-popping worker_count, sum_of-zero a.plus, sum_of-zero a.minus))

  balance-settled :
      (s : Shared) → s.dispatching ≡ [] → balance a s ≡ signed a s.counters + a.queued s.queue.queue
  balance-settled s e =
      rw e
        (omega (arith, signed-add a s.counters (λ c. 0), sum_of-zero a.plus, sum_of-zero a.minus))

  run-settled :
      (site : Site) (es : List Event) (p : WorkerPool) (worker_count capacity : ℕ)
      (config : ConnectionConfig)
      → IsKept a
      → create worker_count capacity config ≡ some p
      → IsSettled (run site es p)
      → (signed a (run site es p).shared.counters
            + a.queued (run site es p).shared.queue.queue
            + total a.held (run site es p).workers)
          % size_limit
        ≡ 0
  run-settled site es p worker_count capacity config kept made settled = omega (
    arith,
    run-balance a kept site es p,
    balance-settled (run site es p).shared settled.no_dispatch,
    total-settled a (run site es p).workers settled.no_addition,
    create-balance worker_count capacity config p made,
  )

module _ (site : Site) (worker_count capacity : ℕ) (config : ConnectionConfig) (p : WorkerPool)
    (es : List Event) (made : create worker_count capacity config ≡ some p)
    (settled : IsSettled (run site es p)) where
  -- No connection is lost: from a new pool, after any steps of its workers, of callers of dispatch and
  -- of request_shutdown, while no thread is between two additions of one act, the connections
  -- dispatched are those completed, those ended by an exception, those in the queue and those that a
  -- worker holds, modulo 2^64.
  pub run-connections :
      (run site es p).shared.counters dispatched_connections % size_limit
      ≡ ((run site es p).shared.counters completed_connections
          + (run site es p).shared.counters worker_errors
          + length (run site es p).shared.queue.queue
          + total holding (run site es p).workers)
        % size_limit
  run-connections = omega (
    arith,
    run-settled connections refl refl site es p worker_count capacity config connections-IsKept made
        settled,
    total-minus holding (run site es p).workers,
  )

  -- Every ended connection has one reason: under the same conditions the connections completed are the
  -- sum of the nine counters of reasons, modulo 2^64.
  pub run-reasons :
      (run site es p).shared.counters completed_connections % size_limit
      ≡ sum_of reasons (run site es p).shared.counters % size_limit
  run-reasons = omega (
    arith,
    run-settled reasoned refl refl site es p worker_count capacity config reasoned-IsKept made
        settled,
    total-zero (run site es p).workers,
  )

  -- Under the same conditions active_connections is the number of workers that serve a connection,
  -- modulo 2^64.
  pub run-active :
      (run site es p).shared.counters active_connections % size_limit
      ≡ total is_serving (run site es p).workers % size_limit
  run-active = omega (
    arith,
    run-settled active refl refl site es p worker_count capacity config active-IsKept made settled,
    total-minus is_serving (run site es p).workers,
  )
