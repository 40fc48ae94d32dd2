-- ===== src/WorkerPool/Accounts.antt =====
-- Accounts over the state of src/worker_pool.cpp: the sum of some counters, less that of others,
-- with what the threads owe them, and with the connections that wait or are held.
use http_server.Prelude.{
  ℕ, ◌+◌, ◌*◌, ◌%◌, ◌≡◌, ◌∙◌, refl, List, [], ◌∷◌, ◌++◌, arith, size_limit, Bool-cases, inl, inr,
}
use http_server.BoundedQueue.{may_push, may_pop, push_locked, pop_locked, close_locked}
use http_server.Connection.{ConnectionConfig, Site}
use http_server.Descriptor.{Fd}
use http_server.WorkerPool.{
  Counter, active_connections, dispatched_connections, rejected_dispatches, Counters, Addition,
  fetch_add, Worker, popping, activating, serving, adding, finished, Shared, WorkerPool, minus_one,
  one_more, dispatch, request_shutdown,
}
use http_server.WorkerPool.Loop.{
  Service, Ending, service_ending, after_service, taken, work, Event, call_dispatch, end_dispatch,
  call_shutdown, worker_step, step, run, end_one,
}
use http_server.WorkerPool.Totals.{
  share, owed, owed_by, ledger, sum_of, sum_of-add, fetch_add-sum_of, total, work_at-total,
}

pub record Account : Type 0 where
  pub plus : List Counter
  pub minus : List Counter
  pub held : Worker → ℕ
  pub queued : List Fd → ℕ

-- The value, modulo 2^64, of figures for the counters.
abbrev pub signed : Account → (Counter → ℕ) → ℕ
signed a v = sum_of a.plus v + minus_one * sum_of a.minus v

abbrev pub balance_by : Account → Worker → ℕ
balance_by a w = signed a (λ c. owed_by c w) + a.held w

abbrev pub balance : Account → Shared → ℕ
balance a s = signed a (λ c. ledger c s) + a.queued s.queue.queue

-- What the workers must do to keep an account: each of their acts leaves the balance as it was.
pub record IsWorked (a : Account) : Type 0 where
  pub taken_off :
      (client : Fd) (items : List Fd)
      → (a.held (activating client) + a.queued items) % size_limit
        ≡ (a.held popping + a.queued (client ∷ items)) % size_limit
  pub stopped : a.held finished % size_limit ≡ a.held popping % size_limit
  pub activated :
      (client : Fd)
      → (signed a (λ c. share c (one_more active_connections)) + a.held (serving client))
          % size_limit
        ≡ a.held (activating client) % size_limit
  pub ended :
      (e : Ending) (client : Fd)
      → balance_by a (after_service e client) % size_limit
        ≡ balance_by a (serving client) % size_limit
  pub settled :
      (more : List Addition) → a.held (adding more) % size_limit ≡ a.held popping % size_limit

-- The same of the workers and of dispatch.
pub record IsKept (a : Account) : Type 0 where
  pub worked : IsWorked a
  pub put_on :
      (client : Fd) (items : List Fd)
      → (signed a (λ c. share c (one_more dispatched_connections))
            + a.queued (items ++ client ∷ []))
          % size_limit
        ≡ a.queued items % size_limit
  pub turned_away : signed a (λ c. share c (one_more rejected_dispatches)) % size_limit ≡ 0

module _ (a : Account) where
  -- An addition of one thread, with what the others owe.
  signed-fetch_add :
      (x : Addition) (k u : Counters)
      → signed a (λ c. fetch_add x k c + u c) % size_limit
        ≡ (signed a (λ c. k c + u c) + signed a (λ c. share c x)) % size_limit
  signed-fetch_add x k u = omega (
    arith,
    sum_of-add a.plus (fetch_add x k) u,
    sum_of-add a.minus (fetch_add x k) u,
    sum_of-add a.plus k u,
    sum_of-add a.minus k u,
    fetch_add-sum_of a.plus x k,
    fetch_add-sum_of a.minus x k,
  )

  pub signed-add : (u v : Counters) → signed a (λ c. u c + v c) ≡ signed a u + signed a v
  signed-add u v = omega (arith, sum_of-add a.plus u v, sum_of-add a.minus u v)

  fetch_add-balance :
      (x : Addition) (s : Shared)
      → balance a (record s { counters = fetch_add x s.counters }) % size_limit
        ≡ (balance a s + signed a (λ c. share c x)) % size_limit
  fetch_add-balance x s = omega (arith, signed-fetch_add x s.counters (λ c. owed c s.dispatching))

  -- What a caller of dispatch comes to owe.
  pub dispatching-balance :
      (x : Addition) (s : Shared)
      → balance a (record s { dispatching = x ∷ s.dispatching })
        ≡ balance a s + signed a (λ c. share c x)
  dispatching-balance x s = omega (
    arith,
    signed-add s.counters (λ c. share c x + owed c s.dispatching),
    signed-add (λ c. share c x) (λ c. owed c s.dispatching),
    signed-add s.counters (λ c. owed c s.dispatching),
  )

  module _ (h : IsWorked a) where
    taken-balance :
        (s : Shared) (items : List Fd)
        → s.queue.queue ≡ items
        → (balance_by a (taken (pop_locked s.queue) s).0
              + balance a (taken (pop_locked s.queue) s).1)
            % size_limit
          ≡ (balance_by a popping + balance a s) % size_limit
    unfolding pop_locked
    taken-balance s [] e = rw e (omega (arith, h.stopped))
    taken-balance s (client ∷ items) e = rw e (omega (arith, h.taken_off client items))

    module _ (site : Site) (config : ConnectionConfig) (service : Service) where
      pub work-balance :
          (w : Worker) (s : Shared)
          → (balance_by a (work site config service w s).0
                + balance a (work site config service w s).1)
              % size_limit
            ≡ (balance_by a w + balance a s) % size_limit
      unfolding work
      work-balance popping s = elim (Bool-cases (may_pop s.queue)) [
        | inl ready ↦ rw ready (taken-balance s s.queue.queue refl)
        | inr waiting ↦ rw waiting refl
      ]
      work-balance (activating client) s =
          omega (arith, fetch_add-balance (one_more active_connections) s, h.activated client)
      work-balance (serving client) s =
          omega (arith, h.ended (service_ending site config service client) client)
      work-balance (adding []) s = omega (arith, h.settled [])
      work-balance (adding (x ∷ more)) s = omega (
        arith,
        fetch_add-balance x s,
        h.settled more,
        h.settled (x ∷ more),
        signed-add (λ c. share c x) (λ c. owed c more),
      )
      work-balance finished s = refl

  pub end_one-balance :
      (owes : List Addition) (s : Shared)
      → s.dispatching ≡ owes
      → balance a (end_one owes s) % size_limit ≡ balance a s % size_limit
  end_one-balance [] s e = refl
  end_one-balance (x ∷ more) s e =
      let rest = record s { dispatching = more } in
      rw e (omega (arith, fetch_add-balance x rest, dispatching-balance x rest))

  module _ (h : IsKept a) where
    dispatch-balance :
        (client : Fd) (s : Shared)
        → balance a (dispatch client s).1 % size_limit ≡ balance a s % size_limit
    unfolding dispatch push_locked
    dispatch-balance client s = elim (Bool-cases (may_push s.queue)) [
      | inl ready ↦ elim (Bool-cases s.queue.closed) [
        | inl over ↦
            rw (ready, over)
              (omega (arith, dispatching-balance (one_more rejected_dispatches) s, h.turned_away))
        | inr running ↦
            rw (ready, running)
              (omega (
                arith,
                dispatching-balance (one_more dispatched_connections) s,
                h.put_on client s.queue.queue,
              ))
      ]
      | inr full ↦ rw full refl
    ]

    module _ (site : Site) where
      step-balance :
          (e : Event) (p : WorkerPool)
          → (total (balance_by a) (step site e p).workers + balance a (step site e p).shared)
              % size_limit
            ≡ (total (balance_by a) p.workers + balance a p.shared) % size_limit
      unfolding step request_shutdown close_locked
      step-balance (call_dispatch client) p = omega (arith, dispatch-balance client p.shared)
      step-balance end_dispatch p =
          omega (arith, end_one-balance p.shared.dispatching p.shared refl)
      step-balance call_shutdown p = refl
      step-balance (worker_step i service) p =
          work_at-total site p.config service (balance_by a) (balance a)
            (work-balance h.worked site p.config service) i p.workers p.shared

      pub run-balance :
          (es : List Event) (p : WorkerPool)
          → (total (balance_by a) (run site es p).workers + balance a (run site es p).shared)
              % size_limit
            ≡ (total (balance_by a) p.workers + balance a p.shared) % size_limit
      unfolding run
      run-balance [] p = refl
      run-balance (e ∷ es) p = run-balance es (step site e p) ∙ step-balance e p
