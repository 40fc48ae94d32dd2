-- ===== src/Server/Accepted.antt =====
-- Every connection that src/server.cpp accepts is dispatched or turned away, and its pool runs as the
-- theorems on src/worker_pool.cpp say.
use http_server.Prelude.{
  ℕ, zero, suc, ◌+◌, ◌%◌, ◌≡◌, refl, sym, Bool, true, false, List, [], ◌∷◌, ◌++◌, Option, none,
  some, arith, Bool-cases, inl, inr, All, add_size, size_limit,
}
use http_server.BoundedQueue.{may_push, push_locked}
use http_server.Connection.{
  ConnectionConfig, ConnectionResult, ConnectionEndReason, peer_closed, Site,
}
use http_server.Descriptor.{Fd}
use http_server.WorkerPool.{
  Worker, popping, activating, serving, adding, finished, Addition, one_more,
  dispatched_connections, rejected_dispatches, Shared, WorkerPool, dispatch,
}
use http_server.WorkerPool.Loop
use http_server.WorkerPool.Loop.{
  Service, Ending, returned, thrown, goes_on, after_service, call_dispatch, end_dispatch,
  call_shutdown, worker_step, work_at, work, end_one,
}
use http_server.WorkerPool.Totals.{total, work_at-total}
use http_server.WorkerPool.Accounts.{
  Account, IsWorked, balance_by, balance, work-balance, end_one-balance,
}
use http_server.WorkerPool.Drained.{IsFinished}
use http_server.Server.{
  Acceptor, checking, dispatching, reporting, stopped, HttpServer, all_finished,
}

-- What calls of dispatch have come to.
abbrev pub dispatches : Account
dispatches = record {
  plus = dispatched_connections ∷ rejected_dispatches ∷ [];
  minus = [];
  held = λ w. 0;
  queued = λ items. 0;
}

dispatches-ended :
    (client : Fd) (result : ConnectionResult) (why : ConnectionEndReason)
    → balance_by dispatches (after_service (returned (record result { reason = why })) client)
        % size_limit
      ≡ balance_by dispatches (serving client) % size_limit
dispatches-ended client result peer_closed = omega arith
dispatches-ended client result _ = omega arith

after_service-dispatches :
    (e : Ending) (client : Fd)
    → balance_by dispatches (after_service e client) % size_limit
      ≡ balance_by dispatches (serving client) % size_limit
after_service-dispatches (returned result) client = dispatches-ended client result result.reason
after_service-dispatches thrown client = refl
after_service-dispatches goes_on client = refl

dispatches-IsWorked : IsWorked dispatches
dispatches-IsWorked = record {
  taken_off = λ client items. refl;
  stopped = refl;
  activated = λ client. refl;
  ended = after_service-dispatches;
  settled = λ more. refl;
}

-- A connection that is counted and not yet dispatched.
abbrev pub in_flight : Acceptor → ℕ
in_flight (dispatching client) = 1
in_flight _ = 0

-- What the thread's call of dispatch owes where it stands.
abbrev pub Owes : Acceptor → List Addition → Type 0
Owes (reporting true) owes = owes ≡ one_more dispatched_connections ∷ []
Owes (reporting false) owes = owes ≡ one_more rejected_dispatches ∷ []
Owes _ owes = owes ≡ []

abbrev pub EndsWell : Acceptor → List Worker → Type 0
EndsWell stopped ws = All IsFinished ws
EndsWell _ ws = Unit

abbrev pub outcome : WorkerPool → ℕ
outcome p = total (balance_by dispatches) p.workers + balance dispatches p.shared

-- The three ways of dispatch: it waits, it takes the connection, it turns it away.
abbrev pub Dispatches : Option Bool → Shared → Shared → Type 0
Dispatches none q s =
    (q.dispatching ≡ s.dispatching) × (balance dispatches q ≡ balance dispatches s)
Dispatches (some true) q s =
    (q.dispatching ≡ one_more dispatched_connections ∷ s.dispatching)
    × (balance dispatches q ≡ balance dispatches s + 1)
Dispatches (some false) q s =
    (q.dispatching ≡ one_more rejected_dispatches ∷ s.dispatching)
    × (balance dispatches q ≡ balance dispatches s + 1)

pub dispatch-Dispatches :
    (client : Fd) (s : Shared) → Dispatches (dispatch client s).0 (dispatch client s).1 s
unfolding dispatch push_locked
dispatch-Dispatches client s = elim (Bool-cases (may_push s.queue)) [
  | inl ready ↦ elim (Bool-cases s.queue.closed) [
    | inl over ↦ rw (ready, over) (refl, omega arith)
    | inr running ↦ rw (ready, running) (refl, omega arith)
  ]
  | inr full ↦ rw full (refl, refl)
]

pub all_finished-IsFinished : (ws : List Worker) → all_finished ws ≡ true → All IsFinished ws
all_finished-IsFinished [] h = tt
all_finished-IsFinished (finished ∷ ws) h = (refl, all_finished-IsFinished ws h)
all_finished-IsFinished (popping ∷ ws) h = cc
all_finished-IsFinished (activating client ∷ ws) h = cc
all_finished-IsFinished (serving client ∷ ws) h = cc
all_finished-IsFinished (adding more ∷ ws) h = cc

work_at-IsFinished :
    (site : Site) (config : ConnectionConfig) (service : Service) (i : ℕ) (ws : List Worker)
    (s : Shared)
    → All IsFinished ws
    → All IsFinished (work_at site config service i ws s).0
unfolding work_at work
work_at-IsFinished site config service i [] s h = tt
work_at-IsFinished site config service zero (w ∷ ws) s h = (rw (h.0) refl, h.1)
work_at-IsFinished site config service (suc i) (w ∷ ws) s h =
    (h.0, work_at-IsFinished site config service i ws s h.1)

pub pool_step-EndsWell :
    (site : Site) (i : ℕ) (service : Service) (a : Acceptor) (p : WorkerPool)
    → EndsWell a p.workers
    → EndsWell a (Loop.step site (worker_step i service) p).workers
unfolding Loop.step
pool_step-EndsWell site i service stopped p h =
    work_at-IsFinished site p.config service i p.workers p.shared h
pool_step-EndsWell site i service checking p h = tt
pool_step-EndsWell site i service _ p h = tt

pub counted :
    (n k : ℕ) → n % size_limit ≡ k % size_limit → add_size n 1 % size_limit ≡ (1 + k) % size_limit
unfolding add_size
counted n k h = omega arith

module _ (site : Site) (pool₀ : WorkerPool) where
  abbrev pub Reached : WorkerPool → Type 0
  Reached p = (es : List Loop.Event) × (p ≡ Loop.run site es pool₀)

  pub record IsCountedAt (a : Acceptor) (s : HttpServer) : Type 0 where
    pub reached : Reached s.pool
    pub owes : Owes a s.pool.shared.dispatching
    pub even : s.accepted_connections % size_limit ≡ (in_flight a + outcome s.pool) % size_limit
    pub ended : EndsWell a s.pool.workers

  abbrev pub IsCounted : HttpServer → Type 0
  IsCounted s = IsCountedAt s.acceptor s

  run-snoc :
      (es : List Loop.Event) (e : Loop.Event) (p : WorkerPool)
      → Loop.run site (es ++ e ∷ []) p ≡ Loop.step site e (Loop.run site es p)
  unfolding Loop.run
  run-snoc [] e p = refl
  run-snoc (x ∷ es) e p = run-snoc es e (Loop.step site x p)

  pub step-Reached : (e : Loop.Event) (p : WorkerPool) → Reached p → Reached (Loop.step site e p)
  step-Reached e p (es, same) = (es ++ e ∷ [], rw same (sym (run-snoc es e pool₀)))

  pub pool_step-outcome :
      (i : ℕ) (service : Service) (p : WorkerPool)
      → outcome (Loop.step site (worker_step i service) p) % size_limit ≡ outcome p % size_limit
  unfolding Loop.step
  pool_step-outcome i service p =
      work_at-total site p.config service (balance_by dispatches) (balance dispatches)
        (work-balance dispatches dispatches-IsWorked site p.config service) i p.workers p.shared

  pub end_dispatch-outcome :
      (p : WorkerPool)
      → outcome (Loop.step site end_dispatch p) % size_limit ≡ outcome p % size_limit
  unfolding Loop.step
  end_dispatch-outcome p =
      omega (arith, end_one-balance dispatches p.shared.dispatching p.shared refl)
