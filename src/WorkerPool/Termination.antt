-- ===== src/WorkerPool/Termination.antt =====
-- `WorkerPool::shutdown` of src/worker_pool.cpp comes to its end: behind `request_shutdown` the
-- workers have a bounded number of steps left, and one of them can go on until all have ended.
use http_server.Prelude.{
  ℕ, zero, suc, ◌+◌, ◌*◌, ◌≡◌, ◌∙◌, ◌≤◌, refl, Bool, true, false, ◌&&◌, List, [], ◌∷◌, arith,
  length, All, Bool-cases, inl, inr,
}
use http_server.BoundedQueue.{may_pop, pop_locked}
use http_server.Connection.{ConnectionConfig, Site}
use http_server.Descriptor.{Fd}
use http_server.WorkerPool.{
  Worker, popping, activating, serving, adding, finished, Shared, WorkerPool,
}
use http_server.WorkerPool.Loop.{
  Service, Ending, returned, thrown, goes_on, service_ending, after_service, taken, work, work_at,
  worker_step, step, run, Event,
}
use http_server.WorkerPool.Totals.{total}
use http_server.WorkerPool.Drained.{IsFinished}
use http_server.WorkerPool.Frame.{work_at-closed}

-- A worker's turn: which one, and what the system does meanwhile.
pub record Move : Type 0 where
  pub index : ℕ
  pub service : Service

abbrev pub worker_steps : List Move → List Event
worker_steps [] = []
worker_steps (m ∷ ms) = worker_step m.index m.service ∷ worker_steps ms

-- The steps that a worker has left at most, of a service that ends.
abbrev pub left : Worker → ℕ
left popping = 1
left (activating client) = 10
left (serving client) = 9
left (adding more) = 2 + length more
left finished = 0

abbrev pub steps_left : List Worker → Shared → ℕ
steps_left ws s = total left ws + 10 * length s.queue.queue

abbrev pub ends : Ending → Bool
ends goes_on = false
ends _ = true

module _ (site : Site) (config : ConnectionConfig) (service : Service) where
  -- Whether a worker's step takes it on: it has not ended, and its service comes to its end.
  unfoldable pub goes : Worker → Shared → Bool
  goes popping s = may_pop s.queue
  goes (serving client) s = ends (service_ending site config service client)
  goes finished s = false
  goes _ s = true

  unfoldable pub goes_at : ℕ → List Worker → Shared → Bool
  goes_at i [] s = false
  goes_at zero (w ∷ ws) s = goes w s
  goes_at (suc i) (w ∷ ws) s = goes_at i ws s

  after_service-left :
      (e : Ending) (client : Fd) → ends e ≡ true → left (after_service e client) + 1 ≤ 9
  after_service-left (returned result) client h = omega arith
  after_service-left thrown client h = omega arith
  after_service-left goes_on client h = cc

  taken-left :
      (s : Shared) (items : List Fd)
      → s.queue.queue ≡ items
      → left (taken (pop_locked s.queue) s).0
          + 10 * length (taken (pop_locked s.queue) s).1.queue.queue
          + 1
        ≤ 1 + 10 * length s.queue.queue
  unfolding pop_locked
  taken-left s [] e = rw e (omega arith)
  taken-left s (client ∷ items) e = rw e (omega arith)

  work-left :
      (w : Worker) (s : Shared)
      → goes w s ≡ true
      → left (work site config service w s).0
          + 10 * length (work site config service w s).1.queue.queue
          + 1
        ≤ left w + 10 * length s.queue.queue
  unfolding work goes
  work-left popping s h = rw h (taken-left s s.queue.queue refl)
  work-left (activating client) s h = omega arith
  work-left (serving client) s h =
      omega (arith, after_service-left (service_ending site config service client) client h)
  work-left (adding []) s h = omega arith
  work-left (adding (a ∷ more)) s h = omega arith
  work-left finished s h = cc

  work_at-left :
      (i : ℕ) (ws : List Worker) (s : Shared)
      → goes_at i ws s ≡ true
      → steps_left (work_at site config service i ws s).0 (work_at site config service i ws s).1 + 1
        ≤ steps_left ws s
  unfolding work_at goes_at
  work_at-left i [] s h = cc
  work_at-left zero (w ∷ ws) s h = omega (arith, work-left w s h)
  work_at-left (suc i) (w ∷ ws) s h = omega (arith, work_at-left i ws s h)

  -- A worker that can go on, unless all have ended: there is one whose step goes on whenever its
  -- service ends.
  goes_on_at :
      (ws : List Worker) (s : Shared)
      → s.queue.closed ≡ true
      → ((client : Fd) → ends (service_ending site config service client) ≡ true)
      → ((i : ℕ) → goes_at i ws s ≡ false)
      → All IsFinished ws
  unfolding goes_at goes may_pop
  goes_on_at [] s over served still = tt
  goes_on_at (popping ∷ ws) s over served still = absurd (ground (arith, still 0))
  goes_on_at (activating client ∷ ws) s over served still = absurd (ground (arith, still 0))
  goes_on_at (serving client ∷ ws) s over served still =
      absurd (ground (arith, still 0, served client))
  goes_on_at (adding more ∷ ws) s over served still = absurd (ground (arith, still 0))
  goes_on_at (finished ∷ ws) s over served still =
      (refl, goes_on_at ws s over served (λ i. still (suc i)))

not_true : false ≡ true → ⊥
not_true h = cc

module _ (site : Site) where
  -- Every move of a list takes its worker on.
  unfoldable pub all_go : List Move → WorkerPool → Bool
  all_go [] p = true
  all_go (m ∷ ms) p =
      goes_at site p.config m.service m.index p.workers p.shared
      && all_go ms (step site (worker_step m.index m.service) p)

  split_go :
      (m : Move) (ms : List Move) (p : WorkerPool)
      → all_go (m ∷ ms) p ≡ true
      → (goes_at site p.config m.service m.index p.workers p.shared ≡ true)
        × (all_go ms (step site (worker_step m.index m.service) p) ≡ true)
  unfolding all_go
  split_go m ms p h =
      elim (Bool-cases (goes_at site p.config m.service m.index p.workers p.shared)) [
        | inl going ↦ (going, rw going at h)
        | inr stuck ↦ absurd (not_true (rw stuck at h))
      ]

  pub run-left :
      (ms : List Move) (p : WorkerPool)
      → all_go ms p ≡ true
      → length ms ≤ steps_left p.workers p.shared
  unfolding step
  run-left [] p h = omega arith
  run-left (m ∷ ms) p h =
      let (first, rest) = split_go m ms p h in
      omega (
        arith,
        work_at-left site p.config m.service m.index p.workers p.shared first,
        run-left ms (step site (worker_step m.index m.service) p) rest,
      )

  run-closed :
      (ms : List Move) (p : WorkerPool)
      → p.shared.queue.closed ≡ true
      → ((run site (worker_steps ms) p).shared.queue.closed ≡ true)
        × ((run site (worker_steps ms) p).config ≡ p.config)
  unfolding run step
  run-closed [] p over = (over, refl)
  run-closed (m ∷ ms) p over =
      run-closed ms (step site (worker_step m.index m.service) p)
        (work_at-closed site p.config m.service m.index p.workers p.shared ∙ over)

  -- A shutdown ends: behind the closing of the queue, a run of the workers in which every step takes
  -- its worker on has no more steps than steps_left counts; and where it stops because no worker can
  -- go on, although every service ends, all workers have ended.
  pub shutdown-ends :
      (ms : List Move) (p : WorkerPool) (service : Service)
      → p.shared.queue.closed ≡ true
      → all_go ms p ≡ true
      → ((client : Fd) → ends (service_ending site p.config service client) ≡ true)
      → ((i : ℕ)
          → goes_at site p.config service i
              (run site (worker_steps ms) p).workers
              (run site (worker_steps ms) p).shared
            ≡ false)
      → (length ms ≤ steps_left p.workers p.shared)
        × All IsFinished (run site (worker_steps ms) p).workers
  shutdown-ends ms p service over going served still = (
    run-left ms p going,
    goes_on_at site p.config service (run site (worker_steps ms) p).workers
        (run site (worker_steps ms) p).shared ((run-closed ms p over).0) served still,
  )
