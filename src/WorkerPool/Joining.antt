-- ===== src/WorkerPool/Joining.antt =====
-- Where the constructor of src/worker_pool.cpp fails, the threads that it had started end.
use http_server.Prelude.{
  ℕ, zero, suc, ◌≡◌, ◌≤◌, ◌∙◌, refl, ap, subst, Bool, true, false, List, [], ◌∷◌, arith, All,
  length,
}
use http_server.BoundedQueue.{may_pop, pop_locked, close_locked}
use http_server.Connection.{ConnectionConfig, Site}
use http_server.WorkerPool.{
  Worker, popping, activating, serving, adding, finished, Shared, Counter, WorkerPool,
  popping_workers, request_shutdown,
}
use http_server.WorkerPool.Loop.{Service, work, work_at, step, run, worker_step}
use http_server.WorkerPool.Startup.{
  abandoned, construct, idle_pool, shut, empty_queue, construct-abandoned,
}
use http_server.WorkerPool.Totals.{total}
use http_server.WorkerPool.Drained.{IsDrained, IsFinished, work-IsDrained}
use http_server.WorkerPool.Termination.{
  Move, worker_steps, left, steps_left, goes_at, goes, all_go, run-left,
}

-- A worker that holds no connection and owes no addition.
abbrev IsIdle : Worker → Type 0
IsIdle popping = Unit {0}
IsIdle finished = Unit {0}
IsIdle _ = ⊥

-- The queue is drained, every worker is idle, and nothing has been counted.
record IsUnused (p : WorkerPool) : Type 0 where
  pub drained : IsDrained p.shared
  pub idle : All IsIdle p.workers
  pub uncounted : (c : Counter) → p.shared.counters c ≡ 0

module _ (site : Site) (config : ConnectionConfig) (service : Service) where
  work-IsIdle :
      (w : Worker) (s : Shared)
      → IsDrained s
      → IsIdle w
      → IsIdle (work site config service w s).0
        × ((work site config service w s).1.counters ≡ s.counters)
  unfolding work may_pop pop_locked
  work-IsIdle popping s d h = rw (d.0, d.1) (tt, refl)
  work-IsIdle finished s d h = (tt, refl)
  work-IsIdle (activating client) s d h = absurd h
  work-IsIdle (serving client) s d h = absurd h
  work-IsIdle (adding more) s d h = absurd h

  work_at-IsIdle :
      (i : ℕ) (ws : List Worker) (s : Shared)
      → IsDrained s
      → All IsIdle ws
      → All IsIdle (work_at site config service i ws s).0
        × IsDrained (work_at site config service i ws s).1
        × ((work_at site config service i ws s).1.counters ≡ s.counters)
  unfolding work_at
  work_at-IsIdle i [] s d h = (tt, d, refl)
  work_at-IsIdle zero (w ∷ ws) s d h =
      let (still, same) = work-IsIdle w s d h.0 in
      ((still, h.1), work-IsDrained site config service w s d, same)
  work_at-IsIdle (suc i) (w ∷ ws) s d h =
      let (still, drained, same) = work_at-IsIdle i ws s d h.1 in ((h.0, still), drained, same)

  -- An idle worker that cannot go on has ended.
  idle-IsFinished :
      (ws : List Worker) (s : Shared)
      → IsDrained s
      → All IsIdle ws
      → ((i : ℕ) → goes_at site config service i ws s ≡ false)
      → All IsFinished ws
  unfolding goes_at goes may_pop
  idle-IsFinished [] s d h still = tt
  idle-IsFinished (popping ∷ ws) s d h still = absurd (ground (arith, d.0, still 0))
  idle-IsFinished (finished ∷ ws) s d h still =
      (refl, idle-IsFinished ws s d h.1 (λ i. still (suc i)))
  idle-IsFinished (activating client ∷ ws) s d h still = absurd h.0
  idle-IsFinished (serving client ∷ ws) s d h still = absurd h.0
  idle-IsFinished (adding more ∷ ws) s d h still = absurd h.0

run-IsUnused :
    (site : Site) (ms : List Move) (p : WorkerPool)
    → IsUnused p
    → IsUnused (run site (worker_steps ms) p)
unfolding run step
run-IsUnused site [] p h = h
run-IsUnused site (m ∷ ms) p h =
    let (idle, drained, same) =
      work_at-IsIdle site p.config m.service m.index p.workers p.shared h.drained h.idle in
    run-IsUnused site ms (step site (worker_step m.index m.service) p) record {
      drained = drained;
      idle = idle;
      uncounted = λ c. ap (λ (f : Counter → ℕ). f c) same ∙ h.uncounted c;
    }

popping-IsIdle : (n : ℕ) → All IsIdle (popping_workers n)
popping-IsIdle zero = tt
popping-IsIdle (suc n) = (tt, popping-IsIdle n)

popping-left : (n : ℕ) → total left (popping_workers n) ≡ n
popping-left zero = refl
popping-left (suc n) = omega (arith, popping-left n)

shut-IsUnused :
    (config : ConnectionConfig) (capacity n : ℕ)
    → IsUnused (shut (idle_pool config (empty_queue capacity) n))
unfolding request_shutdown close_locked
shut-IsUnused config capacity n = record {
  drained = (refl, refl);
  idle = popping-IsIdle n;
  uncounted = λ c. refl;
}

shut-left :
    (config : ConnectionConfig) (capacity n : ℕ)
    → steps_left
        (shut (idle_pool config (empty_queue capacity) n)).workers
        (shut (idle_pool config (empty_queue capacity) n)).shared
      ≡ n
unfolding request_shutdown close_locked
shut-left config capacity n = omega (arith, popping-left n)

module _ (site : Site) (starts : ℕ → Bool) (worker_count capacity : ℕ) (config : ConnectionConfig)
    (p : WorkerPool) (failed : construct starts worker_count capacity config ≡ abandoned p)
    (ms : List Move) (going : all_go site ms p ≡ true) (service : Service)
    (still : (i : ℕ)
      → goes_at site config service i
          (run site (worker_steps ms) p).workers
          (run site (worker_steps ms) p).shared
        ≡ false) where
  -- Where a thread of a new pool does not start, the joins of the constructor end: after a run in
  -- which every step takes its worker on and behind which no worker can go on, the run had no more
  -- steps than the pool was to have workers, all workers that had started have ended, and nothing is
  -- counted.
  pub construct-Joins :
      (length ms ≤ worker_count)
      × All IsFinished (run site (worker_steps ms) p).workers
      × ((c : Counter) → (run site (worker_steps ms) p).shared.counters c ≡ 0)
  construct-Joins =
      let (n, few, same) = construct-abandoned starts worker_count capacity config p failed in
      let unused = run-IsUnused site ms p (subst IsUnused same (shut-IsUnused config capacity n)) in
      let q = run site (worker_steps ms) p in
      let bound =
        subst (λ (r : WorkerPool). steps_left r.workers r.shared ≡ n) same
          (shut-left config capacity n) in
      (
        omega (arith, run-left site ms p going),
        idle-IsFinished site config service q.workers q.shared unused.drained unused.idle still,
        unused.uncounted,
      )
