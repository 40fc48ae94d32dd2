-- ===== src/WorkerPool/Drain.antt =====
-- `WorkerPool::shutdown` of src/worker_pool.cpp leaves nothing behind: a worker ends only when the
-- queue is closed and empty, and nothing enters it any more.
use http_server.Prelude.{
  ℕ, zero, suc, ◌+◌, ◌%◌, ◌≡◌, ◌<◌, refl, List, [], ◌∷◌, some, arith, size_limit, length, All,
  subst, ◌∙◌, ap,
}
use http_server.BoundedQueue.{may_push, push_locked, close_locked}
use http_server.Connection.{ConnectionConfig, Site}
use http_server.Descriptor.{Fd}
use http_server.WorkerPool.{
  dispatched_connections, completed_connections, worker_errors, Addition, Worker, Shared,
  WorkerPool, create, dispatch, request_shutdown, popping_workers,
}
use http_server.WorkerPool.Loop.{
  Event, call_dispatch, end_dispatch, call_shutdown, worker_step, step, run, end_one,
}
use http_server.WorkerPool.Totals.{total}
use http_server.WorkerPool.Fresh.{create-fresh, fresh}
use http_server.WorkerPool.Connections.{holding}
use http_server.WorkerPool.Counts.{IsSettled, additions, run-connections}
use http_server.WorkerPool.Drained.{
  IsDrained, EndsDrained, IsFinished, All-EndsDrained-mono, work_at-EndsDrained, length-work_at,
}

dispatch-IsDrained : (client : Fd) (s : Shared) → IsDrained s → IsDrained (dispatch client s).1
unfolding dispatch may_push push_locked
dispatch-IsDrained client s h = rw (h.0, h.1) (refl, refl)

end_one-IsDrained : (owes : List Addition) (s : Shared) → IsDrained s → IsDrained (end_one owes s)
end_one-IsDrained [] s h = h
end_one-IsDrained (a ∷ more) s h = h

abbrev IsOrderly : WorkerPool → Type 0
IsOrderly p = All (EndsDrained p.shared) p.workers

popping-IsOrderly : (s : Shared) (n : ℕ) → All (EndsDrained s) (popping_workers n)
popping-IsOrderly s zero = tt
popping-IsOrderly s (suc n) = (tt, popping-IsOrderly s n)

length-popping_workers : (n : ℕ) → length (popping_workers n) ≡ n
length-popping_workers zero = refl
length-popping_workers (suc n) = omega (arith, length-popping_workers n)

EndsDrained-IsDrained :
    (s : Shared) (ws : List Worker)
    → 0 < length ws
    → All IsFinished ws
    → All (EndsDrained s) ws
    → IsDrained s
EndsDrained-IsDrained s [] some_worker ended h = absurd (omega arith)
EndsDrained-IsDrained s (w ∷ ws) some_worker ended h = subst (EndsDrained s) ended.0 h.0

module _ (site : Site) where
  step-IsOrderly :
      (e : Event) (p : WorkerPool)
      → IsOrderly p
      → IsOrderly (step site e p) × (length (step site e p).workers ≡ length p.workers)
  unfolding step request_shutdown close_locked
  step-IsOrderly (call_dispatch client) p h = (
    All-EndsDrained-mono p.shared (dispatch client p.shared).1 (dispatch-IsDrained client p.shared)
        p.workers h,
    refl,
  )
  step-IsOrderly end_dispatch p h = (
    All-EndsDrained-mono p.shared (end_one p.shared.dispatching p.shared)
        (end_one-IsDrained p.shared.dispatching p.shared) p.workers h,
    refl,
  )
  step-IsOrderly call_shutdown p h = (
    All-EndsDrained-mono p.shared (request_shutdown p.shared) (λ d. (refl, d.1)) p.workers h,
    refl,
  )
  step-IsOrderly (worker_step i service) p h = (
    (work_at-EndsDrained site p.config service i p.workers p.shared h).1,
    length-work_at site p.config service i p.workers p.shared,
  )

  run-IsOrderly :
      (es : List Event) (p : WorkerPool)
      → IsOrderly p
      → IsOrderly (run site es p) × (length (run site es p).workers ≡ length p.workers)
  unfolding run
  run-IsOrderly [] p h = (h, refl)
  run-IsOrderly (e ∷ es) p h =
      let (h', same) = step-IsOrderly e p h in
      let (h'', same') = run-IsOrderly es (step site e p) h' in (h'', same' ∙ same)

create-IsOrderly :
    (worker_count capacity : ℕ) (config : ConnectionConfig) (p : WorkerPool)
    → create worker_count capacity config ≡ some p
    → IsOrderly p × (0 < length p.workers)
create-IsOrderly worker_count capacity config p made =
    let (same, some_worker, wide) = create-fresh worker_count capacity config p made in
    rw same (
      popping-IsOrderly (fresh worker_count capacity config).shared worker_count,
      omega (arith, length-popping_workers worker_count),
    )

finished-IsSettled :
    (p : WorkerPool) → p.shared.dispatching ≡ [] → All IsFinished p.workers → IsSettled p
finished-IsSettled p e ended = record { no_dispatch = e; no_addition = none_owed p.workers ended }
  where
    none_owed : (ws : List Worker) → All IsFinished ws → All (λ w. additions w ≡ []) ws
    none_owed [] h = tt
    none_owed (w ∷ ws) h = (rw (h.0) refl, none_owed ws h.1)

finished-holding : (ws : List Worker) → All IsFinished ws → total holding ws ≡ 0
finished-holding [] h = refl
finished-holding (w ∷ ws) h = rw (h.0) (omega (arith, finished-holding ws h.1))

module _ (site : Site) (worker_count capacity : ℕ) (config : ConnectionConfig) (p : WorkerPool)
    (es : List Event) (made : create worker_count capacity config ≡ some p)
    (ended : All IsFinished (run site es p).workers) where
  -- A shutdown leaves no connection in the queue: from a new pool, after any steps of its workers, of
  -- callers of dispatch and of request_shutdown, once every worker has ended, the queue is closed and
  -- empty.
  pub run-IsDrained : IsDrained (run site es p).shared
  run-IsDrained =
      let (orderly, some_worker) = create-IsOrderly worker_count capacity config p made in
      let (h, same) = run-IsOrderly site es p orderly in
      EndsDrained-IsDrained (run site es p).shared (run site es p).workers (omega arith) ended h

  -- Every connection is accounted for at the end: from a new pool, after any steps of its workers, of
  -- callers of dispatch and of request_shutdown, once every worker has ended and no call of dispatch
  -- is under way, the connections dispatched are those completed and those ended by an exception,
  -- modulo 2^64.
  pub run-ended :
      (run site es p).shared.dispatching ≡ []
      → (run site es p).shared.counters dispatched_connections % size_limit
        ≡ ((run site es p).shared.counters completed_connections
            + (run site es p).shared.counters worker_errors)
          % size_limit
  run-ended idle = omega (
    arith,
    run-connections site worker_count capacity config p es made
        (finished-IsSettled (run site es p) idle ended),
    ap length (run-IsDrained.1),
    finished-holding (run site es p).workers ended,
  )
