-- ===== src/Server/Stopped.antt =====
-- What `serve_forever` of src/server.cpp leaves when it returns.
use http_server.Prelude.{
  ℕ, ◌+◌, ◌%◌, ◌≡◌, zero, suc, ap, ◌∙◌, refl, sym, subst, List, [], ◌∷◌, some, arith, All,
  size_limit,
}
use http_server.Connection.{ConnectionConfig, Site}
use http_server.WorkerPool.{
  Worker, WorkerPool, dispatched_connections, rejected_dispatches, completed_connections,
  worker_errors, create, popping_workers,
}
use http_server.WorkerPool.Loop
use http_server.WorkerPool.Totals.{total}
use http_server.WorkerPool.Accounts.{balance_by}
use http_server.WorkerPool.Fresh.{create-fresh, fresh}
use http_server.WorkerPool.Drained.{IsFinished, IsDrained}
use http_server.WorkerPool.Drain.{run-IsDrained, run-ended}
use http_server.Server.{stopped, Event, run, started}
use http_server.Server.Accepted.{in_flight, outcome, dispatches, IsCounted, Owes, EndsWell}
use http_server.Server.Steps.{run-IsCounted}

finished-total : (ws : List Worker) → All IsFinished ws → total (balance_by dispatches) ws ≡ 0
finished-total [] h = refl
finished-total (w ∷ ws) h = rw (h.0) (omega (arith, finished-total ws h.1))

outcome_ended :
    (p : WorkerPool)
    → All IsFinished p.workers
    → p.shared.dispatching ≡ []
    → outcome p ≡ p.shared.counters dispatched_connections + p.shared.counters rejected_dispatches
outcome_ended p ended idle = rw idle (omega (arith, finished-total p.workers ended))

fresh_outcome :
    (worker_count capacity : ℕ) (config : ConnectionConfig) (pool : WorkerPool)
    → pool ≡ fresh worker_count capacity config
    → (0 + outcome pool) % size_limit ≡ 0
fresh_outcome worker_count capacity config pool same =
    rw same (omega (arith, total_popping worker_count))
  where
    total_popping : (n : ℕ) → total (balance_by dispatches) (popping_workers n) ≡ 0
    total_popping zero = refl
    total_popping (suc n) = omega (arith, total_popping n)

module _ (site : Site) (worker_count capacity : ℕ) (config : ConnectionConfig) (pool : WorkerPool)
    (es : List Event) (made : create worker_count capacity config ≡ some pool)
    (returned : (run site es (started pool)).acceptor ≡ stopped) where
  started-IsCounted : IsCounted site pool (started pool)
  unfolding started
  started-IsCounted =
      let same = (create-fresh worker_count capacity config pool made).0 in
      record {
        reached = ([], unfold Loop.run in refl);
        owes = ap (λ (p : WorkerPool). p.shared.dispatching) same;
        even =
            ap (λ (p : WorkerPool). 0 % size_limit) same
            ∙ sym (fresh_outcome worker_count capacity config pool same);
        ended = tt;
      }

  -- From a new server, after any steps of its threads, once serve_forever has returned: every worker
  -- has ended, the queue is closed and empty, and the connections accepted are those completed, those
  -- ended by an exception and those turned away, modulo 2^64.
  pub run-returned :
      All IsFinished (run site es (started pool)).pool.workers
      × IsDrained (run site es (started pool)).pool.shared
      × ((run site es (started pool)).accepted_connections % size_limit
          ≡ ((run site es (started pool)).pool.shared.counters completed_connections
              + (run site es (started pool)).pool.shared.counters worker_errors
              + (run site es (started pool)).pool.shared.counters rejected_dispatches)
            % size_limit)
  run-returned =
      let s = run site es (started pool) in
      let h = run-IsCounted site pool es (started pool) started-IsCounted in
      let (pool_events, same) = h.reached in
      let ended : All IsFinished s.pool.workers =
        subst (λ a. EndsWell a s.pool.workers) returned h.ended in
      let idle : s.pool.shared.dispatching ≡ [] =
        subst (λ a. Owes a s.pool.shared.dispatching) returned h.owes in
      let ended_there = subst (λ (q : WorkerPool). All IsFinished q.workers) same ended in
      let idle_there = subst (λ (q : WorkerPool). q.shared.dispatching ≡ []) same idle in
      let gone =
        run-ended site worker_count capacity config pool pool_events made ended_there idle_there in
      let gone_here =
        subst
          (λ (q : WorkerPool).
            q.shared.counters dispatched_connections % size_limit
            ≡ (q.shared.counters completed_connections + q.shared.counters worker_errors)
              % size_limit)
          (sym same) gone in
      (
        ended,
        subst (λ (q : WorkerPool). IsDrained q.shared) (sym same)
            (run-IsDrained site worker_count capacity config pool pool_events made ended_there),
        omega (arith, h.even, gone_here, outcome_ended s.pool ended idle, ap in_flight returned),
      )
