-- ===== src/Server/Flag.antt =====
-- The flag, the closing of the queue and the pipe of src/server.cpp, whatever the threads do.
use http_server.Prelude.{
  ℕ, zero, suc, ◌≡◌, ◌≢◌, ◌≤◌, ◌∙◌, refl, Bool, true, false, List, [], ◌∷◌, some, arith, sym, ap,
}
use http_server.Connection.{ConnectionConfig, Site}
use http_server.WorkerPool.{WorkerPool, create}
use http_server.WorkerPool.Loop
use http_server.WorkerPool.Loop.{
  Service, call_dispatch, end_dispatch, call_shutdown, worker_step, end_one,
}
use http_server.WorkerPool.Frame.{work_at-closed}
use http_server.WorkerPool.Fresh.{create-fresh}
use http_server.Server.{
  pool_is_closed, threw, HttpServer, Event, acceptor_step, pool_step, other_request, other_close,
  other_notify, close_other, notify_other, step, run, started,
}
use http_server.Server.Flagged.{granted, granted-le, IsFlagged, accept_in-IsFlagged}

module _ (site : Site) where
  other_request-IsFlagged :
      (flag : Bool) (s : HttpServer)
      → s.shutdown_requested ≡ flag
      → IsFlagged s
      → IsFlagged (step site other_request s)
  unfolding step
  other_request-IsFlagged true s e h = rw e (record {
    closed_by_flag = λ c. refl;
    reached_by_flag = λ c. refl;
    not_surprised = h.not_surprised;
    once = omega (arith, h.once, ap granted e);
  })
  other_request-IsFlagged false s e h = rw e (record {
    closed_by_flag = λ c. refl;
    reached_by_flag = λ c. refl;
    not_surprised = h.not_surprised;
    once = omega (arith, h.once, ap granted e);
  })

  closed_by_other :
      (n : ℕ) (s : HttpServer)
      → s.others_closing ≡ n
      → IsFlagged s
      → IsFlagged (close_other site n s)
  closed_by_other zero s e h = h
  closed_by_other (suc n) s e h =
      let flag : s.shutdown_requested ≡ true = must_be_set s.shutdown_requested refl in
      record {
        closed_by_flag = λ c. flag;
        reached_by_flag = h.reached_by_flag;
        not_surprised = h.not_surprised;
        once = omega (arith, h.once);
      }
    where
      must_be_set : (b : Bool) → s.shutdown_requested ≡ b → s.shutdown_requested ≡ true
      must_be_set true g = g
      must_be_set false g = absurd (omega (arith, h.once, ap granted g))

  notified_by_other :
      (n : ℕ) (written : Bool) (s : HttpServer)
      → s.others_notifying ≡ n
      → IsFlagged s
      → IsFlagged (notify_other site n written s)
  notified_by_other zero written s e h = h
  notified_by_other (suc n) true s e h = record {
    closed_by_flag = h.closed_by_flag;
    reached_by_flag = h.reached_by_flag;
    not_surprised = h.not_surprised;
    once = omega (arith, h.once);
  }
  notified_by_other (suc n) false s e h = record {
    closed_by_flag = h.closed_by_flag;
    reached_by_flag = h.reached_by_flag;
    not_surprised = h.not_surprised;
    once = omega (arith, h.once);
  }

  step-IsFlagged : (e : Event) (s : HttpServer) → IsFlagged s → IsFlagged (step site e s)
  unfolding step
  step-IsFlagged (acceptor_step answer) s h = accept_in-IsFlagged site answer s.acceptor s h
  step-IsFlagged (pool_step i service) s h =
      let same = work_at-closed site s.pool.config service i s.pool.workers s.pool.shared in
      record {
        closed_by_flag = λ e. h.closed_by_flag (sym same ∙ (unfold Loop.step in e));
        reached_by_flag = h.reached_by_flag;
        not_surprised = h.not_surprised;
        once = h.once;
      }
  step-IsFlagged other_request s h = other_request-IsFlagged s.shutdown_requested s refl h
  step-IsFlagged other_close s h = closed_by_other s.others_closing s refl h
  step-IsFlagged (other_notify written) s h = notified_by_other s.others_notifying written s refl h

  run-IsFlagged : (es : List Event) (s : HttpServer) → IsFlagged s → IsFlagged (run site es s)
  unfolding run
  run-IsFlagged [] s h = h
  run-IsFlagged (e ∷ es) s h = run-IsFlagged es (step site e s) (step-IsFlagged e s h)

module _ (site : Site) (worker_count capacity : ℕ) (config : ConnectionConfig) (pool : WorkerPool)
    (es : List Event) (made : create worker_count capacity config ≡ some pool) where
  started-IsFlagged : IsFlagged (started pool)
  unfolding started
  started-IsFlagged = record {
    closed_by_flag = λ e. cc (
        ap (λ (p : WorkerPool). p.shared.queue.closed)
          (create-fresh worker_count capacity config pool made).0);
    reached_by_flag = λ e. cc;
    not_surprised = λ e. cc;
    once = omega arith;
  }

  -- From a new server, after any steps of its threads: serve_forever has not thrown
  -- "worker pool is closed", and the queue is closed only behind a set flag.
  pub run-not_surprised :
      ((run site es (started pool)).acceptor ≢ threw pool_is_closed)
      × ((run site es (started pool)).pool.shared.queue.closed ≡ true
          → (run site es (started pool)).shutdown_requested ≡ true)
  run-not_surprised =
      let h = run-IsFlagged site es (started pool) started-IsFlagged in
      (h.not_surprised, h.closed_by_flag)

  -- However many threads call request_shutdown, and however their steps interleave, it writes at most
  -- one byte to the pipe.
  pub run-notifications : (run site es (started pool)).notifications ≤ 1
  run-notifications =
      let h = run-IsFlagged site es (started pool) started-IsFlagged in
      omega (arith, h.once, granted-le (run site es (started pool)).shutdown_requested)
