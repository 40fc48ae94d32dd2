-- ===== src/Server/Steps.antt =====
-- Each step of the threads of src/server.cpp keeps the counts of Server/Accepted.
use http_server.Prelude.{
  ℕ, zero, suc, ◌%◌, ◌≡◌, ◌∙◌, refl, sym, ap, subst, Bool, true, false, List, [], ◌∷◌, Option, none,
  some, if◌then◌else◌, arith, size_limit,
}
use http_server.BoundedQueue.{close_locked}
use http_server.Connection.{Site, Outcome, done, failed, eintr, eagain, other}
use http_server.Descriptor.{Fd}
use http_server.WorkerPool.{
  one_more, dispatched_connections, rejected_dispatches, Shared, WorkerPool, dispatch,
  request_shutdown,
}
use http_server.WorkerPool.Loop
use http_server.WorkerPool.Loop.{
  Service, Ending, returned, thrown, goes_on, after_service, call_dispatch, end_dispatch,
  call_shutdown, worker_step, work_at, work, end_one,
}
use http_server.WorkerPool.Accounts.{}
use http_server.WorkerPool.Frame.{work_at-dispatching}
use http_server.Server.{
  poll_failed, accept_failed, pool_is_closed, Acceptor, checking, polling, requesting, closing,
  notifying, accepting, counting, dispatching, reporting, judging, shutting_down, joining, stopped,
  threw, HttpServer, Polled, Answer, Event, acceptor_step, pool_step, other_request, other_close,
  other_notify, after_poll, after_accept, after_push, accept_in, close_other, notify_other, step,
  run, all_finished,
}
use http_server.Server.Accepted.{
  in_flight, Owes, EndsWell, outcome, Dispatches, dispatch-Dispatches, all_finished-IsFinished,
  pool_step-EndsWell, counted, Reached, IsCountedAt, IsCounted, step-Reached, pool_step-outcome,
  end_dispatch-outcome,
}

module _ (site : Site) (pool₀ : WorkerPool) where
  -- A move of the thread that leaves the pool alone.
  moves :
      (a b : Acceptor) (s : HttpServer)
      → in_flight b ≡ in_flight a
      → Owes b s.pool.shared.dispatching
      → EndsWell b s.pool.workers
      → IsCountedAt site pool₀ a s
      → IsCounted site pool₀ (record s { acceptor = b })
  moves a b s same owes ends h = record {
    reached = h.reached;
    owes = owes;
    even = omega (arith, h.even);
    ended = ends;
  }

  choose :
      (b : Bool) (x y : Acceptor) (s : HttpServer)
      → (b ≡ true → IsCounted site pool₀ (record s { acceptor = x }))
      → (b ≡ false → IsCounted site pool₀ (record s { acceptor = y }))
      → IsCounted site pool₀ (record s { acceptor = if b then x else y })
  choose true x y s first second = first refl
  choose false x y s first second = second refl

  polled-IsCounted :
      (o : Outcome Polled) (s : HttpServer)
      → IsCountedAt site pool₀ polling s
      → IsCounted site pool₀ (record s { acceptor = after_poll o })
  polled-IsCounted (failed eintr) s h = moves polling checking s refl h.owes tt h
  polled-IsCounted (failed eagain) s h = moves polling (threw poll_failed) s refl h.owes tt h
  polled-IsCounted (failed other) s h = moves polling (threw poll_failed) s refl h.owes tt h
  polled-IsCounted (done events) s h =
      choose events.pipe_readable requesting
        (if events.listener_readable then accepting else checking) s
        (λ e. moves polling requesting s refl h.owes tt h)
        (λ e.
          choose events.listener_readable accepting checking s
            (λ f. moves polling accepting s refl h.owes tt h)
            (λ f. moves polling checking s refl h.owes tt h))

  accepted-IsCounted :
      (o : Outcome Fd) (s : HttpServer)
      → IsCountedAt site pool₀ accepting s
      → IsCounted site pool₀ (record s { acceptor = after_accept o })
  accepted-IsCounted (done client) s h = moves accepting (counting client) s refl h.owes tt h
  accepted-IsCounted (failed eintr) s h = moves accepting accepting s refl h.owes tt h
  accepted-IsCounted (failed eagain) s h = moves accepting (threw accept_failed) s refl h.owes tt h
  accepted-IsCounted (failed other) s h = moves accepting (threw accept_failed) s refl h.owes tt h

  -- A move with a step of the pool that no count sees.
  steps :
      (a b : Acceptor) (e : Loop.Event) (s : HttpServer)
      → in_flight b ≡ in_flight a
      → Owes b (Loop.step site e s.pool).shared.dispatching
      → EndsWell b (Loop.step site e s.pool).workers
      → outcome (Loop.step site e s.pool) % size_limit ≡ outcome s.pool % size_limit
      → IsCountedAt site pool₀ a s
      → IsCounted site pool₀ (record s { acceptor = b; pool = Loop.step site e s.pool })
  steps a b e s same owes ends quiet h = record {
    reached = step-Reached site pool₀ e s.pool h.reached;
    owes = owes;
    even = omega (arith, h.even, quiet);
    ended = ends;
  }

  shutdown-IsCounted :
      (a b : Acceptor) (s : HttpServer)
      → in_flight b ≡ in_flight a
      → Owes b s.pool.shared.dispatching
      → EndsWell b s.pool.workers
      → IsCountedAt site pool₀ a s
      → IsCounted site pool₀ (record s { acceptor = b; pool = Loop.step site call_shutdown s.pool })
  shutdown-IsCounted a b s same owes ends h = record {
    reached = step-Reached site pool₀ call_shutdown s.pool h.reached;
    owes = unfold Loop.step request_shutdown in owes;
    even = unfold Loop.step request_shutdown close_locked in (omega (arith, h.even));
    ended = unfold Loop.step in ends;
  }

  pushed-IsCounted :
      (client : Fd) (r : Option Bool) (q : Shared) (s : HttpServer)
      → Dispatches r q s.pool.shared
      → Reached site pool₀ (record s.pool { shared = q })
      → IsCountedAt site pool₀ (dispatching client) s
      → IsCounted site pool₀
          (record s { acceptor = after_push client r; pool = record s.pool { shared = q } })
  pushed-IsCounted client none q s d reached h = record {
    reached = reached;
    owes = d.0 ∙ h.owes;
    even = omega (arith, h.even, d.1);
    ended = tt;
  }
  pushed-IsCounted client (some true) q s d reached h = record {
    reached = reached;
    owes = d.0 ∙ ap (◌∷◌ (one_more dispatched_connections)) h.owes;
    even = omega (arith, h.even, d.1);
    ended = tt;
  }
  pushed-IsCounted client (some false) q s d reached h = record {
    reached = reached;
    owes = d.0 ∙ ap (◌∷◌ (one_more rejected_dispatches)) h.owes;
    even = omega (arith, h.even, d.1);
    ended = tt;
  }

  reported-IsCounted :
      (taken : Bool) (s : HttpServer)
      → IsCountedAt site pool₀ (reporting taken) s
      → IsCounted site pool₀ (record s {
        acceptor = if taken then checking else judging;
        pool = Loop.step site end_dispatch s.pool;
      })
  reported-IsCounted true s h =
      steps (reporting true) checking end_dispatch s refl (unfold Loop.step in rw (h.owes) refl) tt
        (end_dispatch-outcome site pool₀ s.pool) h
  reported-IsCounted false s h =
      steps (reporting false) judging end_dispatch s refl (unfold Loop.step in rw (h.owes) refl) tt
        (end_dispatch-outcome site pool₀ s.pool) h

  requested-IsCounted :
      (flag : Bool) (a : Answer) (s : HttpServer)
      → s.shutdown_requested ≡ flag
      → IsCountedAt site pool₀ requesting s
      → IsCounted site pool₀ (accept_in site requesting a s)
  unfolding accept_in
  requested-IsCounted true a s e h =
      rw e (record { reached = h.reached; owes = h.owes; even = h.even; ended = tt })
  requested-IsCounted false a s e h =
      rw e (record { reached = h.reached; owes = h.owes; even = h.even; ended = tt })

  accept_in-IsCounted :
      (a : Acceptor) (answer : Answer) (s : HttpServer)
      → IsCountedAt site pool₀ a s
      → IsCounted site pool₀ (accept_in site a answer s)
  unfolding accept_in Loop.step
  accept_in-IsCounted checking answer s h =
      choose s.shutdown_requested shutting_down polling s
        (λ e. moves checking shutting_down s refl h.owes tt h)
        (λ e. moves checking polling s refl h.owes tt h)
  accept_in-IsCounted polling answer s h = polled-IsCounted answer.polled s h
  accept_in-IsCounted requesting answer s h =
      requested-IsCounted s.shutdown_requested answer s refl h
  accept_in-IsCounted closing answer s h = shutdown-IsCounted closing notifying s refl h.owes tt h
  accept_in-IsCounted notifying answer s h = record {
    reached = h.reached;
    owes = h.owes;
    even = h.even;
    ended = tt;
  }
  accept_in-IsCounted accepting answer s h = accepted-IsCounted answer.accepted s h
  accept_in-IsCounted (counting client) answer s h = record {
    reached = h.reached;
    owes = h.owes;
    even = counted s.accepted_connections (outcome s.pool) (omega (arith, h.even));
    ended = tt;
  }
  accept_in-IsCounted (dispatching client) answer s h =
      pushed-IsCounted client (dispatch client s.pool.shared).0 (dispatch client s.pool.shared).1 s
        (dispatch-Dispatches client s.pool.shared)
        (unfold Loop.step in step-Reached site pool₀ (call_dispatch client) s.pool h.reached) h
  accept_in-IsCounted (reporting taken) answer s h = reported-IsCounted taken s h
  accept_in-IsCounted judging answer s h =
      choose s.shutdown_requested checking (threw pool_is_closed) s
        (λ e. moves judging checking s refl h.owes tt h)
        (λ e. moves judging (threw pool_is_closed) s refl h.owes tt h)
  accept_in-IsCounted shutting_down answer s h =
      shutdown-IsCounted shutting_down joining s refl h.owes tt h
  accept_in-IsCounted joining answer s h =
      choose (all_finished s.pool.workers) stopped joining s
        (λ e. moves joining stopped s refl h.owes (all_finished-IsFinished s.pool.workers e) h)
        (λ e. moves joining joining s refl h.owes tt h)
  accept_in-IsCounted stopped answer s h = moves stopped stopped s refl h.owes h.ended h
  accept_in-IsCounted (threw e) answer s h = moves (threw e) (threw e) s refl h.owes tt h

  closed_by_other :
      (n : ℕ) (s : HttpServer)
      → IsCounted site pool₀ s
      → IsCounted site pool₀ (close_other site n s)
  closed_by_other zero s h = h
  closed_by_other (suc n) s h = record {
    reached = step-Reached site pool₀ call_shutdown s.pool h.reached;
    owes = unfold Loop.step request_shutdown in h.owes;
    even = unfold Loop.step request_shutdown close_locked in h.even;
    ended = unfold Loop.step in h.ended;
  }

  notified_by_other :
      (n : ℕ) (written : Bool) (s : HttpServer)
      → IsCounted site pool₀ s
      → IsCounted site pool₀ (notify_other site n written s)
  notified_by_other zero written s h = h
  notified_by_other (suc n) written s h = record {
    reached = h.reached;
    owes = h.owes;
    even = h.even;
    ended = h.ended;
  }

  other_request-IsCounted :
      (flag : Bool) (s : HttpServer)
      → s.shutdown_requested ≡ flag
      → IsCounted site pool₀ s
      → IsCounted site pool₀ (step site other_request s)
  unfolding step
  other_request-IsCounted true s e h =
      rw e (record { reached = h.reached; owes = h.owes; even = h.even; ended = h.ended })
  other_request-IsCounted false s e h =
      rw e (record { reached = h.reached; owes = h.owes; even = h.even; ended = h.ended })

  step-IsCounted :
      (e : Event) (s : HttpServer) → IsCounted site pool₀ s → IsCounted site pool₀ (step site e s)
  unfolding step Loop.step
  step-IsCounted (acceptor_step answer) s h = accept_in-IsCounted s.acceptor answer s h
  step-IsCounted (pool_step i service) s h = record {
    reached = step-Reached site pool₀ (worker_step i service) s.pool h.reached;
    owes =
        subst (Owes s.acceptor)
          (sym (work_at-dispatching site s.pool.config service i s.pool.workers s.pool.shared))
          h.owes;
    even = omega (arith, h.even, pool_step-outcome site pool₀ i service s.pool);
    ended = pool_step-EndsWell site i service s.acceptor s.pool h.ended;
  }
  step-IsCounted other_request s h = other_request-IsCounted s.shutdown_requested s refl h
  step-IsCounted other_close s h = closed_by_other s.others_closing s h
  step-IsCounted (other_notify written) s h = notified_by_other s.others_notifying written s h

  pub run-IsCounted :
      (es : List Event) (s : HttpServer)
      → IsCounted site pool₀ s
      → IsCounted site pool₀ (run site es s)
  unfolding run
  run-IsCounted [] s h = h
  run-IsCounted (e ∷ es) s h = run-IsCounted es (step site e s) (step-IsCounted e s h)
