-- ===== src/Server/Flagged.antt =====
-- The steps of the thread in `serve_forever` of src/server.cpp, by the flag and the closing of the queue.
use http_server.Prelude.{
  ℕ, ◌+◌, ◌≡◌, ◌≢◌, ◌≤◌, ◌∙◌, refl, Bool, true, false, List, [], ◌∷◌, Option, none, some,
  if◌then◌else◌, arith, sym, ap,
}
use http_server.BoundedQueue.{push_locked}
use http_server.Connection.{Site, Outcome, done, failed, eintr, eagain, other}
use http_server.Descriptor.{Fd}
use http_server.WorkerPool
use http_server.WorkerPool.{Addition, Shared, WorkerPool, dispatch, request_shutdown, create}
use http_server.WorkerPool.Loop
use http_server.WorkerPool.Loop.{
  Service, call_dispatch, end_dispatch, call_shutdown, worker_step, end_one,
}
use http_server.Server.{
  poll_failed, accept_failed, pool_is_closed, Acceptor, checking, polling, requesting, closing,
  notifying, accepting, counting, dispatching, reporting, judging, shutting_down, joining, stopped,
  threw, HttpServer, Polled, Answer, after_poll, after_accept, after_push, accept_in, one_more_if,
  all_finished,
}

-- Whether a place in the code is reached only behind a set flag, and how much of the one notification
-- stands there.
abbrev pub behind_flag : Acceptor → Bool
behind_flag closing = true
behind_flag notifying = true
behind_flag (reporting false) = true
behind_flag judging = true
behind_flag shutting_down = true
behind_flag joining = true
behind_flag stopped = true
behind_flag (threw pool_is_closed) = true
behind_flag _ = false

abbrev pub owes_notification : Acceptor → ℕ
owes_notification closing = 1
owes_notification notifying = 1
owes_notification _ = 0

abbrev pub granted : Bool → ℕ
granted true = 1
granted false = 0

pub granted-le : (flag : Bool) → granted flag ≤ 1
granted-le true = omega arith
granted-le false = omega arith

pub record IsFlaggedAt (a : Acceptor) (s : HttpServer) : Type 0 where
  pub closed_by_flag : s.pool.shared.queue.closed ≡ true → s.shutdown_requested ≡ true
  pub reached_by_flag : behind_flag a ≡ true → s.shutdown_requested ≡ true
  pub not_surprised : a ≢ threw pool_is_closed
  pub once :
      s.others_closing + s.others_notifying + owes_notification a + s.notifications
      ≤ granted s.shutdown_requested

abbrev pub IsFlagged : HttpServer → Type 0
IsFlagged s = IsFlaggedAt s.acceptor s

dispatch-closed : (client : Fd) (s : Shared) → (dispatch client s).1.queue.closed ≡ s.queue.closed
unfolding dispatch push_locked
dispatch-closed client s = ground arith

dispatch-refused :
    (client : Fd) (s : Shared) → (dispatch client s).0 ≡ some false → s.queue.closed ≡ true
unfolding dispatch push_locked
dispatch-refused client s h = ground arith

end_one-closed :
    (owes : List Addition) (s : Shared) → (end_one owes s).queue.closed ≡ s.queue.closed
end_one-closed [] s = refl
end_one-closed (a ∷ more) s = refl

unset_and_set : true ≡ false → ⊥
unset_and_set h = cc

module _ (site : Site) (answer : Answer) where
  -- A move of the thread to a place that asks for no flag.
  goes_to :
      (a b : Acceptor) (s : HttpServer)
      → behind_flag b ≡ false
      → owes_notification b ≡ 0
      → b ≢ threw pool_is_closed
      → IsFlaggedAt a s
      → IsFlagged (record s { acceptor = b })
  goes_to a b s free nothing calm h = record {
    closed_by_flag = h.closed_by_flag;
    reached_by_flag = λ e. cc;
    not_surprised = calm;
    once = omega (arith, h.once);
  }

  goes_by_flag :
      (a b : Acceptor) (s : HttpServer)
      → s.shutdown_requested ≡ true
      → owes_notification b ≡ 0
      → b ≢ threw pool_is_closed
      → IsFlaggedAt a s
      → IsFlagged (record s { acceptor = b })
  goes_by_flag a b s flag nothing calm h = record {
    closed_by_flag = h.closed_by_flag;
    reached_by_flag = λ e. flag;
    not_surprised = calm;
    once = omega (arith, h.once);
  }

  choose :
      (b : Bool) (x y : Acceptor) (s : HttpServer)
      → (b ≡ true → IsFlagged (record s { acceptor = x }))
      → (b ≡ false → IsFlagged (record s { acceptor = y }))
      → IsFlagged (record s { acceptor = if b then x else y })
  choose true x y s yes_case no_case = yes_case refl
  choose false x y s yes_case no_case = no_case refl

  polled-IsFlagged :
      (o : Outcome Polled) (s : HttpServer)
      → IsFlaggedAt polling s
      → IsFlagged (record s { acceptor = after_poll o })
  polled-IsFlagged (failed eintr) s h = goes_to polling checking s refl refl (λ e. cc) h
  polled-IsFlagged (failed eagain) s h = goes_to polling (threw poll_failed) s refl refl (λ e. cc) h
  polled-IsFlagged (failed other) s h = goes_to polling (threw poll_failed) s refl refl (λ e. cc) h
  polled-IsFlagged (done events) s h =
      choose events.pipe_readable requesting
        (if events.listener_readable then accepting else checking) s
        (λ e. goes_to polling requesting s refl refl (λ c. cc) h)
        (λ e.
          choose events.listener_readable accepting checking s
            (λ f. goes_to polling accepting s refl refl (λ c. cc) h)
            (λ f. goes_to polling checking s refl refl (λ c. cc) h))

  accepted-IsFlagged :
      (o : Outcome Fd) (s : HttpServer)
      → IsFlaggedAt accepting s
      → IsFlagged (record s { acceptor = after_accept o })
  accepted-IsFlagged (done client) s h = goes_to accepting (counting client) s refl refl (λ e. cc) h
  accepted-IsFlagged (failed eintr) s h = goes_to accepting accepting s refl refl (λ e. cc) h
  accepted-IsFlagged (failed eagain) s h =
      goes_to accepting (threw accept_failed) s refl refl (λ e. cc) h
  accepted-IsFlagged (failed other) s h =
      goes_to accepting (threw accept_failed) s refl refl (λ e. cc) h

  -- Where the queue of the pool is as closed as before.
  in_pool-IsFlagged :
      (a b : Acceptor) (q : WorkerPool) (s : HttpServer)
      → q.shared.queue.closed ≡ s.pool.shared.queue.closed
      → (behind_flag b ≡ true → s.shutdown_requested ≡ true)
      → owes_notification b ≡ 0
      → b ≢ threw pool_is_closed
      → IsFlaggedAt a s
      → IsFlagged (record s { acceptor = b; pool = q })
  in_pool-IsFlagged a b q s same flag nothing calm h = record {
    closed_by_flag = λ e. h.closed_by_flag (sym same ∙ e);
    reached_by_flag = flag;
    not_surprised = calm;
    once = omega (arith, h.once);
  }

  pushed-IsFlagged :
      (client : Fd) (r : Option Bool) (q : WorkerPool) (s : HttpServer)
      → q.shared.queue.closed ≡ s.pool.shared.queue.closed
      → (r ≡ some false → s.pool.shared.queue.closed ≡ true)
      → IsFlaggedAt (dispatching client) s
      → IsFlagged (record s { acceptor = after_push client r; pool = q })
  pushed-IsFlagged client none q s same refused h =
      in_pool-IsFlagged (dispatching client) (dispatching client) q s same (λ e. cc) refl (λ e. cc)
        h
  pushed-IsFlagged client (some true) q s same refused h =
      in_pool-IsFlagged (dispatching client) (reporting true) q s same (λ e. cc) refl (λ e. cc) h
  pushed-IsFlagged client (some false) q s same refused h =
      in_pool-IsFlagged (dispatching client) (reporting false) q s same
        (λ e. h.closed_by_flag (refused refl)) refl (λ e. cc) h

  reported-IsFlagged :
      (taken : Bool) (q : WorkerPool) (s : HttpServer)
      → q.shared.queue.closed ≡ s.pool.shared.queue.closed
      → IsFlaggedAt (reporting taken) s
      → IsFlagged (record s { acceptor = if taken then checking else judging; pool = q })
  reported-IsFlagged true q s same h =
      in_pool-IsFlagged (reporting true) checking q s same (λ e. cc) refl (λ e. cc) h
  reported-IsFlagged false q s same h =
      in_pool-IsFlagged (reporting false) judging q s same (λ e. h.reached_by_flag refl) refl
        (λ e. cc) h

  -- Behind a set flag the queue may be closed.
  closes :
      (a b : Acceptor) (q : WorkerPool) (s : HttpServer)
      → s.shutdown_requested ≡ true
      → owes_notification b ≡ owes_notification a
      → b ≢ threw pool_is_closed
      → IsFlaggedAt a s
      → IsFlagged (record s { acceptor = b; pool = q })
  closes a b q s flag same calm h = record {
    closed_by_flag = λ e. flag;
    reached_by_flag = λ e. flag;
    not_surprised = calm;
    once = omega (arith, h.once);
  }

  requested-IsFlagged :
      (flag : Bool) (s : HttpServer)
      → s.shutdown_requested ≡ flag
      → IsFlaggedAt requesting s
      → IsFlagged (accept_in site requesting answer s)
  unfolding accept_in
  requested-IsFlagged true s e h = rw e (record {
    closed_by_flag = λ c. refl;
    reached_by_flag = λ c. refl;
    not_surprised = λ c. cc;
    once = omega (arith, h.once, ap granted e);
  })
  requested-IsFlagged false s e h = rw e (record {
    closed_by_flag = λ c. refl;
    reached_by_flag = λ c. refl;
    not_surprised = λ c. cc;
    once = omega (arith, h.once, ap granted e);
  })

  notified :
      (written : Bool) (s : HttpServer)
      → IsFlaggedAt notifying s
      → IsFlagged (record s {
        acceptor = shutting_down;
        notifications = one_more_if written s.notifications;
      })
  notified true s h = record {
    closed_by_flag = h.closed_by_flag;
    reached_by_flag = λ e. h.reached_by_flag refl;
    not_surprised = λ e. cc;
    once = omega (arith, h.once);
  }
  notified false s h = record {
    closed_by_flag = h.closed_by_flag;
    reached_by_flag = λ e. h.reached_by_flag refl;
    not_surprised = λ e. cc;
    once = omega (arith, h.once);
  }

  pub accept_in-IsFlagged :
      (a : Acceptor) (s : HttpServer) → IsFlaggedAt a s → IsFlagged (accept_in site a answer s)
  unfolding accept_in
  accept_in-IsFlagged checking s h =
      choose s.shutdown_requested shutting_down polling s
        (λ flag. goes_by_flag checking shutting_down s flag refl (λ e. cc) h)
        (λ unset. goes_to checking polling s refl refl (λ e. cc) h)
  accept_in-IsFlagged polling s h = polled-IsFlagged answer.polled s h
  accept_in-IsFlagged requesting s h = requested-IsFlagged s.shutdown_requested s refl h
  accept_in-IsFlagged closing s h =
      closes closing notifying (Loop.step site call_shutdown s.pool) s (h.reached_by_flag refl) refl
        (λ e. cc) h
  accept_in-IsFlagged notifying s h = notified answer.written s h
  accept_in-IsFlagged accepting s h = accepted-IsFlagged answer.accepted s h
  accept_in-IsFlagged (counting client) s h = record {
    closed_by_flag = h.closed_by_flag;
    reached_by_flag = λ e. cc;
    not_surprised = λ e. cc;
    once = h.once;
  }
  accept_in-IsFlagged (dispatching client) s h =
      pushed-IsFlagged client (WorkerPool.dispatch client s.pool.shared).0
        (Loop.step site (call_dispatch client) s.pool) s
        (unfold Loop.step in dispatch-closed client s.pool.shared)
        (dispatch-refused client s.pool.shared) h
  accept_in-IsFlagged (reporting taken) s h =
      reported-IsFlagged taken (Loop.step site end_dispatch s.pool) s
        (unfold Loop.step in end_one-closed s.pool.shared.dispatching s.pool.shared) h
  accept_in-IsFlagged judging s h =
      choose s.shutdown_requested checking (threw pool_is_closed) s
        (λ flag. goes_to judging checking s refl refl (λ e. cc) h)
        (λ unset. absurd (unset_and_set (sym (h.reached_by_flag refl) ∙ unset)))
  accept_in-IsFlagged shutting_down s h =
      closes shutting_down joining (Loop.step site call_shutdown s.pool) s (h.reached_by_flag refl)
        refl (λ e. cc) h
  accept_in-IsFlagged joining s h =
      choose (all_finished s.pool.workers) stopped joining s
        (λ e. goes_by_flag joining stopped s (h.reached_by_flag refl) refl (λ c. cc) h)
        (λ e. goes_by_flag joining joining s (h.reached_by_flag refl) refl (λ c. cc) h)
  accept_in-IsFlagged stopped s h =
      goes_by_flag stopped stopped s (h.reached_by_flag refl) refl (λ c. cc) h
  accept_in-IsFlagged (threw e) s h = record {
    closed_by_flag = h.closed_by_flag;
    reached_by_flag = h.reached_by_flag;
    not_surprised = h.not_surprised;
    once = h.once;
  }
