-- ===== src/Tests/PoolRuns.antt =====
-- Runs of a pool of two workers and of a server over it, and their theorems on these runs.
use http_server.Prelude.{
  ◌+◌, ◌%◌, ◌≡◌, ◌≢◌, ◌≤◌, refl, ℕ, zero, suc, Bool, true, false, List, [], ◌∷◌, ◌++◌, some, length,
  size_limit, All, pos,
}
use http_server.BoundedQueue
use http_server.BoundedQueue.{may_push, may_pop, push_locked, pop_locked, close_locked}
use http_server.Connection.{done, failed, other}
use http_server.Connection.Turns.{Turn}
use http_server.Descriptor.{Fd}
use http_server.WorkerPool
use http_server.WorkerPool.{
  Worker, WorkerPool, fetch_add, dispatch, request_shutdown, finished, dispatched_connections,
  completed_connections, worker_errors, active_connections, rejected_dispatches,
}
use http_server.WorkerPool.Loop
use http_server.WorkerPool.Loop.{
  Service, work, work_at, call_dispatch, end_dispatch, call_shutdown, worker_step, service_ending,
}
use http_server.WorkerPool.Totals.{sum_of, total}
use http_server.WorkerPool.Connections.{holding, is_serving, reasons}
use http_server.WorkerPool.Counts.{IsSettled, run-connections, run-reasons, run-active}
use http_server.WorkerPool.Drained.{IsFinished, IsDrained}
use http_server.WorkerPool.Drain.{run-ended}
use http_server.WorkerPool.Fresh.{fresh}
use http_server.WorkerPool.Termination.{
  Move, worker_steps, steps_left, goes, goes_at, all_go, ends, shutdown-ends,
}
use http_server.Server
use http_server.Server.{
  HttpServer, Answer, Event, acceptor_step, pool_step, other_request, other_close, other_notify,
  stopped, threw, pool_is_closed, accept_in, started,
}
use http_server.Server.Flag.{run-not_surprised, run-notifications}
use http_server.Server.Stopped.{run-returned}
use http_server.Tests.Fixture.{program, demo_site, demo_config}

-- Everything that a run of the pool or of the server computes through.
unfoldable machinery : Unit {0}
unfolding program may_push may_pop push_locked pop_locked close_locked BoundedQueue.create
    WorkerPool.create fetch_add dispatch request_shutdown service_ending work work_at Loop.step
    Loop.run Server.step Server.run accept_in started goes goes_at all_go
machinery = tt

abbrev pool : WorkerPool
pool = fresh 2 2 demo_config

pool-create : WorkerPool.create 2 2 demo_config ≡ some pool
unfolding machinery
pool-create = refl

-- The peer closes at once.
abbrev closing_turn : Turn
closing_turn = record { now = 1; later = 2; set = done tt; received = done []; sent = failed other }

abbrev polite : Service
polite = record { started = 0; turns = closing_turn ∷ []; throws = false }

abbrev failing : Service
failing = record { started = 0; turns = []; throws = true }

-- Two connections; a worker serves the first.
abbrev busy : List Loop.Event
busy =
    call_dispatch (pos 7)
    ∷ end_dispatch
    ∷ call_dispatch (pos 8)
    ∷ end_dispatch
    ∷ worker_step 0 polite
    ∷ worker_step 0 polite
    ∷ []

abbrev turns_of : ℕ → ℕ → Service → List Loop.Event
turns_of zero i service = []
turns_of (suc n) i service = worker_step i service ∷ turns_of n i service

-- The rest of both, an exception in the second, and the end of the workers.
abbrev whole : List Loop.Event
whole =
    busy
    ++ (turns_of 8 0 polite
        ++ (turns_of 6 1 failing
            ++ (call_shutdown ∷ worker_step 0 polite ∷ worker_step 1 polite ∷ [])))

busy-IsSettled : IsSettled (Loop.run demo_site busy pool)
unfolding machinery
busy-IsSettled = record { no_dispatch = refl; no_addition = (refl, (refl, tt)) }

whole-ended : All IsFinished (Loop.run demo_site whole pool).workers
unfolding machinery
whole-ended = (refl, (refl, tt))

whole-idle : (Loop.run demo_site whole pool).shared.dispatching ≡ []
unfolding machinery
whole-idle = refl

run-connections_example :
    (Loop.run demo_site busy pool).shared.counters dispatched_connections % size_limit
    ≡ ((Loop.run demo_site busy pool).shared.counters completed_connections
        + (Loop.run demo_site busy pool).shared.counters worker_errors
        + length (Loop.run demo_site busy pool).shared.queue.queue
        + total holding (Loop.run demo_site busy pool).workers)
      % size_limit
run-connections_example =
    run-connections demo_site 2 2 demo_config pool busy pool-create busy-IsSettled

run-reasons_example :
    (Loop.run demo_site busy pool).shared.counters completed_connections % size_limit
    ≡ sum_of reasons (Loop.run demo_site busy pool).shared.counters % size_limit
run-reasons_example = run-reasons demo_site 2 2 demo_config pool busy pool-create busy-IsSettled

run-active_example :
    (Loop.run demo_site busy pool).shared.counters active_connections % size_limit
    ≡ total is_serving (Loop.run demo_site busy pool).workers % size_limit
run-active_example = run-active demo_site 2 2 demo_config pool busy pool-create busy-IsSettled

run-ended_example :
    (Loop.run demo_site whole pool).shared.counters dispatched_connections % size_limit
    ≡ ((Loop.run demo_site whole pool).shared.counters completed_connections
        + (Loop.run demo_site whole pool).shared.counters worker_errors)
      % size_limit
run-ended_example =
    run-ended demo_site 2 2 demo_config pool whole pool-create whole-ended whole-idle

-- The pool with its queue closed, and what its workers have left to do.
abbrev closing_pool : WorkerPool
closing_pool = Loop.run demo_site (busy ++ call_shutdown ∷ []) pool

abbrev moves_of : ℕ → ℕ → Service → List Move
moves_of zero i service = []
moves_of (suc n) i service = (record { index = i; service = service }) ∷ moves_of n i service

abbrev last_moves : List Move
last_moves =
    moves_of 8 0 polite ++ (moves_of 6 1 failing ++ (moves_of 1 0 polite ++ moves_of 1 1 polite))

last_moves-closed : closing_pool.shared.queue.closed ≡ true
unfolding machinery
last_moves-closed = refl

last_moves-go : all_go demo_site last_moves closing_pool ≡ true
unfolding machinery
last_moves-go = refl

last_moves-still :
    (i : ℕ)
    → goes_at demo_site closing_pool.config failing i
        (Loop.run demo_site (worker_steps last_moves) closing_pool).workers
        (Loop.run demo_site (worker_steps last_moves) closing_pool).shared
      ≡ false
unfolding machinery
last_moves-still zero = refl
last_moves-still (suc zero) = refl
last_moves-still (suc (suc i)) = refl

failing-ends_there :
    (client : Fd) → ends (service_ending demo_site closing_pool.config failing client) ≡ true
unfolding service_ending
failing-ends_there client = refl

shutdown-ends_example :
    (length last_moves ≤ steps_left closing_pool.workers closing_pool.shared)
    × All IsFinished (Loop.run demo_site (worker_steps last_moves) closing_pool).workers
shutdown-ends_example =
    shutdown-ends demo_site last_moves closing_pool failing last_moves-closed last_moves-go
      failing-ends_there last_moves-still

abbrev told : Bool → Bool → Answer
told pipe client = record {
  polled = done (record { pipe_readable = pipe; listener_readable = client });
  accepted = done (pos 7);
  written = true;
}

abbrev acceptor_steps : ℕ → Answer → List Event
acceptor_steps zero a = []
acceptor_steps (suc n) a = acceptor_step a ∷ acceptor_steps n a

abbrev pool_steps : ℕ → ℕ → Service → List Event
pool_steps zero i service = []
pool_steps (suc n) i service = pool_step i service ∷ pool_steps n i service

-- One connection is accepted and served, then a byte in the pipe ends the loop; another thread asks
-- for the shutdown as well.
abbrev short_life : List Event
short_life =
    acceptor_steps 6 (told false true)
    ++ (pool_steps 10 0 polite
        ++ (acceptor_steps 3 (told true false)
            ++ (other_request ∷ acceptor_steps 3 (told true false)
                ++ (pool_steps 1 0 polite
                    ++ (pool_steps 1 1 polite ++ acceptor_steps 1 (told true false))))))

short_life-stopped : (Server.run demo_site short_life (started pool)).acceptor ≡ stopped
unfolding machinery
short_life-stopped = refl

run-returned_example :
    All IsFinished (Server.run demo_site short_life (started pool)).pool.workers
    × IsDrained (Server.run demo_site short_life (started pool)).pool.shared
    × ((Server.run demo_site short_life (started pool)).accepted_connections % size_limit
        ≡ ((Server.run demo_site short_life (started pool)).pool.shared.counters
              completed_connections
            + (Server.run demo_site short_life (started pool)).pool.shared.counters worker_errors
            + (Server.run demo_site short_life (started pool)).pool.shared.counters
                rejected_dispatches)
          % size_limit)
run-returned_example =
    run-returned demo_site 2 2 demo_config pool short_life pool-create short_life-stopped

run-not_surprised_example :
    ((Server.run demo_site short_life (started pool)).acceptor ≢ threw pool_is_closed)
    × ((Server.run demo_site short_life (started pool)).pool.shared.queue.closed ≡ true
        → (Server.run demo_site short_life (started pool)).shutdown_requested ≡ true)
run-not_surprised_example = run-not_surprised demo_site 2 2 demo_config pool short_life pool-create

run-notifications_example : (Server.run demo_site short_life (started pool)).notifications ≤ 1
run-notifications_example = run-notifications demo_site 2 2 demo_config pool short_life pool-create
