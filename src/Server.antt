-- ===== src/Server.antt =====
-- src/server.cpp and include/http/server.hpp: the thread in `serve_forever`, other threads that call
-- `request_shutdown`, and the signal handler of src/main.cpp, over a worker pool. One step is one
-- access to what they share, or one system call.
pub mod Flagged
pub mod Flag
pub mod Accepted
pub mod Steps
pub mod Stopped
pub mod Lifecycle
pub mod Lifetime
use http_server.Prelude.{
  ℕ, zero, suc, Bool, true, false, List, [], ◌∷◌, Option, none, some, Bytes, codes, if◌then◌else◌,
  add_size,
}
use http_server.BoundedQueue.{may_push, push_locked}
use http_server.Connection.{Site, Outcome, done, failed, eintr, eagain, other, Errno}
use http_server.Descriptor.{Fd}
use http_server.WorkerPool
use http_server.WorkerPool.{
  Worker, popping, activating, serving, adding, finished, WorkerPool, Shared,
}
use http_server.WorkerPool.Loop.{Service, call_dispatch, end_dispatch, call_shutdown, worker_step}
use http_server.WorkerPool.Loop

pub data ServerError : Type 0 where
  poll_failed accept_failed pool_is_closed : ServerError

-- Where the thread in `serve_forever` stands.
pub data Acceptor : Type 0 where
  -- The head of the loop, and `poll`.
  checking polling : Acceptor
  -- `request_shutdown` at the end of the loop: the exchange, the close, the write.
  requesting closing notifying : Acceptor
  -- `serve_one`: `accept`, the count, `push`, the count of the pool, the test of the flag.
  accepting : Acceptor
  counting : Fd → Acceptor
  dispatching : Fd → Acceptor
  reporting : Bool → Acceptor
  judging : Acceptor
  -- `worker_pool_.shutdown()`: the close, and the joins.
  shutting_down joining : Acceptor
  stopped : Acceptor
  threw : ServerError → Acceptor

pub record HttpServer : Type 0 where
  pub pool : WorkerPool
  pub acceptor : Acceptor
  pub accepted_connections : ℕ
  pub shutdown_requested : Bool
  -- Other threads in `request_shutdown` behind the exchange, and behind the close.
  pub others_closing : ℕ
  pub others_notifying : ℕ
  -- The bytes that `request_shutdown` wrote to the pipe.
  pub notifications : ℕ

-- The events of `poll` that are looked at.
pub record Polled : Type 0 where
  pub pipe_readable : Bool
  pub listener_readable : Bool

-- What the system answers the thread in `serve_forever`.
pub record Answer : Type 0 where
  pub polled : Outcome Polled
  pub accepted : Outcome Fd
  pub written : Bool

pub data Event : Type 0 where
  acceptor_step : Answer → Event
  pool_step : ℕ → Service → Event
  other_request other_close : Event
  other_notify : Bool → Event

abbrev pub all_finished : List Worker → Bool
all_finished [] = true
all_finished (finished ∷ ws) = all_finished ws
all_finished (popping ∷ ws) = false
all_finished (activating client ∷ ws) = false
all_finished (serving client ∷ ws) = false
all_finished (adding more ∷ ws) = false

abbrev pub one_more_if : Bool → ℕ → ℕ
one_more_if true n = suc n
one_more_if false n = n

abbrev go_to : Acceptor → HttpServer → HttpServer
go_to next s = record s { acceptor = next }

abbrev after_poll : Outcome Polled → Acceptor
after_poll (failed eintr) = checking
after_poll (failed eagain) = threw poll_failed
after_poll (failed other) = threw poll_failed
after_poll (done events) =
    if events.pipe_readable
    then requesting
    else if events.listener_readable
    then accepting
    else checking

-- `TcpListener::accept`, which tries again after EINTR.
abbrev after_accept : Outcome Fd → Acceptor
after_accept (done client) = counting client
after_accept (failed eintr) = accepting
after_accept (failed eagain) = threw accept_failed
after_accept (failed other) = threw accept_failed

abbrev after_push : Fd → Option Bool → Acceptor
after_push client none = dispatching client
after_push client (some taken) = reporting taken

module _ (site : Site) where
  abbrev pub in_pool : Loop.Event → HttpServer → HttpServer
  in_pool e s = record s { pool = Loop.step site e s.pool }

  -- A step of the thread in `serve_forever`.
  unfoldable pub accept_in : Acceptor → Answer → HttpServer → HttpServer
  accept_in checking a s = go_to (if s.shutdown_requested then shutting_down else polling) s
  accept_in polling a s = go_to (after_poll a.polled) s
  accept_in requesting a s =
      if s.shutdown_requested
      then go_to shutting_down s
      else record s { shutdown_requested = true; acceptor = closing }
  accept_in closing a s = go_to notifying (in_pool call_shutdown s)
  accept_in notifying a s =
      go_to shutting_down (record s { notifications = one_more_if a.written s.notifications })
  accept_in accepting a s = go_to (after_accept a.accepted) s
  accept_in (counting client) a s = record s {
    accepted_connections = add_size s.accepted_connections 1;
    acceptor = dispatching client;
  }
  accept_in (dispatching client) a s =
      go_to (after_push client (WorkerPool.dispatch client s.pool.shared).0)
        (in_pool (call_dispatch client) s)
  accept_in (reporting taken) a s =
      go_to (if taken then checking else judging) (in_pool end_dispatch s)
  accept_in judging a s = go_to (if s.shutdown_requested then checking else threw pool_is_closed) s
  accept_in shutting_down a s = go_to joining (in_pool call_shutdown s)
  accept_in joining a s = go_to (if all_finished s.pool.workers then stopped else joining) s
  accept_in stopped a s = go_to stopped s
  accept_in (threw e) a s = go_to (threw e) s

  abbrev pub close_other : ℕ → HttpServer → HttpServer
  close_other zero s = s
  close_other (suc n) s =
      in_pool call_shutdown
        (record s { others_closing = n; others_notifying = suc s.others_notifying })

  abbrev pub notify_other : ℕ → Bool → HttpServer → HttpServer
  notify_other zero written s = s
  notify_other (suc n) written s = record s {
    others_notifying = n;
    notifications = one_more_if written s.notifications;
  }

  -- A step of one thread. Another thread that calls `request_shutdown` goes on only if its exchange
  -- finds the flag not yet set.
  unfoldable pub step : Event → HttpServer → HttpServer
  unfolding accept_in
  step (acceptor_step a) s = accept_in s.acceptor a s
  step (pool_step i service) s = in_pool (worker_step i service) s
  step other_request s =
      if s.shutdown_requested
      then s
      else record s { shutdown_requested = true; others_closing = suc s.others_closing }
  step other_close s = close_other s.others_closing s
  step (other_notify written) s = notify_other s.others_notifying written s

  unfoldable pub run : List Event → HttpServer → HttpServer
  run [] s = s
  run (e ∷ es) s = run es (step e s)

-- A server over a new pool, at the start of `serve_forever`.
unfoldable pub started : WorkerPool → HttpServer
started pool = record {
  pool = pool;
  acceptor = checking;
  accepted_connections = 0;
  shutdown_requested = false;
  others_closing = 0;
  others_notifying = 0;
  notifications = 0;
}
