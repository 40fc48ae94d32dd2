-- ===== src/WorkerPool.antt =====
-- src/worker_pool.cpp and include/http/worker_pool.hpp: worker threads that take connections from the
-- queue, serve them and count. Threads interleave at each access to what they share: a critical
-- section of the queue, or one `fetch_add` or `fetch_sub` of a counter.
pub mod Loop
pub mod Fresh
pub mod Startup
pub mod Totals
pub mod Accounts
pub mod Connections
pub mod Counts
pub mod Drained
pub mod Drain
pub mod Frame
pub mod Termination
pub mod Joining
use http_server.Prelude.{
  ℕ, zero, suc, ◌+◌, ◌-◌, ◌%◌, Bool, true, false, ◌||◌, List, [], ◌∷◌, Option, none, some, ltb,
  ◌==◌, if◌then◌else◌, length, add_size, size_limit,
}
use http_server.BoundedQueue
use http_server.BoundedQueue.{BoundedQueue, may_push, push_locked, close_locked}
use http_server.Connection.{
  ConnectionEndReason, peer_closed, connection_close, request_limit, parse_error, read_timeout,
  keep_alive_timeout, write_timeout, read_error, write_error, ConnectionConfig, ConnectionResult,
}
use http_server.Descriptor.{Fd}

-- The atomic counters of the pool.
pub data Counter : Type 0 where
  dispatched_connections rejected_dispatches active_connections completed_connections : Counter
  requests_served bytes_read bytes_written : Counter
  peer_closes explicit_closes request_limit_closes parse_errors read_timeouts : Counter
  keep_alive_timeouts write_timeouts read_errors write_errors worker_errors : Counter

-- The place of a counter in the class.
abbrev pub offset : Counter → ℕ
offset dispatched_connections = 0
offset rejected_dispatches = 1
offset active_connections = 2
offset completed_connections = 3
offset requests_served = 4
offset bytes_read = 5
offset bytes_written = 6
offset peer_closes = 7
offset explicit_closes = 8
offset request_limit_closes = 9
offset parse_errors = 10
offset read_timeouts = 11
offset keep_alive_timeouts = 12
offset write_timeouts = 13
offset read_errors = 14
offset write_errors = 15
offset worker_errors = 16

abbrev pub Counters : Type 0
Counters = Counter → ℕ

-- A `fetch_add`; `fetch_sub(1)` adds 2^64 - 1.
pub record Addition : Type 0 where
  pub counter : Counter
  pub amount : ℕ

abbrev pub minus_one : ℕ
minus_one = size_limit - 1

unfoldable pub fetch_add : Addition → Counters → Counters
unfolding add_size
fetch_add a counters c =
    if offset a.counter == offset c then add_size (counters c) a.amount else counters c

abbrev pub one_more : Counter → Addition
one_more c = record { counter = c; amount = 1 }

-- The counter of a reason.
abbrev pub reason_counter : ConnectionEndReason → Counter
reason_counter peer_closed = peer_closes
reason_counter connection_close = explicit_closes
reason_counter request_limit = request_limit_closes
reason_counter parse_error = parse_errors
reason_counter read_timeout = read_timeouts
reason_counter keep_alive_timeout = keep_alive_timeouts
reason_counter write_timeout = write_timeouts
reason_counter read_error = read_errors
reason_counter write_error = write_errors

-- What `record_result` adds, in its order.
abbrev pub record_result : ConnectionResult → List Addition
record_result result =
    one_more completed_connections
    ∷ (record { counter = requests_served; amount = result.requests_served })
    ∷ (record { counter = bytes_read; amount = result.bytes_read })
    ∷ (record { counter = bytes_written; amount = result.bytes_written })
    ∷ one_more (reason_counter result.reason)
    ∷ []

-- Where a worker stands in `worker_loop`.
pub data Worker : Type 0 where
  popping : Worker
  activating : Fd → Worker
  serving : Fd → Worker
  -- The additions still to make before the head of the loop.
  adding : List Addition → Worker
  finished : Worker

-- What the threads share, and the additions that calls of `dispatch` have still to make.
pub record Shared : Type 0 where
  pub queue : BoundedQueue Fd
  pub counters : Counters
  pub dispatching : List Addition

pub record WorkerPool : Type 0 where
  pub shared : Shared
  pub workers : List Worker
  pub config : ConnectionConfig

abbrev pub popping_workers : ℕ → List Worker
popping_workers zero = []
popping_workers (suc n) = popping ∷ popping_workers n

abbrev created : ℕ → ConnectionConfig → Option (BoundedQueue Fd) → Option WorkerPool
created worker_count config none = none
created worker_count config (some queue) =
    if worker_count == 0
    then none
    else some (record {
      shared = record { queue = queue; counters = λ c. 0; dispatching = [] };
      workers = popping_workers worker_count;
      config = config;
    })

-- The constructor, where every thread starts; `none` where it throws.
unfoldable pub create : ℕ → ℕ → ConnectionConfig → Option WorkerPool
create worker_count queue_capacity config =
    created worker_count config (BoundedQueue.create queue_capacity)

dispatched : Bool × BoundedQueue Fd → Shared → Shared
dispatched (true, q) s = record s {
  queue = q;
  dispatching = one_more dispatched_connections ∷ s.dispatching;
}
dispatched (false, q) s = record s {
  queue = q;
  dispatching = one_more rejected_dispatches ∷ s.dispatching;
}

-- `dispatch` up to the return of `push`, which waits for room; the result of the call, if it goes on.
unfoldable pub dispatch : Fd → Shared → Option Bool × Shared
unfolding dispatched
dispatch client s =
    if may_push s.queue
    then (some (push_locked client s.queue).0, dispatched (push_locked client s.queue) s)
    else (none, s)

-- `request_shutdown`.
unfoldable pub request_shutdown : Shared → Shared
request_shutdown s = record s { queue = close_locked s.queue }
