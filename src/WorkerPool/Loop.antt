-- ===== src/WorkerPool/Loop.antt =====
-- `worker_loop` of src/worker_pool.cpp, one access to the shared state at a time, and the runs of a
-- pool.
use http_server.Prelude.{ℕ, zero, suc, Bool, List, [], ◌∷◌, ◌++◌, Option, none, some, if◌then◌else◌}
use http_server.BoundedQueue.{BoundedQueue, may_pop, pop_locked}
use http_server.Connection.{
  State, reading, parsing, writing, closed, Connection, ConnectionConfig, ConnectionResult, Site,
}
use http_server.Connection
use http_server.Connection.Turns.{Turn, serve}
use http_server.Descriptor.{Fd, valid}
use http_server.WorkerPool.{
  active_connections, worker_errors, Addition, minus_one, fetch_add, one_more, record_result,
  Worker, popping, activating, serving, adding, finished, Shared, WorkerPool, dispatch,
  request_shutdown,
}

-- What the system does while a worker serves its connection: the clock when the connection is
-- constructed, the turns of its loop, and whether an exception leaves `serve`.
pub record Service : Type 0 where
  pub started : ℕ
  pub turns : List Turn
  pub throws : Bool

-- How the service ends.
pub data Ending : Type 0 where
  returned : ConnectionResult → Ending
  thrown : Ending
  goes_on : Ending

result_of : State → Connection → Ending
result_of closed c = returned c.result
result_of reading c = goes_on
result_of parsing c = goes_on
result_of writing c = goes_on

served : Site → List Turn → Option Connection → Ending
unfolding result_of
served site turns none = thrown
served site turns (some c) = let c' = (serve site turns c).0 in result_of c'.state c'

-- The `try` block: the connection is constructed and served.
unfoldable pub service_ending : Site → ConnectionConfig → Service → Fd → Ending
unfolding served
service_ending site config service client =
    if service.throws
    then thrown
    else served site service.turns (Connection.create (valid client) config service.started)

-- The additions behind the `try` block and its handlers.
abbrev pub after_service : Ending → Fd → Worker
after_service (returned result) client =
    adding
      (record_result result ++ (record { counter = active_connections; amount = minus_one }) ∷ [])
after_service thrown client =
    adding
      (one_more worker_errors ∷ (record { counter = active_connections; amount = minus_one }) ∷ [])
after_service goes_on client = serving client

abbrev pub taken : Option Fd × BoundedQueue Fd → Shared → Worker × Shared
taken (some client, q) s = (activating client, record s { queue = q })
taken (none, q) s = (finished, record s { queue = q })

module _ (site : Site) (config : ConnectionConfig) (service : Service) where
  -- One step of a worker. At the head of the loop it waits in `pop` while there is nothing to do.
  unfoldable pub work : Worker → Shared → Worker × Shared
  work popping s = if may_pop s.queue then taken (pop_locked s.queue) s else (popping, s)
  work (activating client) s =
      (serving client, record s { counters = fetch_add (one_more active_connections) s.counters })
  work (serving client) s = (after_service (service_ending site config service client) client, s)
  work (adding []) s = (popping, s)
  work (adding (a ∷ more)) s = (adding more, record s { counters = fetch_add a s.counters })
  work finished s = (finished, s)

  -- A step of the worker at an index; nothing where there is none.
  unfoldable pub work_at : ℕ → List Worker → Shared → List Worker × Shared
  work_at i [] s = ([], s)
  work_at zero (w ∷ ws) s = ((work w s).0 ∷ ws, (work w s).1)
  work_at (suc i) (w ∷ ws) s = let (ws', s') = work_at i ws s in (w ∷ ws', s')

-- A step of one thread: a caller of `dispatch` or `request_shutdown`, or a worker.
pub data Event : Type 0 where
  call_dispatch : Fd → Event
  end_dispatch : Event
  call_shutdown : Event
  worker_step : ℕ → Service → Event

-- The next of the additions that calls of `dispatch` owe.
abbrev pub end_one : List Addition → Shared → Shared
end_one [] s = s
end_one (a ∷ more) s = record s { counters = fetch_add a s.counters; dispatching = more }

module _ (site : Site) where
  unfoldable pub step : Event → WorkerPool → WorkerPool
  step (call_dispatch client) p = record p { shared = (dispatch client p.shared).1 }
  step end_dispatch p = record p { shared = end_one p.shared.dispatching p.shared }
  step call_shutdown p = record p { shared = request_shutdown p.shared }
  step (worker_step i service) p =
      let (workers, shared) = work_at site p.config service i p.workers p.shared in
      record p { workers = workers; shared = shared }

  unfoldable pub run : List Event → WorkerPool → WorkerPool
  run [] p = p
  run (e ∷ es) p = run es (step e p)
