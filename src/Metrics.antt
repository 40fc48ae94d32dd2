-- ===== src/Metrics.antt =====
-- src/metrics.cpp, and the snapshots that it prints: `WorkerPoolStats` and `HttpServerStats` of
-- include/http/worker_pool.hpp and include/http/server.hpp. A snapshot is taken as of one moment;
-- `main` takes it when no other thread is left.
pub mod Reading
use http_server.Prelude.{ℕ, List, [], ◌∷◌, ◌++◌, Bytes, codes, length}
use http_server.Number.{decimal}
use http_server.Server.{HttpServer}
use http_server.WorkerPool
use http_server.WorkerPool.{WorkerPool, Counter}

pub record WorkerPoolStats : Type 0 where
  pub dispatched_connections : ℕ
  pub rejected_dispatches : ℕ
  pub active_connections : ℕ
  pub queued_connections : ℕ
  pub queue_high_water : ℕ
  pub completed_connections : ℕ
  pub requests_served : ℕ
  pub bytes_read : ℕ
  pub bytes_written : ℕ
  pub peer_closes : ℕ
  pub explicit_closes : ℕ
  pub request_limit_closes : ℕ
  pub parse_errors : ℕ
  pub read_timeouts : ℕ
  pub keep_alive_timeouts : ℕ
  pub write_timeouts : ℕ
  pub read_errors : ℕ
  pub write_errors : ℕ
  pub worker_errors : ℕ

pub record HttpServerStats : Type 0 where
  pub accepted_connections : ℕ
  pub workers : WorkerPoolStats

-- `WorkerPool::stats`.
unfoldable pub pool_stats : WorkerPool → WorkerPoolStats
pool_stats p = record {
  dispatched_connections = p.shared.counters Counter.dispatched_connections;
  rejected_dispatches = p.shared.counters Counter.rejected_dispatches;
  active_connections = p.shared.counters Counter.active_connections;
  queued_connections = length p.shared.queue.queue;
  queue_high_water = p.shared.queue.high_water_mark;
  completed_connections = p.shared.counters Counter.completed_connections;
  requests_served = p.shared.counters Counter.requests_served;
  bytes_read = p.shared.counters Counter.bytes_read;
  bytes_written = p.shared.counters Counter.bytes_written;
  peer_closes = p.shared.counters Counter.peer_closes;
  explicit_closes = p.shared.counters Counter.explicit_closes;
  request_limit_closes = p.shared.counters Counter.request_limit_closes;
  parse_errors = p.shared.counters Counter.parse_errors;
  read_timeouts = p.shared.counters Counter.read_timeouts;
  keep_alive_timeouts = p.shared.counters Counter.keep_alive_timeouts;
  write_timeouts = p.shared.counters Counter.write_timeouts;
  read_errors = p.shared.counters Counter.read_errors;
  write_errors = p.shared.counters Counter.write_errors;
  worker_errors = p.shared.counters Counter.worker_errors;
}

-- `HttpServer::stats`.
unfoldable pub server_stats : HttpServer → HttpServerStats
server_stats s = record {
  accepted_connections = s.accepted_connections;
  workers = pool_stats s.pool;
}

-- The names and values that are printed, in their order.
abbrev pub figures : HttpServerStats → ℕ → List (Bytes × ℕ)
figures stats uptime =
    (codes "uptime_ms", uptime)
    ∷ (codes "accepted_connections", stats.accepted_connections)
    ∷ (codes "dispatched_connections", stats.workers.dispatched_connections)
    ∷ (codes "rejected_dispatches", stats.workers.rejected_dispatches)
    ∷ (codes "active_connections", stats.workers.active_connections)
    ∷ (codes "queued_connections", stats.workers.queued_connections)
    ∷ (codes "queue_high_water", stats.workers.queue_high_water)
    ∷ (codes "completed_connections", stats.workers.completed_connections)
    ∷ (codes "requests_served", stats.workers.requests_served)
    ∷ (codes "bytes_read", stats.workers.bytes_read)
    ∷ (codes "bytes_written", stats.workers.bytes_written)
    ∷ (codes "peer_closes", stats.workers.peer_closes)
    ∷ (codes "explicit_closes", stats.workers.explicit_closes)
    ∷ (codes "request_limit_closes", stats.workers.request_limit_closes)
    ∷ (codes "parse_errors", stats.workers.parse_errors)
    ∷ (codes "read_timeouts", stats.workers.read_timeouts)
    ∷ (codes "keep_alive_timeouts", stats.workers.keep_alive_timeouts)
    ∷ (codes "write_timeouts", stats.workers.write_timeouts)
    ∷ (codes "read_errors", stats.workers.read_errors)
    ∷ (codes "write_errors", stats.workers.write_errors)
    ∷ (codes "worker_errors", stats.workers.worker_errors)
    ∷ []

-- `,"name":` in front of a value.
abbrev pub label : Bytes → Bytes
label name = codes ",\"" ++ (name ++ codes "\":")

abbrev pub print_figures : List (Bytes × ℕ) → Bytes
print_figures [] = codes "}"
print_figures ((name, value) ∷ more) = label name ++ (decimal value ++ print_figures more)

-- The uptime is in milliseconds, and not negative.
unfoldable pub format_shutdown_metrics : HttpServerStats → ℕ → Bytes
format_shutdown_metrics stats uptime =
    codes "{\"event\":\"server_shutdown\"" ++ print_figures (figures stats uptime)
