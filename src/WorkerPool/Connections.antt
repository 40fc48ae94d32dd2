-- ===== src/WorkerPool/Connections.antt =====
-- The accounts of src/worker_pool.cpp that hold in every run of a pool: no connection is lost, every
-- ended connection has one reason, and the active ones are counted.
use http_server.Prelude.{
  ℕ, ◌*◌, ◌%◌, ◌≡◌, refl, List, [], ◌∷◌, arith, size_limit, length, length-append,
}
use http_server.Connection.{ConnectionEndReason, peer_closed, ConnectionResult}
use http_server.Descriptor.{Fd}
use http_server.WorkerPool.{
  Counter, dispatched_connections, active_connections, completed_connections, peer_closes,
  explicit_closes, request_limit_closes, parse_errors, read_timeouts, keep_alive_timeouts,
  write_timeouts, read_errors, write_errors, worker_errors, Worker, activating, serving, minus_one,
}
use http_server.WorkerPool.Loop.{Ending, returned, thrown, goes_on, after_service}
use http_server.WorkerPool.Accounts.{Account, IsKept, balance_by}

-- A connection between the queue and its end, and one that counts as active.
abbrev pub holding : Worker → ℕ
holding (activating client) = 1
holding (serving client) = 1
holding _ = 0

abbrev pub is_serving : Worker → ℕ
is_serving (serving client) = 1
is_serving _ = 0

abbrev pub reasons : List Counter
reasons =
    peer_closes ∷ explicit_closes ∷ request_limit_closes ∷ parse_errors ∷ read_timeouts
    ∷ keep_alive_timeouts ∷ write_timeouts ∷ read_errors ∷ write_errors ∷ []

-- What was dispatched, less what has ended, is held or waits.
abbrev pub connections : Account
connections = record {
  plus = dispatched_connections ∷ [];
  minus = completed_connections ∷ worker_errors ∷ [];
  held = λ w. minus_one * holding w;
  queued = λ items. minus_one * length items;
}

-- What has completed, less the reasons given.
abbrev pub reasoned : Account
reasoned = record {
  plus = completed_connections ∷ [];
  minus = reasons;
  held = λ w. 0;
  queued = λ items. 0;
}

-- What counts as active, less what is served.
abbrev pub active : Account
active = record {
  plus = active_connections ∷ [];
  minus = [];
  held = λ w. minus_one * is_serving w;
  queued = λ items. 0;
}

connections-ended :
    (client : Fd) (result : ConnectionResult) (why : ConnectionEndReason)
    → balance_by connections (after_service (returned (record result { reason = why })) client)
        % size_limit
      ≡ balance_by connections (serving client) % size_limit
connections-ended client result peer_closed = omega arith
connections-ended client result _ = omega arith

reasoned-ended :
    (client : Fd) (result : ConnectionResult) (why : ConnectionEndReason)
    → balance_by reasoned (after_service (returned (record result { reason = why })) client)
        % size_limit
      ≡ balance_by reasoned (serving client) % size_limit
reasoned-ended client result peer_closed = omega arith
reasoned-ended client result _ = omega arith

active-ended :
    (client : Fd) (result : ConnectionResult) (why : ConnectionEndReason)
    → balance_by active (after_service (returned (record result { reason = why })) client)
        % size_limit
      ≡ balance_by active (serving client) % size_limit
active-ended client result peer_closed = omega arith
active-ended client result _ = omega arith

-- An account keeps what an ended service owes if it does for every reason and for an exception.
ended_for :
    (a : Account) (client : Fd)
    → ((result : ConnectionResult) (why : ConnectionEndReason)
        → balance_by a (after_service (returned (record result { reason = why })) client)
            % size_limit
          ≡ balance_by a (serving client) % size_limit)
    → balance_by a (after_service thrown client) % size_limit
      ≡ balance_by a (serving client) % size_limit
    → (e : Ending)
    → balance_by a (after_service e client) % size_limit
      ≡ balance_by a (serving client) % size_limit
ended_for a client each failed (returned result) = each result result.reason
ended_for a client each failed thrown = failed
ended_for a client each failed goes_on = refl

pub connections-IsKept : IsKept connections
connections-IsKept = record {
  worked = record {
    taken_off = λ client items. omega arith;
    stopped = refl;
    activated = λ client. refl;
    ended = λ e client. ended_for connections client (connections-ended client) refl e;
    settled = λ more. refl;
  };
  put_on = λ client items. omega (arith, length-append items (client ∷ []));
  turned_away = refl;
}

pub reasoned-IsKept : IsKept reasoned
reasoned-IsKept = record {
  worked = record {
    taken_off = λ client items. refl;
    stopped = refl;
    activated = λ client. refl;
    ended = λ e client. ended_for reasoned client (reasoned-ended client) refl e;
    settled = λ more. refl;
  };
  put_on = λ client items. refl;
  turned_away = refl;
}

pub active-IsKept : IsKept active
active-IsKept = record {
  worked = record {
    taken_off = λ client items. refl;
    stopped = refl;
    activated = λ client. omega arith;
    ended = λ e client. ended_for active client (active-ended client) refl e;
    settled = λ more. refl;
  };
  put_on = λ client items. refl;
  turned_away = refl;
}
