-- ===== src/Tests/SetupRuns.antt =====
-- The theorems on descriptors, the listener, the metrics and the command line at fixed inputs.
use http_server.Prelude.{◌<◌, ◌≤◌, ◌≡◌, ◌⊎◌, inr, refl, List, [], ◌∷◌, some, codes, pos, same_int}
use http_server.Descriptor.{
  Use, construct, move_construct, move_assign, destroy, closed_by_reset, reset_at, assign_from,
  use_fd, use_all,
}
use http_server.Descriptor.Ownership.{
  held, times_closed, all_handed, all_released, no_objects, use_all-closed_once,
}
use http_server.Metrics.{HttpServerStats, format_shutdown_metrics, server_stats}
use http_server.Metrics.Reading.{read_snapshot, read_snapshot-format_shutdown_metrics}
use http_server.Number.{scan_digits, from_chars}
use http_server.WorkerPool.{WorkerPool, create}
use http_server.WorkerPool.Fresh.{fresh}
use http_server.Server.{started}
use http_server.CommandLine.{Options, parse_port, read_options}
use http_server.CommandLine.Arguments.{read_options_bounds}
use http_server.Tests.Fixture.{demo_config}

-- A descriptor is moved twice, once onto an object that holds another, and its last owner ends.
abbrev some_uses : List Use
some_uses =
    construct (pos 5)
    ∷ construct (pos 6)
    ∷ move_assign 0 1
    ∷ move_construct 0
    ∷ move_assign 0 0
    ∷ destroy 0
    ∷ []

some_uses-handed : all_handed 5 some_uses no_objects ≡ 1
unfolding use_fd assign_from reset_at closed_by_reset same_int
some_uses-handed = refl

some_uses-released : all_released 5 some_uses no_objects ≡ 0
unfolding use_fd
some_uses-released = refl

use_all-closed_once_example :
    ((held 5 (use_all some_uses no_objects).objects ≡ 0)
      × (times_closed 5 (use_all some_uses no_objects).closed ≡ 1))
    ⊎ ((held 5 (use_all some_uses no_objects).objects ≡ 1)
        × (times_closed 5 (use_all some_uses no_objects).closed ≡ 0))
use_all-closed_once_example = use_all-closed_once 5 some_uses some_uses-handed some_uses-released

some_uses-closed : (use_all some_uses no_objects).closed ≡ 5 ∷ 6 ∷ []
unfolding use_all use_fd assign_from reset_at closed_by_reset same_int
some_uses-closed = refl

abbrev some_stats : HttpServerStats
some_stats = server_stats (started (fresh 2 2 demo_config))

read_snapshot-format_shutdown_metrics_example :
    read_snapshot (format_shutdown_metrics some_stats 1_234) ≡ some (some_stats, 1_234)
read_snapshot-format_shutdown_metrics_example =
    read_snapshot-format_shutdown_metrics some_stats 1_234

abbrev some_options : Options
some_options = record {
  port = 9000;
  document_root = codes "site";
  bind_address = codes "127.0.0.1";
  worker_count = 4;
  queue_capacity = 128;
}

some_options-read :
    read_options (codes "server" ∷ codes "9000" ∷ codes "site" ∷ []) ≡ inr some_options
unfolding read_options parse_port from_chars scan_digits
some_options-read = refl

read_options_bounds_example :
    (0 < some_options.port)
    × (some_options.port ≤ 65535)
    × ((pool : WorkerPool) × (create some_options.worker_count some_options.queue_capacity
            demo_config
          ≡ some pool))
read_options_bounds_example =
    read_options_bounds (codes "server" ∷ codes "9000" ∷ codes "site" ∷ []) some_options demo_config
      some_options-read
