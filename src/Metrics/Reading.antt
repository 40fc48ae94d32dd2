-- ===== src/Metrics/Reading.antt =====
-- The line that src/metrics.cpp prints can be read back.
use mathlib.Core.Option
use http_server.Prelude.{
  ℕ, zero, suc, ◌+◌, ◌≡◌, ◌∙◌, ◌/◌, ◌%◌, refl, ap, List, [], ◌∷◌, ◌++◌, Option, none, some, Bytes,
  codes, ◌==◌, ltb, if◌then◌else◌, arith, Bool-cases, inl, inr, eq_self,
}
use http_server.Number.{scan_digits, write_digits, decimal, scan_digits-write_digits}
use http_server.Metrics.{HttpServerStats, figures, print_figures, format_shutdown_metrics}

-- What stands behind a text that has to come first.
unfoldable pub behind_text : Bytes → Bytes → Option Bytes
behind_text [] s = some s
behind_text (c ∷ text) [] = none
behind_text (c ∷ text) (x ∷ s) = if x == c then behind_text text s else none

abbrev add_figure : ℕ → Option (List ℕ) → Option (List ℕ)
add_figure n more = Option.map (λ ns. n ∷ ns) more

abbrev at_end : Option Bytes → Option (List ℕ)
at_end (some []) = some []
at_end _ = none

abbrev and_then : Option Bytes → (Bytes → Option (List ℕ)) → Option (List ℕ)
and_then none next = none
and_then (some rest) next = next rest

-- What a reader looks for in front of a value: a comma, the name in quotes, a colon.
abbrev key : Bytes → Bytes
key name = b',' ∷ b'"' ∷ (name ++ b'"' ∷ b':' ∷ [])

-- Each name in its order with its number, and the brace at the end.
unfoldable pub read_figures : List Bytes → Bytes → Option (List ℕ)
read_figures [] s = at_end (behind_text (codes "}") s)
read_figures (name ∷ names) s =
    and_then (behind_text (key name) s)
      (λ rest. add_figure (scan_digits rest 0).0 (read_figures names (scan_digits rest 0).1))

-- The names that a reader of the line expects, in their order.
abbrev pub metric_names : List Bytes
metric_names =
    codes "uptime_ms"
    ∷ codes "accepted_connections"
    ∷ codes "dispatched_connections"
    ∷ codes "rejected_dispatches"
    ∷ codes "active_connections"
    ∷ codes "queued_connections"
    ∷ codes "queue_high_water"
    ∷ codes "completed_connections"
    ∷ codes "requests_served"
    ∷ codes "bytes_read"
    ∷ codes "bytes_written"
    ∷ codes "peer_closes"
    ∷ codes "explicit_closes"
    ∷ codes "request_limit_closes"
    ∷ codes "parse_errors"
    ∷ codes "read_timeouts"
    ∷ codes "keep_alive_timeouts"
    ∷ codes "write_timeouts"
    ∷ codes "read_errors"
    ∷ codes "write_errors"
    ∷ codes "worker_errors"
    ∷ []

-- The snapshot and the uptime of as many numbers, each taken by its place.
abbrev pub snapshot_of : List ℕ → Option (HttpServerStats × ℕ)
snapshot_of
      (uptime ∷ accepted_connections ∷ dispatched_connections ∷ rejected_dispatches
        ∷ active_connections ∷ queued_connections ∷ queue_high_water ∷ completed_connections
        ∷ requests_served ∷ bytes_read ∷ bytes_written ∷ peer_closes ∷ explicit_closes
        ∷ request_limit_closes ∷ parse_errors ∷ read_timeouts ∷ keep_alive_timeouts ∷ write_timeouts
        ∷ read_errors ∷ write_errors ∷ worker_errors ∷ []) =
    some (
      record {
        accepted_connections = accepted_connections;
        workers = record {
          dispatched_connections = dispatched_connections;
          rejected_dispatches = rejected_dispatches;
          active_connections = active_connections;
          queued_connections = queued_connections;
          queue_high_water = queue_high_water;
          completed_connections = completed_connections;
          requests_served = requests_served;
          bytes_read = bytes_read;
          bytes_written = bytes_written;
          peer_closes = peer_closes;
          explicit_closes = explicit_closes;
          request_limit_closes = request_limit_closes;
          parse_errors = parse_errors;
          read_timeouts = read_timeouts;
          keep_alive_timeouts = keep_alive_timeouts;
          write_timeouts = write_timeouts;
          read_errors = read_errors;
          write_errors = write_errors;
          worker_errors = worker_errors;
        };
      },
      uptime,
    )
snapshot_of _ = none

abbrev rebuilt : Option (List ℕ) → Option (HttpServerStats × ℕ)
rebuilt none = none
rebuilt (some ns) = snapshot_of ns

-- A reader of the line, which knows the names and their order from nowhere but its own list.
unfoldable pub read_snapshot : Bytes → Option (HttpServerStats × ℕ)
read_snapshot s =
    rebuilt (
      and_then (behind_text (codes "{\"event\":\"server_shutdown\"") s) (read_figures metric_names))

abbrev names : List (Bytes × ℕ) → List Bytes
names [] = []
names ((name, value) ∷ more) = name ∷ names more

abbrev values : List (Bytes × ℕ) → List ℕ
values [] = []
values ((name, value) ∷ more) = value ∷ values more

behind_text-append : (text s : Bytes) → behind_text text (text ++ s) ≡ some s
unfolding behind_text
behind_text-append [] s = refl
behind_text-append (c ∷ text) s = rw (eq_self c) (behind_text-append text s)

write_digits-append :
    (fuel n : ℕ) (out s : Bytes) → write_digits fuel n out ++ s ≡ write_digits fuel n (out ++ s)
unfolding write_digits
write_digits-append zero n out s = refl
write_digits-append (suc fuel) n out s = elim (Bool-cases (ltb n 10)) [
  | inl small ↦ rw small refl
  | inr large ↦ rw large (write_digits-append fuel (n / 10) ((b'0' + n % 10) ∷ out) s)
]

scan_digits-decimal : (n : ℕ) (s : Bytes) → scan_digits (decimal n ++ s) 0 ≡ scan_digits s n
unfolding decimal
scan_digits-decimal n s =
    ap (λ t. scan_digits t 0) (write_digits-append (suc n) n [] s)
    ∙ scan_digits-write_digits (suc n) n s (omega arith)

scan_digits-print_figures :
    (more : List (Bytes × ℕ)) (n : ℕ) → scan_digits (print_figures more) n ≡ (n, print_figures more)
unfolding scan_digits
scan_digits-print_figures [] n = refl
scan_digits-print_figures ((name, value) ∷ more) n = refl

read_figures-print_figures :
    (fs : List (Bytes × ℕ)) → read_figures (names fs) (print_figures fs) ≡ some (values fs)
unfolding read_figures
read_figures-print_figures [] = unfold behind_text in refl
read_figures-print_figures ((name, value) ∷ more) =
    let number =
      scan_digits-decimal value (print_figures more) ∙ scan_digits-print_figures more value in
    let first = behind_text-append (key name) (decimal value ++ print_figures more) in
    ap
      (λ found. and_then found (λ rest.
        add_figure (scan_digits rest 0).0 (read_figures (names more) (scan_digits rest 0).1)))
      first
    ∙ ap (λ (r : ℕ × Bytes). add_figure r.0 (read_figures (names more) r.1)) number
    ∙ ap (add_figure value) (read_figures-print_figures more)

-- Every snapshot and uptime come back from the line that format_shutdown_metrics prints of them, for a
-- reader with a list of its own of the event, the names and their order, which takes the numbers by
-- their places.
pub read_snapshot-format_shutdown_metrics :
    (stats : HttpServerStats) (uptime : ℕ)
    → read_snapshot (format_shutdown_metrics stats uptime) ≡ some (stats, uptime)
unfolding read_snapshot format_shutdown_metrics
read_snapshot-format_shutdown_metrics stats uptime =
    ap (λ found. rebuilt (and_then found (read_figures metric_names)))
      (behind_text-append (codes "{\"event\":\"server_shutdown\"")
        (print_figures (figures stats uptime)))
    ∙ ap rebuilt (read_figures-print_figures (figures stats uptime))
