-- ===== src/Connection/Deadlines.antt =====
-- Deadlines of src/connection.cpp: what the socket is armed with, and that a read in the middle of a
-- request does not move the read deadline.
use http_server.Prelude.{
  ℕ, ◌+◌, ◌-◌, ◌*◌, ◌/◌, ◌%◌, ◌≤◌, ◌<◌, ◌≡◌, arith, leb, ◌==◌, if◌then◌else◌, none, some, ◌⊎◌, inl,
  inr, Bool-cases,
}
use http_server.Connection.{
  in_request, Connection, Site, finish, queue_response, Timeval, socket_timeout,
}
use http_server.Connection.Turns.{Turn, read_timed_out, take_bytes, read_from_socket}

-- The timeout that the socket gets, in microseconds.
abbrev pub microseconds : Timeval → ℕ
microseconds v = v.tv_sec * 1_000_000 + v.tv_usec

-- Before the deadline the socket is armed with a timeout that is never zero (which would mean to wait
-- for ever), is normalised, and is what remains, to the microsecond; at the deadline it is not armed.
pub socket_timeout_lem :
    (deadline now : ℕ)
    → ((deadline ≤ now) × (socket_timeout deadline now ≡ none))
      ⊎ ((v : Timeval) × (socket_timeout deadline now ≡ some v)
          × (now < deadline)
          × (0 < microseconds v)
          × (v.tv_usec < 1_000_000)
          × ((microseconds v ≡ 1) ⊎ (microseconds v * 1000 ≤ deadline - now))
          × (deadline - now < (microseconds v + 1) * 1000))
unfolding socket_timeout
socket_timeout_lem deadline now = elim (Bool-cases (leb deadline now)) [
  | inl over ↦ inl (ground arith, rw over)
  | inr left ↦
      let t = if (deadline - now) / 1000 == 0 then 1 else (deadline - now) / 1000 in
      let size : t / 1_000_000 * 1_000_000 + t % 1_000_000 ≡ t = omega arith in
      inr (
        record { tv_sec = t / 1_000_000; tv_usec = t % 1_000_000 },
        rw left,
        ground arith,
        ground (arith, size),
        omega arith,
        ground (arith, size),
        ground (arith, size),
      )
]

-- Bytes of an unfinished request do not move its deadline.
pub read_from_socket-deadline :
    (site : Site) (t : Turn) (c : Connection)
    → c.read_phase ≡ in_request
    → (read_from_socket site t c).read_deadline ≡ c.read_deadline
unfolding read_from_socket read_timed_out take_bytes finish queue_response
read_from_socket-deadline site t c e = ground arith
