-- ===== src/Listener.antt =====
-- src/tcp_listener.cpp and include/http/tcp_listener.hpp, and the pipe of src/server.cpp: how the
-- descriptors of a server are made, and closed again where a call fails. The answers of the system
-- are arguments; the closed descriptors stand in a log as in Descriptor.
pub mod Leaks
use http_server.Prelude.{
  ℕ, Bool, true, false, ◌&&◌, List, [], ◌∷◌, Option, none, some, ◌⊎◌, inl, inr, Bytes,
  if◌then◌else◌, pos,
}
use http_server.Connection.{Outcome, done, failed, eintr, eagain, other, Errno}
use http_server.Descriptor.{Fd, no_fd, valid, closed_by_reset}

pub data SetupError : Type 0 where
  socket_failed reuse_failed bind_failed listen_failed getsockname_failed : SetupError
  invalid_address : Bytes → SetupError
  pipe_failed cloexec_failed nonblock_failed : SetupError

-- What `socket`, `setsockopt`, `inet_pton`, `bind`, `listen` and `getsockname` answer: the number that
-- `socket` returns, whether a call succeeds, the port.
pub record SocketCalls : Type 0 where
  pub opened : Fd
  pub reusable : Bool
  pub parsed : Bool
  pub bound : Bool
  pub listening : Bool
  pub own_port : Option ℕ

pub record TcpListener : Type 0 where
  pub fd : Fd
  pub port : ℕ

-- A throw destroys the local `Fd`.
abbrev pub give_up : SetupError → Fd → List ℕ → (SetupError ⊎ TcpListener) × List ℕ
unfolding closed_by_reset
give_up why listener closed = (inl why, closed_by_reset listener no_fd closed)

-- The moved-from `Fd` holds nothing when it is destroyed.
abbrev pub bound_listener : Fd → Option ℕ → List ℕ → (SetupError ⊎ TcpListener) × List ℕ
unfolding closed_by_reset
bound_listener listener none closed = give_up getsockname_failed listener closed
bound_listener listener (some port) closed =
    (inr (record { fd = listener; port = port }), closed_by_reset no_fd no_fd closed)

unfoldable pub bind_ipv4 : Bytes → SocketCalls → List ℕ → (SetupError ⊎ TcpListener) × List ℕ
unfolding closed_by_reset
bind_ipv4 address calls closed =
    let listener = calls.opened in
    if valid listener
    then (if calls.reusable
        then (if calls.parsed
            then (if calls.bound
                then (if calls.listening
                    then bound_listener listener calls.own_port closed
                    else give_up listen_failed listener closed)
                else give_up bind_failed listener closed)
            else give_up (invalid_address address) listener closed)
        else give_up reuse_failed listener closed)
    else give_up socket_failed listener closed

-- `accept` over the answers of the system: it tries again after EINTR; `none` while it goes on.
unfoldable pub accept : List (Outcome Fd) → Option (Errno ⊎ Fd)
accept [] = none
accept (done client ∷ answers) = some (inr client)
accept (failed eintr ∷ answers) = accept answers
accept (failed eagain ∷ answers) = some (inl eagain)
accept (failed other ∷ answers) = some (inl other)

-- What `pipe` and the calls of `fcntl` answer.
pub record PipeCalls : Type 0 where
  pub made : Option (ℕ × ℕ)
  pub read_cloexec : Bool
  pub write_cloexec : Bool
  pub flags_read : Bool
  pub flags_set : Bool

pub record ShutdownPipe : Type 0 where
  pub read_end : Fd
  pub write_end : Fd

-- A throw destroys the array of both ends, the last first.
abbrev pub drop_pipe : SetupError → ℕ → ℕ → List ℕ → (SetupError ⊎ ShutdownPipe) × List ℕ
unfolding closed_by_reset
drop_pipe why r w closed =
    (inl why, closed_by_reset (pos r) no_fd (closed_by_reset (pos w) no_fd closed))

abbrev pub piped : PipeCalls → Option (ℕ × ℕ) → List ℕ → (SetupError ⊎ ShutdownPipe) × List ℕ
unfolding closed_by_reset
piped calls none closed = (inl pipe_failed, closed)
piped calls (some (r, w)) closed =
    if calls.read_cloexec && calls.write_cloexec
    then (if calls.flags_read && calls.flags_set
        then (inr (record { read_end = pos r; write_end = pos w }), closed)
        else drop_pipe nonblock_failed r w closed)
    else drop_pipe cloexec_failed r w closed

unfoldable pub make_shutdown_pipe : PipeCalls → List ℕ → (SetupError ⊎ ShutdownPipe) × List ℕ
unfolding closed_by_reset
make_shutdown_pipe calls closed = piped calls calls.made closed
