-- ===== src/Tests/LifeRuns.antt =====
-- The construction of a server at fixed answers of the system.
use http_server.Prelude.{
  ◌≡◌, refl, Bool, true, false, [], ◌∷◌, some, codes, pos, same_int, ltb, inl, ℕ,
}
use http_server.Descriptor.{closed_by_reset}
use http_server.BoundedQueue
use http_server.BoundedQueue.{close_locked}
use http_server.WorkerPool.{request_shutdown}
use http_server.WorkerPool.Startup.{start_workers, construct, shut, idle_pool, empty_queue}
use http_server.Listener.{SocketCalls, PipeCalls, bind_ipv4, make_shutdown_pipe, nonblock_failed}
use http_server.StaticFiles.Serve
use http_server.Server.Lifecycle.{Setup, Arguments, no_thread, setup_failed, make_server}
use http_server.Server.Lifetime.{LeavesServer, make_server-LeavesServer}
use http_server.Tests.Fixture.{demo_fs, demo_config}

abbrev sockets : SocketCalls
sockets = record {
  opened = pos 3;
  reusable = true;
  parsed = true;
  bound = true;
  listening = true;
  own_port = some 8080;
}

-- The last call for the pipe fails.
abbrev half_made : PipeCalls
half_made = record {
  made = some (4, 5);
  read_cloexec = true;
  write_cloexec = true;
  flags_read = true;
  flags_set = false;
}

abbrev setup_with : (ℕ → Bool) → PipeCalls → Setup
setup_with starts pipe = record { sockets = sockets; starts = starts; pipe = pipe }

abbrev arguments : Arguments
arguments = record {
  document_root = codes "/srv" ∷ [];
  address = codes "127.0.0.1";
  worker_count = 4;
  queue_capacity = 8;
  connection_config = demo_config;
}

make_server-LeavesServer_example :
    LeavesServer
      (setup_with (λ i. true) half_made)
      arguments
      []
      (make_server demo_fs (setup_with (λ i. true) half_made) arguments [])
make_server-LeavesServer_example =
    make_server-LeavesServer demo_fs (setup_with (λ i. true) half_made) arguments []

-- The pool is shut behind a pipe that fails, and the descriptors are closed.
half_made-fails : make_server demo_fs (setup_with (λ i. true) half_made) arguments [] ≡ (
  inl (record {
    error = setup_failed nonblock_failed;
    joined = some (shut (idle_pool demo_config (empty_queue 8) 4));
  }),
  3 ∷ 4 ∷ 5 ∷ [],
)
unfolding make_server Serve.create bind_ipv4 make_shutdown_pipe construct start_workers
    BoundedQueue.create closed_by_reset same_int request_shutdown close_locked
half_made-fails = refl

-- The third thread does not start: two are joined.
two_threads-fails : make_server demo_fs (setup_with (λ i. ltb i 2) half_made) arguments [] ≡ (
  inl (record {
    error = no_thread;
    joined = some (shut (idle_pool demo_config (empty_queue 8) 2));
  }),
  3 ∷ [],
)
unfolding make_server Serve.create bind_ipv4 construct start_workers BoundedQueue.create
    closed_by_reset same_int request_shutdown close_locked
two_threads-fails = refl
