-- ===== src/Server/Lifecycle.antt =====
-- The constructor and the destructor of `HttpServer` in src/server.cpp: the members are made in their
-- order, and where one fails, those made before it are destroyed. The closed descriptors stand in a
-- log as in Descriptor.
use http_server.Prelude.{
  ℕ, ◌*◌, Bool, true, List, Option, none, some, ◌⊎◌, inl, inr, Bytes, if◌then◌else◌,
}
use http_server.Connection.{ConnectionConfig, Site}
use http_server.Descriptor.{no_fd, closed_by_reset}
use http_server.Listener.{
  SetupError, SocketCalls, TcpListener, bind_ipv4, PipeCalls, ShutdownPipe, make_shutdown_pipe,
}
use http_server.StaticFiles.{FilePath, FileSystem}
use http_server.StaticFiles.Serve.{StaticFileHandler}
use http_server.StaticFiles.Serve
use http_server.WorkerPool.{WorkerPool}
use http_server.WorkerPool.Loop
use http_server.WorkerPool.Startup.{
  Construction, ready, invalid_argument, abandoned, construct, shut,
}
use http_server.WorkerPool.Termination.{Move, worker_steps}
use http_server.Server.{HttpServer, one_more_if}

-- What the system answers while the server is made: the calls for the listener, which threads start,
-- the calls for the pipe.
pub record Setup : Type 0 where
  pub sockets : SocketCalls
  pub starts : ℕ → Bool
  pub pipe : PipeCalls

pub record Arguments : Type 0 where
  pub document_root : FilePath
  pub address : Bytes
  pub worker_count : ℕ
  pub queue_capacity : ℕ
  pub connection_config : ConnectionConfig

-- The members of a server, in their order.
pub record Members : Type 0 where
  pub file_handler : StaticFileHandler
  pub listener : TcpListener
  pub worker_pool : WorkerPool
  pub shutdown_pipe : ShutdownPipe

pub data ConstructionError : Type 0 where
  no_document_root : ConstructionError
  setup_failed : SetupError → ConstructionError
  no_workers no_thread : ConstructionError

-- An error, and the pool whose workers are joined before it leaves the constructor.
pub record Failure : Type 0 where
  pub error : ConstructionError
  pub joined : Option WorkerPool

abbrev pub default_max_file_bytes : ℕ
default_max_file_bytes = 16 * 1024 * 1024

-- `~TcpListener`.
abbrev pub drop_listener : TcpListener → List ℕ → List ℕ
drop_listener listener closed = closed_by_reset listener.fd no_fd closed

-- Where the pipe fails, the pool shuts down, and the listener is destroyed behind it.
abbrev pub with_pipe :
    StaticFileHandler
    → TcpListener
    → WorkerPool
    → (SetupError ⊎ ShutdownPipe) × List ℕ
    → (Failure ⊎ Members) × List ℕ
with_pipe handler listener pool (inl why, closed) = (
  inl (record { error = setup_failed why; joined = some (shut pool) }),
  drop_listener listener closed,
)
with_pipe handler listener pool (inr ends, closed) = (
  inr (record {
    file_handler = handler;
    listener = listener;
    worker_pool = pool;
    shutdown_pipe = ends;
  }),
  closed,
)

abbrev pub with_pool :
    StaticFileHandler
    → TcpListener
    → PipeCalls
    → Construction
    → List ℕ
    → (Failure ⊎ Members) × List ℕ
with_pool handler listener calls invalid_argument closed =
    (inl (record { error = no_workers; joined = none }), drop_listener listener closed)
with_pool handler listener calls (abandoned pool) closed =
    (inl (record { error = no_thread; joined = some pool }), drop_listener listener closed)
with_pool handler listener calls (ready pool) closed =
    with_pipe handler listener pool (make_shutdown_pipe calls closed)

abbrev pub with_listener :
    Setup
    → Arguments
    → StaticFileHandler
    → (SetupError ⊎ TcpListener) × List ℕ
    → (Failure ⊎ Members) × List ℕ
with_listener setup args handler (inl why, closed) =
    (inl (record { error = setup_failed why; joined = none }), closed)
with_listener setup args handler (inr listener, closed) =
    with_pool handler listener setup.pipe
      (construct setup.starts args.worker_count args.queue_capacity args.connection_config) closed

abbrev pub with_handler :
    Setup → Arguments → Option StaticFileHandler → List ℕ → (Failure ⊎ Members) × List ℕ
with_handler setup args none closed =
    (inl (record { error = no_document_root; joined = none }), closed)
with_handler setup args (some handler) closed =
    with_listener setup args handler (bind_ipv4 args.address setup.sockets closed)

-- The constructor.
unfoldable pub make_server : FileSystem → Setup → Arguments → List ℕ → (Failure ⊎ Members) × List ℕ
make_server fs setup args closed =
    with_handler setup args (Serve.create fs args.document_root default_max_file_bytes) closed

-- The body of the destructor, up to the joins: `request_shutdown`, and `shutdown` of the pool.
unfoldable pub destroying : Bool → HttpServer → HttpServer
destroying written s =
    let requested = if s.shutdown_requested then s else record s {
      shutdown_requested = true;
      pool = shut s.pool;
      notifications = one_more_if written s.notifications;
    } in
    record requested { pool = shut requested.pool }

-- Its joins, while the workers take the given steps.
unfoldable pub joined_by : Site → List Move → HttpServer → HttpServer
joined_by site ms s = record s { pool = Loop.run site (worker_steps ms) s.pool }

-- The members behind it, in the opposite order: the pipe, its last end first, the pool, whose own
-- shutdown finds nothing to do, and the listener.
unfoldable pub drop_members : Members → List ℕ → List ℕ
unfolding closed_by_reset
drop_members m closed = drop_listener m.listener (
    closed_by_reset m.shutdown_pipe.read_end no_fd
      (closed_by_reset m.shutdown_pipe.write_end no_fd closed))
