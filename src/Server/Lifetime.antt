-- ===== src/Server/Lifetime.antt =====
-- No descriptor leaks where the constructor of src/server.cpp fails, and a server that was made closes
-- its descriptors once when it is destroyed.
use http_server.Prelude.{
  ℕ, ◌≡◌, ◌≤◌, length, All, Bool-cases, ◌∙◌, refl, sym, ap, subst, Bool, true, false, List, ◌∷◌,
  Option, none, some, ◌⊎◌, inl, inr, pos, negsuc, same_int,
}
use http_server.Descriptor.{Fd, no_fd, valid, closed_by_reset}
use http_server.BoundedQueue.{close_locked}
use http_server.Listener.{SetupError, TcpListener, bind_ipv4, ShutdownPipe, make_shutdown_pipe}
use http_server.Listener.Leaks.{
  LeavesSocket, LeavesPipe, bind_ipv4-LeavesSocket, make_shutdown_pipe-LeavesPipe,
}
use http_server.StaticFiles.{FileSystem}
use http_server.StaticFiles.Serve.{StaticFileHandler}
use http_server.StaticFiles.Serve
use http_server.WorkerPool.{WorkerPool, create, request_shutdown}
use http_server.WorkerPool.Startup.{
  Construction, ready, invalid_argument, abandoned, construct, construct-abandoned, construct-ready,
}
use http_server.Server.Lifecycle.{
  Setup, Arguments, Members, ConstructionError, no_document_root, setup_failed, no_workers,
  no_thread, Failure, with_pipe, with_pool, with_listener, with_handler, make_server, drop_members,
  drop_listener, default_max_file_bytes, destroying, joined_by,
}
use http_server.Connection.{ConnectionConfig, Site}
use http_server.Server.{HttpServer}
use http_server.WorkerPool.Loop.{Service, service_ending}
use http_server.WorkerPool.Drained.{IsFinished}
use http_server.WorkerPool.Termination.{Move, all_go, ends, goes_at, steps_left, shutdown-ends}

-- The pool that is joined has its queue closed.
abbrev IsShut : Option WorkerPool → Type 0
IsShut none = Unit
IsShut (some pool) = pool.shared.queue.closed ≡ true

module _ (setup : Setup) (args : Arguments) (closed : List ℕ) where
  abbrev ClosesSocket : List ℕ → Type 0
  ClosesSocket closed' =
      (listener : ℕ) × (setup.sockets.opened ≡ pos listener) × (closed' ≡ listener ∷ closed)

  -- What the pipe leaves behind where it fails.
  abbrev ClosesAll : List ℕ → Type 0
  ClosesAll closed' =
      (listener : ℕ) × (r : ℕ) × (w : ℕ) × (setup.sockets.opened ≡ pos listener)
      × (setup.pipe.made ≡ some (r, w))
      × (closed' ≡ listener ∷ r ∷ w ∷ closed)

  -- By the error, and whether there was a pool: what had been opened has been closed.
  abbrev pub Undone : ConstructionError → Option WorkerPool → List ℕ → Type 0
  Undone no_document_root joined closed' = closed' ≡ closed
  Undone no_workers joined closed' = ClosesSocket closed'
  Undone no_thread joined closed' = ClosesSocket closed'
  Undone (setup_failed why) none closed' =
      ClosesSocket closed' ⊎ ((valid setup.sockets.opened ≡ false) × (closed' ≡ closed))
  Undone (setup_failed why) (some pool) closed' =
      ClosesAll closed' ⊎ ((setup.pipe.made ≡ none) × ClosesSocket closed')

  -- What the constructor leaves: a server with nothing closed and all workers of its pool, whose end
  -- closes the socket and both ends of the pipe once each; or a failure.
  abbrev pub LeavesServer : (Failure ⊎ Members) × List ℕ → Type 0
  LeavesServer (inr members, closed') =
      (closed' ≡ closed)
      × ClosesAll (drop_members members closed')
      × (create args.worker_count args.queue_capacity args.connection_config
          ≡ some members.worker_pool)
  LeavesServer (inl failure, closed') =
      Undone failure.error failure.joined closed' × IsShut failure.joined

  opened_number :
      (opened : Fd)
      → setup.sockets.opened ≡ opened
      → valid opened ≡ true
      → (n : ℕ) × (setup.sockets.opened ≡ pos n)
  opened_number (pos n) e v = (n, e)
  opened_number (negsuc n) e v = cc

  module _ (listener : TcpListener) (n : ℕ) (same : listener.fd ≡ setup.sockets.opened)
      (opened : setup.sockets.opened ≡ pos n) where
    drop_pos : (closed' : List ℕ) → drop_listener listener closed' ≡ n ∷ closed'
    unfolding closed_by_reset same_int
    drop_pos closed' = rw (same ∙ opened) refl

    piped-LeavesServer :
        (handler : StaticFileHandler) (pool : WorkerPool) (r : (SetupError ⊎ ShutdownPipe) × List ℕ)
        → create args.worker_count args.queue_capacity args.connection_config ≡ some pool
        → LeavesPipe setup.pipe closed r
        → LeavesServer (with_pipe handler listener pool r)
    unfolding drop_members closed_by_reset same_int request_shutdown close_locked
    piped-LeavesServer handler pool (inl why, closed') all (inl (r, w, made, e)) =
        (inl (n, r, w, opened, made, drop_pos closed' ∙ ap (◌∷◌ n) e), refl)
    piped-LeavesServer handler pool (inl why, closed') all (inr (unmade, e)) =
        (inr (unmade, (n, opened, drop_pos closed' ∙ ap (◌∷◌ n) e)), refl)
    piped-LeavesServer handler pool (inr ends, closed') all ((r, w, made, at_read, at_write), e) =
        let rest = closed_by_reset ends.write_end no_fd closed' in
        let both = drop_pos (closed_by_reset ends.read_end no_fd rest) in
        (e, (n, r, w, opened, made, both ∙ rw (at_read, at_write, e) refl), all)

    pooled-LeavesServer :
        (handler : StaticFileHandler) (c : Construction)
        → construct setup.starts args.worker_count args.queue_capacity args.connection_config ≡ c
        → LeavesServer (with_pool handler listener setup.pipe c closed)
    unfolding request_shutdown close_locked
    pooled-LeavesServer handler invalid_argument e = ((n, opened, drop_pos closed), tt)
    pooled-LeavesServer handler (abandoned pool) e =
        let (k, few, made) =
          construct-abandoned setup.starts args.worker_count args.queue_capacity
            args.connection_config pool e in
        ((n, opened, drop_pos closed), sym (ap (λ (p : WorkerPool). p.shared.queue.closed) made))
    pooled-LeavesServer handler (ready pool) e =
        piped-LeavesServer handler pool (make_shutdown_pipe setup.pipe closed)
          (construct-ready setup.starts args.worker_count args.queue_capacity args.connection_config
            pool e)
          (make_shutdown_pipe-LeavesPipe setup.pipe closed)

  listening-LeavesServer :
      (handler : StaticFileHandler) (r : (SetupError ⊎ TcpListener) × List ℕ)
      → LeavesSocket setup.sockets closed r
      → LeavesServer (with_listener setup args handler r)
  listening-LeavesServer handler (inl why, closed') (inl h) = (inl h, tt)
  listening-LeavesServer handler (inl why, closed') (inr h) = (inr h, tt)
  listening-LeavesServer handler (inr listener, closed') (same, v, own_port, e) =
      let (n, opened) = opened_number setup.sockets.opened refl v in
      let pool =
        construct setup.starts args.worker_count args.queue_capacity args.connection_config in
      subst (λ (l : List ℕ). LeavesServer (with_pool handler listener setup.pipe pool l)) (sym e)
        (pooled-LeavesServer listener n same opened handler pool refl)

  handled-LeavesServer :
      (handler : Option StaticFileHandler) → LeavesServer (with_handler setup args handler closed)
  handled-LeavesServer none = (refl, tt)
  handled-LeavesServer (some handler) =
      listening-LeavesServer handler (bind_ipv4 args.address setup.sockets closed)
        (bind_ipv4-LeavesSocket args.address setup.sockets closed)

-- The constructor of a server leaves a server with nothing closed and every worker of its pool
-- started, whose end then closes the socket and both ends of the pipe, once each; or it fails, and
-- what had been opened has been closed once: nothing where the root or the socket failed, the socket,
-- and both ends of the pipe where these were made; and a pool that it joins has its queue closed.
pub make_server-LeavesServer :
    (fs : FileSystem) (setup : Setup) (args : Arguments) (closed : List ℕ)
    → LeavesServer setup args closed (make_server fs setup args closed)
unfolding make_server
make_server-LeavesServer fs setup args closed =
    handled-LeavesServer setup args closed
      (Serve.create fs args.document_root default_max_file_bytes)

destroying-closed :
    (written : Bool) (s : HttpServer)
    → ((destroying written s).pool.shared.queue.closed ≡ true)
      × ((destroying written s).pool.config ≡ s.pool.config)
unfolding destroying request_shutdown close_locked
destroying-closed written s = elim (Bool-cases s.shutdown_requested) [
  | inl set ↦ rw set (refl, refl)
  | inr unset ↦ rw unset (refl, refl)
]

-- The destructor of a server ends: behind its request, a run of the workers in which every step takes
-- its worker on has no more steps than steps_left counts; and where it stops because no worker can go
-- on, although every service ends, all workers have ended.
pub destroying-ends :
    (site : Site) (written : Bool) (s : HttpServer) (ms : List Move) (service : Service)
    → all_go site ms (destroying written s).pool ≡ true
    → ((client : Fd) → ends (service_ending site s.pool.config service client) ≡ true)
    → ((i : ℕ)
        → goes_at site
            (destroying written s).pool.config
            service
            i
            (joined_by site ms (destroying written s)).pool.workers
            (joined_by site ms (destroying written s)).pool.shared
          ≡ false)
    → (length ms
        ≤ steps_left (destroying written s).pool.workers (destroying written s).pool.shared)
      × All IsFinished (joined_by site ms (destroying written s)).pool.workers
unfolding joined_by
destroying-ends site written s ms service going served still =
    let (over, same) = destroying-closed written s in
    shutdown-ends site ms (destroying written s).pool service over going
      (λ client.
        ap (λ (c : ConnectionConfig). ends (service_ending site c service client)) same
        ∙ served client)
      still
