-- ===== src/Lib.antt =====
-- A model of the concurrent HTTP server of this repository (src/*.cpp, include/http/*.hpp) and
-- theorems about it.
--
-- A connection (src/connection.cpp) reads bytes from its socket into the parser (src/parser.cpp),
-- takes complete requests from it, passes them to the router (src/router.cpp), which asks the
-- static file handler (src/static_file_handler.cpp), serializes the response (src/response.cpp)
-- and writes it back, and goes on to the next request while it is kept alive. Function and type
-- names are those of the source in snake_case; a handler with early returns is cut into functions
-- at its tests.
--
-- - Prelude: shared names; lists and byte strings over native numbers, find of a byte and of a
--   text.
-- - Text: to_lower_ascii, trim_ows, is_tchar, is_token of src/parser.cpp; Text/Trim and
--   Text/Tokens have their laws.
-- - Number: std::from_chars for unsigned numbers, and decimal output.
-- - Request: include/http/request.hpp; a header map is an association list.
-- - Parser: HttpParser. Parser/Outcome has the error messages, Parser/RequestLine and
--   Parser/HeaderLine the lines, Parser/Head the header loop and the framing rules; Parser/Stream
--   and Parser/Stream/Fragments have the theorems on the buffer, Parser/HeaderLines,
--   Parser/Headers, Parser/Declared and Parser/Acceptance those on what is accepted.
-- - Response: HttpResponse and serialize_response. The order in which std::unordered_map is walked
--   is the parameter order.
-- - StaticFiles: decoding, paths, read_file; StaticFiles/Serve has serve_file and handle. The
--   calls of std::filesystem and std::ifstream are the fields of the parameter FileSystem; a path
--   is its list of components.
-- - Router: route_request; Router/Head compares HEAD with GET.
-- - Connection: the state and its updates; Connection/KeepAlive has the keep-alive test,
--   Connection/Turns the handlers and serve. Each round of the loop in serve takes a Turn: the
--   clock readings (nanoseconds) and the results of setsockopt, read and send, for any of which
--   errno may be EINTR, EAGAIN or another. A handler returns the new connection and the bytes that
--   the socket took.
-- - BoundedQueue: the queue and its critical sections. BoundedQueue/Monitor steps the threads that
--   call it: each sleeps, is woken, or owes a notification; spurious wake-ups are steps.
--   BoundedQueue/Contract is what the queue promises; BoundedQueue/Refinement, BoundedQueue/Order,
--   BoundedQueue/Answered, BoundedQueue/WakeUps and BoundedQueue/Quiet have the theorems.
-- - WorkerPool: the counters, dispatch, request_shutdown and record_result; WorkerPool/Loop has
--   worker_loop and the steps of the threads. A counter is changed by one addition at a time, and
--   what a thread has still to add stands in its state. WorkerPool/Accounts has sums over
--   counters, threads and queue that every step keeps; WorkerPool/Counts, WorkerPool/Drain and
--   WorkerPool/Termination have the theorems, WorkerPool/Drained and WorkerPool/Frame their
--   lemmas.
-- - Server: serve_forever with serve_one, and request_shutdown from any thread, as steps over the
--   pool; the queue of the pool is taken at its critical sections, and a call that has to wait
--   makes no step. Server/Flag and Server/Stopped have the theorems, Server/Flagged,
--   Server/Accepted and Server/Steps their lemmas.
-- - Descriptor: Fd objects and the calls of close. Listener: bind_ipv4, accept and the shutdown
--   pipe over the answers of the system.
-- - Metrics: the snapshots and format_shutdown_metrics; Metrics/Reading has a reader of the line.
--   CommandLine: src/main.cpp; Number/Value says what from_chars accepts.
-- - Server/Lifecycle: the constructor of HttpServer, which makes its members in their order and
--   destroys those made before one that fails, and the destructor; WorkerPool/Startup: the
--   constructor of the pool where a thread may not start. Server/Lifetime and WorkerPool/Joining
--   have the theorems.
-- - Legacy: legacy/myhttpd.cc, the course project that this server replaced. Legacy/Sending has
--   sendAll over what each call of write answers, Legacy/Target the words of the request line, the
--   query and the links, Legacy/Listing the entries of a directory and their page, Legacy/Replies
--   the pages of handleStats and handleLogs and what handleCGI hands to a script, Legacy/Client
--   handleClient, Legacy/Launch the arguments and the loops of modes i and f. A visit is what one
--   client and its socket do, a host what the files, the script and the C library do; a call of
--   back on an empty string, which is undefined, ends a request with no result. Legacy/Order,
--   Legacy/Access, Legacy/Endings, Legacy/Summary and Legacy/Links have the theorems,
--   Legacy/Observed has lemmas.
-- - Tests: runs at fixed inputs, and an instance of each theorem that has hypotheses.
--
-- Bounds and fuel. Bytes are numbers; std::size_t counters wrap at 2^64, and so does the
-- subtraction in read_file; lengths of buffers are taken to be below 2^64. A run of the queue is a
-- list of steps; its threads are counted, and its counts do not wrap. The header loop takes the
-- length of the block as fuel and the token loop of the Connection header the length of its value:
-- each round consumes a byte at least. write_digits takes n + 1 rounds for n, which has no more
-- digits than that. serve runs over the list of turns that it is given. sendAll takes the length
-- of its buffer as fuel: a round that goes on takes a byte at least. The service times of the
-- legacy server are counted in ticks of clock, its total is taken not to overflow, and its numbers
-- on the command line to fit an int. The sizes and modification times of its directory entries,
-- and the timeouts of a ConnectionConfig, which the source keeps in signed types, are taken not to
-- be negative.
--
-- Not modelled: socket options other than the timeouts; the modes t and p of legacy/myhttpd.cc,
-- whose threads share the statistics and the address of a client without a lock; fork, pipe and
-- execv in its handleCGI, of which the arguments and the output stand for the whole; the CGI
-- programs, the example and the assets beside it, which are third-party.
pub mod Prelude
pub mod Text
pub mod Number
pub mod Request
pub mod Parser
pub mod Response
pub mod StaticFiles
pub mod Router
pub mod Connection
pub mod BoundedQueue
pub mod Descriptor
pub mod WorkerPool
pub mod CommandLine
pub mod Server
pub mod Metrics
pub mod Listener
pub mod Legacy
pub mod Tests
