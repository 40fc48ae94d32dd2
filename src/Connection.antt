-- ===== src/Connection.antt =====
-- src/connection.cpp and include/http/connection.hpp: the state of one connection and the
-- operations that set it. Connection/KeepAlive has the test for keep-alive, Connection/Turns the three
-- handlers and `serve`. Clock readings are nanoseconds.
pub mod KeepAlive
pub mod Turns
pub mod Validity
pub mod Output
pub mod Deadlines
use http_server.Prelude.{
  ℕ, ◌+◌, ◌-◌, ◌*◌, ◌/◌, ◌%◌, Bool, true, false, not, ◌||◌, [], Option, none, some, Bytes, codes,
  leb, ◌==◌, if◌then◌else◌,
}
use http_server.Parser.{HttpParser, default_parser}
use http_server.Request.{Headers}
use http_server.Response.{HttpResponse, default_response, with_header, serialize_response}
use http_server.StaticFiles.{FileSystem}
use http_server.StaticFiles.Serve.{StaticFileHandler}

pub data State : Type 0 where
  reading parsing writing closed : State

pub data ReadPhase : Type 0 where
  in_request in_keep_alive : ReadPhase

pub data ConnectionEndReason : Type 0 where
  peer_closed connection_close request_limit parse_error read_timeout : ConnectionEndReason
  keep_alive_timeout write_timeout read_error write_error : ConnectionEndReason

-- Timeouts in milliseconds, taken not to be negative.
pub record ConnectionConfig : Type 0 where
  pub read_timeout_ms : ℕ
  pub keep_alive_timeout_ms : ℕ
  pub write_timeout_ms : ℕ
  pub max_requests : ℕ

pub record ConnectionResult : Type 0 where
  pub reason : ConnectionEndReason
  pub requests_served : ℕ
  pub bytes_read : ℕ
  pub bytes_written : ℕ

pub record Connection : Type 0 where
  pub parser : HttpParser
  pub state : State
  pub pending_response : Bytes
  pub write_offset : ℕ
  pub close_after_write : Bool
  pub close_reason_after_write : ConnectionEndReason
  pub config : ConnectionConfig
  pub read_phase : ReadPhase
  pub read_deadline : ℕ
  pub write_deadline : ℕ
  pub result : ConnectionResult

-- What a connection serves from: the file system, the handler, and the order in which the headers
-- of a response are walked.
pub record Site : Type 0 where
  pub fs : FileSystem
  pub handler : StaticFileHandler
  pub order : Headers → Headers

-- The `errno` values that the program tells apart; EWOULDBLOCK is EAGAIN.
pub data Errno : Type 0 where
  eintr eagain other : Errno

-- The result of a system call.
pub data Outcome (A : Type 0) : Type 0 where
  done : A → Outcome A
  failed : Errno → Outcome A

abbrev pub milliseconds : ℕ → ℕ
milliseconds n = n * 1_000_000

abbrev start_result : Bool → ConnectionResult
start_result valid = record {
  reason = if valid then peer_closed else read_error;
  requests_served = 0;
  bytes_read = 0;
  bytes_written = 0;
}

-- The constructor, for a descriptor that is valid or not, at the time `now`; `none` where it throws. Of
-- timeouts that are not negative those that are not above zero are zero.
unfoldable pub create : Bool → ConnectionConfig → ℕ → Option Connection
create valid config now =
    if config.read_timeout_ms == 0
      || config.keep_alive_timeout_ms == 0
      || config.write_timeout_ms == 0
      || config.max_requests == 0
    then none
    else some (record {
      parser = default_parser;
      state = if valid then reading else closed;
      pending_response = [];
      write_offset = 0;
      close_after_write = false;
      close_reason_after_write = connection_close;
      config = config;
      read_phase = in_request;
      read_deadline = now + milliseconds config.read_timeout_ms;
      write_deadline = now;
      result = start_result valid;
    })

unfoldable pub finish : ConnectionEndReason → Connection → Connection
finish reason c = record c { result = record c.result { reason = reason }; state = closed }

unfoldable pub begin_request_timeout : ℕ → Connection → Connection
begin_request_timeout now c = record c {
  read_phase = in_request;
  read_deadline = now + milliseconds c.config.read_timeout_ms;
}

unfoldable pub begin_keep_alive_timeout : ℕ → Connection → Connection
begin_keep_alive_timeout now c = record c {
  read_phase = in_keep_alive;
  read_deadline = now + milliseconds c.config.keep_alive_timeout_ms;
}

unfoldable pub queue_response :
    Site → ℕ → HttpResponse → Bool → ConnectionEndReason → Connection → Connection
queue_response site now response keep_alive close_reason c = record c {
  pending_response = serialize_response site.order (
      with_header (codes "Connection") (if keep_alive then codes "keep-alive" else codes "close")
        response);
  write_offset = 0;
  close_after_write = not keep_alive;
  close_reason_after_write = close_reason;
  write_deadline = now + milliseconds c.config.write_timeout_ms;
  state = writing;
}

abbrev text_response : ℕ → Bytes → Bytes → HttpResponse
text_response status_code reason body =
    with_header (codes "Content-Type") (codes "text/plain")
      (record default_response { status_code = status_code; reason_phrase = reason; body = body })

unfoldable pub bad_request_response : HttpResponse
bad_request_response = text_response 400 (codes "Bad Request") (codes "bad request\n")

unfoldable pub not_implemented_response : HttpResponse
not_implemented_response =
    text_response 501 (codes "Not Implemented") (codes "transfer encoding is not supported\n")

unfoldable pub request_timeout_response : HttpResponse
request_timeout_response = text_response 408 (codes "Request Timeout") (codes "request timeout\n")

pub record Timeval : Type 0 where
  pub tv_sec : ℕ
  pub tv_usec : ℕ

-- The socket timeout for the time that remains; `none` where nothing remains.
unfoldable pub socket_timeout : ℕ → ℕ → Option Timeval
socket_timeout deadline now =
    let timeout = if (deadline - now) / 1000 == 0 then 1 else (deadline - now) / 1000 in
    if leb deadline now
    then none
    else some (record { tv_sec = timeout / 1_000_000; tv_usec = timeout % 1_000_000 })

abbrev armed_by : Option Timeval → Outcome (Unit {0}) → Outcome (Unit {0})
armed_by none set = failed eagain
armed_by (some value) set = set

-- `arm_socket_timeout`: `set` is what `setsockopt` returns, if it is called.
unfoldable pub arm_socket_timeout : ℕ → ℕ → Outcome (Unit {0}) → Outcome (Unit {0})
unfolding socket_timeout
arm_socket_timeout deadline now set = armed_by (socket_timeout deadline now) set
