-- ===== src/Connection/Turns.antt =====
-- `read_from_socket`, `parse_request`, `write_to_socket` and `serve` of src/connection.cpp. What the
-- system answers during one round of `serve` is a `Turn`; a handler returns the connection and the
-- bytes that the socket took.
use http_server.Prelude.{
  ℕ, zero, suc, ◌+◌, Bool, true, false, not, ◌&&◌, List, [], ◌∷◌, ◌++◌, Bytes, ltb, leb, ◌==◌,
  if◌then◌else◌, length, take, drop, add_size,
}
use http_server.Parser.{
  HttpParser, ParseResult, need_more_data, request_ready, error, feed, next, buffered_bytes,
}
use http_server.Parser.Outcome.{ParseErrorKind, bad_request, unsupported_encoding}
use http_server.Request.{HttpRequest}
use http_server.Response.{HttpResponse}
use http_server.Router.{route_request}
use http_server.Connection.{
  State, reading, parsing, writing, closed, ReadPhase, in_request, in_keep_alive, peer_closed,
  connection_close, request_limit, parse_error, read_timeout, keep_alive_timeout, write_timeout,
  read_error, write_error, Connection, Site, eintr, eagain, other, Outcome, done, failed, finish,
  begin_request_timeout, begin_keep_alive_timeout, queue_response, bad_request_response,
  not_implemented_response, request_timeout_response, arm_socket_timeout,
}
use http_server.Connection.KeepAlive.{should_keep_alive}

-- The clock when the socket timeout is armed and when a deadline is set, and what `setsockopt`,
-- `read` and `send` return. `read` of no bytes is the end of the stream.
pub record Turn : Type 0 where
  pub now : ℕ
  pub later : ℕ
  pub set : Outcome (Unit {0})
  pub received : Outcome Bytes
  pub sent : Outcome ℕ

-- Time has run out while reading.
unfoldable pub read_timed_out : Site → Turn → ReadPhase → Connection → Connection
read_timed_out site t in_keep_alive c = finish keep_alive_timeout c
read_timed_out site t in_request c =
    queue_response site t.later request_timeout_response false read_timeout c

abbrev pub in_keep_alive_phase : ReadPhase → Bool
in_keep_alive_phase in_keep_alive = true
in_keep_alive_phase in_request = false

-- The bytes of a `read` that succeeded.
unfoldable pub take_bytes : Turn → Bytes → Connection → Connection
take_bytes t [] c = finish peer_closed c
take_bytes t (b ∷ bytes) c =
    let counted = record c {
      result = record c.result { bytes_read = add_size c.result.bytes_read (length (b ∷ bytes)) };
    } in
    let timed =
      if in_keep_alive_phase c.read_phase then begin_request_timeout t.later counted else counted in
    record timed { parser = feed timed.parser (b ∷ bytes); state = parsing }

abbrev pub received_in : Site → Turn → Outcome Bytes → Connection → Connection
received_in site t (done bytes) c = take_bytes t bytes c
received_in site t (failed eintr) c = c
received_in site t (failed eagain) c = read_timed_out site t c.read_phase c
received_in site t (failed other) c = finish read_error c

abbrev pub read_armed : Site → Turn → Outcome (Unit {0}) → Connection → Connection
read_armed site t (done _) c = received_in site t t.received c
read_armed site t (failed eagain) c = read_timed_out site t c.read_phase c
read_armed site t (failed eintr) c = finish read_error c
read_armed site t (failed other) c = finish read_error c

unfoldable pub read_from_socket : Site → Turn → Connection → Connection
read_from_socket site t c = read_armed site t (arm_socket_timeout c.read_deadline t.now t.set) c

abbrev pub error_response : ParseErrorKind → HttpResponse
error_response unsupported_encoding = not_implemented_response
error_response bad_request = bad_request_response

-- A complete request is counted, routed and answered.
unfoldable pub answer_request : Site → Turn → HttpRequest → Connection → Connection
answer_request site t request c =
    let served = add_size c.result.requests_served 1 in
    let counted = record c { result = record c.result { requests_served = served } } in
    let request_limit_reached = leb c.config.max_requests served in
    let keep_alive = should_keep_alive request && not request_limit_reached in
    let response = record (route_request site.fs site.handler request) {
      version = request.version;
    } in
    queue_response site t.later response keep_alive
      (if request_limit_reached then request_limit else connection_close) counted

abbrev pub parsed_in : Site → Turn → Connection → HttpParser × ParseResult → Connection
parsed_in site t c (parser, need_more_data) = record c { parser = parser; state = reading }
parsed_in site t c (parser, request_ready request) =
    answer_request site t request (record c { parser = parser })
parsed_in site t c (parser, error why kind) =
    queue_response site t.later (error_response kind) false parse_error
      (record c { parser = parser })

unfoldable pub parse_request : Site → Turn → Connection → Connection
parse_request site t c =
    let timed =
      if in_keep_alive_phase c.read_phase && ltb 0 (buffered_bytes c.parser)
      then begin_request_timeout t.now c
      else c in
    parsed_in site t timed (next timed.parser)

-- The response is out: close, or look for the next request in the buffer.
unfoldable pub response_written : Turn → Connection → Connection
response_written t c =
    let cleared = record c { pending_response = []; write_offset = 0 } in
    if c.close_after_write
    then finish c.close_reason_after_write cleared
    else record (begin_keep_alive_timeout t.later cleared) { state = parsing }

abbrev pub advanced : ℕ → Connection → Connection
advanced n c = record c {
  write_offset = c.write_offset + n;
  result = record c.result { bytes_written = add_size c.result.bytes_written n };
}

-- A `send` that took `n` bytes, none included.
unfoldable pub sent_bytes : Turn → ℕ → Connection → Connection × Bytes
sent_bytes t zero c = (finish write_error c, [])
sent_bytes t (suc n) c =
    let out = take (suc n) (drop c.write_offset c.pending_response) in
    if c.write_offset + suc n == length c.pending_response
    then (response_written t (advanced (suc n) c), out)
    else (advanced (suc n) c, out)

abbrev pub sent_in : Turn → Outcome ℕ → Connection → Connection × Bytes
sent_in t (done n) c = sent_bytes t n c
sent_in t (failed eintr) c = (c, [])
sent_in t (failed eagain) c = (finish write_timeout c, [])
sent_in t (failed other) c = (finish write_error c, [])

abbrev pub write_armed : Turn → Outcome (Unit {0}) → Connection → Connection × Bytes
write_armed t (done _) c = sent_in t t.sent c
write_armed t (failed eagain) c = (finish write_timeout c, [])
write_armed t (failed eintr) c = (finish write_error c, [])
write_armed t (failed other) c = (finish write_error c, [])

unfoldable pub write_to_socket : Turn → Connection → Connection × Bytes
write_to_socket t c = write_armed t (arm_socket_timeout c.write_deadline t.now t.set) c

-- One round of the loop in `serve`.
unfoldable pub round_in : State → Site → Turn → Connection → Connection × Bytes
round_in reading site t c = (read_from_socket site t c, [])
round_in parsing site t c = (parse_request site t c, [])
round_in writing site t c = write_to_socket t c
round_in closed site t c = (c, [])

-- The loop of `serve` over the turns that the system takes. A closed connection does nothing more,
-- and returns its result.
unfoldable pub serve : Site → List Turn → Connection → Connection × Bytes
serve site [] c = (c, [])
serve site (t ∷ turns) c =
    let (c', out) = round_in c.state site t c in
    let (c'', more) = serve site turns c' in (c'', out ++ more)
