-- ===== src/Tests/Fixture.antt =====
-- A small site, a connection in the middle of its work, and all that a run computes through.
use http_server.Prelude.{
  List, [], ◌∷◌, ◌++◌, some, true, false, Bytes, codes, equal, one_of, starts_with, find_byte,
  find_text, ◌≡◌, refl, add_size,
}
use http_server.Text.{
  to_lower, to_lower_ascii, at, ows_begin, ows_end, trim_ows, is_tchar, all_tchar, is_token,
}
use http_server.Number.{scan_digits, from_chars, write_digits, decimal}
use http_server.Request.{find, assign}
use http_server.Parser.Outcome.{error_kind}
use http_server.Parser.RequestLine.{check_request_line, parse_request_line}
use http_server.Parser.HeaderLine.{parse_header_line, add_header}
use http_server.Parser.Head.{parse_headers, check_host, parse_content_length, framing, read_head}
use http_server.Parser.{default_parser, feed, next, buffered_bytes}
use http_server.Response.{is_content_length, header_lines, serialize_head, serialize_response}
use http_server.StaticFiles.{
  FileSystem, Reading, extract_path, hex_value, decoded, percent_decode, strip_slashes,
  is_inside_root, make_response, content_type_for, read_chunks, read_file,
}
use http_server.StaticFiles.Serve.{
  StaticFileHandler, serve_file, serve_candidate, requested_path, handle,
}
use http_server.Router.{method_not_allowed, route_request}
use http_server.Connection.KeepAlive.{
  shrunk, trim_view, ascii_iequals, token_in, has_connection_token, should_keep_alive,
}
use http_server.Connection.{
  reading, Connection, ConnectionConfig, in_request, connection_close, peer_closed, Site, done,
  failed, other, create, finish, begin_request_timeout, begin_keep_alive_timeout, queue_response,
  bad_request_response, not_implemented_response, request_timeout_response, socket_timeout,
  arm_socket_timeout,
}
use http_server.Connection.Turns.{
  Turn, read_timed_out, take_bytes, read_from_socket, answer_request, parse_request,
  response_written, sent_bytes, write_to_socket, round_in, serve,
}

-- A declaration that unfolds this one computes through the whole program.
unfoldable pub program : Unit {0}
unfolding equal one_of starts_with find_byte find_text add_size to_lower to_lower_ascii at ows_begin
    ows_end trim_ows is_tchar all_tchar is_token scan_digits from_chars write_digits decimal find
    assign error_kind check_request_line parse_request_line parse_header_line add_header
    parse_headers check_host parse_content_length framing read_head feed next buffered_bytes
    is_content_length header_lines serialize_head serialize_response extract_path hex_value decoded
    percent_decode strip_slashes is_inside_root make_response content_type_for read_chunks read_file
    serve_file serve_candidate requested_path handle method_not_allowed route_request shrunk
    trim_view ascii_iequals token_in has_connection_token should_keep_alive create finish
    begin_request_timeout begin_keep_alive_timeout queue_response bad_request_response
    not_implemented_response request_timeout_response socket_timeout arm_socket_timeout
    read_timed_out take_bytes read_from_socket answer_request parse_request response_written
    sent_bytes write_to_socket round_in serve
program = tt

-- One file, `index.html`, in the root `/srv`, and one outside it.
abbrev pub hello : Reading
hello = record { chunks = codes "hel" ∷ codes "lo" ∷ []; at_eof = true }

abbrev pub demo_fs : FileSystem
demo_fs = record {
  to_path = λ s. s ∷ [];
  join = λ a b. a ++ b;
  extension = λ p. codes ".html";
  canonical = λ p. some p;
  weakly_canonical = λ p. some p;
  exists = λ p. some true;
  is_regular_file = λ p. true;
  file_size = λ p. some 5;
  open_file = λ p. some hello;
}

abbrev pub demo_handler : StaticFileHandler
demo_handler = record { root = codes "/srv" ∷ []; max_file_bytes = 1024 }

abbrev pub demo_site : Site
demo_site = record { fs = demo_fs; handler = demo_handler; order = λ h. h }

abbrev pub demo_config : ConnectionConfig
demo_config = record {
  read_timeout_ms = 10_000;
  keep_alive_timeout_ms = 5_000;
  write_timeout_ms = 10_000;
  max_requests = 100;
}

abbrev pub opened : Connection
opened = record {
  parser = default_parser;
  state = reading;
  pending_response = [];
  write_offset = 0;
  close_after_write = false;
  close_reason_after_write = connection_close;
  config = demo_config;
  read_phase = in_request;
  read_deadline = 10_000_000_000;
  write_deadline = 0;
  result = record { reason = peer_closed; requests_served = 0; bytes_read = 0; bytes_written = 0 };
}

abbrev pub get_index : Bytes
get_index = codes "GET / HTTP/1.1\r\nHost: a\r\n\r\n"

-- The request arrives, is answered, and the socket takes twenty bytes of the answer.
abbrev pub read_turn : Turn
read_turn = record {
  now = 1;
  later = 2;
  set = done tt;
  received = done get_index;
  sent = failed other;
}

abbrev pub parse_turn : Turn
parse_turn = record {
  now = 3;
  later = 4;
  set = done tt;
  received = failed other;
  sent = failed other;
}

abbrev pub write_turn : Turn
write_turn = record { now = 5; later = 6; set = done tt; received = failed other; sent = done 20 }

abbrev pub some_turns : List Turn
some_turns = read_turn ∷ parse_turn ∷ write_turn ∷ []

opened-create : create true demo_config 0 ≡ some opened
unfolding program
opened-create = refl

some_turns_out : (serve demo_site some_turns opened).1 ≡ codes "HTTP/1.1 200 OK\r\nCon"
unfolding program
some_turns_out = refl
