-- ===== src/Tests/ParserRuns.antt =====
-- The parser at fixed inputs.
use http_server.Prelude.{Bytes, codes, ◌≡◌, refl, [], ◌∷◌, starts_with, find_text, find_byte, equal}
use http_server.Number.{from_chars, scan_digits}
use http_server.Request.{find, assign, HttpRequest}
use http_server.Text.{to_lower_ascii, at, trim_ows, is_tchar, all_tchar, is_token}
use http_server.Parser.{feed, next, ParseResult, request_ready, error, default_parser}
use http_server.Parser.Outcome.{error_kind, bad_request, missing_host}
use http_server.Parser.RequestLine.{parse_request_line, check_request_line}
use http_server.Parser.HeaderLine.{parse_header_line, add_header}
use http_server.Parser.Head.{parse_headers, check_host, parse_content_length, framing, read_head}

abbrev running : Bytes → ParseResult
running s = (next (feed default_parser s)).1

abbrev post : HttpRequest
post = record {
  method = codes "POST";
  target = codes "/submit";
  version = codes "HTTP/1.1";
  headers =
      record { name = codes "host"; value = codes "localhost" }
      ∷ record { name = codes "content-length"; value = codes "5" }
      ∷ [];
  header_fields =
      record { name = codes "host"; value = codes "localhost" }
      ∷ record { name = codes "content-length"; value = codes "5" }
      ∷ [];
  body = codes "hello";
}

post_runs :
    running (codes "POST /submit HTTP/1.1\r\nHost: localhost\r\nContent-Length: 5 \r\n\r\nhelloGET")
    ≡ request_ready post
unfolding next feed find_text starts_with read_head parse_request_line check_request_line
    parse_headers parse_header_line add_header check_host framing parse_content_length from_chars
    scan_digits find assign to_lower_ascii trim_ows is_token all_tchar is_tchar find_byte equal at
post_runs = refl

host_missing : running (codes "GET / HTTP/1.1\r\n\r\n") ≡ error missing_host bad_request
unfolding next feed find_text starts_with read_head parse_request_line check_request_line
    parse_headers parse_header_line add_header check_host framing parse_content_length from_chars
    scan_digits find assign to_lower_ascii trim_ows is_token all_tchar is_tchar find_byte equal at
    error_kind
host_missing = refl
