-- ===== src/Parser/Head.antt =====
-- The head of a request: the part of `HttpParser::next` (src/parser.cpp) that reads the request line,
-- the header lines, and how long the body is.
use http_server.Prelude.{
  ℕ, zero, suc, ◌+◌, Bool, true, false, not, ◌||◌, [], ◌∷◌, Option, none, some, Bytes, codes,
  find_text, equal, ltb, length, take, drop, size_limit,
}
use http_server.Number.{from_chars}
use http_server.Request.{HttpRequest, find}
use http_server.Text.{trim_ows}
use http_server.Parser.Outcome.{
  Parsed, ok, refuse, ◌>>=◌, ◌>>◌, require, missing_host, both_framings,
  unsupported_transfer_encoding, empty_content_length, invalid_content_length, body_too_long,
}
use http_server.Parser.RequestLine.{RequestLine, parse_request_line}
use http_server.Parser.HeaderLine.{parse_header_line, add_header}

abbrev pub crlf : Bytes
crlf = codes "\r\n"

abbrev pub is_empty : Bytes → Bool
is_empty [] = true
is_empty (c ∷ s) = false

-- The line that ends at `line_end`, or the whole of the rest.
abbrev pub line_at : Bytes → Option ℕ → Bytes
line_at rest none = rest
line_at rest (some line_end) = take line_end rest

-- What stands behind that line and its end; nothing where there is no further line.
abbrev pub behind : Bytes → Option ℕ → Bytes
behind rest none = []
behind rest (some line_end) = drop (line_end + 2) rest

-- The loop over the header lines: `rest` is the header block from `line_start` on. Every round that
-- goes on consumes two bytes at least, so `length rest` rounds are enough.
unfoldable pub parse_headers : ℕ → Bytes → HttpRequest → Parsed HttpRequest
parse_headers zero rest request = ok request
parse_headers (suc fuel) [] request = ok request
parse_headers (suc fuel) (c ∷ s) request = do
  let line_end = find_text crlf (c ∷ s)
  field ← parse_header_line (line_at (c ∷ s) line_end)
  added ← add_header field request
  parse_headers fuel (behind (c ∷ s) line_end) added

abbrev pub has_host : Option Bytes → Bool
has_host none = false
has_host (some value) = not (is_empty (trim_ows value))

-- An HTTP/1.1 request names its host.
unfoldable pub check_host : HttpRequest → Parsed (Unit {0})
check_host request =
    require
      (not (equal request.version (codes "HTTP/1.1"))
        || has_host (find (codes "host") request.headers))
      missing_host

-- `result.ec` is clear and `result.ptr` is the end.
abbrev pub whole_number : Option (ℕ × Bytes) → Parsed ℕ
whole_number none = refuse invalid_content_length
whole_number (some (parsed, [])) = ok parsed
whole_number (some (parsed, c ∷ s)) = refuse invalid_content_length

unfoldable pub parse_content_length : Bytes → Parsed ℕ
parse_content_length value = do
  require (not (is_empty (trim_ows value))) empty_content_length
  whole_number (from_chars size_limit (trim_ows value))

-- The two framing headers: how many bytes of body follow the head.
unfoldable pub framing : ℕ → Option Bytes → Option Bytes → Parsed ℕ
framing max_body_bytes (some encoding) (some value) = refuse both_framings
framing max_body_bytes (some encoding) none = refuse unsupported_transfer_encoding
framing max_body_bytes none none = ok 0
framing max_body_bytes none (some value) = do
  content_length ← parse_content_length value
  require (not (ltb max_body_bytes content_length)) body_too_long
  ok content_length

-- The request of a line with its header lines yet to be read.
abbrev pub request_of : RequestLine → HttpRequest
request_of parsed_line = record {
  method = parsed_line.method;
  target = parsed_line.target;
  version = parsed_line.version;
  headers = [];
  header_fields = [];
  body = [];
}

-- The header block of a request, without the empty line that ends it.
unfoldable pub read_head : ℕ → Bytes → Parsed (HttpRequest × ℕ)
read_head max_body_bytes block = do
  let request_line_end = find_text crlf block
  parsed_line ← parse_request_line (line_at block request_line_end)
  request ← parse_headers (length block) (behind block request_line_end) (request_of parsed_line)
  check_host request
  let encoding = find (codes "transfer-encoding") request.headers
  let value = find (codes "content-length") request.headers
  content_length ← framing max_body_bytes encoding value
  ok (request, content_length)
