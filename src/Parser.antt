-- ===== src/Parser.antt =====
-- src/parser.cpp and include/http/parser.hpp: the incremental request parser. Its pieces stand in
-- Parser/RequestLine, Parser/HeaderLine and Parser/Head; here are `HttpParser` and `next`.
-- The buffer is shorter than 2^64 bytes, so no index into it wraps.
pub mod Outcome
pub mod RequestLine
pub mod HeaderLine
pub mod Head
pub mod Stream
pub mod Headers
pub mod HeaderLines
pub mod Declared
pub mod Acceptance
use http_server.Prelude.{
  ℕ, ◌+◌, ◌-◌, ◌*◌, [], ◌++◌, Option, none, some, Bytes, codes, find_text, ltb, if◌then◌else◌,
  length, take, drop,
}
use http_server.Request.{HttpRequest}
use Outcome.{Parsed, ok, refuse, Refusal, ParseErrorKind, error_kind, headers_too_long}
use Head.{read_head}

pub record HttpParser : Type 0 where
  pub buffer : Bytes
  pub max_header_bytes : ℕ
  pub max_body_bytes : ℕ

-- `ParseStatus` with the fields of `ParseResult` that each status fills.
pub data ParseResult : Type 0 where
  need_more_data : ParseResult
  request_ready : HttpRequest → ParseResult
  error : Refusal → ParseErrorKind → ParseResult

unfoldable pub feed : HttpParser → Bytes → HttpParser
feed p bytes = record p { buffer = p.buffer ++ bytes }

abbrev pub parse_error : Refusal → ParseResult
parse_error why = error why (error_kind why)

-- The end of `next`: `content_length` bytes of body have to follow the head, and then the request
-- leaves the buffer.
take_request : HttpParser → ℕ → Parsed (HttpRequest × ℕ) → HttpParser × ParseResult
take_request p header_end (refuse why) = (p, parse_error why)
take_request p header_end (ok (request, content_length)) =
    let body_start = header_end + 4 in
    let rest = drop body_start p.buffer in
    if ltb (length p.buffer - body_start) content_length then (p, need_more_data) else (
      record p { buffer = drop (body_start + content_length) p.buffer },
      request_ready (record request { body = take content_length rest }),
    )

-- `next` at what `buffer_.find("\r\n\r\n")` found.
next_at : HttpParser → Option ℕ → HttpParser × ParseResult
unfolding take_request
next_at p none =
    if ltb p.max_header_bytes (length p.buffer)
    then (p, parse_error headers_too_long)
    else (p, need_more_data)
next_at p (some header_end) =
    if ltb p.max_header_bytes header_end
    then (p, parse_error headers_too_long)
    else take_request p header_end (read_head p.max_body_bytes (take header_end p.buffer))

unfoldable pub next : HttpParser → HttpParser × ParseResult
unfolding next_at
next p = next_at p (find_text (codes "\r\n\r\n") p.buffer)

unfoldable pub buffered_bytes : HttpParser → ℕ
buffered_bytes p = length p.buffer

-- The defaults of the constructor.
abbrev pub default_parser : HttpParser
default_parser = record { buffer = []; max_header_bytes = 16 * 1024; max_body_bytes = 1024 * 1024 }
