-- ===== src/Parser/HeaderLine.antt =====
-- `parse_header_line` of src/parser.cpp, and what the loop of `next` does with its result.
use http_server.Prelude.{
  ◌+◌, ◌-◌, not, [], ◌∷◌, ◌++◌, none, some, Bytes, codes, find_byte, equal, if◌then◌else◌, take,
  drop,
}
use http_server.Request.{HeaderField, HttpRequest, find, assign}
use http_server.Text.{is_token, is_ows, at, to_lower_ascii, trim_ows}
use http_server.Parser.Outcome.{
  Parsed, ok, refuse, ◌>>=◌, ◌>>◌, require, malformed_header_line, whitespace_before_colon,
  invalid_header_name, duplicate_header_field,
}
use http_server.Parser.RequestLine.{index_above}

unfoldable pub parse_header_line : Bytes → Parsed HeaderField
parse_header_line line = do
  colon ← index_above 0 (find_byte b':' line) malformed_header_line
  require (not (is_ows (at line (colon - 1)))) whitespace_before_colon
  let raw_name = take colon line
  require (is_token raw_name) invalid_header_name
  ok (record { name = to_lower_ascii raw_name; value = trim_ows (drop (colon + 1) line) })

-- A field for a name that is in the map already: `Connection` fields are joined, any other is
-- refused.
abbrev join_header : HeaderField → Bytes → HttpRequest → Parsed HttpRequest
join_header field existing request =
    if equal field.name (codes "connection")
    then ok (record request {
      headers = assign field.name (existing ++ (codes ", " ++ field.value)) request.headers;
      header_fields = request.header_fields ++ field ∷ [];
    })
    else refuse (duplicate_header_field field.name)

-- One round of the loop over the header lines, behind `parse_header_line`.
unfoldable pub add_header : HeaderField → HttpRequest → Parsed HttpRequest
add_header field request = elim (find field.name request.headers) [
  | none ↦ ok (record request {
    headers = assign field.name field.value request.headers;
    header_fields = request.header_fields ++ field ∷ [];
  })
  | some existing ↦ join_header field existing request
]
