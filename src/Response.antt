-- ===== src/Response.antt =====
-- src/response.cpp and include/http/response.hpp. The program walks the headers of a response in the
-- order of `std::unordered_map`, which the standard leaves open: `order` is a parameter that stands
-- for it, a function from the map to its entries in the order of the walk.
use http_server.Prelude.{
  ℕ, Bool, false, [], ◌∷◌, ◌++◌, Option, none, some, Bytes, codes, equal, length, if◌then◌else◌,
}
use http_server.Number.{decimal}
use http_server.Request.{Headers, assign}
use http_server.Text.{to_lower_ascii}

pub record HttpResponse : Type 0 where
  pub version : Bytes
  pub status_code : ℕ
  pub reason_phrase : Bytes
  pub headers : Headers
  pub body : Bytes
  pub content_length : Option ℕ
  pub suppress_body : Bool

-- `HttpResponse response;`
abbrev pub default_response : HttpResponse
default_response = record {
  version = codes "HTTP/1.1";
  status_code = 200;
  reason_phrase = codes "OK";
  headers = [];
  body = [];
  content_length = none;
  suppress_body = false;
}

unfoldable pub is_content_length : Bytes → Bool
is_content_length name = equal (to_lower_ascii name) (codes "content-length")

-- The lines of the loop over the headers.
unfoldable pub header_lines : Headers → Bytes
header_lines [] = []
header_lines (h ∷ hs) =
    let rest = header_lines hs in
    if is_content_length h.name
    then rest
    else h.name ++ (codes ": " ++ (h.value ++ (codes "\r\n" ++ rest)))

-- `response.content_length.value_or(response.body.size())`.
abbrev pub value_or : Option ℕ → ℕ → ℕ
value_or none d = d
value_or (some n) d = n

-- What is written in front of the body.
unfoldable pub serialize_head : (Headers → Headers) → HttpResponse → Bytes
serialize_head order response =
    response.version
    ++ (b' '
        ∷ (decimal response.status_code
            ++ (b' '
                ∷ (response.reason_phrase
                    ++ (codes "\r\n"
                        ++ (header_lines (order response.headers)
                            ++ (codes "Content-Length: "
                                ++ (decimal
                                      (value_or response.content_length (length response.body))
                                    ++ (codes "\r\n" ++ codes "\r\n")))))))))

unfoldable pub serialize_response : (Headers → Headers) → HttpResponse → Bytes
serialize_response order response =
    serialize_head order response ++ (if response.suppress_body then [] else response.body)

-- `response.headers[name] = value`.
abbrev pub with_header : Bytes → Bytes → HttpResponse → HttpResponse
with_header name value response = record response { headers = assign name value response.headers }
