-- ===== src/StaticFiles.antt =====
-- src/static_file_handler.cpp: from the target of a request to a file under the document root. The
-- file system is `FileSystem`, a parameter; its fields are the calls of `std::filesystem` and
-- `std::ifstream` that the handler makes.
pub mod Decoding
pub mod Serve
pub mod Reads
pub mod Confinement
use mathlib.Core.Option
use http_server.Prelude.{
  ℕ, zero, suc, ◌+◌, ◌-◌, ◌*◌, ◌%◌, ◌^◌, Bool, true, false, not, ◌&&◌, ◌||◌, List, [], ◌∷◌, ◌++◌,
  Option, none, some, Bytes, codes, equal, find_byte, ltb, leb, ◌==◌, length, take, if◌then◌else◌,
  size_limit,
}
use http_server.Request.{HttpRequest}
use http_server.Response.{HttpResponse, default_response, with_header}

-- A path, as the components over which its iterator runs.
abbrev pub FilePath : Type 0
FilePath = List Bytes

-- An open stream: what each `read` of 8192 bytes delivers, up to the one that leaves the stream
-- failed, and whether that one met the end of the file.
pub record Reading : Type 0 where
  pub chunks : List Bytes
  pub at_eof : Bool

-- `none` where the call sets its error code or throws, or the stream does not open.
pub record FileSystem : Type 0 where
  pub to_path : Bytes → FilePath
  pub join : FilePath → FilePath → FilePath
  pub extension : FilePath → Bytes
  pub canonical : FilePath → Option FilePath
  pub weakly_canonical : FilePath → Option FilePath
  pub exists : FilePath → Option Bool
  pub is_regular_file : FilePath → Bool
  pub file_size : FilePath → Option ℕ
  pub open_file : FilePath → Option Reading

unfoldable pub extract_path : Bytes → Bytes
extract_path target = elim (find_byte b'?' target) [
  | none ↦ target
  | some query ↦ take query target
]

-- `none` is -1.
unfoldable pub hex_value : ℕ → Option ℕ
hex_value ch =
    if leb b'0' ch && leb ch b'9'
    then some (ch - b'0')
    else if leb b'a' ch && leb ch b'f'
    then some (ch - b'a' + 10)
    else if leb b'A' ch && leb ch b'F'
    then some (ch - b'A' + 10)
    else none

-- The byte of two digits; `(high << 4) | low` is a sum, since `low` is below 16.
unfoldable pub decoded : Option ℕ → Option ℕ → Option ℕ
decoded none low = none
decoded (some high) none = none
decoded (some high) (some low) = if high * 16 + low == 0 then none else some (high * 16 + low)

abbrev pub push : Option ℕ → Option Bytes → Option Bytes
push none output = none
push (some c) output = Option.map (◌∷◌ c) output

unfoldable pub percent_decode : Bytes → Option Bytes
percent_decode [] = some []
percent_decode (c ∷ []) = if c == b'%' then none else some (c ∷ [])
percent_decode (c ∷ d ∷ []) =
    let rest = percent_decode (d ∷ []) in if c == b'%' then none else push (some c) rest
percent_decode (c ∷ h ∷ l ∷ s) =
    let escape = push (decoded (hex_value h) (hex_value l)) (percent_decode s) in
    let plain = push (some c) (percent_decode (h ∷ l ∷ s)) in if c == b'%' then escape else plain

-- `make_relative_path` strips the leading slashes.
unfoldable pub strip_slashes : Bytes → Bytes
strip_slashes [] = []
strip_slashes (c ∷ s) = if c == b'/' then strip_slashes s else c ∷ s

unfoldable pub is_inside_root : FilePath → FilePath → Bool
is_inside_root [] candidate = true
is_inside_root (r ∷ root) [] = false
is_inside_root (r ∷ root) (c ∷ candidate) = equal r c && is_inside_root root candidate

unfoldable pub make_response : ℕ → Bytes → Bytes → HttpResponse
make_response status_code reason body =
    with_header (codes "Content-Type") (codes "text/plain")
      (record default_response { status_code = status_code; reason_phrase = reason; body = body })

abbrev pub bad_request : HttpResponse
bad_request = make_response 400 (codes "Bad Request") (codes "bad request\n")

abbrev pub forbidden : HttpResponse
forbidden = make_response 403 (codes "Forbidden") (codes "forbidden\n")

abbrev pub not_found : HttpResponse
not_found = make_response 404 (codes "Not Found") (codes "not found\n")

unfoldable pub content_type_for : Bytes → Bytes
content_type_for extension =
    if equal extension (codes ".html") || equal extension (codes ".htm")
    then codes "text/html"
    else if equal extension (codes ".txt")
    then codes "text/plain"
    else if equal extension (codes ".css")
    then codes "text/css"
    else if equal extension (codes ".js")
    then codes "application/javascript"
    else codes "application/octet-stream"

-- The loop of `read_file`. `max_file_bytes - body.size()` is computed in `std::size_t`.
unfoldable pub read_chunks : ℕ → List Bytes → Bytes → Option Bytes
read_chunks max_file_bytes [] body = some body
read_chunks max_file_bytes (chunk ∷ chunks) body =
    let rest = read_chunks max_file_bytes chunks (body ++ chunk) in
    if ltb ((max_file_bytes + size_limit - length body) % size_limit) (length chunk)
    then none
    else rest

unfoldable pub read_file : Option Reading → ℕ → Option Bytes
read_file none max_file_bytes = none
read_file (some file) max_file_bytes = elim (read_chunks max_file_bytes file.chunks []) [
  | none ↦ none
  | some body ↦ if file.at_eof then some body else none
]
