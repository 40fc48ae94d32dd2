-- ===== src/StaticFiles/Serve.antt =====
-- `serve_file` and `StaticFileHandler::handle` of src/static_file_handler.cpp.
use mathlib.Core.Option
use http_server.Prelude.{
  ℕ, Bool, true, false, Option, none, some, Bytes, codes, equal, ltb, if◌then◌else◌,
}
use http_server.Request.{HttpRequest}
use http_server.Response.{HttpResponse, default_response, with_header}
use http_server.Parser.RequestLine.{front_is}
use http_server.StaticFiles.{
  FilePath, FileSystem, extract_path, percent_decode, strip_slashes, is_inside_root, bad_request,
  forbidden, not_found, content_type_for, read_file,
}

pub record StaticFileHandler : Type 0 where
  pub root : FilePath
  pub max_file_bytes : ℕ

-- The constructor; `none` where `canonical` throws.
unfoldable pub create : FileSystem → FilePath → ℕ → Option StaticFileHandler
create fs root max_file_bytes =
    Option.map (λ r. record { root = r; max_file_bytes = max_file_bytes }) (fs.canonical root)

-- The response of `serve_file` before the body is known.
abbrev pub file_response : FileSystem → FilePath → HttpResponse
file_response fs path =
    with_header (codes "Content-Type") (content_type_for (fs.extension path)) default_response

abbrev serve_body : FileSystem → FilePath → Option Bytes → HttpResponse
serve_body fs path none = forbidden
serve_body fs path (some body) = record (file_response fs path) { body = body }

abbrev serve_sized : FileSystem → FilePath → Bool → ℕ → Option ℕ → HttpResponse
serve_sized fs path is_head max_file_bytes none = forbidden
serve_sized fs path is_head max_file_bytes (some file_size) =
    if ltb max_file_bytes file_size
    then forbidden
    else if is_head
    then record (file_response fs path) { content_length = some file_size; suppress_body = true }
    else serve_body fs path (read_file (fs.open_file path) max_file_bytes)

unfoldable pub serve_file : FileSystem → FilePath → Bool → ℕ → HttpResponse
serve_file fs path is_head max_file_bytes =
    serve_sized fs path is_head max_file_bytes (fs.file_size path)

-- The tests of `handle` on the candidate, at what `exists` answers.
abbrev serve_existing :
    FileSystem → StaticFileHandler → FilePath → Bool → Option Bool → HttpResponse
serve_existing fs handler candidate is_head none = forbidden
serve_existing fs handler candidate is_head (some false) = not_found
serve_existing fs handler candidate is_head (some true) =
    if fs.is_regular_file candidate
    then serve_file fs candidate is_head handler.max_file_bytes
    else forbidden

-- And at the canonical candidate, or where that could not be found.
unfoldable pub serve_candidate :
    FileSystem → StaticFileHandler → Bool → Option FilePath → HttpResponse
serve_candidate fs handler is_head none = forbidden
serve_candidate fs handler is_head (some candidate) =
    if is_inside_root handler.root candidate
    then serve_existing fs handler candidate is_head (fs.exists candidate)
    else forbidden

-- The candidate for a decoded path.
abbrev pub candidate_for : FileSystem → StaticFileHandler → Bytes → Option FilePath
candidate_for fs handler path =
    fs.weakly_canonical (fs.join handler.root (fs.to_path (strip_slashes path)))

abbrev serve_decoded : FileSystem → StaticFileHandler → Bool → Option Bytes → HttpResponse
serve_decoded fs handler is_head none = bad_request
serve_decoded fs handler is_head (some path) =
    if front_is b'/' path
    then serve_candidate fs handler is_head (candidate_for fs handler path)
    else bad_request

-- The path of a target; that of the directory itself stands for its index.
unfoldable pub requested_path : Bytes → Bytes
requested_path target =
    let path = extract_path target in if equal path (codes "/") then codes "/index.html" else path

unfoldable pub handle : FileSystem → StaticFileHandler → HttpRequest → HttpResponse
handle fs handler request =
    serve_decoded fs handler (equal request.method (codes "HEAD"))
      (percent_decode (requested_path request.target))
