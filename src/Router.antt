-- ===== src/Router.antt =====
-- src/router.cpp.
pub mod Head
use http_server.Prelude.{
  Bool, true, false, ◌||◌, Option, none, some, Bytes, codes, equal, length, if◌then◌else◌,
}
use http_server.Request.{HttpRequest}
use http_server.Response.{HttpResponse, default_response, with_header, value_or}
use http_server.StaticFiles.{FileSystem}
use http_server.StaticFiles.Serve.{StaticFileHandler, handle}

unfoldable pub method_not_allowed : HttpResponse
method_not_allowed = with_header (codes "Content-Type") (codes "text/plain") (
    with_header (codes "Allow") (codes "GET, HEAD") (record default_response {
      status_code = 405;
      reason_phrase = codes "Method Not Allowed";
      body = codes "method not allowed\n";
    }))

-- What `route_request` does to the response to `HEAD`.
abbrev pub without_body : HttpResponse → HttpResponse
without_body response = record response {
  content_length = some (value_or response.content_length (length response.body));
  suppress_body = true;
}

unfoldable pub route_request : FileSystem → StaticFileHandler → HttpRequest → HttpResponse
route_request fs handler request =
    if equal request.method (codes "GET") || equal request.method (codes "HEAD")
    then (if equal request.method (codes "HEAD")
        then without_body (handle fs handler request)
        else handle fs handler request)
    else method_not_allowed
