-- ===== src/Legacy/Client.antt =====
-- `handleClient` of legacy/myhttpd.cc.
use http_server.Prelude.{
  ℕ, ◌+◌, Bool, true, false, not, ◌&&◌, ◌||◌, List, [], ◌∷◌, ◌++◌, Option, none, some, Bytes, codes,
  ltb, ◌==◌, equal, take, find_text, starts_with, if◌then◌else◌, ℤ, pos, negsuc,
}
use http_server.Legacy.Sending.{Socket, send_all}
use http_server.Legacy.Target.{
  SortOptions, c_string, request_words, request_body, split_query, sort_options, back,
}
use http_server.Legacy.Listing.{Stat, sort_entries, read_entries, page}
use http_server.Legacy.Replies.{
  Host, Process, Reply, Statistics, Visit, authorization, cgi_call, counted, handle_logs,
  max_request_size, not_implemented, returned, send_file, send_page, stats_page, unauthorized,
  undefined,
}

-- A directory that opens, or not.
abbrev pub list_directory :
    Host → (ℕ → ℤ) → SortOptions → Bytes → Bytes → Option (List Bytes) → Socket → Reply
list_directory host answer o url path none s = returned (
    send_page answer (codes "404 Not Found")
      (codes "<html><body><h1>404 Not Found</h1></body></html>") s)
list_directory host answer o url path (some names) s = counted url (
    send_page answer (codes "200 OK")
      (page host.print_mtime o url (sort_entries host.sort o (read_entries host.stat path names)))
      s)

abbrev pub redirect : Bytes → Bytes
redirect url =
    codes "HTTP/1.0 301 Moved Permanently\r\nLocation: "
    ++ url
    ++ codes "/\r\nContent-Length: 0\r\n\r\n"

-- A directory, by the last character of its URL.
abbrev pub serve_directory :
    Host → (ℕ → ℤ) → SortOptions → Bytes → Bytes → Option ℕ → Socket → Reply
serve_directory host answer o url path none s = undefined
serve_directory host answer o url path (some c) s =
    if c == b'/'
    then list_directory host answer o url path (host.open_dir path) s
    else returned (send_all answer (redirect url) s).1

abbrev pub serve_file : (ℕ → ℤ) → Bytes → ℕ → Option (List Bytes) → Socket → Reply
serve_file answer url size none s = returned s
serve_file answer url size (some chunks) s = counted url (send_file answer size chunks s)

abbrev pub serve_path : Host → (ℕ → ℤ) → SortOptions → Bytes → Bytes → Option Stat → Socket → Reply
serve_path host answer o url path none s = counted url (
    send_page answer (codes "404 Not Found")
      (codes "<html><body><h1>404 Not Found</h1></body></html>\n") s)
serve_path host answer o url path (some st) s =
    if st.is_directory
    then serve_directory host answer o url path (back url) s
    else serve_file answer url st.st_size (host.open_file path) s

abbrev pub file_path : Bytes → Bytes
file_path url = codes "http-root-dir/htdocs" ++ url

-- The part of `handleClient` behind the test of the method.
unfoldable pub route : Host → Visit → Process → Bytes → Bytes → Bytes → Socket → Reply
route host v p request method url s =
    if equal url (codes "/stats")
    then returned (send_page v.answer (codes "200 OK") (stats_page host p.statistics) s)
    else if equal url (codes "/logs")
    then returned (handle_logs host v.answer p.log s)
    else if starts_with (codes "/cgi-bin/") url
    then returned
        (record s { taken = s.taken ++ host.cgi (cgi_call method url (request_body request)) })
    else let (url', query) = split_query url in
      serve_path host v.answer (sort_options query) url' (file_path url')
        (host.stat (file_path url')) s

abbrev pub is_none {ℓ} : {A : Type ℓ} → Option A → Bool
is_none none = true
is_none (some a) = false

abbrev pub default_page : Bytes → Bytes
default_page url = if equal url (codes "/") then codes "/index.html" else url

-- The answer to the text of a request.
unfoldable pub answer_request : Host → Visit → Process → Bytes → Socket → Reply
answer_request host v p request s =
    let words = request_words request in
    if is_none (find_text authorization request)
    then returned (send_all v.answer unauthorized s).1
    else if not (equal words.method (codes "GET")) && not (equal words.method (codes "POST"))
    then returned (send_all v.answer not_implemented s).1
    else route host v p request words.method (default_page words.url) s

-- `a < b` of two times.
abbrev pub less_time : ℤ → ℤ → Bool
less_time (pos a) (pos b) = ltb a b
less_time (pos a) (negsuc b) = false
less_time (negsuc a) (pos b) = true
less_time (negsuc a) (negsuc b) = ltb b a

-- The update at the end of `handleClient`.
unfoldable pub update_statistics : Bytes → ℕ → Statistics → Statistics
update_statistics url ticks st =
    let service_time = pos ticks in
    let shortest =
      less_time st.min_service_time (pos 0) || less_time service_time st.min_service_time in
    let longest = less_time st.max_service_time service_time in
    record {
      total_requests = st.total_requests + 1;
      min_service_time = if shortest then service_time else st.min_service_time;
      max_service_time = if longest then service_time else st.max_service_time;
      min_url = if shortest then url else st.min_url;
      max_url = if longest then url else st.max_url;
    }

-- The line of a request in the log.
unfoldable pub logged : Visit → Bytes → Process → Process
logged v url p =
    if v.log_writable
    then record p { log = p.log ++ v.client_ip ++ codes " " ++ url ++ codes "\n" }
    else p

-- The process and the socket behind a reply; `none` where the behaviour is undefined.
abbrev pub finish : Visit → Process → Reply → Option (Process × Socket)
finish v p (returned s) = some (p, s)
finish v p (counted url s) =
    some (record p { statistics = update_statistics url v.ticks p.statistics }, s)
finish v p undefined = none

abbrev pub handle_received : Host → Visit → Process → Bytes → Socket → Option (Process × Socket)
handle_received host v p [] s = some (p, s)
handle_received host v p (c ∷ bytes) s =
    let request = c_string (c ∷ bytes) in
    let p' = logged v (request_words request).url p in
    finish v p' (answer_request host v p' request s)

unfoldable pub handle_client : Host → Visit → Process → Socket → Option (Process × Socket)
handle_client host v p s = handle_received host v p (take max_request_size v.received) s
