-- ===== src/Legacy/Replies.antt =====
-- What `handleClient` of legacy/myhttpd.cc answers with: the globals and the surroundings, the pages of
-- `handleStats` and `handleLogs`, and what `handleCGI` asks of the program that it starts.
use http_server.Prelude.{
  ℕ, Bool, List, [], ◌∷◌, ◌++◌, Option, none, some, Bytes, codes, ◌==◌, equal, length, drop,
  if◌then◌else◌, ℤ, pos, negsuc,
}
use http_server.Number.{decimal}
use http_server.Legacy.Sending.{Socket, send_all}
use http_server.Legacy.Target.{split_query}
use http_server.Legacy.Listing.{Sort, Stat}

-- The global variables. A service time is counted in ticks of the clock; `negsuc 0` is -1.
pub record Statistics : Type 0 where
  pub total_requests : ℕ
  pub min_service_time : ℤ
  pub max_service_time : ℤ
  pub min_url : Bytes
  pub max_url : Bytes

abbrev pub no_statistics : Statistics
no_statistics = record {
  total_requests = 0;
  min_service_time = negsuc 0;
  max_service_time = negsuc 0;
  min_url = [];
  max_url = [];
}

-- The globals and the content of the log file.
pub record Process : Type 0 where
  pub statistics : Statistics
  pub log : Bytes

-- One client: what `read` delivers (nothing where it fails), its address, whether the log file opens
-- for writing, what `write` answers, and the ticks between the two readings of the clock.
pub record Visit : Type 0 where
  pub received : Bytes
  pub client_ip : Bytes
  pub log_writable : Bool
  pub answer : ℕ → ℤ
  pub ticks : ℕ

-- What `handleCGI` hands to the script: its path, `argv[0]`, the environment and the input.
pub record CgiCall : Type 0 where
  pub script_full_path : Bytes
  pub script : Bytes
  pub request_method : Bytes
  pub query_string : Option Bytes
  pub content_length : Option Bytes
  pub input : Option Bytes

-- The files, the script's output (nothing where `fork` fails), the log as it opens for reading, the
-- seconds since the start, and the formatting of times by the C library.
pub record Host : Type 0 where
  pub stat : Bytes → Option Stat
  pub open_dir : Bytes → Option (List Bytes)
  pub open_file : Bytes → Option (List Bytes)
  pub cgi : CgiCall → Bytes
  pub log_readable : Bool
  pub uptime : ℕ
  pub print_uptime : ℕ → Bytes
  pub print_service_time : ℤ → Bytes
  pub print_mtime : ℕ → Bytes
  pub sort : Sort

-- How the handling of a request ends: at a `return` in its middle, at the end of the function, where
-- it is counted under its URL, or in a call of `back` on an empty string.
pub data Reply : Type 0 where
  returned : Socket → Reply
  counted : Bytes → Socket → Reply
  undefined : Reply

abbrev pub max_request_size : ℕ
max_request_size = 8192

abbrev pub authorization : Bytes
authorization = codes "Authorization: Basic <redacted>"

abbrev pub unauthorized : Bytes
unauthorized =
    codes "HTTP/1.0 401 Unauthorized\r\n"
    ++ codes "WWW-Authenticate: Basic realm=\"myhttpd-cs252\"\r\n"
    ++ codes "Content-Length: 0\r\n\r\n"

abbrev pub not_implemented : Bytes
not_implemented = codes "HTTP/1.0 501 Not Implemented\r\nContent-Length: 0\r\n\r\n"

-- The header of a page: status line, length, type, empty line.
abbrev pub header_of : Bytes → ℕ → Bytes
header_of status size =
    codes "HTTP/1.0 "
    ++ status
    ++ codes "\r\nContent-Length: "
    ++ decimal size
    ++ codes "\r\nContent-Type: text/html\r\n\r\n"

module _ (answer : ℕ → ℤ) where
  -- The header and the body of a page; what `sendAll` returns is not looked at.
  unfoldable pub send_page : Bytes → Bytes → Socket → Socket
  send_page status body s =
      (send_all answer body (send_all answer (header_of status (length body)) s).1).1

  -- The loop over the reads of a file: it ends where `sendAll` fails.
  unfoldable pub send_chunks : List Bytes → Socket → Socket
  send_chunks [] s = s
  send_chunks (chunk ∷ chunks) s = elim ((send_all answer chunk s).0) [
    | negsuc e ↦ (send_all answer chunk s).1
    | pos n ↦ send_chunks chunks (send_all answer chunk s).1
  ]

  unfoldable pub send_file : ℕ → List Bytes → Socket → Socket
  unfolding send_chunks
  send_file size chunks s =
      send_chunks chunks (send_all answer (header_of (codes "200 OK") size) s).1

-- The page of `handleStats`.
unfoldable pub stats_page : Host → Statistics → Bytes
stats_page host st =
    codes "<html><body>\n<h1>Server Stats</h1>\n<ul>\n<li>Students: Annsh Navle</li>\n"
    ++ codes "<li>Uptime: "
    ++ host.print_uptime host.uptime
    ++ codes " seconds</li>\n<li>Total Requests: "
    ++ decimal st.total_requests
    ++ codes "</li>\n<li>Min Service Time: "
    ++ host.print_service_time st.min_service_time
    ++ codes " seconds ("
    ++ st.min_url
    ++ codes ")</li>\n<li>Max Service Time: "
    ++ host.print_service_time st.max_service_time
    ++ codes " seconds ("
    ++ st.max_url
    ++ codes ")</li>\n</ul>\n</body></html>\n"

-- The lines that `getline` reads, each with a line feed behind it.
unfoldable pub log_lines : Bytes → Bytes
log_lines [] = []
log_lines (c ∷ []) = if c == 10 then c ∷ [] else c ∷ 10 ∷ []
log_lines (c ∷ d ∷ s) = c ∷ log_lines (d ∷ s)

unfoldable pub logs_page : Bytes → Bytes
unfolding log_lines
logs_page log =
    codes "<html><body>\n<h1>Request Logs</h1>\n<pre>\n"
    ++ log_lines log
    ++ codes "</pre>\n</body></html>\n"

unfoldable pub handle_logs : Host → (ℕ → ℤ) → Bytes → Socket → Socket
handle_logs host answer log s =
    if host.log_readable
    then send_page answer (codes "200 OK") (logs_page log) s
    else send_page answer (codes "404 Not Found")
        (codes "<html><body><h1>No logs available</h1></body></html>") s

abbrev pub query_of : Option Bytes → Bytes
query_of none = []
query_of (some query) = query

-- What `handleCGI` makes of its arguments.
unfoldable pub cgi_call : Bytes → Bytes → Bytes → CgiCall
cgi_call method url body =
    let (script_path, query) = split_query url in
    let script = drop (length (codes "/cgi-bin/")) script_path in
    record {
      script_full_path = codes "http-root-dir/cgi-bin/" ++ script;
      script = script;
      request_method = method;
      query_string = if equal method (codes "GET") then some (query_of query) else none;
      content_length =
          if equal method (codes "GET")
          then none
          else if equal method (codes "POST")
          then some (decimal (length body))
          else none;
      input = if equal method (codes "POST") then some body else none;
    }
