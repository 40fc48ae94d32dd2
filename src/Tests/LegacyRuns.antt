-- ===== src/Tests/LegacyRuns.antt =====
-- The legacy server at fixed requests, and its theorems there.
use mathlib.Core.List.{Perm, Pairwise}
use mathlib.Core.Option
use http_server.Prelude.{
  ℕ, zero, suc, ◌≡◌, refl, true, false, ◌||◌, List, [], ◌∷◌, ◌++◌, none, some, Bytes, codes, equal,
  find_byte, find_text, starts_with, take, if◌then◌else◌, ℤ, pos, negsuc,
}
use http_server.Number.{decimal, write_digits}
use http_server.Legacy.Sending.{Socket, SendsFrom, send_all, send_loop, send_all-SendsFrom}
use http_server.Legacy.Target.{
  SortOptions, c_string, skip_spaces, take_word, next_word, request_words, request_body,
  sort_options, back, find_last, before_last_slash, parent_of,
}
use http_server.Legacy.Listing.{
  DirEntry, less_bytes, comparison, sort_entries, read_entries, heading, parent_row, entry_row,
  entry_rows, page,
}
use http_server.Legacy.Replies.{
  Process, Visit, Host, no_statistics, unauthorized, authorization, send_page, send_chunks,
  send_file, stats_page, log_lines, logs_page, handle_logs, cgi_call, header_of,
}
use http_server.Legacy.Client.{route, answer_request, update_statistics, logged, handle_client}
use http_server.Legacy.Order.{Precedes, sort_entries-Lists}
use http_server.Tests.SortRuns.{insert, insertion_sort, insertion_sort-Sorts}
use http_server.Legacy.Access.{request_of, IsRefused, handle_client-IsRefused}
use http_server.Legacy.Endings.{handle_client_defined}
use http_server.Legacy.Launch.{Round, Served, new_socket, serve_iterative}
use http_server.Legacy.Observed.{Summarises}
use http_server.Legacy.Summary.{observed, at_start, serve_iterative-Summarises}

abbrev files : List DirEntry
files =
    (record { name = codes "b"; size = 7; mtime = 1; is_dir = false })
    ∷ (record { name = codes "a"; size = 9; mtime = 2; is_dir = false })
    ∷ []

abbrev by_size_down : SortOptions
by_size_down = record { sort_field = b'S'; sort_order = b'D' }

sort_entries-Lists_example :
    Perm (sort_entries insertion_sort by_size_down files) files
    × Pairwise (Precedes by_size_down) (sort_entries insertion_sort by_size_down files)
sort_entries-Lists_example =
    sort_entries-Lists insertion_sort insertion_sort-Sorts files by_size_down

-- Two bytes are taken, then one, and then the connection is gone.
abbrev faltering : ℕ → ℤ
faltering zero = pos 2
faltering (suc zero) = pos 1
faltering _ = negsuc 0

send_all-SendsFrom_example :
    SendsFrom 0 (codes "abcde") new_socket (send_all faltering (codes "abcde") new_socket)
send_all-SendsFrom_example = send_all-SendsFrom faltering (codes "abcde") new_socket

faltering-stops :
    send_all faltering (codes "abcde") new_socket
    ≡ (negsuc 0, record { taken = codes "abc"; calls = 3 })
unfolding send_all send_loop
faltering-stops = refl

-- A machine with one directory.
abbrev machine : Host
machine = record {
  stat = λ path.
      if equal path (codes "http-root-dir/htdocs/sub/") || equal path (codes "http-root-dir/htdocs")
      then some (record { st_size = 0; st_mtime = 0; is_directory = true })
      else if equal path (codes "http-root-dir/htdocs/../../key")
      then some (record { st_size = 3; st_mtime = 0; is_directory = false })
      else none;
  open_dir = λ path. some (codes "." ∷ codes "a" ∷ []);
  open_file = λ path. some (codes "pem" ∷ []);
  cgi = λ call. [];
  log_readable = true;
  uptime = 10;
  print_uptime = decimal;
  print_service_time = λ t. codes "0";
  print_mtime = λ t. codes "then";
  sort = insertion_sort;
}

abbrev visit_of : Bytes → ℕ → Visit
visit_of request ticks = record {
  received = request;
  client_ip = codes "10.0.0.1";
  log_writable = true;
  answer = λ k. pos 4_096;
  ticks = ticks;
}

abbrev with_token : Bytes → Bytes
with_token line = line ++ codes "\r\n" ++ authorization ++ codes "\r\n\r\n"

abbrev stranger : Visit
stranger = visit_of (codes "GET /logs HTTP/1.0\r\n\r\n") 3

stranger-unknown : find_text authorization (request_of stranger) ≡ none
unfolding find_text starts_with c_string
stranger-unknown = refl

abbrev fresh_process : Process
fresh_process = record { statistics = no_statistics; log = codes "10.0.0.1 /\n" }

abbrev other_process : Process
other_process = record { statistics = no_statistics; log = [] }

handle_client-IsRefused_example :
    (s' : Socket) × (k : ℕ) × (s'.taken ≡ [] ++ take k unauthorized)
    × IsRefused fresh_process new_socket s'
        (handle_client machine stranger fresh_process new_socket)
    × IsRefused other_process new_socket s'
        (handle_client (record machine { uptime = 99 }) stranger other_process new_socket)
handle_client-IsRefused_example =
    handle_client-IsRefused machine (record machine { uptime = 99 }) stranger fresh_process
      other_process new_socket stranger-unknown

abbrev absent : Visit
absent = visit_of (with_token (codes "GET /absent?C=S HTTP/1.0")) 3

absent-words : (request_words (request_of absent)).url ≡ b'/' ∷ codes "absent?C=S"
unfolding request_words next_word skip_spaces take_word c_string
absent-words = refl

handle_client_defined_example :
    (out : Process × Socket) × (handle_client machine absent fresh_process new_socket ≡ some out)
handle_client_defined_example =
    handle_client_defined machine absent fresh_process new_socket (codes "absent?C=S") absent-words

-- Whoever unfolds this computes through the handling of a request.
unfoldable legacy : Unit {0}
unfolding equal starts_with find_byte find_text write_digits decimal c_string skip_spaces take_word
    next_word request_words request_body sort_options back find_last before_last_slash parent_of
    less_bytes comparison sort_entries read_entries heading parent_row entry_row entry_rows page
    send_loop send_all send_page send_chunks send_file stats_page log_lines logs_page handle_logs
    cgi_call route answer_request update_statistics logged handle_client serve_iterative
    insertion_sort insert
legacy = tt

abbrev absent_reply : Bytes
absent_reply =
    header_of (codes "404 Not Found") 49
    ++ codes "<html><body><h1>404 Not Found</h1></body></html>\n"

-- A client that is not there, and one that asks for what is not there.
abbrev rounds : List Round
rounds =
    (record { client_fd = none; visit = absent; host = machine })
    ∷ (record { client_fd = some 5; visit = absent; host = machine })
    ∷ []

abbrev after_rounds : Served
after_rounds = record {
  process = record {
    statistics = record {
      total_requests = 1;
      min_service_time = pos 3;
      max_service_time = pos 3;
      min_url = codes "/absent";
      max_url = codes "/absent";
    };
    log = codes "10.0.0.1 /absent?C=S\n";
  };
  closed = 5 ∷ [];
  replies = absent_reply ∷ [];
}

rounds-served : serve_iterative rounds (at_start []) ≡ some after_rounds
unfolding legacy
rounds-served = refl

serve_iterative-Summarises_example :
    Summarises (observed rounds (at_start []) []) after_rounds.process.statistics
serve_iterative-Summarises_example = serve_iterative-Summarises rounds [] after_rounds rounds-served

rounds-observed : observed rounds (at_start []) [] ≡ (codes "/absent", 3) ∷ []
unfolding legacy observed
rounds-observed = refl

-- A URL without a path leaves an empty string behind its query, and `back` has no character.
query_only-undefined :
    handle_client machine
      (visit_of (with_token (codes "GET ?C=N HTTP/1.0")) 3)
      fresh_process
      new_socket
    ≡ none
unfolding legacy
query_only-undefined = refl

-- Nothing keeps a URL inside the document root.
outside_root-served :
    Option.map
      (λ (out : Process × Socket). out.1.taken)
      (handle_client machine
        (visit_of (with_token (codes "GET /../../key HTTP/1.0")) 3)
        fresh_process
        new_socket)
    ≡ some (header_of (codes "200 OK") 3 ++ codes "pem")
unfolding legacy
outside_root-served = refl

-- Without an empty line the body of a request is the request less three characters.
no_empty_line-body : request_body (codes "POST /cgi-bin/x") ≡ codes "T /cgi-bin/x"
unfolding request_body find_text starts_with
no_empty_line-body = refl

parent_links : (parent_of (codes "/a/b/") ≡ codes "/a/") × (parent_of (codes "/a/") ≡ codes "/")
unfolding parent_of before_last_slash find_last
parent_links = (refl, refl)
