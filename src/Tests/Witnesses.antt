-- ===== src/Tests/Witnesses.antt =====
-- Each theorem with hypotheses at an input where they hold.
use http_server.Prelude.{
  length, find_text, Bytes, Bool-cases, equal_iff, inl, inr, ◌+◌, ◌-◌, ◌*◌, equal, ◌≤◌, ◌<◌, [],
  ◌∷◌, ◌++◌, Option, none, some, Bool, true, false, codes, ◌≡◌, ◌↔◌, ◌⊎◌, refl, arith,
  if◌then◌else◌,
}
use mathlib.Core.List.{cons-eq-cons}
use http_server.Text.{trim_ows}
use http_server.Text.Trim.{IsTrimmed, trim_ows-IsTrimmed}
use http_server.Request.{HttpRequest}
use http_server.Parser.{HttpParser, default_parser, feed, next, request_ready, error}
use http_server.Parser.Outcome.{ok, bad_request, missing_host, headers_too_long}
use http_server.Parser.RequestLine.{parse_request_line}
use http_server.Parser.RequestLine.Fields.{IsRequestLine, parse_request_line_iff}
use http_server.Parser.Acceptance.{IsAccepted, next-IsAccepted}
use http_server.Parser.Stream.{head_end, Consumed, next-Consumed, next-feed_ready}
use http_server.Parser.Stream.Fragments.{
  next-keeps, next-feed_error, IsLongest, next-split_terminator,
}
use http_server.Response.{serialize_response}
use http_server.StaticFiles.{FilePath, FileSystem, percent_decode, read_file}
use http_server.StaticFiles.Decoding.{Encodes, percent_decode_iff}
use http_server.StaticFiles.Serve.{handle}
use http_server.StaticFiles.Confinement.{LeadsOut, AgreeInside, handle-AgreeInside}
use http_server.StaticFiles.Reads.{
  Served, handle-Served, read_file-contents, within_limit, contents,
}
use http_server.Router.{route_request}
use http_server.Router.Head.{IsStable, serialize_response-head}
use http_server.Connection.{Timeval, socket_timeout}
use http_server.Connection.Turns.{serve, read_from_socket}
use http_server.Connection.Validity.{IsValid, AllFit, serve-IsValid}
use http_server.Connection.Output.{owed, responses, serve-responses}
use http_server.Connection.Deadlines.{microseconds, socket_timeout_lem, read_from_socket-deadline}
use http_server.Tests.Fixture.{
  program, hello, demo_fs, demo_handler, demo_site, opened, get_index, read_turn, some_turns,
}

opened-IsValid : IsValid opened
opened-IsValid = record {
  limit_fits = omega arith;
  within_limit = omega arith;
  in_state = (refl, omega arith);
}

some_turns-AllFit : AllFit demo_site some_turns opened
unfolding program
some_turns-AllFit = ((λ n e. cc), ((λ n e. cc), ((λ n e. ground arith), tt)))

serve-responses_example :
    (serve demo_site some_turns opened).1 ++ owed (serve demo_site some_turns opened).0
    ≡ owed opened ++ responses demo_site some_turns opened
serve-responses_example =
    serve-responses demo_site some_turns opened opened-IsValid some_turns-AllFit

serve-IsValid_example : IsValid (serve demo_site some_turns opened).0
serve-IsValid_example = serve-IsValid demo_site some_turns opened opened-IsValid some_turns-AllFit

-- A parser that holds one request, and what it becomes.
abbrev loaded : HttpParser
loaded = record default_parser { buffer = get_index }

abbrev index_request : HttpRequest
index_request = record {
  method = codes "GET";
  target = codes "/";
  version = codes "HTTP/1.1";
  headers = record { name = codes "host"; value = codes "a" } ∷ [];
  header_fields = record { name = codes "host"; value = codes "a" } ∷ [];
  body = [];
}

loaded_runs : next loaded ≡ (default_parser, request_ready index_request)
unfolding program
loaded_runs = refl

next-Consumed_example : Consumed loaded default_parser index_request
next-Consumed_example = next-Consumed loaded default_parser index_request loaded_runs

next-IsAccepted_example :
    (head : Bytes) × (rest : Bytes) × (loaded.buffer ≡ head ++ (head_end ++ rest))
    × (find_text head_end loaded.buffer ≡ some (length head))
    × IsAccepted loaded.max_body_bytes head index_request (length index_request.body)
next-IsAccepted_example = next-IsAccepted loaded default_parser index_request loaded_runs

next-feed_ready_example :
    next (feed loaded (codes "GET"))
    ≡ (feed default_parser (codes "GET"), request_ready index_request)
next-feed_ready_example =
    next-feed_ready loaded default_parser index_request (codes "GET") loaded_runs

next-keeps_example : (next default_parser).0 ≡ default_parser
unfolding program
next-keeps_example = next-keeps default_parser (λ r e. cc)

abbrev hostless : HttpParser
hostless = record default_parser { buffer = codes "GET / HTTP/1.1\r\n\r\n" }

next-feed_error_example :
    next (feed hostless (codes "x")) ≡ (feed hostless (codes "x"), error missing_host bad_request)
unfolding program
next-feed_error_example =
    next-feed_error hostless hostless missing_host bad_request (codes "x") (λ e. cc) refl

abbrev short_parser : HttpParser
short_parser = record { buffer = []; max_header_bytes = 14; max_body_bytes = 10 }

short_parser-IsLongest : IsLongest short_parser (codes "GET / HTTP/1.0")
unfolding program
short_parser-IsLongest = record {
  fresh = refl;
  at_limit = refl;
  first_end = refl;
  readable = (
    record {
      method = codes "GET";
      target = codes "/";
      version = codes "HTTP/1.0";
      headers = [];
      header_fields = [];
      body = [];
    },
    refl,
  );
}

next-split_terminator_example :
    ((r : HttpRequest) × ((next (feed short_parser (codes "GET / HTTP/1.0" ++ head_end))).1
        ≡ request_ready r))
    × ((next (feed short_parser (codes "GET / HTTP/1.0" ++ codes "\r"))).1
        ≡ error headers_too_long bad_request)
next-split_terminator_example =
    next-split_terminator short_parser (codes "GET / HTTP/1.0") short_parser-IsLongest

parse_request_line_iff_example :
    (parse_request_line (codes "GET / HTTP/1.0")
      ≡ ok (record { method = codes "GET"; target = codes "/"; version = codes "HTTP/1.0" }))
    ↔ IsRequestLine
        (codes "GET / HTTP/1.0")
        (record { method = codes "GET"; target = codes "/"; version = codes "HTTP/1.0" })
parse_request_line_iff_example =
    parse_request_line_iff (codes "GET / HTTP/1.0")
      (record { method = codes "GET"; target = codes "/"; version = codes "HTTP/1.0" })

trim_ows-IsTrimmed_example : IsTrimmed (codes " a b ") (trim_ows (codes " a b "))
trim_ows-IsTrimmed_example = trim_ows-IsTrimmed (codes " a b ")

percent_decode_iff_example :
    (percent_decode (codes "/%41") ≡ some (codes "/A")) ↔ Encodes (codes "/%41") (codes "/A")
percent_decode_iff_example = percent_decode_iff (codes "/%41") (codes "/A")

-- The same files, but nothing exists outside the root, and every path there leads to one place.
abbrev outside : FilePath → Option Bool
outside [] = some false
outside (r ∷ rest) = some (if equal r (codes "/srv") then true else false)

abbrev elsewhere : FilePath → Option FilePath
elsewhere [] = some (codes "/etc" ∷ [])
elsewhere (r ∷ rest) = if equal r (codes "/srv") then some (r ∷ rest) else some (codes "/etc" ∷ [])

abbrev other_fs : FileSystem
other_fs = record demo_fs { exists = outside; weakly_canonical = elsewhere }

not_both : false ≡ true → ⊥
not_both h = cc

elsewhere-LeadsOut : LeadsOut demo_handler.root (some (codes "/etc" ∷ []))
unfolding equal
elsewhere-LeadsOut rest e =
    not_both ((equal_iff (codes "/etc") (codes "/srv")).1 (cons-eq-cons.0 e).0)

demo-same_canonical :
    (path : FilePath)
    → (elsewhere path ≡ some path)
      ⊎ (LeadsOut demo_handler.root (some path) × LeadsOut demo_handler.root (elsewhere path))
demo-same_canonical [] = inr ((λ rest e. cc), elsewhere-LeadsOut)
demo-same_canonical (r ∷ rest) = elim (Bool-cases (equal r (codes "/srv"))) [
  | inl hit ↦ inl (rw hit refl)
  | inr miss ↦
      let out : LeadsOut demo_handler.root (some (r ∷ rest)) =
        λ rest' e. cc ((equal_iff r (codes "/srv")).1 (cons-eq-cons.0 e).0) in
      inr (out, rw miss elsewhere-LeadsOut)
]

demo-AgreeInside : AgreeInside demo_handler.root demo_fs other_fs
unfolding program
demo-AgreeInside = record {
  same_paths = (refl, refl, refl);
  same_canonical = demo-same_canonical;
  same_files = λ rest. (refl, refl, refl, refl);
}

handle-AgreeInside_example :
    handle other_fs demo_handler index_request ≡ handle demo_fs demo_handler index_request
handle-AgreeInside_example =
    handle-AgreeInside demo_fs other_fs demo_handler index_request demo-AgreeInside

handle-Served_example :
    Served demo_fs demo_handler index_request (handle demo_fs demo_handler index_request)
unfolding program
handle-Served_example = handle-Served demo_fs demo_handler index_request refl

read_file-contents_example :
    read_file (some hello) 4
    ≡ (if hello.at_eof then within_limit 4 (contents hello.chunks) else none)
read_file-contents_example = read_file-contents hello 4 (omega arith)

demo-IsStable : IsStable demo_fs
demo-IsStable = record { reads_whole = λ path size e. (hello, refl, refl, ground arith) }

serialize_response-head_example :
    serialize_response demo_site.order (route_request demo_fs demo_handler index_request)
    ≡ serialize_response demo_site.order
        (route_request demo_fs demo_handler (record index_request { method = codes "HEAD" }))
      ++ (route_request demo_fs demo_handler index_request).body
serialize_response-head_example =
    serialize_response-head demo_fs demo_handler demo_site.order index_request
      (record index_request { method = codes "HEAD" }) demo-IsStable (omega arith) refl refl

read_from_socket-deadline_example :
    (read_from_socket demo_site read_turn opened).read_deadline ≡ opened.read_deadline
read_from_socket-deadline_example = read_from_socket-deadline demo_site read_turn opened refl

socket_timeout_example :
    ((5 ≤ 3) × (socket_timeout 5 3 ≡ none))
    ⊎ ((v : Timeval) × (socket_timeout 5 3 ≡ some v)
        × (3 < 5)
        × (0 < microseconds v)
        × (v.tv_usec < 1_000_000)
        × ((microseconds v ≡ 1) ⊎ (microseconds v * 1000 ≤ 5 - 3))
        × (5 - 3 < (microseconds v + 1) * 1000))
socket_timeout_example = socket_timeout_lem 5 3
