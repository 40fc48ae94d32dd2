-- ===== src/Legacy/Summary.antt =====
-- The statistics of legacy/myhttpd.cc are those of the requests that were counted; in a child of the
-- server nothing is counted.
use http_server.Prelude.{
  ℕ, ◌≡◌, ◌∙◌, refl, sym, subst, Bool, true, false, List, [], ◌∷◌, Option, none, some, Bytes, ◌++◌,
  take,
}
use http_server.Legacy.Sending.{Socket}
use http_server.Legacy.Target.{c_string, request_words}
use http_server.Legacy.Replies.{
  no_statistics, Process, Visit, Host, Reply, returned, counted, undefined, max_request_size,
}
use http_server.Legacy.Client.{finish, logged, handle_received, handle_client, answer_request}
use http_server.Legacy.Access.{logged-statistics}
use http_server.Legacy.Launch.{
  Round, Served, serve_iterative, serve_in_turn, serve_forking, serve_in_child, after_child,
  after_client, and_then, new_socket,
}
use http_server.Legacy.Observed.{Observed, Summarises, update-Summarises}

some_eq {ℓ} : {A : Type ℓ} {a b : A} → some a ≡ some b → a ≡ b
some_eq h = cc

not_served : {d : Served} → none ≡ some d → ⊥
not_served h = cc

-- The request that a reply adds to those counted: its URL and the time of its visit.
abbrev pub counted_by : ℕ → Reply → List Observed
counted_by ticks (returned s) = []
counted_by ticks (counted url s) = (url, ticks) ∷ []
counted_by ticks undefined = []

-- The request that a client adds who sent these bytes.
abbrev pub counted_among : Host → Visit → Process → Bytes → List Observed
counted_among host v p [] = []
counted_among host v p (c ∷ bytes) =
    let request = c_string (c ∷ bytes) in
    let p' = logged v (request_words request).url p in
    counted_by v.ticks (answer_request host v p' request new_socket)

-- The request that a round adds.
abbrev pub counted_in : Round → Option ℕ → Served → List Observed
counted_in r none d = []
counted_in r (some fd) d =
    counted_among r.host r.visit d.process (take max_request_size r.visit.received)

abbrev go_on : List Observed → Option Served → (Served → List Observed) → List Observed
go_on seen none next = seen
go_on seen (some d) next = next d

-- The requests that are counted over some rounds, the last one first, in front of those counted before.
unfoldable pub observed : List Round → Served → List Observed → List Observed
observed [] d seen = seen
observed (r ∷ rs) d seen =
    let seen' = counted_in r r.client_fd d ++ seen in
    go_on seen' (serve_in_turn r r.client_fd d) (λ d'. observed rs d' seen')

reply-Summarises :
    (v : Visit) (p : Process) (r : Reply) (out : Process × Socket) (seen : List Observed)
    → Summarises seen p.statistics
    → finish v p r ≡ some out
    → Summarises (counted_by v.ticks r ++ seen) out.0.statistics
reply-Summarises v p (returned s) out seen h e =
    subst (λ (o : Process × Socket). Summarises seen o.0.statistics) (some_eq e) h
reply-Summarises v p (counted url s) out seen h e =
    subst (λ (o : Process × Socket). Summarises ((url, v.ticks) ∷ seen) o.0.statistics) (some_eq e)
      (update-Summarises url v.ticks seen p.statistics h)
reply-Summarises v p undefined out seen h e = cc

received-Summarises :
    (host : Host) (v : Visit) (p : Process) (bytes : Bytes) (out : Process × Socket)
    (seen : List Observed)
    → Summarises seen p.statistics
    → handle_received host v p bytes new_socket ≡ some out
    → Summarises (counted_among host v p bytes ++ seen) out.0.statistics
received-Summarises host v p [] out seen h e =
    subst (λ (o : Process × Socket). Summarises seen o.0.statistics) (some_eq e) h
received-Summarises host v p (c ∷ bytes) out seen h e =
    let request = c_string (c ∷ bytes) in
    let p' = logged v (request_words request).url p in
    reply-Summarises v p' (answer_request host v p' request new_socket) out seen
      (subst (Summarises seen) (sym (logged-statistics v (request_words request).url p)) h) e

client-Summarises :
    (host : Host) (v : Visit) (p : Process) (out : Process × Socket) (seen : List Observed)
    → Summarises seen p.statistics
    → handle_client host v p new_socket ≡ some out
    → Summarises
        (counted_among host v p (take max_request_size v.received) ++ seen)
        out.0.statistics
unfolding handle_client
client-Summarises host v p out seen =
    received-Summarises host v p (take max_request_size v.received) out seen

round-Summarises :
    (r : Round) (fd : Option ℕ) (d d' : Served) (seen : List Observed)
    → Summarises seen d.process.statistics
    → serve_in_turn r fd d ≡ some d'
    → Summarises (counted_in r fd d ++ seen) d'.process.statistics
round-Summarises r none d d' seen h e =
    subst (λ (x : Served). Summarises seen x.process.statistics) (some_eq e) h
round-Summarises r (some fd) d d' seen h e =
    behind (handle_client r.host r.visit d.process new_socket) refl e
  where
    behind :
        (out : Option (Process × Socket))
        → handle_client r.host r.visit d.process new_socket ≡ out
        → after_client fd d.closed d.replies out ≡ some d'
        → Summarises (counted_in r (some fd) d ++ seen) d'.process.statistics
    behind none f g = absurd (not_served g)
    behind (some (p, s)) f g =
        subst (λ (x : Served). Summarises (counted_in r (some fd) d ++ seen) x.process.statistics)
          (some_eq g) (client-Summarises r.host r.visit d.process (p, s) seen h f)

run-Summarises :
    (rs : List Round) (d d' : Served) (seen : List Observed)
    → Summarises seen d.process.statistics
    → serve_iterative rs d ≡ some d'
    → Summarises (observed rs d seen) d'.process.statistics
unfolding serve_iterative observed
run-Summarises [] d d' seen h e =
    subst (λ (x : Served). Summarises seen x.process.statistics) (some_eq e) h
run-Summarises (r ∷ rs) d d' seen h e =
    behind (serve_in_turn r r.client_fd d) refl e
      (λ y. run-Summarises rs y d' (counted_in r r.client_fd d ++ seen))
  where
    behind :
        (x : Option Served)
        → serve_in_turn r r.client_fd d ≡ x
        → and_then x (λ y. serve_iterative rs y) ≡ some d'
        → ((y : Served)
            → Summarises (counted_in r r.client_fd d ++ seen) y.process.statistics
            → serve_iterative rs y ≡ some d'
            → Summarises (observed rs y (counted_in r r.client_fd d ++ seen)) d'.process.statistics)
        → Summarises
            (go_on
              (counted_in r r.client_fd d ++ seen)
              x
              (λ y. observed rs y (counted_in r r.client_fd d ++ seen)))
            d'.process.statistics
    behind none f g again = absurd (not_served g)
    behind (some y) f g again = again y (round-Summarises r r.client_fd d y seen h f) g

-- Before the first client.
abbrev pub at_start : Bytes → Served
at_start log = record {
  process = record { statistics = no_statistics; log = log };
  closed = [];
  replies = [];
}

-- In the mode of one client after another the statistics are those of the counted requests: after any
-- rounds that end with defined behaviour, take the requests that the rounds counted, each with the URL
-- under which handleClient came to its end and the time of its visit; their number is the total, and,
-- unless there is none, the least and the greatest of all their times stand in the statistics, each
-- with the URL of one of them that took that time; where there is none, both times are -1.
pub serve_iterative-Summarises :
    (rs : List Round) (log : Bytes) (d : Served)
    → serve_iterative rs (at_start log) ≡ some d
    → Summarises (observed rs (at_start log) []) d.process.statistics
serve_iterative-Summarises rs log d e =
    let none_yet : Summarises [] no_statistics = record { count = refl; extremes = (refl, refl) } in
    run-Summarises rs (at_start log) d [] none_yet e

child-statistics :
    (fd : ℕ) (d : Served) (out : Option (Process × Socket))
    → (after_child fd d out).process.statistics ≡ d.process.statistics
child-statistics fd d none = refl
child-statistics fd d (some (p, s)) = refl

forked-statistics :
    (r : Round) (forked : Bool) (fd : Option ℕ) (d : Served)
    → (serve_in_child r forked fd d).process.statistics ≡ d.process.statistics
forked-statistics r forked none d = refl
forked-statistics r true (some fd) d =
    child-statistics fd d (handle_client r.host r.visit d.process new_socket)
forked-statistics r false (some fd) d = refl

-- In the mode of one child for each client no request is ever counted, whatever the clients do.
pub serve_forking-statistics :
    (rs : List (Round × Bool)) (d : Served)
    → (serve_forking rs d).process.statistics ≡ d.process.statistics
unfolding serve_forking
serve_forking-statistics [] d = refl
serve_forking-statistics ((r, forked) ∷ rs) d =
    serve_forking-statistics rs (serve_in_child r forked r.client_fd d)
    ∙ forked-statistics r forked r.client_fd d
