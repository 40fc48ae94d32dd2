-- ===== src/Legacy/Launch.antt =====
-- `main` of legacy/myhttpd.cc: the arguments, the listening socket, the loops that handle one client
-- after another in this process or in a child of it.
use http_server.Prelude.{
  ℕ, zero, suc, ◌-◌, ◌%◌, ◌^◌, Bool, true, false, ◌&&◌, List, [], ◌∷◌, Option, none, some, Bytes,
  ◌==◌, if◌then◌else◌, ℤ, pos, negsuc,
}
use http_server.Number.{scan_digits}
use http_server.Legacy.Sending.{Socket}
use http_server.Legacy.Target.{skip_spaces}
use http_server.Legacy.Replies.{Process, Visit, Host}
use http_server.Legacy.Client.{handle_client}

abbrev pub minus : ℕ → ℤ
minus zero = pos 0
minus (suc n) = negsuc n

-- The digits behind an optional sign.
abbrev pub signed_digits : Bytes → ℤ
signed_digits [] = pos 0
signed_digits (c ∷ s) =
    if c == b'-'
    then minus (scan_digits s 0).0
    else if c == b'+'
    then pos (scan_digits s 0).0
    else pos (scan_digits (c ∷ s) 0).0

-- `atoi`, for a number that an `int` holds.
unfoldable pub atoi : Bytes → ℤ
atoi s = signed_digits (skip_spaces s)

-- `(unsigned short)port`.
unfoldable pub port_number : ℤ → ℕ
port_number (pos n) = n % 2 ^ 16
port_number (negsuc n) = (2 ^ 16 - 1) - n % 2 ^ 16

pub record Options : Type 0 where
  pub mode : ℕ
  pub port : ℤ

abbrev pub first_char : Bytes → ℕ
first_char [] = 0
first_char (c ∷ s) = c

abbrev pub port_after : List Bytes → ℤ
port_after [] = pos 42_069
port_after (port ∷ more) = atoi port

-- The arguments behind the name of the program. An argument `-` has the NUL that ends it for a mode.
unfoldable pub read_options : List Bytes → Options
unfolding atoi
read_options [] = record { mode = b'i'; port = pos 42_069 }
read_options ([] ∷ more) = record { mode = b'i'; port = atoi [] }
read_options ((c ∷ s) ∷ more) =
    if c == b'-'
    then record { mode = first_char s; port = port_after more }
    else record { mode = b'i'; port = atoi (c ∷ s) }

-- What `socket`, `setsockopt`, `bind` and `listen` answer.
pub record SocketCalls : Type 0 where
  pub opened : Option ℕ
  pub reusable : Bool
  pub bound : Bool
  pub listening : Bool

-- The listening socket, or none, and the closed descriptors.
abbrev pub opened_socket : SocketCalls → Option ℕ → List ℕ → Option ℕ × List ℕ
opened_socket calls none closed = (none, closed)
opened_socket calls (some master) closed =
    if calls.reusable && calls.bound && calls.listening
    then (some master, closed)
    else (none, master ∷ closed)

unfoldable pub open_socket : SocketCalls → List ℕ → Option ℕ × List ℕ
open_socket calls closed = opened_socket calls calls.opened closed

-- A round of an accepting loop: the descriptor that `accept` returns, if it does, and the client.
pub record Round : Type 0 where
  pub client_fd : Option ℕ
  pub visit : Visit
  pub host : Host

abbrev pub new_socket : Socket
new_socket = record { taken = []; calls = 0 }

-- What a loop has done: the process, the descriptors that it closed, what each client was sent.
pub record Served : Type 0 where
  pub process : Process
  pub closed : List ℕ
  pub replies : List Bytes

abbrev pub after_client : ℕ → List ℕ → List Bytes → Option (Process × Socket) → Option Served
after_client fd closed replies none = none
after_client fd closed replies (some (p, s)) =
    some (record { process = p; closed = fd ∷ closed; replies = s.taken ∷ replies })

-- Mode `i`: a round in this process. Where `accept` fails the loop goes on.
abbrev pub serve_in_turn : Round → Option ℕ → Served → Option Served
serve_in_turn r none d = some d
serve_in_turn r (some fd) d =
    after_client fd d.closed d.replies (handle_client r.host r.visit d.process new_socket)

abbrev pub and_then : Option Served → (Served → Option Served) → Option Served
and_then none f = none
and_then (some d) f = f d

-- The loop of mode `i` over some rounds; `none` where the behaviour is undefined.
unfoldable pub serve_iterative : List Round → Served → Option Served
serve_iterative [] d = some d
serve_iterative (r ∷ rs) d = and_then (serve_in_turn r r.client_fd d) (λ d'. serve_iterative rs d')

-- Mode `f`: the child handles the client on a copy of the globals, and only its log line stays.
abbrev pub after_child : ℕ → Served → Option (Process × Socket) → Served
after_child fd d none = record d { closed = fd ∷ d.closed }
after_child fd d (some (p, s)) = record {
  process = record d.process { log = p.log };
  closed = fd ∷ d.closed;
  replies = s.taken ∷ d.replies;
}

-- A round of mode `f`; `forked` tells whether `fork` succeeds. The parent closes its descriptor.
abbrev pub serve_in_child : Round → Bool → Option ℕ → Served → Served
serve_in_child r forked none d = d
serve_in_child r true (some fd) d =
    after_child fd d (handle_client r.host r.visit d.process new_socket)
serve_in_child r false (some fd) d = record d { closed = fd ∷ d.closed }

-- The loop of mode `f`, each child ending before the next client comes.
unfoldable pub serve_forking : List (Round × Bool) → Served → Served
serve_forking [] d = d
serve_forking ((r, forked) ∷ rs) d = serve_forking rs (serve_in_child r forked r.client_fd d)
