-- ===== src/Legacy/Access.antt =====
-- What a client of legacy/myhttpd.cc gets without the token.
use http_server.Prelude.{
  ℕ, ◌≡◌, ◌∙◌, refl, sym, ap, [], ◌∷◌, ◌++◌, Option, none, some, Bytes, take, length, find_text,
  arith, Bool-cases, inl, inr, append-nil, ℤ, take-all,
}
use http_server.Legacy.Sending.{Socket, send_all, SendsFrom, send_all-SendsFrom}
use http_server.Legacy.Target.{c_string, request_words}
use http_server.Legacy.Replies.{
  Process, Visit, Host, returned, max_request_size, authorization, unauthorized,
}
use http_server.Legacy.Client.{handle_received, handle_client, answer_request, logged, finish}

-- The text that `handleClient` looks at.
abbrev pub request_of : Visit → Bytes
request_of v = c_string (take max_request_size v.received)

part_sent :
    (buf : Bytes) (s : Socket) (out : ℤ × Socket)
    → SendsFrom 0 buf s out
    → (k : ℕ) × (out.1.taken ≡ s.taken ++ take k buf)
part_sent buf s (r, s') (inl (e, all)) = (
  length buf,
  all ∙ ap (λ (l : Bytes). s.taken ++ l) (sym (take-all (length buf) buf (omega arith))),
)
part_sent buf s (r, s') (inr (stop, (k, short, part))) = (k, part)

-- The outcome of an unauthorized request: a socket that took a part of the answer 401 at most, and
-- statistics as they were.
abbrev pub IsRefused : Process → Socket → Socket → Option (Process × Socket) → Type 0
IsRefused p s s' out = (q : Process) × (out ≡ some (q, s')) × (q.statistics ≡ p.statistics)

pub logged-statistics :
    (v : Visit) (url : Bytes) (p : Process) → (logged v url p).statistics ≡ p.statistics
unfolding logged
logged-statistics v url p = elim (Bool-cases v.log_writable) [
  | inl writable ↦ rw writable refl
  | inr unwritable ↦ rw unwritable refl
]

refused :
    (host : Host) (v : Visit) (p : Process) (request : Bytes) (s : Socket)
    → find_text authorization request ≡ none
    → answer_request host v p request s ≡ returned (send_all v.answer unauthorized s).1
unfolding answer_request
refused host v p request s no_token = rw no_token refl

received-IsRefused :
    (host : Host) (v : Visit) (p : Process) (c : ℕ) (bytes : Bytes) (s : Socket)
    → find_text authorization (c_string (c ∷ bytes)) ≡ none
    → IsRefused p s (send_all v.answer unauthorized s).1 (handle_received host v p (c ∷ bytes) s)
received-IsRefused host v p c bytes s no_token =
    let url = (request_words (c_string (c ∷ bytes))).url in
    (
      logged v url p,
      ap (finish v (logged v url p))
          (refused host v (logged v url p) (c_string (c ∷ bytes)) s no_token),
      logged-statistics v url p,
    )

both-IsRefused :
    (host host' : Host) (v : Visit) (p p' : Process) (bytes : Bytes) (s : Socket)
    → find_text authorization (c_string bytes) ≡ none
    → (s' : Socket) × (k : ℕ) × (s'.taken ≡ s.taken ++ take k unauthorized)
      × IsRefused p s s' (handle_received host v p bytes s)
      × IsRefused p' s s' (handle_received host' v p' bytes s)
both-IsRefused host host' v p p' [] s no_token =
    (s, 0, sym (append-nil s.taken), (p, refl, refl), (p', refl, refl))
both-IsRefused host host' v p p' (c ∷ bytes) s no_token =
    let (k, part) =
      part_sent unauthorized s (send_all v.answer unauthorized s)
        (send_all-SendsFrom v.answer unauthorized s) in
    (
      (send_all v.answer unauthorized s).1,
      k,
      part,
      received-IsRefused host v p c bytes s no_token,
      received-IsRefused host' v p' c bytes s no_token,
    )

-- A request without the token learns nothing: over any two hosts and any two states of the process,
-- whatever their files, scripts, logs and statistics, the socket takes the same bytes, which are the
-- answer 401 or a part of it in front, and the statistics stay as they were.
pub handle_client-IsRefused :
    (host host' : Host) (v : Visit) (p p' : Process) (s : Socket)
    → find_text authorization (request_of v) ≡ none
    → (s' : Socket) × (k : ℕ) × (s'.taken ≡ s.taken ++ take k unauthorized)
      × IsRefused p s s' (handle_client host v p s)
      × IsRefused p' s s' (handle_client host' v p' s)
unfolding handle_client
handle_client-IsRefused host host' v p p' s no_token =
    both-IsRefused host host' v p p' (take max_request_size v.received) s no_token
