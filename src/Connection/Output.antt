-- ===== src/Connection/Output.antt =====
-- What the peer receives: the responses, each byte once and in order.
use http_server.Prelude.{
  ℕ, zero, suc, ◌+◌, ◌&&◌, List, [], ◌∷◌, ◌++◌, ◌≡◌, refl, ap, sym, ◌∙◌, subst, arith, Bytes, ltb,
  ◌==◌, length, take, drop, drop-nil, drop-drop, take-append-drop, take-all, length-drop,
  Bool-cases, inl, inr, append_assoc, append-nil,
}
use http_server.Parser.{
  HttpParser, ParseResult, need_more_data, request_ready, error, next, buffered_bytes,
}
use http_server.Connection.{
  State, reading, parsing, writing, closed, ReadPhase, in_request, in_keep_alive,
  ConnectionEndReason, Connection, Site, eintr, eagain, other, Outcome, done, failed, finish,
  begin_request_timeout, begin_keep_alive_timeout, queue_response,
}
use http_server.Connection.Turns.{
  Turn, read_timed_out, take_bytes, received_in, read_armed, read_from_socket, answer_request,
  in_keep_alive_phase, parsed_in, parse_request, response_written, sent_bytes, sent_in, write_armed,
  write_to_socket, round_in, serve, advanced,
}
use http_server.Connection.Validity.{IsValid, StateInv, AllFit, round_in-IsValid}

-- The bytes of the pending response that are still to be sent.
abbrev pub owed : Connection → Bytes
owed c = drop c.write_offset c.pending_response

-- The response that stands in a state where one is to be written.
abbrev fresh : State → Bytes → Bytes
fresh reading pending = []
fresh parsing pending = []
fresh writing pending = pending
fresh closed pending = []

-- The response that a round queues: one that begins outside `writing` and ends in it.
abbrev queued : State → Connection → Bytes
queued reading c = fresh c.state c.pending_response
queued parsing c = fresh c.state c.pending_response
queued writing c = []
queued closed c = []

-- The responses that the rounds of `serve` queue, one behind the other.
pub responses : Site → List Turn → Connection → Bytes
responses site [] c = []
responses site (t ∷ turns) c =
    let c' = (round_in c.state site t c).0 in queued c.state c' ++ responses site turns c'

-- All that is owed is a response that was queued just now.
abbrev IsFresh : Connection → Type 0
IsFresh c = owed c ≡ fresh c.state c.pending_response

nothing_owed : (c : Connection) → c.pending_response ≡ [] → owed c ≡ []
nothing_owed c e = ap (drop c.write_offset) e ∙ drop-nil c.write_offset

module _ (site : Site) where
  finish-IsFresh :
      (reason : ConnectionEndReason) (c : Connection)
      → c.pending_response ≡ []
      → IsFresh (finish reason c)
  unfolding finish
  finish-IsFresh reason c e = nothing_owed c e

  read_timed_out-IsFresh :
      (t : Turn) (phase : ReadPhase) (c : Connection)
      → c.pending_response ≡ []
      → IsFresh (read_timed_out site t phase c)
  unfolding read_timed_out queue_response
  read_timed_out-IsFresh t in_keep_alive c e = finish-IsFresh _ c e
  read_timed_out-IsFresh t in_request c e = refl

  take_bytes-IsFresh :
      (t : Turn) (bytes : Bytes) (c : Connection)
      → c.pending_response ≡ []
      → IsFresh (take_bytes t bytes c)
  unfolding take_bytes begin_request_timeout
  take_bytes-IsFresh t [] c e = finish-IsFresh _ c e
  take_bytes-IsFresh t (b ∷ bytes) c e = ground (arith, drop-nil {A = ℕ} c.write_offset)

  received_in-IsFresh :
      (t : Turn) (o : Outcome Bytes) (c : Connection)
      → c.state ≡ reading
      → c.pending_response ≡ []
      → IsFresh (received_in site t o c)
  received_in-IsFresh t (done bytes) c s e = take_bytes-IsFresh t bytes c e
  received_in-IsFresh t (failed eintr) c s e =
      subst (λ st. owed c ≡ fresh st c.pending_response) (sym s) (nothing_owed c e)
  received_in-IsFresh t (failed eagain) c s e = read_timed_out-IsFresh t c.read_phase c e
  received_in-IsFresh t (failed other) c s e = finish-IsFresh _ c e

  read_armed-IsFresh :
      (t : Turn) (o : Outcome (Unit {0})) (c : Connection)
      → c.state ≡ reading
      → c.pending_response ≡ []
      → IsFresh (read_armed site t o c)
  read_armed-IsFresh t (done u) c s e = received_in-IsFresh t t.received c s e
  read_armed-IsFresh t (failed eagain) c s e = read_timed_out-IsFresh t c.read_phase c e
  read_armed-IsFresh t (failed eintr) c s e = finish-IsFresh _ c e
  read_armed-IsFresh t (failed other) c s e = finish-IsFresh _ c e

  parsed_in-IsFresh :
      (t : Turn) (c : Connection) (r : HttpParser × ParseResult)
      → c.pending_response ≡ []
      → IsFresh (parsed_in site t c r)
  unfolding answer_request queue_response
  parsed_in-IsFresh t c (parser, need_more_data) e = nothing_owed c e
  parsed_in-IsFresh t c (parser, request_ready request) e = refl
  parsed_in-IsFresh t c (parser, error why kind) e = refl

  parse_request-IsFresh :
      (t : Turn) (c : Connection) → c.pending_response ≡ [] → IsFresh (parse_request site t c)
  unfolding parse_request begin_request_timeout
  parse_request-IsFresh t c e =
      elim (Bool-cases (in_keep_alive_phase c.read_phase && ltb 0 (buffered_bytes c.parser))) [
        | inl waiting ↦
            rw waiting (parsed_in-IsFresh t (begin_request_timeout t.now c) (next c.parser) e)
        | inr running ↦ rw running (parsed_in-IsFresh t c (next c.parser) e)
      ]

  -- A round in `writing` moves bytes from the front of what is owed to the socket.
  response_written-owed : (t : Turn) (c : Connection) → owed (response_written t c) ≡ []
  unfolding response_written finish begin_keep_alive_timeout
  response_written-owed t c = elim (Bool-cases c.close_after_write) [
    | inl close ↦ rw close refl
    | inr keep ↦ rw keep refl
  ]

  take-owed :
      (n : ℕ) (c : Connection)
      → take n (owed c) ++ drop (c.write_offset + n) c.pending_response ≡ owed c
  take-owed n c = rw (← drop-drop c.write_offset n c.pending_response) (take-append-drop n (owed c))

  sent_bytes-owed :
      (t : Turn) (n : ℕ) (c : Connection)
      → (sent_bytes t n c).1 ++ owed (sent_bytes t n c).0 ≡ owed c
  unfolding sent_bytes finish
  sent_bytes-owed t zero c = refl
  sent_bytes-owed t (suc n) c =
      elim (Bool-cases (c.write_offset + suc n == length c.pending_response)) [
        | inl complete ↦
            rw (complete, response_written-owed t (advanced (suc n) c), append-nil)
              (take-all (suc n) (owed c)
                (ground (arith, length-drop c.write_offset c.pending_response)))
        | inr partial ↦ rw partial (take-owed (suc n) c)
      ]

  sent_in-owed :
      (t : Turn) (o : Outcome ℕ) (c : Connection)
      → (sent_in t o c).1 ++ owed (sent_in t o c).0 ≡ owed c
  unfolding finish
  sent_in-owed t (done n) c = sent_bytes-owed t n c
  sent_in-owed t (failed eintr) c = refl
  sent_in-owed t (failed eagain) c = refl
  sent_in-owed t (failed other) c = refl

  write_armed-owed :
      (t : Turn) (o : Outcome (Unit {0})) (c : Connection)
      → (write_armed t o c).1 ++ owed (write_armed t o c).0 ≡ owed c
  unfolding finish
  write_armed-owed t (done u) c = sent_in-owed t t.sent c
  write_armed-owed t (failed eagain) c = refl
  write_armed-owed t (failed eintr) c = refl
  write_armed-owed t (failed other) c = refl

  round_in-owed :
      (st : State) (t : Turn) (c : Connection)
      → c.state ≡ st
      → StateInv st c
      → (round_in st site t c).1 ++ owed (round_in st site t c).0
        ≡ owed c ++ queued st (round_in st site t c).0
  unfolding round_in read_from_socket write_to_socket
  round_in-owed reading t c e v =
      read_armed-IsFresh t _ c e v.0
      ∙ ap (λ s. s ++ queued reading (round_in reading site t c).0) (sym (nothing_owed c v.0))
  round_in-owed parsing t c e v =
      parse_request-IsFresh t c v.0
      ∙ ap (λ s. s ++ queued parsing (round_in parsing site t c).0) (sym (nothing_owed c v.0))
  round_in-owed writing t c e v = write_armed-owed t _ c ∙ sym (append-nil (owed c))
  round_in-owed closed t c e v = sym (append-nil (owed c))

  -- What the socket took, followed by what is still owed, is what was owed at first, followed by the
  -- responses queued on the way: no byte of a response is lost, repeated or put out of order.
  pub serve-responses :
      (turns : List Turn) (c : Connection)
      → IsValid c
      → AllFit site turns c
      → (serve site turns c).1 ++ owed (serve site turns c).0 ≡ owed c ++ responses site turns c
  unfolding serve responses
  serve-responses [] c v fits = sym (append-nil (owed c))
  serve-responses (t ∷ turns) c v fits =
      let (c', out) = round_in c.state site t c in
      let (c'', more) = serve site turns c' in
      let v' = round_in-IsValid site c.state t c refl v fits.0 in
      append_assoc out more (owed c'')
      ∙ ap (◌++◌ out) (serve-responses turns c' v' fits.1)
      ∙ sym (append_assoc out (owed c') (responses site turns c'))
      ∙ ap (λ s. s ++ responses site turns c') (round_in-owed c.state t c refl v.in_state)
      ∙ append_assoc (owed c) (queued c.state c') (responses site turns c')
