-- ===== src/Connection/Validity.antt =====
-- What holds of a connection between two rounds of `serve`.
use http_server.Prelude.{
  ℕ, zero, suc, ◌+◌, ◌≤◌, ◌<◌, Bool, true, false, ◌&&◌, List, [], ◌∷◌, ◌++◌, ◌≡◌, refl, arith,
  Bytes, ltb, ◌==◌, Bool-cases, inl, inr, subst, sym, length, add_size_fits, size_limit,
  length-append, some,
}
use http_server.Parser.{
  HttpParser, ParseResult, need_more_data, request_ready, error, next, buffered_bytes,
}
use http_server.Response.{HttpResponse, serialize_response, serialize_head}
use http_server.Request.{HttpRequest, Headers}
use http_server.Connection.{
  State, reading, parsing, writing, closed, ReadPhase, in_request, in_keep_alive,
  ConnectionEndReason, Connection, ConnectionConfig, Site, eintr, create, eagain, other, Outcome,
  done, failed, finish, begin_request_timeout, begin_keep_alive_timeout, queue_response,
}
use http_server.Connection.Turns.{
  Turn, read_timed_out, take_bytes, received_in, read_armed, read_from_socket, answer_request,
  in_keep_alive_phase, parsed_in, parse_request, response_written, sent_bytes, sent_in, write_armed,
  write_to_socket, round_in, serve, advanced,
}

-- In `writing` a byte is left to send; elsewhere no response is pending. Another request is read only
-- while the limit leaves room for one.
abbrev pub StateInv : State → Connection → Type 0
StateInv reading c = (c.pending_response ≡ []) × (c.result.requests_served < c.config.max_requests)
StateInv parsing c = (c.pending_response ≡ []) × (c.result.requests_served < c.config.max_requests)
StateInv writing c =
    (c.write_offset < length c.pending_response)
    × (c.close_after_write ≡ false → c.result.requests_served < c.config.max_requests)
StateInv closed c = Unit {0}

pub record IsValid (c : Connection) : Type 0 where
  pub limit_fits : c.config.max_requests < size_limit
  pub within_limit : c.result.requests_served ≤ c.config.max_requests
  pub in_state : StateInv c.state c

-- `send` takes no more than it is given.
abbrev pub SendFits : Turn → Connection → Type 0
SendFits t c = (n : ℕ) → t.sent ≡ done n → c.write_offset + n ≤ length c.pending_response

abbrev pub AllFit : Site → List Turn → Connection → Type 0
AllFit site [] c = Unit {0}
AllFit site (t ∷ turns) c = SendFits t c × AllFit site turns (round_in c.state site t c).0

length-append_pos : (a b : Bytes) → 0 < length a → 0 < length (a ++ b)
length-append_pos a b h = omega (arith, length-append a b)

length-middle_pos : (a : Bytes) (c : ℕ) (b : Bytes) → 0 < length (a ++ c ∷ b)
length-middle_pos a c b = omega (arith, length-append a (c ∷ b))

pub serialize_response-pos :
    (order : Headers → Headers) (r : HttpResponse) → 0 < length (serialize_response order r)
unfolding serialize_response serialize_head
serialize_response-pos order r =
    length-append_pos (serialize_head order r) _ (length-middle_pos r.version b' ' _)

create-IsValid :
    (valid : Bool) (config : ConnectionConfig) (now : ℕ) (c : Connection)
    → config.max_requests < size_limit
    → create valid config now ≡ some c
    → IsValid c
unfolding create
create-IsValid valid config now c h e = ground arith

module _ (site : Site) where
  finish-IsValid :
      (reason : ConnectionEndReason) (c : Connection)
      → c.config.max_requests < size_limit
      → c.result.requests_served ≤ c.config.max_requests
      → IsValid (finish reason c)
  unfolding finish
  finish-IsValid reason c h k = record { limit_fits = h; within_limit = k; in_state = tt }

  queue_response-IsValid :
      (now : ℕ) (response : HttpResponse) (keep_alive : Bool) (reason : ConnectionEndReason)
      (c : Connection)
      → c.config.max_requests < size_limit
      → c.result.requests_served ≤ c.config.max_requests
      → (keep_alive ≡ true → c.result.requests_served < c.config.max_requests)
      → IsValid (queue_response site now response keep_alive reason c)
  unfolding queue_response
  queue_response-IsValid now response keep_alive reason c h k room = record {
    limit_fits = h;
    within_limit = k;
    in_state = (serialize_response-pos site.order _, λ e. room (ground arith));
  }

  read_timed_out-IsValid :
      (t : Turn) (phase : ReadPhase) (c : Connection)
      → IsValid c
      → IsValid (read_timed_out site t phase c)
  unfolding read_timed_out
  read_timed_out-IsValid t in_keep_alive c v = finish-IsValid _ c v.limit_fits v.within_limit
  read_timed_out-IsValid t in_request c v =
      queue_response-IsValid _ _ false _ c v.limit_fits v.within_limit (λ e. cc)

  answer_request-IsValid :
      (t : Turn) (request : HttpRequest) (c : Connection)
      → c.config.max_requests < size_limit
      → c.result.requests_served < c.config.max_requests
      → IsValid (answer_request site t request c)
  unfolding answer_request
  answer_request-IsValid t request c h k =
      let served = add_size_fits c.result.requests_served 1 (omega arith) in
      queue_response-IsValid _ _ _ _ _ h (omega (arith, served)) (λ e. ground (arith, served))

  take_bytes-IsValid :
      (t : Turn) (bytes : Bytes) (c : Connection)
      → IsValid c
      → StateInv reading c
      → IsValid (take_bytes t bytes c)
  unfolding take_bytes begin_request_timeout
  take_bytes-IsValid t [] c v s = finish-IsValid _ c v.limit_fits v.within_limit
  take_bytes-IsValid t (b ∷ bytes) c v s = ground arith

  received_in-IsValid :
      (t : Turn) (o : Outcome Bytes) (c : Connection)
      → IsValid c
      → StateInv reading c
      → IsValid (received_in site t o c)
  received_in-IsValid t (done bytes) c v s = take_bytes-IsValid t bytes c v s
  received_in-IsValid t (failed eintr) c v s = v
  received_in-IsValid t (failed eagain) c v s = read_timed_out-IsValid t c.read_phase c v
  received_in-IsValid t (failed other) c v s = finish-IsValid _ c v.limit_fits v.within_limit

  read_armed-IsValid :
      (t : Turn) (o : Outcome (Unit {0})) (c : Connection)
      → IsValid c
      → StateInv reading c
      → IsValid (read_armed site t o c)
  read_armed-IsValid t (done u) c v s = received_in-IsValid t t.received c v s
  read_armed-IsValid t (failed eagain) c v s = read_timed_out-IsValid t c.read_phase c v
  read_armed-IsValid t (failed eintr) c v s = finish-IsValid _ c v.limit_fits v.within_limit
  read_armed-IsValid t (failed other) c v s = finish-IsValid _ c v.limit_fits v.within_limit

  parsed_in-IsValid :
      (t : Turn) (c : Connection) (r : HttpParser × ParseResult)
      → c.config.max_requests < size_limit
      → StateInv parsing c
      → IsValid (parsed_in site t c r)
  parsed_in-IsValid t c (parser, need_more_data) h s = record {
    limit_fits = h;
    within_limit = omega arith;
    in_state = s;
  }
  parsed_in-IsValid t c (parser, request_ready request) h s =
      answer_request-IsValid t request (record c { parser = parser }) h s.1
  parsed_in-IsValid t c (parser, error why kind) h s =
      queue_response-IsValid _ _ false _ (record c { parser = parser }) h (omega arith) (λ e. cc)

  parse_request-IsValid :
      (t : Turn) (c : Connection)
      → c.config.max_requests < size_limit
      → StateInv parsing c
      → IsValid (parse_request site t c)
  unfolding parse_request begin_request_timeout
  parse_request-IsValid t c h s =
      elim (Bool-cases (in_keep_alive_phase c.read_phase && ltb 0 (buffered_bytes c.parser))) [
        | inl waiting ↦
            rw waiting (parsed_in-IsValid t (begin_request_timeout t.now c) (next c.parser) h s)
        | inr running ↦ rw running (parsed_in-IsValid t c (next c.parser) h s)
      ]

  response_written-IsValid :
      (t : Turn) (c : Connection)
      → c.config.max_requests < size_limit
      → c.result.requests_served ≤ c.config.max_requests
      → (c.close_after_write ≡ false → c.result.requests_served < c.config.max_requests)
      → IsValid (response_written t c)
  unfolding response_written begin_keep_alive_timeout finish
  response_written-IsValid t c h k room = ground arith

  sent_bytes-IsValid :
      (t : Turn) (n : ℕ) (c : Connection)
      → IsValid c
      → c.state ≡ writing
      → StateInv writing c
      → c.write_offset + n ≤ length c.pending_response
      → IsValid (sent_bytes t n c).0
  unfolding sent_bytes
  sent_bytes-IsValid t zero c v e s fits = finish-IsValid _ c v.limit_fits v.within_limit
  sent_bytes-IsValid t (suc n) c v e s fits =
      elim (Bool-cases (c.write_offset + suc n == length c.pending_response)) [
        | inl complete ↦
            rw complete
              (response_written-IsValid t (advanced (suc n) c) v.limit_fits v.within_limit s.1)
        | inr partial ↦ rw partial (record {
          limit_fits = v.limit_fits;
          within_limit = v.within_limit;
          in_state = subst (λ st. StateInv st (advanced (suc n) c)) (sym e) (ground arith, s.1);
        })
      ]

  sent_in-IsValid :
      (t : Turn) (o : Outcome ℕ) (c : Connection)
      → IsValid c
      → c.state ≡ writing
      → StateInv writing c
      → ((n : ℕ) → o ≡ done n → c.write_offset + n ≤ length c.pending_response)
      → IsValid (sent_in t o c).0
  sent_in-IsValid t (done n) c v e s fits = sent_bytes-IsValid t n c v e s (fits n refl)
  sent_in-IsValid t (failed eintr) c v e s fits = v
  sent_in-IsValid t (failed eagain) c v e s fits = finish-IsValid _ c v.limit_fits v.within_limit
  sent_in-IsValid t (failed other) c v e s fits = finish-IsValid _ c v.limit_fits v.within_limit

  write_armed-IsValid :
      (t : Turn) (o : Outcome (Unit {0})) (c : Connection)
      → IsValid c
      → c.state ≡ writing
      → StateInv writing c
      → SendFits t c
      → IsValid (write_armed t o c).0
  write_armed-IsValid t (done u) c v e s fits = sent_in-IsValid t t.sent c v e s fits
  write_armed-IsValid t (failed eagain) c v e s fits =
      finish-IsValid _ c v.limit_fits v.within_limit
  write_armed-IsValid t (failed eintr) c v e s fits = finish-IsValid _ c v.limit_fits v.within_limit
  write_armed-IsValid t (failed other) c v e s fits = finish-IsValid _ c v.limit_fits v.within_limit

  pub round_in-IsValid :
      (st : State) (t : Turn) (c : Connection)
      → c.state ≡ st
      → IsValid c
      → SendFits t c
      → IsValid (round_in st site t c).0
  unfolding round_in read_from_socket write_to_socket
  round_in-IsValid reading t c e v fits =
      read_armed-IsValid t _ c v (subst (λ st. StateInv st c) e v.in_state)
  round_in-IsValid parsing t c e v fits =
      parse_request-IsValid t c v.limit_fits (subst (λ st. StateInv st c) e v.in_state)
  round_in-IsValid writing t c e v fits =
      write_armed-IsValid t _ c v e (subst (λ st. StateInv st c) e v.in_state) fits
  round_in-IsValid closed t c e v fits = v

  -- Every round of `serve` keeps the connection valid, whatever the peer, the clock and the system
  -- calls do: in particular no connection is served more than `max_requests` requests.
  pub serve-IsValid :
      (turns : List Turn) (c : Connection)
      → IsValid c
      → AllFit site turns c
      → IsValid (serve site turns c).0
  unfolding serve
  serve-IsValid [] c v fits = v
  serve-IsValid (t ∷ turns) c v fits =
      serve-IsValid turns (round_in c.state site t c).0 (round_in-IsValid c.state t c refl v fits.0)
        fits.1
