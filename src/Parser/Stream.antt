-- ===== src/Parser/Stream.antt =====
-- `HttpParser` on a stream: what `next` takes out of the buffer where it returns a request, and
-- that it returns the same request whatever bytes stand behind.
pub mod Fragments
use http_server.Prelude.{
  ℕ, ◌+◌, ◌-◌, ◌≤◌, ◌<◌, Bool, true, false, List, [], ◌∷◌, ◌++◌, append_assoc, Option, none, some,
  ◌≡◌, ◌≢◌, refl, ap, sym, ◌∙◌, ◌⊎◌, inl, inr, arith, ltb, ltb→lt, ltb→le, le→ltb, lt→ltb,
  if◌then◌else◌, Bool-cases, Option-cases, Bytes, codes, find_text, find_text-le, find_text-append,
  find_text-splits, length, length-append, length-take, length-drop, take, drop, take-append_le,
  drop-append_le, take-append-drop, drop-drop, subst, append-nil, take-append,
}
use http_server.Request.{HttpRequest}
use http_server.Parser.Outcome.{Parsed, Refusal, ok, refuse, error_kind, headers_too_long}
use http_server.Parser.Head.{read_head}
use http_server.Parser.{
  HttpParser, ParseResult, need_more_data, request_ready, error, parse_error, feed, take_request,
  next_at, next,
}

abbrev pub head_end : Bytes
head_end = codes "\r\n\r\n"

Parsed-cases {ℓ} :
    {A : Type ℓ} (m : Parsed A) → ((a : A) × (m ≡ ok a)) ⊎ ((e : Refusal) × (m ≡ refuse e))
Parsed-cases (ok a) = inl (a, refl)
Parsed-cases (refuse e) = inr (e, refl)

-- What `next` found when it returned a request.
record Ready (p q : HttpParser) (r : HttpRequest) : Type 0 where
  header_end : ℕ
  request : HttpRequest
  content_length : ℕ
  found : find_text head_end p.buffer ≡ some header_end
  in_limit : header_end ≤ p.max_header_bytes
  head : read_head p.max_body_bytes (take header_end p.buffer) ≡ ok (request, content_length)
  complete : content_length ≤ length p.buffer - (header_end + 4)
  result : r ≡ record request { body = take content_length (drop (header_end + 4) p.buffer) }
  rest : q ≡ record p { buffer = drop (header_end + 4 + content_length) p.buffer }

next-Ready : (p q : HttpParser) (r : HttpRequest) → next p ≡ (q, request_ready r) → Ready p q r
unfolding next
next-Ready p q r h = elim (Option-cases (find_text head_end p.buffer)) [
  | inl e ↦ ground arith
  | inr (i, e) ↦ elim (Parsed-cases (read_head p.max_body_bytes (take i p.buffer))) [
    | inl ((request, content_length), e') ↦ record {
      header_end = i;
      request = request;
      content_length = content_length;
      found = e;
      in_limit = ground arith;
      head = e';
      complete = ground arith;
      result = ground arith;
      rest = ground arith;
    }
    | inr (why, e') ↦ ground arith
  ]
]

Ready-next : (p q : HttpParser) (r : HttpRequest) → Ready p q r → next p ≡ (q, request_ready r)
unfolding next
Ready-next p q r h =
    rw
      (
        h.found,
        le→ltb p.max_header_bytes h.header_end h.in_limit,
        h.head,
        le→ltb (length p.buffer - (h.header_end + 4)) h.content_length h.complete,
        h.result,
        h.rest,
      )
      refl

-- How the buffer splits: the head, the empty line, the body, and the rest.
pub record Consumed (p q : HttpParser) (r : HttpRequest) : Type 0 where
  pub head : Bytes
  pub split : p.buffer ≡ head ++ (head_end ++ (r.body ++ q.buffer))
  pub head_bounded : length head ≤ p.max_header_bytes
  pub first_end : find_text head_end p.buffer ≡ some (length head)
  pub framed :
      (request : HttpRequest) × (read_head p.max_body_bytes head ≡ ok (request, length r.body))
      × (r ≡ record request { body = r.body })
  pub same_limits :
      (q.max_header_bytes ≡ p.max_header_bytes) × (q.max_body_bytes ≡ p.max_body_bytes)

-- When `next` returns a request it takes exactly that request out of the buffer: the buffer was a head
-- without an earlier empty line, the empty line, the body of the request and what is left; the body has
-- the length that the head declares, and the head is within the limit.
pub next-Consumed :
    (p q : HttpParser) (r : HttpRequest) → next p ≡ (q, request_ready r) → Consumed p q r
next-Consumed p q r h =
    let s = next-Ready p q r h in
    let at_end = find_text-le head_end p.buffer s.found in
    let rest = drop (s.header_end + 4) p.buffer in
    let size : length (take s.content_length rest) ≡ s.content_length = omega (
      arith,
      length-take s.content_length rest,
      length-drop (s.header_end + 4) p.buffer,
      s.complete,
    ) in
    let head_size : length (take s.header_end p.buffer) ≡ s.header_end =
      omega (arith, length-take s.header_end p.buffer, at_end) in
    let body : r.body ≡ take s.content_length rest = ap (λ z. z.body) s.result in
    let left : q.buffer ≡ drop s.content_length rest =
      ap (λ z. z.buffer) s.rest ∙ sym (drop-drop (s.header_end + 4) s.content_length p.buffer) in
    let body_size : length r.body ≡ s.content_length = rw body size in
    record {
      head = take s.header_end p.buffer;
      split =
          rw (body, left, take-append-drop s.content_length rest)
            (find_text-splits head_end p.buffer s.found);
      head_bounded = omega (arith, head_size, s.in_limit);
      first_end = rw head_size s.found;
      framed = (
        s.request,
        rw body_size s.head,
        s.result ∙ sym (ap (λ z. record s.request { body = z }) body),
      );
      same_limits = (ap (λ z. z.max_header_bytes) s.rest, ap (λ z. z.max_body_bytes) s.rest);
    }

-- A request that is complete is read in the same way, whatever bytes follow it: they stay behind it
-- in the buffer.
pub next-feed_ready :
    (p q : HttpParser) (r : HttpRequest) (more : Bytes)
    → next p ≡ (q, request_ready r)
    → next (feed p more) ≡ (feed q more, request_ready r)
unfolding feed
next-feed_ready p q r more h =
    let s = next-Ready p q r h in
    let at_end = find_text-le head_end p.buffer s.found in
    Ready-next (feed p more) (feed q more) r (record {
      header_end = s.header_end;
      request = s.request;
      content_length = s.content_length;
      found = find_text-append head_end p.buffer more s.found;
      in_limit = s.in_limit;
      head = rw (take-append_le s.header_end p.buffer more (omega (arith, at_end))) s.head;
      complete = omega (arith, length-append p.buffer more, s.complete);
      result =
          rw
            (
              drop-append_le (s.header_end + 4) p.buffer more (omega (arith, at_end)),
              take-append_le s.content_length (drop (s.header_end + 4) p.buffer) more
                  (omega (arith, s.complete, length-drop (s.header_end + 4) p.buffer)),
            )
            s.result;
      rest =
          rw
            (drop-append_le (s.header_end + 4 + s.content_length) p.buffer more
              (omega (arith, at_end, s.complete)))
            (ap (λ z. feed z more) s.rest);
    })
