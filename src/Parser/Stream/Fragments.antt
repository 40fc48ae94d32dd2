-- ===== src/Parser/Stream/Fragments.antt =====
-- `HttpParser::next` when it returns no request: nothing is consumed, an error behind a complete head
-- is final, and a head of the greatest length is refused if its terminator arrives in two pieces.
use mathlib.Core.Option.{some-injective}
use http_server.Prelude.{
  ◌+◌, [], ◌++◌, append_assoc, none, some, ◌≡◌, ◌≢◌, refl, ap, sym, ◌∙◌, inl, inr, arith, lt→ltb,
  Option-cases, Bytes, codes, find_text, find_text-le, find_text-append, length, length-append,
  take, drop, take-append_le, subst, take-append, drop-all,
}
use http_server.Request.{HttpRequest}
use http_server.Parser.Outcome.{
  Refusal, ParseErrorKind, ok, error_kind, headers_too_long, bad_request,
}
use http_server.Parser.Head.{read_head}
use http_server.Parser.Stream.{head_end, Parsed-cases, Ready-next}
use http_server.Parser.{HttpParser, request_ready, error, feed, next}

-- Unless it returns a request, `next` leaves the parser as it was.
pub next-keeps :
    (p : HttpParser) → ((r : HttpRequest) → (next p).1 ≢ request_ready r) → (next p).0 ≡ p
unfolding next
next-keeps p h = elim (Option-cases (find_text head_end p.buffer)) [
  | inl e ↦ ground arith
  | inr (i, e) ↦ elim (Parsed-cases (read_head p.max_body_bytes (take i p.buffer))) [
    | inl ((request, content_length), e') ↦
        ground (arith, h (record request { body = take content_length (drop (i + 4) p.buffer) }))
    | inr (why, e') ↦ ground arith
  ]
]

-- Once the head is complete, an error stays the same error whatever follows.
pub next-feed_error :
    (p q : HttpParser) (why : Refusal) (kind : ParseErrorKind) (more : Bytes)
    → find_text head_end p.buffer ≢ none
    → next p ≡ (q, error why kind)
    → next (feed p more) ≡ (feed p more, error why kind)
unfolding next feed
next-feed_error p q why kind more ne h = elim (Option-cases (find_text head_end p.buffer)) [
  | inl e ↦ absurd (ne e)
  | inr (i, e) ↦
      let at_end = find_text-le head_end p.buffer e in
      rw
        (
          find_text-append head_end p.buffer more e,
          take-append_le i p.buffer more (omega (arith, at_end)),
        )
        (elim (Parsed-cases (read_head p.max_body_bytes (take i p.buffer))) [
          | inl ((request, content_length), e') ↦ ground arith
          | inr (why', e') ↦ ground arith
        ])
]

-- A head of exactly the greatest length, and its terminator.
pub record IsLongest (p : HttpParser) (head : Bytes) : Type 0 where
  pub fresh : p.buffer ≡ []
  pub at_limit : length head ≡ p.max_header_bytes
  pub first_end : find_text head_end (head ++ head_end) ≡ some (length head)
  pub readable : (request : HttpRequest) × (read_head p.max_body_bytes head ≡ ok (request, 0))

split_terminator :
    (head : Bytes)
    → find_text head_end (head ++ head_end) ≡ some (length head)
    → find_text head_end (head ++ codes "\r") ≡ none
split_terminator head h = elim (Option-cases (find_text head_end (head ++ codes "\r"))) [
  | inl e ↦ e
  | inr (i, e) ↦
      let whole = find_text-append head_end (head ++ codes "\r") (codes "\n\r\n") e in
      let same : find_text head_end (head ++ head_end) ≡ some i =
        subst (λ (s : Bytes). find_text head_end s ≡ some i)
          (append_assoc head (codes "\r") (codes "\n\r\n")) whole in
      let at : length head ≡ i = some-injective (length head) i (sym h ∙ same) in
      absurd (
        omega (
          arith,
          at,
          find_text-le head_end (head ++ codes "\r") e,
          length-append head (codes "\r"),
        ))
]

-- Such a head is accepted when it comes in one piece, and refused as too long when the socket
-- delivers it with the first byte of its terminator only: the result does depend on the pieces.
pub next-split_terminator :
    (p : HttpParser) (head : Bytes)
    → IsLongest p head
    → ((r : HttpRequest) × ((next (feed p (head ++ head_end))).1 ≡ request_ready r))
      × ((next (feed p (head ++ codes "\r"))).1 ≡ error headers_too_long bad_request)
unfolding next feed error_kind
next-split_terminator p head h = (
  (
    record h.readable.0 { body = [] },
    ap (λ z. z.1)
        (Ready-next (feed p (head ++ head_end)) (record p { buffer = [] })
          (record h.readable.0 { body = [] })
          (record {
            header_end = length head;
            request = h.readable.0;
            content_length = 0;
            found = rw h.fresh h.first_end;
            in_limit = omega (arith, h.at_limit);
            head = rw (h.fresh, take-append head head_end) h.readable.1;
            complete = omega arith;
            result = refl;
            rest =
                rw
                  (
                    h.fresh,
                    drop-all (length head + 4 + 0) (head ++ head_end)
                        (omega (arith, length-append head head_end)),
                  )
                  refl;
          })),
  ),
  rw
      (
        h.fresh,
        split_terminator head h.first_end,
        lt→ltb p.max_header_bytes (length (head ++ codes "\r"))
            (omega (arith, length-append head (codes "\r"), h.at_limit)),
      )
      refl,
)
