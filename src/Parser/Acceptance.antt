-- ===== src/Parser/Acceptance.antt =====
-- What a request is that `next` of src/parser.cpp returns.
use http_server.Prelude.{
  ℕ, ◌≤◌, ◌≡◌, ◌≢◌, ◌∙◌, refl, sym, subst, Bool, true, false, not, ◌||◌, List, [], ◌∷◌, ◌++◌,
  Option, none, some, ◌⊎◌, inl, inr, arith, Bytes, codes, equal, equal_iff, find_text, ltb, length,
}
use http_server.Request.{HttpRequest, find}
use http_server.Text.{trim_ows}
use http_server.Parser.Outcome.{
  >>=-eq-ok, require-then, ok_eq, Parsed, Refusal, ok, require, missing_host, body_too_long,
}
use http_server.Parser.RequestLine.{RequestLine, parse_request_line}
use http_server.Parser.Head.{
  crlf, line_at, behind, parse_headers, check_host, has_host, framing, parse_content_length,
  request_of, read_head, is_empty,
}
use http_server.Parser.Headers.{values_of, joined, IsMapped, parse_headers-IsMapped}
use http_server.Parser.Declared.{Declares, parse_content_length-Declares}
use http_server.Parser.HeaderLines.{
  HeaderLines, HasBlock, HasBlock-behind, behind-le, parse_headers-HeaderLines,
}
use http_server.Parser.{HttpParser, request_ready, next}
use http_server.Parser.Stream.{head_end, next-Consumed}
use http_server.Parser.RequestLine.Fields.{IsRequestLine, parse_request_line_iff}

-- The version is 1.0, or one field names the host.
abbrev HasHost : HttpRequest → Type 0
HasHost r =
    (r.version ≡ codes "HTTP/1.0")
    ⊎ ((value : Bytes) × (values_of (codes "host") r.header_fields ≡ value ∷ [])
        × (trim_ows value ≢ []))

-- The length of the body: none is declared and it is empty, or one field declares it.
abbrev HasLength : ℕ → HttpRequest → ℕ → Type 0
HasLength max_body_bytes r n =
    ((values_of (codes "content-length") r.header_fields ≡ []) × (n ≡ 0))
    ⊎ ((value : Bytes) × (values_of (codes "content-length") r.header_fields ≡ value ∷ [])
        × Declares value n
        × (n ≤ max_body_bytes))

-- What is said of a request with a head and a length of its body.
pub record IsAccepted (max_body_bytes : ℕ) (head : Bytes) (r : HttpRequest) (n : ℕ) : Type 0 where
  pub line : RequestLine
  pub request_line : IsRequestLine (line_at head (find_text crlf head)) line
  pub block : Bytes
  pub behind_line : HasBlock head block
  pub lines : HeaderLines block r.header_fields
  pub fields : IsMapped line r
  pub host : HasHost r
  pub no_encoding : values_of (codes "transfer-encoding") r.header_fields ≡ []
  pub framed : HasLength max_body_bytes r n

-- What a value in the map says of the fields.
no_value : (vs : List Bytes) → none ≡ joined vs → vs ≡ []
no_value [] h = refl
no_value (v ∷ vs) h = cc

sole_value : (vs : List Bytes) (v : Bytes) → some v ≡ joined vs → length vs ≤ 1 → vs ≡ v ∷ []
sole_value [] v h few = cc
sole_value (w ∷ []) v h few = cc
sole_value (w ∷ u ∷ vs) v h few = absurd (omega arith)

require_ok : (b : Bool) (why : Refusal) {u : Unit {0}} → require b why ≡ ok u → b ≡ true
require_ok true why h = refl
require_ok false why h = cc

not_blank : (v : Bytes) → not (is_empty v) ≡ true → v ≢ []
not_blank [] h = cc
not_blank (c ∷ v) h = λ e. cc

module _ (line : RequestLine) (r : HttpRequest) (m : IsMapped line r) where
  host_field :
      (value : Option Bytes)
      → find (codes "host") r.headers ≡ value
      → has_host value ≡ true
      → (v : Bytes) × (values_of (codes "host") r.header_fields ≡ v ∷ []) × (trim_ows v ≢ [])
  host_field none e h = cc
  host_field (some v) e h = (
    v,
    sole_value (values_of (codes "host") r.header_fields) v (sym e ∙ m.mapped (codes "host"))
        (m.single (codes "host") (λ e'. cc)),
    not_blank (trim_ows v) h,
  )

  HasHost-check_host :
      (line.version ≡ codes "HTTP/1.1") ⊎ (line.version ≡ codes "HTTP/1.0")
      → {u : Unit {0}} → check_host r ≡ ok u
      → HasHost r
  unfolding check_host
  HasHost-check_host (inr old) e = inl (m.same_line.2 ∙ old)
  HasHost-check_host (inl new) {u} e =
      let here : equal r.version (codes "HTTP/1.1") ≡ true =
        (equal_iff r.version (codes "HTTP/1.1")).1 (m.same_line.2 ∙ new) in
      let host = find (codes "host") r.headers in
      inr (
        host_field host refl (
          rw here at (
            require_ok (not (equal r.version (codes "HTTP/1.1")) || has_host host) missing_host e)))

  framing-HasLength :
      (max_body_bytes n : ℕ) (encoding value : Option Bytes)
      → find (codes "transfer-encoding") r.headers ≡ encoding
      → find (codes "content-length") r.headers ≡ value
      → framing max_body_bytes encoding value ≡ ok n
      → (values_of (codes "transfer-encoding") r.header_fields ≡ []) × HasLength max_body_bytes r n
  unfolding framing
  framing-HasLength max_body_bytes n (some encoding) (some value) e k h = cc
  framing-HasLength max_body_bytes n (some encoding) none e k h = cc
  framing-HasLength max_body_bytes n none none e k h = (
    no_value (values_of (codes "transfer-encoding") r.header_fields)
        (sym e ∙ m.mapped (codes "transfer-encoding")),
    inl (
      no_value (values_of (codes "content-length") r.header_fields)
          (sym k ∙ m.mapped (codes "content-length")),
      sym (ok_eq h),
    ),
  )
  framing-HasLength max_body_bytes n none (some value) e k h =
      let (size, parsed, rest) = >>=-eq-ok (parse_content_length value) _ h in
      let (fits, done) =
        require-then (not (ltb max_body_bytes size)) body_too_long (ok size) rest in
      (
        no_value (values_of (codes "transfer-encoding") r.header_fields)
            (sym e ∙ m.mapped (codes "transfer-encoding")),
        inr (
          value,
          sole_value (values_of (codes "content-length") r.header_fields) value
              (sym k ∙ m.mapped (codes "content-length"))
              (m.single (codes "content-length") (λ e'. cc)),
          parse_content_length-Declares value n (parsed ∙ done),
          ground (arith, ok_eq done),
        ),
      )

fresh-IsMapped : (line : RequestLine) → IsMapped line (request_of line)
fresh-IsMapped line = record {
  same_line = (refl, refl, refl);
  named = tt;
  mapped = λ name. unfold find in refl;
  single = λ name h. omega arith;
}

module _ (max_body_bytes : ℕ) where
  framed-IsAccepted :
      (head : Bytes) (line : RequestLine) (r request : HttpRequest) (n size : ℕ)
      → IsRequestLine (line_at head (find_text crlf head)) line
      → HeaderLines (behind head (find_text crlf head)) request.header_fields
      → IsMapped line request
      → {u : Unit {0}} → check_host request ≡ ok u
      → framing max_body_bytes
          (find (codes "transfer-encoding") request.headers)
          (find (codes "content-length") request.headers)
        ≡ ok size
      → ◌≡◌ {A = Parsed (HttpRequest × ℕ)} (ok (request, size)) (ok (r, n))
      → IsAccepted max_body_bytes head r n
  framed-IsAccepted head line r request n size is_line lines is_mapped host frames done =
      let (no_encoding, framed) =
        framing-HasLength line request is_mapped max_body_bytes size
          (find (codes "transfer-encoding") request.headers)
          (find (codes "content-length") request.headers) refl refl frames in
      subst (λ (z : HttpRequest × ℕ). IsAccepted max_body_bytes head z.0 z.1) (ok_eq done)
        (record {
          line = line;
          request_line = is_line;
          block = behind head (find_text crlf head);
          behind_line = HasBlock-behind head (find_text crlf head) refl;
          lines = lines;
          fields = is_mapped;
          host = HasHost-check_host line request is_mapped is_line.version_known host;
          no_encoding = no_encoding;
          framed = framed;
        })

  read_head-IsAccepted :
      (head : Bytes) (r : HttpRequest) (n : ℕ)
      → read_head max_body_bytes head ≡ ok (r, n)
      → IsAccepted max_body_bytes head r n
  unfolding read_head
  read_head-IsAccepted head r n h =
      let line_end = find_text crlf head in
      let (line, e1, rest1) = >>=-eq-ok (parse_request_line (line_at head line_end)) _ h in
      let (request, e2, rest2) =
        >>=-eq-ok (parse_headers (length head) (behind head line_end) (request_of line)) _ rest1 in
      let (u, e3, rest3) = >>=-eq-ok (check_host request) _ rest2 in
      let encoding = find (codes "transfer-encoding") request.headers in
      let value = find (codes "content-length") request.headers in
      let (size, e4, done) = >>=-eq-ok (framing max_body_bytes encoding value) _ rest3 in
      let (fs, grown, lines) =
        parse_headers-HeaderLines (length head) (behind head line_end) (request_of line) request
          (behind-le head line_end) e2 in
      framed-IsAccepted head line r request n size
        ((parse_request_line_iff (line_at head line_end) line).0 e1)
        (subst (HeaderLines (behind head line_end)) (sym grown) lines)
        (parse_headers-IsMapped line (length head) (behind head line_end) (request_of line) request
          (fresh-IsMapped line) e2)
        e3 e4 done

-- The body does not show in what is said of a request.
with_body-IsAccepted :
    (max_body_bytes : ℕ) (head : Bytes) (r : HttpRequest) (body : Bytes) (n : ℕ)
    → IsAccepted max_body_bytes head r n
    → IsAccepted max_body_bytes head (record r { body = body }) n
with_body-IsAccepted max_body_bytes head r body n h = record {
  line = h.line;
  request_line = h.request_line;
  block = h.block;
  behind_line = h.behind_line;
  lines = h.lines;
  fields = record {
    same_line = h.fields.same_line;
    named = h.fields.named;
    mapped = h.fields.mapped;
    single = h.fields.single;
  };
  host = h.host;
  no_encoding = h.no_encoding;
  framed = h.framed;
}

-- A request that next returns is what its head says, the bytes up to the first empty line. The first
-- line of the head is its method, target and version with one space between each two, the method a
-- token, the target from a slash on and without a space, the version HTTP/1.1 or HTTP/1.0. The rest of
-- the head is cut into lines at each end of line, and its header fields are those lines, one for one
-- and in order: the name a token in front of the first colon of the line, taken in lower case, the
-- value what stands behind the colon without the spaces and tabs at its ends. The map has for each
-- name the values of its fields, joined by commas, and only connection has more than one. An HTTP/1.1
-- request has a host that is not blank; no field is transfer-encoding; and the body has the length that
-- the one field content-length declares in digits, within max_body_bytes and below 2^64, or is empty
-- where there is no such field.
pub next-IsAccepted :
    (p q : HttpParser) (r : HttpRequest)
    → next p ≡ (q, request_ready r)
    → (head : Bytes) × (rest : Bytes) × (p.buffer ≡ head ++ (head_end ++ rest))
      × (find_text head_end p.buffer ≡ some (length head))
      × IsAccepted p.max_body_bytes head r (length r.body)
next-IsAccepted p q r h =
    let c = next-Consumed p q r h in
    let (request, e, same) = c.framed in
    (
      c.head,
      r.body ++ q.buffer,
      c.split,
      c.first_end,
      subst (λ (z : HttpRequest). IsAccepted p.max_body_bytes c.head z (length r.body)) (sym same)
          (with_body-IsAccepted p.max_body_bytes c.head request r.body (length r.body)
            (read_head-IsAccepted p.max_body_bytes c.head request (length r.body) e)),
    )
