-- ===== src/Router/Head.antt =====
-- `HEAD` and `GET` of one target.
use http_server.Prelude.{
  ℕ, true, false, ◌++◌, ◌≡◌, refl, [], Option, none, some, Bytes, codes, equal, equal_refl, length,
  if◌then◌else◌, arith, append-nil, ap, Option-cases, Bool-cases, inl, inr, ◌≤◌, ◌<◌, size_limit,
  ltb, le→ltb, ltb→le, sym, ◌∙◌,
}
use http_server.Request.{HttpRequest, Headers}
use http_server.Response.{HttpResponse, value_or, serialize_response, serialize_head}
use http_server.StaticFiles.{
  FilePath, FileSystem, Reading, read_file, is_inside_root, percent_decode, make_response,
}
use http_server.StaticFiles.Reads.{contents, read_file-contents}
use http_server.StaticFiles.Serve.{
  StaticFileHandler, handle, serve_file, serve_candidate, candidate_for, requested_path,
}
use http_server.Parser.RequestLine.{front_is}
use http_server.Router.{route_request, without_body}

-- Reading a file delivers as many bytes as `file_size` says, and comes to its end: what the file
-- system does for a regular file that nobody writes to.
pub record IsStable (fs : FileSystem) : Type 0 where
  pub reads_whole :
      (path : FilePath) (size : ℕ)
      → fs.file_size path ≡ some size
      → (file : Reading) × (fs.open_file path ≡ some file)
        × (file.at_eof ≡ true)
        × (length (contents file.chunks) ≡ size)

-- `head` announces what `get` delivers.
record Announces (head get : HttpResponse) : Type 0 where
  same_version : head.version ≡ get.version
  same_status : head.status_code ≡ get.status_code
  same_reason : head.reason_phrase ≡ get.reason_phrase
  same_headers : head.headers ≡ get.headers
  same_length :
      value_or head.content_length (length head.body)
      ≡ value_or get.content_length (length get.body)
  has_body : get.suppress_body ≡ false

Announces-refl : (r : HttpResponse) → r.suppress_body ≡ false → Announces r r
Announces-refl r h = record {
  same_version = refl;
  same_status = refl;
  same_reason = refl;
  same_headers = refl;
  same_length = refl;
  has_body = h;
}

head_is_head : equal (codes "HEAD") (codes "HEAD") ≡ true
head_is_head = equal_refl (codes "HEAD")

get_is_get : equal (codes "GET") (codes "GET") ≡ true
get_is_get = equal_refl (codes "GET")

get_is_not_head : equal (codes "GET") (codes "HEAD") ≡ false
unfolding equal
get_is_not_head = refl

module _ (fs : FileSystem) (m : ℕ) (stable : IsStable fs) (k : m < size_limit) where
  read_stable :
      (path : FilePath) (size : ℕ)
      → fs.file_size path ≡ some size
      → size ≤ m
      → (body : Bytes) × (read_file (fs.open_file path) m ≡ some body) × (length body ≡ size)
  read_stable path size e h =
      let (file, o, eof, len) = stable.reads_whole path size e in
      (
        contents file.chunks,
        rw
            (
              o,
              read_file-contents file m k,
              eof,
              le→ltb m (length (contents file.chunks)) (omega (arith, len)),
            )
            refl,
        len,
      )

  serve_file-Announces :
      (path : FilePath) → Announces (serve_file fs path true m) (serve_file fs path false m)
  unfolding serve_file make_response
  serve_file-Announces path = elim (Option-cases (fs.file_size path)) [
    | inl e ↦ rw e (Announces-refl _ refl)
    | inr (size, e) ↦ elim (Bool-cases (ltb m size)) [
      | inl over ↦ rw (e, over) (Announces-refl _ refl)
      | inr fits ↦
          let (body, read, len) = read_stable path size e (ltb→le m size fits) in
          rw (e, fits, read)
            (record {
              same_version = refl;
              same_status = refl;
              same_reason = refl;
              same_headers = refl;
              same_length = sym len;
              has_body = refl;
            })
    ]
  ]

  serve_candidate-Announces :
      (handler : StaticFileHandler) (o : Option FilePath)
      → handler.max_file_bytes ≡ m
      → Announces (serve_candidate fs handler true o) (serve_candidate fs handler false o)
  unfolding serve_candidate make_response
  serve_candidate-Announces handler none e = Announces-refl _ refl
  serve_candidate-Announces handler (some candidate) e =
      elim (Bool-cases (is_inside_root handler.root candidate)) [
        | inr outside ↦ rw outside (Announces-refl _ refl)
        | inl inside ↦ elim (Option-cases (fs.exists candidate)) [
          | inl unknown ↦ rw (inside, unknown) (Announces-refl _ refl)
          | inr (there, known) ↦ elim (Bool-cases there) [
            | inr missing ↦ rw (inside, known, missing) (Announces-refl _ refl)
            | inl found ↦ elim (Bool-cases (fs.is_regular_file candidate)) [
              | inr special ↦ rw (inside, known, found, special) (Announces-refl _ refl)
              | inl regular ↦ rw (inside, known, found, regular, e) (serve_file-Announces candidate)
            ]
          ]
        ]
      ]

  handle-Announces :
      (handler : StaticFileHandler) (get head : HttpRequest)
      → handler.max_file_bytes ≡ m
      → get.method ≡ codes "GET"
      → head ≡ record get { method = codes "HEAD" }
      → Announces (handle fs handler head) (handle fs handler get)
  unfolding handle make_response
  handle-Announces handler get head e g h =
      elim (Option-cases (percent_decode (requested_path get.target))) [
        | inl bad ↦ rw (h, bad) (Announces-refl _ refl)
        | inr (path, good) ↦ elim (Bool-cases (front_is b'/' path)) [
          | inr relative ↦ rw (h, good, relative) (Announces-refl _ refl)
          | inl absolute ↦
              rw (h, good, absolute, g, head_is_head, get_is_not_head)
                (serve_candidate-Announces handler (candidate_for fs handler path) e)
        ]
      ]

route_request-get :
    (fs : FileSystem) (handler : StaticFileHandler) (request : HttpRequest)
    → request.method ≡ codes "GET"
    → route_request fs handler request ≡ handle fs handler request
unfolding route_request
route_request-get fs handler request h =
    let is_get : equal request.method (codes "GET") ≡ true = rw h get_is_get in
    let not_head : equal request.method (codes "HEAD") ≡ false = rw h get_is_not_head in
    ground arith

route_request-head :
    (fs : FileSystem) (handler : StaticFileHandler) (request : HttpRequest)
    → request.method ≡ codes "HEAD"
    → route_request fs handler request ≡ without_body (handle fs handler request)
unfolding route_request
route_request-head fs handler request h =
    let is_head : equal request.method (codes "HEAD") ≡ true = rw h head_is_head in ground arith

serialize_head-Announces :
    (order : Headers → Headers) (head get : HttpResponse)
    → Announces head get
    → serialize_head order (without_body head) ≡ serialize_head order get
unfolding serialize_head
serialize_head-Announces order head get a =
    cc (a.same_version, a.same_status, a.same_reason, a.same_headers, a.same_length)

serialize_response-Announces :
    (order : Headers → Headers) (head get : HttpResponse)
    → Announces head get
    → serialize_response order get ≡ serialize_response order (without_body head) ++ get.body
unfolding serialize_response
serialize_response-Announces order head get a =
    let shown : (if get.suppress_body then [] else get.body) ≡ get.body =
      ap (λ b. if b then [] else get.body) a.has_body in
    ap (◌++◌ (serialize_head order get)) shown
    ∙ sym (
        ap (λ s. s ++ get.body)
          (append-nil (serialize_head order (without_body head))
            ∙ serialize_head-Announces order head get a))

-- The answer to HEAD is, byte for byte, the answer to GET without its body, and so announces the
-- length that GET delivers.
pub serialize_response-head :
    (fs : FileSystem) (handler : StaticFileHandler) (order : Headers → Headers)
    (get head : HttpRequest)
    → IsStable fs
    → handler.max_file_bytes < size_limit
    → get.method ≡ codes "GET"
    → head ≡ record get { method = codes "HEAD" }
    → serialize_response order (route_request fs handler get)
      ≡ serialize_response order (route_request fs handler head)
        ++ (route_request fs handler get).body
serialize_response-head fs handler order get head stable k g h =
    let a = handle-Announces fs handler.max_file_bytes stable k handler get head refl g h in
    let head_method : head.method ≡ codes "HEAD" = ap (λ z. z.method) h in
    rw (route_request-get fs handler get g, route_request-head fs handler head head_method)
      (serialize_response-Announces order (handle fs handler head) (handle fs handler get) a)
