-- ===== src/StaticFiles/Reads.antt =====
-- What `read_file` returns, and what a response with status 200 says of the file system.
use mathlib.Core.List.{append_assoc, append-nil}
use http_server.Prelude.{
  ℕ, ◌+◌, ◌-◌, ◌%◌, ◌≤◌, ◌<◌, Bool, true, List, [], ◌∷◌, ◌++◌, Option, none, some, ◌≡◌, ◌≢◌, ap,
  arith, Bytes, equal, if◌then◌else◌, Bool-cases, Option-cases, inl, inr, codes, sym, subst, ◌∙◌,
  length, length-append, ltb, ltb→le, ltb→lt, le→ltb, lt→ltb, size_limit,
}
use http_server.Request.{HttpRequest}
use http_server.Response.{HttpResponse}
use http_server.StaticFiles.{
  FilePath, FileSystem, Reading, is_inside_root, percent_decode, read_chunks, read_file,
  make_response,
}
use http_server.StaticFiles.Serve.{
  StaticFileHandler, serve_file, serve_candidate, handle, requested_path, candidate_for,
}
use http_server.StaticFiles.Confinement.{is_inside_root_iff}

-- All that a stream delivers.
abbrev pub contents : List Bytes → Bytes
contents [] = []
contents (chunk ∷ chunks) = chunk ++ contents chunks

-- The bytes, unless they pass the limit.
abbrev pub within_limit : ℕ → Bytes → Option Bytes
within_limit max_file_bytes body = if ltb max_file_bytes (length body) then none else some body

room-left : (m n : ℕ) → n ≤ m → m < size_limit → (m + size_limit - n) % size_limit ≡ m - n
room-left m n h k = omega arith

pub read_chunks-contents :
    (max_file_bytes : ℕ) (chunks : List Bytes) (body : Bytes)
    → max_file_bytes < size_limit
    → length body ≤ max_file_bytes
    → read_chunks max_file_bytes chunks body ≡ within_limit max_file_bytes (body ++ contents chunks)
unfolding read_chunks
read_chunks-contents m [] body k h = rw (append-nil, le→ltb m (length body) h)
read_chunks-contents m (chunk ∷ chunks) body k h =
    rw (room-left m (length body) h k) (elim (Bool-cases (ltb (m - length body) (length chunk))) [
      | inl over ↦
          let size = length-append body (chunk ++ contents chunks) in
          let size' = length-append chunk (contents chunks) in
          rw (
            over,
            lt→ltb m (length (body ++ (chunk ++ contents chunks)))
                (omega (arith, size, size', ltb→lt _ _ over)),
          )
      | inr fits ↦ rw fits (
          read_chunks-contents m chunks (body ++ chunk) k
            (omega (arith, length-append body chunk, ltb→le _ _ fits))
          ∙ ap (within_limit m) (append_assoc body chunk (contents chunks)))
    ])

-- `read_file` returns the whole of the file, when the stream came to its end and the file is within
-- the limit, and nothing in every other case.
pub read_file-contents :
    (file : Reading) (max_file_bytes : ℕ)
    → max_file_bytes < size_limit
    → read_file (some file) max_file_bytes
      ≡ (if file.at_eof then within_limit max_file_bytes (contents file.chunks) else none)
unfolding read_file
read_file-contents file m k =
    rw (read_file, read_chunks-contents m file.chunks [] k (omega arith)) (ground arith)

-- What status 200 stands for: a regular file below the root, whose size is within the limit.
pub record Served (fs : FileSystem) (handler : StaticFileHandler) (request : HttpRequest)
    (response : HttpResponse) : Type 0 where
  pub path : Bytes
  pub below : FilePath
  pub size : ℕ
  pub decodes : percent_decode (requested_path request.target) ≡ some path
  pub canonical : candidate_for fs handler path ≡ some (handler.root ++ below)
  pub there : fs.exists (handler.root ++ below) ≡ some true
  pub regular : fs.is_regular_file (handler.root ++ below) ≡ true
  pub sized : fs.file_size (handler.root ++ below) ≡ some size
  pub small : size ≤ handler.max_file_bytes
  pub answer :
      response
      ≡ serve_file fs
          (handler.root ++ below)
          (equal request.method (codes "HEAD"))
          handler.max_file_bytes

serve_candidate-200 :
    (fs : FileSystem) (handler : StaticFileHandler) (is_head : Bool) (candidate : FilePath)
    → (serve_candidate fs handler is_head (some candidate)).status_code ≡ 200
    → (is_inside_root handler.root candidate ≡ true)
      × (fs.exists candidate ≡ some true)
      × (fs.is_regular_file candidate ≡ true)
      × (serve_candidate fs handler is_head (some candidate)
          ≡ serve_file fs candidate is_head handler.max_file_bytes)
unfolding serve_candidate make_response
serve_candidate-200 fs handler is_head candidate h = ground arith

serve_file-200 :
    (fs : FileSystem) (path : FilePath) (is_head : Bool) (max_file_bytes : ℕ)
    → (serve_file fs path is_head max_file_bytes).status_code ≡ 200
    → (size : ℕ) × (fs.file_size path ≡ some size) × (size ≤ max_file_bytes)
unfolding serve_file make_response
serve_file-200 fs path is_head m h = elim (Option-cases (fs.file_size path)) [
  | inl e ↦ ground arith
  | inr (n, e) ↦ (n, e, ground arith)
]

serve_candidate-none :
    (fs : FileSystem) (handler : StaticFileHandler) (is_head : Bool)
    → (serve_candidate fs handler is_head none).status_code ≢ 200
unfolding serve_candidate make_response
serve_candidate-none fs handler is_head = ground arith

handle-200 :
    (fs : FileSystem) (handler : StaticFileHandler) (request : HttpRequest)
    → (handle fs handler request).status_code ≡ 200
    → (path : Bytes) × (percent_decode (requested_path request.target) ≡ some path)
      × (handle fs handler request
          ≡ serve_candidate fs handler
              (equal request.method (codes "HEAD"))
              (candidate_for fs handler path))
unfolding handle make_response
handle-200 fs handler request h =
    elim (Option-cases (percent_decode (requested_path request.target))) [
      | inl e ↦ ground arith
      | inr (path, e) ↦ (path, e, ground arith)
    ]

-- A response with status 200 is that of a regular file below the root, of a size within the limit.
pub handle-Served :
    (fs : FileSystem) (handler : StaticFileHandler) (request : HttpRequest)
    → (handle fs handler request).status_code ≡ 200
    → Served fs handler request (handle fs handler request)
handle-Served fs handler request h =
    let is_head = equal request.method (codes "HEAD") in
    let (path, decodes, answer) = handle-200 fs handler request h in
    elim (Option-cases (candidate_for fs handler path)) [
      | inl e ↦ absurd (
          serve_candidate-none fs handler is_head (
            ap (λ o. (serve_candidate fs handler is_head o).status_code) (sym e)
            ∙ ap (λ r. r.status_code) (sym answer)
            ∙ h))
      | inr (candidate, e) ↦
          let answer' = answer ∙ ap (serve_candidate fs handler is_head) e in
          let (inside, there, regular, served) =
            serve_candidate-200 fs handler is_head candidate
              (ap (λ r. r.status_code) (sym answer') ∙ h) in
          let (rest, below) = (is_inside_root_iff handler.root candidate).0 inside in
          let answer'' = answer' ∙ served in
          let (size, sized, small) =
            serve_file-200 fs candidate is_head handler.max_file_bytes
              (ap (λ r. r.status_code) (sym answer'') ∙ h) in
          record {
            path = path;
            below = rest;
            size = size;
            decodes = decodes;
            canonical = e ∙ ap some below;
            there = subst (λ c. fs.exists c ≡ some true) below there;
            regular = subst (λ c. fs.is_regular_file c ≡ true) below regular;
            sized = subst (λ c. fs.file_size c ≡ some size) below sized;
            small = small;
            answer = answer'' ∙ ap (λ c. serve_file fs c is_head handler.max_file_bytes) below;
          }
    ]
