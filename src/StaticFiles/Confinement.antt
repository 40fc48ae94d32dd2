-- ===== src/StaticFiles/Confinement.antt =====
-- The answers of the handler of src/static_file_handler.cpp over two file systems that agree on the
-- document root and on which paths lead into it.
use mathlib.Core.Bool.{and-eq-true_iff}
use mathlib.Core.List.{cons-eq-cons}
use http_server.Prelude.{
  Bool, true, false, [], ◌∷◌, ◌++◌, Option, none, some, ◌≡◌, refl, ap, arith, Bytes, equal,
  equal_iff, Bool-cases, Option-cases, inl, inr, codes, sym, ◌↔◌, ◌∙◌, ◌⊎◌, ◌≢◌,
}
use http_server.Request.{HttpRequest}
use http_server.StaticFiles.{
  FilePath, FileSystem, is_inside_root, percent_decode, forbidden, strip_slashes,
}
use http_server.StaticFiles.Serve.{
  StaticFileHandler, serve_file, serve_candidate, handle, requested_path, candidate_for,
}

-- `is_inside_root` accepts exactly the root and what continues it, component by component.
pub is_inside_root_iff :
    (root candidate : FilePath)
    → (is_inside_root root candidate ≡ true) ↔ ((rest : FilePath) × (candidate ≡ root ++ rest))
unfolding is_inside_root
is_inside_root_iff [] candidate = ((λ h. (candidate, refl)), λ h. refl)
is_inside_root_iff (r ∷ root) [] = ((λ h. cc), λ h. cc (h.1))
is_inside_root_iff (r ∷ root) (c ∷ candidate) = (
  (λ h.
      let (hit, more) = (and-eq-true_iff (equal r c) (is_inside_root root candidate)).0 h in
      let (rest, e) = (is_inside_root_iff root candidate).0 more in
      (rest, cc ((equal_iff r c).0 hit))),
  λ h.
      let same = cons-eq-cons.0 h.1 in
      (and-eq-true_iff (equal r c) (is_inside_root root candidate)).1
        ((equal_iff r c).1 (sym same.0), (is_inside_root_iff root candidate).1 (h.0, same.1)),
)

-- A canonical path that could not be found, or that is neither the root nor continues it.
abbrev pub LeadsOut : FilePath → Option FilePath → Type 0
LeadsOut root none = Unit {0}
LeadsOut root (some candidate) = (rest : FilePath) → candidate ≢ root ++ rest

-- Two file systems: paths are taken apart in the same way; each path has the same canonical form in
-- both, or leads outside the root in both, and there it may lead to different places; and what lies
-- under the root is the same.
pub record AgreeInside (root : FilePath) (fs gs : FileSystem) : Type 0 where
  pub same_paths : (gs.to_path ≡ fs.to_path) × (gs.join ≡ fs.join) × (gs.extension ≡ fs.extension)
  pub same_canonical :
      (path : FilePath)
      → (gs.weakly_canonical path ≡ fs.weakly_canonical path)
        ⊎ (LeadsOut root (fs.weakly_canonical path) × LeadsOut root (gs.weakly_canonical path))
  pub same_files :
      (rest : FilePath)
      → (gs.exists (root ++ rest) ≡ fs.exists (root ++ rest))
        × (gs.is_regular_file (root ++ rest) ≡ fs.is_regular_file (root ++ rest))
        × (gs.file_size (root ++ rest) ≡ fs.file_size (root ++ rest))
        × (gs.open_file (root ++ rest) ≡ fs.open_file (root ++ rest))

-- The answer for a candidate is a function of what the file system says of the candidate.
serve_candidate-same :
    (fs gs : FileSystem) (handler : StaticFileHandler) (is_head : Bool) (candidate : FilePath)
    → gs.extension candidate ≡ fs.extension candidate
    → gs.exists candidate ≡ fs.exists candidate
    → gs.is_regular_file candidate ≡ fs.is_regular_file candidate
    → gs.file_size candidate ≡ fs.file_size candidate
    → gs.open_file candidate ≡ fs.open_file candidate
    → serve_candidate gs handler is_head (some candidate)
      ≡ serve_candidate fs handler is_head (some candidate)
unfolding serve_candidate serve_file
serve_candidate-same fs gs handler is_head candidate e₀ e₁ e₂ e₃ e₄ = ground arith

serve_candidate-outside :
    (fs : FileSystem) (handler : StaticFileHandler) (is_head : Bool) (candidate : FilePath)
    → is_inside_root handler.root candidate ≡ false
    → serve_candidate fs handler is_head (some candidate) ≡ forbidden
unfolding serve_candidate
serve_candidate-outside fs handler is_head candidate h = rw h

serve_candidate-inside :
    (fs gs : FileSystem) (handler : StaticFileHandler) (is_head : Bool) (o : Option FilePath)
    → AgreeInside handler.root fs gs
    → serve_candidate gs handler is_head o ≡ serve_candidate fs handler is_head o
serve_candidate-inside fs gs handler is_head none h = unfold serve_candidate in refl
serve_candidate-inside fs gs handler is_head (some candidate) h =
    elim (Bool-cases (is_inside_root handler.root candidate)) [
      | inl hit ↦
          let (rest, e) = (is_inside_root_iff handler.root candidate).0 hit in
          let same = h.same_files rest in
          rw e (
            serve_candidate-same fs gs handler is_head (handler.root ++ rest)
              (ap (λ f. f (handler.root ++ rest)) h.same_paths.2) same.0 same.1 same.2 same.3)
      | inr miss ↦
          serve_candidate-outside gs handler is_head candidate miss
          ∙ sym (serve_candidate-outside fs handler is_head candidate miss)
    ]

serve_candidate-LeadsOut :
    (fs : FileSystem) (handler : StaticFileHandler) (is_head : Bool) (o : Option FilePath)
    → LeadsOut handler.root o
    → serve_candidate fs handler is_head o ≡ forbidden
serve_candidate-LeadsOut fs handler is_head none h = unfold serve_candidate in refl
serve_candidate-LeadsOut fs handler is_head (some candidate) h =
    elim (Bool-cases (is_inside_root handler.root candidate)) [
      | inl hit ↦
          let (rest, e) = (is_inside_root_iff handler.root candidate).0 hit in absurd (h rest e)
      | inr miss ↦ serve_candidate-outside fs handler is_head candidate miss
    ]

-- A path leads to the same answer in both.
serve_canonical-AgreeInside :
    (fs gs : FileSystem) (handler : StaticFileHandler) (is_head : Bool) (path : FilePath)
    → AgreeInside handler.root fs gs
    → serve_candidate gs handler is_head (gs.weakly_canonical path)
      ≡ serve_candidate fs handler is_head (fs.weakly_canonical path)
serve_canonical-AgreeInside fs gs handler is_head path h = elim (h.same_canonical path) [
  | inl same ↦ rw same (serve_candidate-inside fs gs handler is_head (fs.weakly_canonical path) h)
  | inr (out, out') ↦
      serve_candidate-LeadsOut gs handler is_head (gs.weakly_canonical path) out'
      ∙ sym (serve_candidate-LeadsOut fs handler is_head (fs.weakly_canonical path) out)
]

serve_path-AgreeInside :
    (fs gs : FileSystem) (handler : StaticFileHandler) (is_head : Bool) (path : Bytes)
    → AgreeInside handler.root fs gs
    → serve_candidate gs handler is_head (candidate_for gs handler path)
      ≡ serve_candidate fs handler is_head (candidate_for fs handler path)
serve_path-AgreeInside fs gs handler is_head path h =
    let relative = strip_slashes path in
    ap
      (λ join.
        serve_candidate gs handler is_head
          (gs.weakly_canonical (join handler.root (gs.to_path relative))))
      h.same_paths.1
    ∙ ap
        (λ to_path.
          serve_candidate gs handler is_head
            (gs.weakly_canonical (fs.join handler.root (to_path relative))))
        h.same_paths.0
    ∙ serve_canonical-AgreeInside fs gs handler is_head (fs.join handler.root (fs.to_path relative))
        h

-- handle gives the same response over two file systems that take paths apart in the same way, in which
-- each path has the same canonical form or leads outside the root in both (or to nothing), and that
-- say the same of what the root contains; what lies outside may differ, its existence, its sizes, its
-- bytes and the places that links there lead to.
pub handle-AgreeInside :
    (fs gs : FileSystem) (handler : StaticFileHandler) (request : HttpRequest)
    → AgreeInside handler.root fs gs
    → handle gs handler request ≡ handle fs handler request
unfolding handle
handle-AgreeInside fs gs handler request h =
    elim (Option-cases (percent_decode (requested_path request.target))) [
      | inl e ↦ rw e
      | inr (path, e) ↦
          rw (e, serve_path-AgreeInside fs gs handler (equal request.method (codes "HEAD")) path h)
            refl
    ]
