-- ===== src/Legacy/Endings.antt =====
-- Which requests `handleClient` of legacy/myhttpd.cc handles to their end.
use mathlib.Core.Option
use http_server.Prelude.{
  ◌≢◌, ℕ, suc, ◌≡◌, refl, sym, Bool, true, false, not, ◌&&◌, List, [], ◌∷◌, Option, none, some,
  Bytes, codes, ◌==◌, equal, take, find_byte, find_text, starts_with, if◌then◌else◌, Bool-cases,
  inl, inr, ℤ, subst,
}
use http_server.Legacy.Sending.{Socket}
use http_server.Legacy.Target.{
  c_string, request_words, sort_options, SortOptions, back, split_query, split_at,
}
use http_server.Legacy.Listing.{Stat}
use http_server.Legacy.Replies.{
  Process, Visit, Host, Reply, returned, counted, undefined, max_request_size, authorization,
}
use http_server.Legacy.Client.{
  handle_received, handle_client, answer_request, logged, route, finish, is_none, serve_path,
  serve_directory, serve_file, list_directory, default_page, file_path, update_statistics,
}
use http_server.Legacy.Access.{request_of}

-- Handled to the end.
abbrev IsDefined : Reply → Type 0
IsDefined (returned s) = Unit
IsDefined (counted url s) = Unit
IsDefined undefined = ⊥

branch : (b : Bool) (x y : Reply) → IsDefined x → IsDefined y → IsDefined (if b then x else y)
branch true x y h k = h
branch false x y h k = k

directory-IsDefined :
    (host : Host) (answer : ℕ → ℤ) (o : SortOptions) (url path : Bytes)
    (names : Option (List Bytes)) (s : Socket)
    → IsDefined (list_directory host answer o url path names s)
directory-IsDefined host answer o url path none s = tt
directory-IsDefined host answer o url path (some names) s = tt

ending-IsDefined :
    (host : Host) (answer : ℕ → ℤ) (o : SortOptions) (url path : Bytes) (last : Option ℕ)
    (s : Socket)
    → last ≢ none
    → IsDefined (serve_directory host answer o url path last s)
ending-IsDefined host answer o url path none s h = h refl
ending-IsDefined host answer o url path (some c) s h =
    branch (c == b'/') _ _ (directory-IsDefined host answer o url path (host.open_dir path) s) tt

back-ne-none : (c : ℕ) (url : Bytes) → back (c ∷ url) ≢ none
unfolding back
back-ne-none c [] = λ h. cc
back-ne-none c (d ∷ url) = back-ne-none d url

file-IsDefined :
    (answer : ℕ → ℤ) (url : Bytes) (size : ℕ) (chunks : Option (List Bytes)) (s : Socket)
    → IsDefined (serve_file answer url size chunks s)
file-IsDefined answer url size none s = tt
file-IsDefined answer url size (some chunks) s = tt

path-IsDefined :
    (host : Host) (answer : ℕ → ℤ) (o : SortOptions) (c : ℕ) (url path : Bytes) (st : Option Stat)
    (s : Socket)
    → IsDefined (serve_path host answer o (c ∷ url) path st s)
path-IsDefined host answer o c url path none s = tt
path-IsDefined host answer o c url path (some st) s =
    branch st.is_directory _ _
      (ending-IsDefined host answer o (c ∷ url) path (back (c ∷ url)) s (back-ne-none c url))
      (file-IsDefined answer (c ∷ url) st.st_size (host.open_file path) s)

-- A URL that begins with a slash begins with it when the query is cut off.
split-slash :
    (rest : Bytes) (place : Option ℕ)
    → (url : Bytes) × ((split_at (b'/' ∷ rest) (Option.map suc place)).0 ≡ b'/' ∷ url)
split-slash rest none = (rest, refl)
split-slash rest (some i) = (take i rest, refl)

module _ (host : Host) (v : Visit) (p : Process) (s : Socket) where
  route-IsDefined :
      (request method rest : Bytes) → IsDefined (route host v p request method (b'/' ∷ rest) s)
  unfolding route find_byte
  route-IsDefined request method rest =
      let (url, same) = split-slash rest (find_byte b'?' rest) in
      let query = (split_query (b'/' ∷ rest)).1 in
      let served =
        subst
          (λ (u : Bytes). IsDefined (
            serve_path host v.answer (sort_options query) u (file_path u) (host.stat (file_path u))
              s))
          (sym same)
          (path-IsDefined host v.answer (sort_options query) b'/' url (file_path (b'/' ∷ url))
            (host.stat (file_path (b'/' ∷ url))) s) in
      branch (equal (b'/' ∷ rest) (codes "/stats")) _ _ tt (
        branch (equal (b'/' ∷ rest) (codes "/logs")) _ _ tt
          (branch (starts_with (codes "/cgi-bin/") (b'/' ∷ rest)) _ _ tt served))

  answer_request-IsDefined :
      (request rest : Bytes)
      → (request_words request).url ≡ b'/' ∷ rest
      → IsDefined (answer_request host v p request s)
  unfolding answer_request
  answer_request-IsDefined request rest slash =
      let method = (request_words request).method in
      let to_index = route-IsDefined request method (codes "index.html") in
      let paged : IsDefined (route host v p request method (default_page (b'/' ∷ rest)) s) =
        elim (Bool-cases (equal (b'/' ∷ rest) (codes "/"))) [
          | inl root ↦ rw root to_index
          | inr other ↦ rw other (route-IsDefined request method rest)
        ] in
      branch (is_none (find_text authorization request)) _ _ tt (
        branch (not (equal method (codes "GET")) && not (equal method (codes "POST"))) _ _ tt (
          subst (λ (u : Bytes). IsDefined (route host v p request method (default_page u) s))
            (sym slash) paged))

finish_defined :
    (v : Visit) (p : Process) (r : Reply)
    → IsDefined r
    → (out : Process × Socket) × (finish v p r ≡ some out)
finish_defined v p (returned s) h = ((p, s), refl)
finish_defined v p (counted url s) h =
    ((record p { statistics = update_statistics url v.ticks p.statistics }, s), refl)
finish_defined v p undefined h = absurd h

received-defined :
    (host : Host) (v : Visit) (p : Process) (bytes : Bytes) (s : Socket) (rest : Bytes)
    → (request_words (c_string bytes)).url ≡ b'/' ∷ rest
    → (out : Process × Socket) × (handle_received host v p bytes s ≡ some out)
received-defined host v p [] s rest slash = ((p, s), refl)
received-defined host v p (c ∷ bytes) s rest slash =
    let p' = logged v (request_words (c_string (c ∷ bytes))).url p in
    finish_defined v p' (answer_request host v p' (c_string (c ∷ bytes)) s)
      (answer_request-IsDefined host v p' s (c_string (c ∷ bytes)) rest slash)

-- A request whose URL begins with a slash is handled to its end: whatever the files, the scripts and
-- the socket do, handleClient never asks an empty string for its last character.
pub handle_client_defined :
    (host : Host) (v : Visit) (p : Process) (s : Socket) (rest : Bytes)
    → (request_words (request_of v)).url ≡ b'/' ∷ rest
    → (out : Process × Socket) × (handle_client host v p s ≡ some out)
unfolding handle_client
handle_client_defined host v p s rest slash =
    received-defined host v p (take max_request_size v.received) s rest slash
