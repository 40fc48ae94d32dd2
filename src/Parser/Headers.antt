-- ===== src/Parser/Headers.antt =====
-- What the loop over the header lines in src/parser.cpp leaves: the header map is what the header
-- fields say, name by name.
use http_server.Prelude.{
  ℕ, zero, suc, ◌+◌, ◌≤◌, ◌≡◌, ◌≢◌, ◌∙◌, refl, sym, ap, subst, true, false, List, [], ◌∷◌, ◌++◌,
  append-nil, Option, none, some, inl, inr, arith, Bytes, codes, equal, equal_iff, find_text,
  find_byte, take, drop, not, ◌-◌, length, All, All-append, Bool-cases, Option-cases, if◌then◌else◌,
}
use http_server.Request.{HeaderField, Headers, HttpRequest, find, assign}
use http_server.Text.{is_token, to_lower_ascii, is_ows, at, trim_ows}
use http_server.Parser.Outcome.{
  >>=-eq-ok, require-then, ok_eq, Parsed, Refusal, ok, refuse, ◌>>◌, require, malformed_header_line,
  whitespace_before_colon, invalid_header_name,
}
use http_server.Parser.RequestLine.{RequestLine, index_above}
use http_server.Parser.HeaderLine.{parse_header_line, add_header}
use http_server.Parser.Head.{crlf, line_at, behind, parse_headers}

-- The values of the fields with a name, in their order.
abbrev pub values_of : Bytes → List HeaderField → List Bytes
values_of name [] = []
values_of name (f ∷ fs) =
    let rest = values_of name fs in if equal f.name name then f.value ∷ rest else rest

abbrev pub joined_behind : Bytes → List Bytes → Bytes
joined_behind value [] = value
joined_behind value (v ∷ vs) = joined_behind (value ++ (codes ", " ++ v)) vs

-- One value for a name: the values with commas between them, if there are any.
abbrev pub joined : List Bytes → Option Bytes
joined [] = none
joined (v ∷ vs) = some (joined_behind v vs)

abbrev pub connection : Bytes
connection = codes "connection"

-- The name of a field is a token in lower case.
abbrev pub IsNamed : HeaderField → Type 0
IsNamed f = (raw_name : Bytes) × (is_token raw_name ≡ true) × (f.name ≡ to_lower_ascii raw_name)

-- A request of a line: its map holds, for each name, what the fields of that name say, and only
-- `connection` has more than one.
pub record IsMapped (line : RequestLine) (r : HttpRequest) : Type 0 where
  pub same_line : (r.method ≡ line.method) × (r.target ≡ line.target) × (r.version ≡ line.version)
  pub named : All IsNamed r.header_fields
  pub mapped : (name : Bytes) → find name r.headers ≡ joined (values_of name r.header_fields)
  pub single : (name : Bytes) → name ≢ connection → length (values_of name r.header_fields) ≤ 1

both_ways :
    (n name : Bytes) (h : HeaderField)
    → equal h.name n ≡ false
    → n ≡ name
    → equal h.name name ≡ true
    → ⊥
both_ways n name h other e k =
    not_both (sym (subst (λ (m : Bytes). equal h.name m ≡ false) e other) ∙ k)
  where
    not_both : false ≡ true → ⊥
    not_both x = cc

find-assign :
    (n v name : Bytes) (hs : Headers)
    → find name (assign n v hs) ≡ (if equal n name then some v else find name hs)
unfolding find assign
find-assign n v name [] = refl
find-assign n v name (h ∷ hs) = elim (Bool-cases (equal h.name n)) [
  | inl here ↦
      let same = (equal_iff h.name n).0 here in
      rw (here, same) (elim (Bool-cases (equal n name)) [ inl e ↦ rw e refl | inr e ↦ rw e refl ])
  | inr other ↦ elim (Bool-cases (equal h.name name)) [
    | inl k ↦
        let apart : equal n name ≡ false = elim (Bool-cases (equal n name)) [
          | inl e ↦ absurd (both_ways n name h other ((equal_iff n name).0 e) k)
          | inr e ↦ e
        ] in
        rw (other, k, apart) refl
    | inr k ↦ rw (other, k, find-assign n v name hs) refl
  ]
]

values_of-append :
    (name : Bytes) (fs : List HeaderField) (f : HeaderField)
    → values_of name (fs ++ f ∷ [])
      ≡ values_of name fs ++ (if equal f.name name then f.value ∷ [] else [])
values_of-append name [] f = elim (Bool-cases (equal f.name name)) [
  | inl e ↦ rw e refl
  | inr e ↦ rw e refl
]
values_of-append name (g ∷ fs) f = elim (Bool-cases (equal g.name name)) [
  | inl e ↦ rw (e, values_of-append name fs f) refl
  | inr e ↦ rw (e, values_of-append name fs f) refl
]

joined_behind-append :
    (value : Bytes) (vs : List Bytes) (v : Bytes)
    → joined_behind value (vs ++ v ∷ []) ≡ joined_behind value vs ++ (codes ", " ++ v)
joined_behind-append value [] v = refl
joined_behind-append value (w ∷ vs) v = joined_behind-append (value ++ (codes ", " ++ w)) vs v

joined-append :
    (vs : List Bytes) (v existing : Bytes)
    → joined vs ≡ some existing
    → joined (vs ++ v ∷ []) ≡ some (existing ++ (codes ", " ++ v))
joined-append [] v existing h = cc
joined-append (w ∷ vs) v existing h =
    ap some (joined_behind-append w vs v ∙ ap (λ (l : Bytes). l ++ (codes ", " ++ v)) (some_eq h))
  where
    some_eq : some (joined_behind w vs) ≡ some existing → joined_behind w vs ≡ existing
    some_eq e = cc

none_joined : (vs : List Bytes) → joined vs ≡ none → vs ≡ []
none_joined [] h = refl
none_joined (v ∷ vs) h = cc

-- One field more, its value set in the map.
module _ (line : RequestLine) (r : HttpRequest) (f : HeaderField) (value : Bytes)
    (h : IsMapped line r) (named : IsNamed f)
    (says : joined (values_of f.name r.header_fields ++ f.value ∷ []) ≡ some value)
    (alone : f.name ≢ connection → values_of f.name r.header_fields ≡ []) where
  abbrev added : HttpRequest
  added = record r {
    headers = assign f.name value r.headers;
    header_fields = r.header_fields ++ f ∷ [];
  }

  added-mapped :
      (name : Bytes)
      → (if equal f.name name then some value else find name r.headers)
        ≡ joined
            (values_of name r.header_fields ++ (if equal f.name name then f.value ∷ [] else []))
  added-mapped name = elim (Bool-cases (equal f.name name)) [
    | inl here ↦ rw here (
        sym (
          subst (λ (n : Bytes). joined (values_of n r.header_fields ++ f.value ∷ []) ≡ some value)
            ((equal_iff f.name name).0 here) says))
    | inr other ↦
        rw other (h.mapped name ∙ ap joined (sym (append-nil (values_of name r.header_fields))))
  ]

  added-single :
      (name : Bytes)
      → name ≢ connection
      → length (values_of name r.header_fields ++ (if equal f.name name then f.value ∷ [] else []))
        ≤ 1
  added-single name other_name = elim (Bool-cases (equal f.name name)) [
    | inl here ↦
        let same = (equal_iff f.name name).0 here in
        let none_yet : values_of name r.header_fields ≡ [] =
          subst (λ (n : Bytes). values_of n r.header_fields ≡ []) same
            (alone (λ e. other_name (sym same ∙ e))) in
        rw (here, none_yet) (omega arith)
    | inr other ↦ rw (other, append-nil (values_of name r.header_fields)) (h.single name other_name)
  ]

  added-IsMapped : IsMapped line added
  added-IsMapped = record {
    same_line = h.same_line;
    named = All-append IsNamed r.header_fields (f ∷ []) h.named (named, tt);
    mapped = λ name.
        find-assign f.name value name r.headers
        ∙ added-mapped name
        ∙ ap joined (sym (values_of-append name r.header_fields f));
    single = λ name other_name.
        subst (λ (vs : List Bytes). length vs ≤ 1) (sym (values_of-append name r.header_fields f))
          (added-single name other_name);
  }

refused {ℓ} : {C : Type ℓ} {A : Type 0} {why : Refusal} {a : A} → refuse why ≡ ok a → C
refused h = cc

add_header-IsMapped :
    (line : RequestLine) (f : HeaderField) (r q : HttpRequest)
    → IsMapped line r
    → IsNamed f
    → add_header f r ≡ ok q
    → IsMapped line q
unfolding add_header
add_header-IsMapped line f r q h named e = elim (Option-cases (find f.name r.headers)) [
  | inl new ↦
      let none_yet : values_of f.name r.header_fields ≡ [] =
        none_joined (values_of f.name r.header_fields) (sym (h.mapped f.name) ∙ new) in
      subst (IsMapped line) (ok_eq (rw (new, add_header) at e))
        (added-IsMapped line r f f.value h named (rw none_yet refl) (λ _. none_yet))
  | inr (existing, old) ↦ elim (Bool-cases (equal f.name connection)) [
    | inl joins ↦ subst (IsMapped line) (ok_eq (rw (old, add_header, joins) at e)) (
        added-IsMapped line r f (existing ++ (codes ", " ++ f.value)) h named
          (joined-append (values_of f.name r.header_fields) f.value existing
            (sym (h.mapped f.name) ∙ old))
          (λ apart. absurd (apart ((equal_iff f.name connection).0 joins))))
    | inr twice ↦ refused (rw (old, add_header, twice) at e)
  ]
]

-- A field that the parser makes of a line has a token in lower case for a name.
parse_header_line-IsNamed :
    (line : Bytes) (f : HeaderField) → parse_header_line line ≡ ok f → IsNamed f
unfolding parse_header_line
parse_header_line-IsNamed line f e =
    let (colon, e1, rest) =
      >>=-eq-ok (index_above 0 (find_byte b':' line) malformed_header_line) _ e in
    let raw_name = take colon line in
    let field : HeaderField = record {
      name = to_lower_ascii raw_name;
      value = trim_ows (drop (colon + 1) line);
    } in
    let checked : Parsed HeaderField =
      require (is_token raw_name) invalid_header_name >> ok field in
    let spaced = not (is_ows (at line (colon - 1))) in
    let (u, rest2) = require-then spaced whitespace_before_colon checked rest in
    let (token, done) = require-then (is_token raw_name) invalid_header_name (ok field) rest2 in
    (raw_name, token, sym (ap (λ (g : HeaderField). g.name) (ok_eq done)))

pub parse_headers-IsMapped :
    (line : RequestLine) (fuel : ℕ) (rest : Bytes) (r q : HttpRequest)
    → IsMapped line r
    → parse_headers fuel rest r ≡ ok q
    → IsMapped line q
unfolding parse_headers
parse_headers-IsMapped line zero rest r q h e = subst (IsMapped line) (ok_eq e) h
parse_headers-IsMapped line (suc fuel) [] r q h e = subst (IsMapped line) (ok_eq e) h
parse_headers-IsMapped line (suc fuel) (c ∷ s) r q h e =
    let line_end = find_text crlf (c ∷ s) in
    let (field, e1, rest1) = >>=-eq-ok (parse_header_line (line_at (c ∷ s) line_end)) _ e in
    let (next_request, e2, rest2) = >>=-eq-ok (add_header field r) _ rest1 in
    parse_headers-IsMapped line fuel (behind (c ∷ s) line_end) next_request q
      (add_header-IsMapped line field r next_request h
        (parse_header_line-IsNamed (line_at (c ∷ s) line_end) field e1) e2)
      rest2
