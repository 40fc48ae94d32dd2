-- ===== src/Parser/HeaderLines.antt =====
-- Each header line of a head has its field: what the loop over the header lines in src/parser.cpp
-- makes of the header block.
use http_server.Prelude.{
  ℕ, zero, suc, ◌+◌, ◌-◌, ◌≤◌, ◌≡◌, ◌≢◌, ◌∙◌, ◌⊎◌, inl, inr, refl, sym, ap, subst, true, not, List,
  [], ◌∷◌, ◌++◌, append-nil, append_assoc, Option, none, some, arith, Bytes, Lacks, find_text,
  find_text-le, find_text-splits, find_byte, find_byte-eq-some, take, drop, length, length-take,
  length-drop, take-append, drop-append_cons, Option-cases, Bool-cases, equal, codes,
}
use http_server.Request.{HeaderField, HttpRequest, find}
use http_server.Text.{is_token, to_lower_ascii, is_ows, at, trim_ows}
use http_server.Text.Trim.{IsTrimmed, trim_ows-IsTrimmed}
use http_server.Parser.Outcome.{
  >>=-eq-ok, require-then, ok_eq, Parsed, Refusal, ok, ◌>>◌, require, malformed_header_line,
  whitespace_before_colon, invalid_header_name,
}
use http_server.Parser.RequestLine.{index_above}
use http_server.Parser.HeaderLine.{parse_header_line, add_header}
use http_server.Parser.Head.{crlf, line_at, behind, parse_headers}

-- A line and the field that it stands for: the name in front of the first colon, a token, in lower
-- case; the value behind it, without the spaces and tabs at its ends.
pub record IsField (line : Bytes) (f : HeaderField) : Type 0 where
  pub raw_name : Bytes
  pub raw_value : Bytes
  pub split : line ≡ raw_name ++ b':' ∷ raw_value
  pub first_colon : Lacks b':' raw_name
  pub name_token : is_token raw_name ≡ true
  pub lower_name : f.name ≡ to_lower_ascii raw_name
  pub trimmed_value : IsTrimmed raw_value f.value

-- The lines of a header block, cut at each end of line, and their fields, one for each line in the
-- order of the lines. The last line may have no end.
pub data HeaderLines : Bytes → List HeaderField → Type 0 where
  no_lines : HeaderLines [] []
  last_line :
      {line : Bytes} {f : HeaderField}
      → find_text crlf line ≡ none
      → IsField line f
      → HeaderLines line (f ∷ [])
  one_line :
      {s line rest : Bytes} {f : HeaderField} {fs : List HeaderField}
      → s ≡ line ++ (crlf ++ rest)
      → find_text crlf s ≡ some (length line)
      → IsField line f
      → HeaderLines rest fs
      → HeaderLines s (f ∷ fs)

-- The header block of a head: what stands behind the end of its first line.
abbrev pub HasBlock : Bytes → Bytes → Type 0
HasBlock head block =
    ((find_text crlf head ≡ none) × (block ≡ []))
    ⊎ ((line : Bytes) × (head ≡ line ++ (crlf ++ block))
        × (find_text crlf head ≡ some (length line)))

index_above-eq-ok : (o : Option ℕ) (why : Refusal) {i : ℕ} → index_above 0 o why ≡ ok i → o ≡ some i
index_above-eq-ok none why h = cc
index_above-eq-ok (some j) why h = ground arith

-- The field that the parser makes of a line is the one that the line stands for.
parse_header_line-IsField :
    (line : Bytes) (f : HeaderField) → parse_header_line line ≡ ok f → IsField line f
unfolding parse_header_line
parse_header_line-IsField line f e =
    let (colon, e1, rest) =
      >>=-eq-ok (index_above 0 (find_byte b':' line) malformed_header_line) _ e in
    let found =
      find_byte-eq-some b':' line
        (index_above-eq-ok (find_byte b':' line) malformed_header_line e1) in
    let raw_name = take colon line in
    let field : HeaderField = record {
      name = to_lower_ascii raw_name;
      value = trim_ows (drop (colon + 1) line);
    } in
    let checked : Parsed HeaderField =
      require (is_token raw_name) invalid_header_name >> ok field in
    let spaced = not (is_ows (at line (colon - 1))) in
    let (u, rest2) = require-then spaced whitespace_before_colon checked rest in
    let (token, done) = require-then (is_token raw_name) invalid_header_name (ok field) rest2 in
    let name_is : raw_name ≡ found.before =
      ap (λ (i : ℕ). take i line) (sym found.at_index)
      ∙ ap (take (length found.before)) found.splits
      ∙ take-append found.before (b':' ∷ found.after) in
    let value_is : drop (colon + 1) line ≡ found.after =
      ap (λ (i : ℕ). drop (i + 1) line) (sym found.at_index)
      ∙ ap (drop (length found.before + 1)) found.splits
      ∙ drop-append_cons found.before b':' found.after in
    record {
      raw_name = found.before;
      raw_value = found.after;
      split = found.splits;
      first_colon = found.first;
      name_token = subst (λ (s : Bytes). is_token s ≡ true) name_is token;
      lower_name = sym (ap (λ (g : HeaderField). g.name) (ok_eq done)) ∙ ap to_lower_ascii name_is;
      trimmed_value =
          subst (IsTrimmed found.after)
            (ap trim_ows (sym value_is) ∙ ap (λ (g : HeaderField). g.value) (ok_eq done))
            (trim_ows-IsTrimmed found.after);
    }

-- A round of the loop adds its field behind the others.
add_header-fields :
    (f : HeaderField) (r q : HttpRequest)
    → add_header f r ≡ ok q
    → q.header_fields ≡ r.header_fields ++ f ∷ []
unfolding add_header
add_header-fields f r q e = elim (Option-cases (find f.name r.headers)) [
  | inl new ↦ sym (ap (λ (z : HttpRequest). z.header_fields) (ok_eq (rw (new, add_header) at e)))
  | inr (existing, old) ↦ elim (Bool-cases (equal f.name (codes "connection"))) [
    | inl joins ↦
        sym (ap (λ (z : HttpRequest). z.header_fields) (ok_eq (rw (old, add_header, joins) at e)))
    | inr twice ↦ cc (rw (old, add_header, twice) at e)
  ]
]

cut_length :
    (s : Bytes) {i : ℕ} → find_text crlf s ≡ some i → (i + 2 ≤ length s) × (length (take i s) ≡ i)
cut_length s {i} h =
    let fits = find_text-le crlf s h in (omega (arith, fits), omega (arith, fits, length-take i s))

behind-length :
    (s : Bytes) (fuel : ℕ) (o : Option ℕ)
    → find_text crlf s ≡ o
    → length s ≤ suc fuel
    → length (behind s o) ≤ fuel
behind-length s fuel none e h = omega arith
behind-length s fuel (some i) e h = omega (arith, (cut_length s e).0, length-drop (i + 2) s)

cons_behind : (a : Bytes) (c : ℕ) (b : Bytes) → a ++ c ∷ b ≢ []
cons_behind [] c b h = cc
cons_behind (x ∷ a) c b h = cc

HeaderLines-nil : {s : Bytes} {fs : List HeaderField} → HeaderLines s fs → s ≡ [] → fs ≡ []
HeaderLines-nil no_lines e = refl
HeaderLines-nil (last_line n f) e =
    absurd (cons_behind f.raw_name b':' f.raw_value (sym f.split ∙ e))
HeaderLines-nil (one_line {line = line} {rest = rest} split n f more) e =
    absurd (cons_behind line b'\r' (b'\n' ∷ rest) (sym split ∙ e))

-- A line in front of the lines behind it.
HeaderLines-cons :
    (s : Bytes) (o : Option ℕ) {f : HeaderField} {fs : List HeaderField}
    → find_text crlf s ≡ o
    → IsField (line_at s o) f
    → HeaderLines (behind s o) fs
    → HeaderLines s (f ∷ fs)
HeaderLines-cons s none {f} e field more =
    subst (λ (l : List HeaderField). HeaderLines s (f ∷ l)) (sym (HeaderLines-nil more refl))
      (last_line e field)
HeaderLines-cons s (some i) e field more =
    one_line (find_text-splits crlf s e) (e ∙ ap some (sym (cut_length s e).1)) field more

pub parse_headers-HeaderLines :
    (fuel : ℕ) (rest : Bytes) (r q : HttpRequest)
    → length rest ≤ fuel
    → parse_headers fuel rest r ≡ ok q
    → (fs : List HeaderField) × (q.header_fields ≡ r.header_fields ++ fs) × HeaderLines rest fs
unfolding parse_headers
parse_headers-HeaderLines zero [] r q h e = (
  [],
  sym (ap (λ (z : HttpRequest). z.header_fields) (ok_eq e)) ∙ sym (append-nil r.header_fields),
  no_lines,
)
parse_headers-HeaderLines zero (c ∷ s) r q h e = absurd (omega arith)
parse_headers-HeaderLines (suc fuel) [] r q h e = (
  [],
  sym (ap (λ (z : HttpRequest). z.header_fields) (ok_eq e)) ∙ sym (append-nil r.header_fields),
  no_lines,
)
parse_headers-HeaderLines (suc fuel) (c ∷ s) r q h e =
    let line_end = find_text crlf (c ∷ s) in
    let (field, e1, rest1) = >>=-eq-ok (parse_header_line (line_at (c ∷ s) line_end)) _ e in
    let (next_request, e2, rest2) = >>=-eq-ok (add_header field r) _ rest1 in
    let (fs, grown, lines) =
      parse_headers-HeaderLines fuel (behind (c ∷ s) line_end) next_request q
        (behind-length (c ∷ s) fuel line_end refl h) rest2 in
    (
      field ∷ fs,
      grown
          ∙ ap (λ (l : List HeaderField). l ++ fs) (add_header-fields field r next_request e2)
          ∙ append_assoc r.header_fields (field ∷ []) fs,
      HeaderLines-cons (c ∷ s) line_end refl
          (parse_header_line-IsField (line_at (c ∷ s) line_end) field e1) lines,
    )

-- The block behind the first line.
pub HasBlock-behind :
    (head : Bytes) (o : Option ℕ) → find_text crlf head ≡ o → HasBlock head (behind head o)
HasBlock-behind head none e = inl (e, refl)
HasBlock-behind head (some i) e =
    inr (take i head, find_text-splits crlf head e, e ∙ ap some (sym (cut_length head e).1))

pub behind-le : (head : Bytes) (o : Option ℕ) → length (behind head o) ≤ length head
behind-le head none = omega arith
behind-le head (some i) = omega (arith, length-drop (i + 2) head)
