-- ===== src/Parser/RequestLine/Fields.antt =====
-- `parse_request_line` accepts exactly the lines `method SP target SP version` with a token, a
-- target that begins with a slash and has no space, and one of the two versions.
use mathlib.Core.Option
use http_server.Prelude.{
  ℕ, ◌+◌, ◌-◌, true, [], ◌∷◌, ◌++◌, none, some, ◌≡◌, ◌≢◌, ◌↔◌, refl, ap, ◌∙◌, sym, subst, arith,
  Bytes, codes, ◌⊎◌, inl, inr, find_byte, equal_iff, length, take, drop, Lacks, find_byte-append,
  find_byte-Lacks, find_byte-eq-some, drop-append_cons, take-append, Option-cases, drop-drop, eq-ne,
}
use http_server.Text.{is_token}
use http_server.Text.Tokens.{is_token-Lacks, is_tchar-separators}
use http_server.Parser.Outcome.{Refusal, ok, missing_method_separator, missing_target_or_version}
use http_server.Parser.RequestLine.{
  RequestLine, find_from, index_above, front_is, check_request_line, parse_request_line,
}

abbrev pub line_of : RequestLine → Bytes
line_of r = r.method ++ b' ' ∷ (r.target ++ b' ' ∷ r.version)

-- The pieces of a line behind the first and the second space.
module _ (m t v : Bytes) where
  drop_target : drop (length m + 1) (m ++ b' ' ∷ (t ++ b' ' ∷ v)) ≡ t ++ b' ' ∷ v
  drop_target = drop-append_cons m b' ' (t ++ b' ' ∷ v)

  drop_version : drop (length m + 1 + length t + 1) (m ++ b' ' ∷ (t ++ b' ' ∷ v)) ≡ v
  drop_version =
      let line = m ++ b' ' ∷ (t ++ b' ' ∷ v) in
      let e : length m + 1 + (length t + 1) ≡ length m + 1 + length t + 1 = omega arith in
      subst (λ (k : ℕ). drop k line ≡ v) e
        (sym (drop-drop (length m + 1) (length t + 1) line)
          ∙ ap (drop (length t + 1)) drop_target
          ∙ drop-append_cons t b' ' v)

index_above-ok :
    (lowest i : ℕ) (why : Refusal) → i ≢ lowest → index_above lowest (some i) why ≡ ok i
index_above-ok lowest i why h = rw (eq-ne i lowest h)

length-ne-zero : (s : Bytes) → s ≢ [] → length s ≢ 0
length-ne-zero [] h = absurd (h refl)
length-ne-zero (x ∷ s) h = omega arith

-- Each field in its place is read as it stands, and then tested.
pub parse_request_line-line_of :
    (m t v : Bytes)
    → m ≢ []
    → t ≢ []
    → Lacks b' ' m
    → Lacks b' ' t
    → Lacks b' ' v
    → parse_request_line (m ++ b' ' ∷ (t ++ b' ' ∷ v))
      ≡ check_request_line (record { method = m; target = t; version = v })
unfolding parse_request_line
parse_request_line-line_of m t v hm ht lm lt lv =
    let second = length m + 1 + length t in
    let size : second - length m - 1 ≡ length t = omega arith in
    rw
      (
        find_byte-append b' ' m (t ++ b' ' ∷ v) lm,
        index_above-ok 0 (length m) missing_method_separator (length-ne-zero m hm),
        drop_target m t v,
        find_byte-append b' ' t v lt,
        index_above-ok (length m + 1) second missing_target_or_version
            (λ e. length-ne-zero t ht (omega (arith, e))),
        drop_version m t v,
        find_byte-Lacks b' ' v lv,
        size,
        take-append m (b' ' ∷ (t ++ b' ' ∷ v)),
        take-append t (b' ' ∷ v),
      )
      refl

-- What an accepted line looks like.
pub record IsRequestLine (line : Bytes) (r : RequestLine) : Type 0 where
  pub splits : line ≡ r.method ++ b' ' ∷ (r.target ++ b' ' ∷ r.version)
  pub method_token : is_token r.method ≡ true
  pub target_front : front_is b'/' r.target ≡ true
  pub target_Lacks : Lacks b' ' r.target
  pub version_known : (r.version ≡ codes "HTTP/1.1") ⊎ (r.version ≡ codes "HTTP/1.0")

check_request_line-eq-ok :
    (s r : RequestLine)
    → check_request_line s ≡ ok r
    → (s ≡ r)
      × (is_token s.method ≡ true)
      × (front_is b'/' s.target ≡ true)
      × ((s.version ≡ codes "HTTP/1.1") ⊎ (s.version ≡ codes "HTTP/1.0"))
unfolding check_request_line
check_request_line-eq-ok s r h =
    ground (arith, equal_iff s.version (codes "HTTP/1.1"), equal_iff s.version (codes "HTTP/1.0"))

-- What the three searches found in an accepted line.
parse_request_line-inv :
    (line : Bytes) (r : RequestLine)
    → parse_request_line line ≡ ok r
    → (i : ℕ) × (j : ℕ) × (find_byte b' ' line ≡ some i)
      × (find_from b' ' line (i + 1) ≡ some j)
      × (j ≢ i + 1)
      × (find_from b' ' line (j + 1) ≡ none)
      × (check_request_line (record {
        method = take i line;
        target = take (j - i - 1) (drop (i + 1) line);
        version = drop (j + 1) line;
      })
          ≡ ok r)
unfolding parse_request_line
parse_request_line-inv line r h = elim (Option-cases (find_byte b' ' line)) [
  | inl e ↦ ground arith
  | inr (i, e) ↦ elim (Option-cases (find_from b' ' line (i + 1))) [
    | inl e' ↦ ground arith
    | inr (j, e') ↦ (i, j, e, e', ground arith, ground arith, ground arith)
  ]
]

IsRequestLine-of_fields :
    (m t v : Bytes) (r : RequestLine)
    → Lacks b' ' t
    → check_request_line (record { method = m; target = t; version = v }) ≡ ok r
    → IsRequestLine (m ++ b' ' ∷ (t ++ b' ' ∷ v)) r
IsRequestLine-of_fields m t v r lt h =
    let (same, token, slash, known) =
      check_request_line-eq-ok (record { method = m; target = t; version = v }) r h in
    subst (IsRequestLine (m ++ b' ' ∷ (t ++ b' ' ∷ v))) same (record {
      splits = refl;
      method_token = token;
      target_front = slash;
      target_Lacks = lt;
      version_known = known;
    })

-- The searches found the two spaces between `m`, `t` and `v`.
fields_found :
    (line m t v : Bytes) (i j : ℕ) (r : RequestLine)
    → line ≡ m ++ b' ' ∷ (t ++ b' ' ∷ v)
    → length m ≡ i
    → i + 1 + length t ≡ j
    → check_request_line (record {
      method = take i line;
      target = take (j - i - 1) (drop (i + 1) line);
      version = drop (j + 1) line;
    })
      ≡ check_request_line (record { method = m; target = t; version = v })
fields_found line m t v i j r e hi hj =
    let size : length m + 1 + length t - length m - 1 ≡ length t = omega arith in
    rw (
      e,
      ← hj,
      ← hi,
      take-append m (b' ' ∷ (t ++ b' ' ∷ v)),
      drop_target m t v,
      size,
      take-append t (b' ' ∷ v),
      drop_version m t v,
    )

parse_request_line-IsRequestLine :
    (line : Bytes) (r : RequestLine) → parse_request_line line ≡ ok r → IsRequestLine line r
parse_request_line-IsRequestLine line r h =
    let (i, j, e, e', apart, last, checked) = parse_request_line-inv line r h in
    let (k, e'', at) =
      (Option.map-eq-some_iff (λ (k : ℕ). i + 1 + k) (find_byte b' ' (drop (i + 1) line))).0 e' in
    let first = find_byte-eq-some b' ' line e in
    let second = find_byte-eq-some b' ' (drop (i + 1) line) e'' in
    let rest : first.after ≡ drop (i + 1) line =
      rw (first.splits, ← first.at_index) (sym (drop-append_cons first.before b' ' first.after)) in
    let whole : line ≡ first.before ++ b' ' ∷ (second.before ++ b' ' ∷ second.after) =
      first.splits ∙ ap (λ (s : Bytes). first.before ++ b' ' ∷ s) (rest ∙ second.splits) in
    let found =
      fields_found line first.before second.before second.after i j r whole first.at_index
        (omega (arith, second.at_index, at)) in
    rw whole (
      IsRequestLine-of_fields first.before second.before second.after r second.first
        (sym found ∙ checked))

is_token-ne-nil : (s : Bytes) → is_token s ≡ true → s ≢ []
unfolding is_token
is_token-ne-nil [] h = cc
is_token-ne-nil (c ∷ s) h = λ e. cc

front_is-ne-nil : (c : ℕ) (s : Bytes) → front_is c s ≡ true → s ≢ []
front_is-ne-nil c [] h = cc
front_is-ne-nil c (x ∷ s) h = λ e. cc

check_request_line-of_known :
    (r : RequestLine)
    → is_token r.method ≡ true
    → front_is b'/' r.target ≡ true
    → (r.version ≡ codes "HTTP/1.1") ⊎ (r.version ≡ codes "HTTP/1.0")
    → check_request_line r ≡ ok r
unfolding check_request_line
check_request_line-of_known r t f v =
    ground (arith, equal_iff r.version (codes "HTTP/1.1"), equal_iff r.version (codes "HTTP/1.0"))

version-Lacks : (v : Bytes) → (v ≡ codes "HTTP/1.1") ⊎ (v ≡ codes "HTTP/1.0") → Lacks b' ' v
version-Lacks v (inl e) = rw e (omega arith)
version-Lacks v (inr e) = rw e (omega arith)

parse_request_line-of_IsRequestLine :
    (line : Bytes) (r : RequestLine) → IsRequestLine line r → parse_request_line line ≡ ok r
parse_request_line-of_IsRequestLine line r h = rw h.splits (
    parse_request_line-line_of r.method r.target r.version (is_token-ne-nil r.method h.method_token)
      (front_is-ne-nil b'/' r.target h.target_front)
      (is_token-Lacks b' ' r.method is_tchar-separators.0 h.method_token) h.target_Lacks
      (version-Lacks r.version h.version_known)
    ∙ check_request_line-of_known r h.method_token h.target_front h.version_known)

-- `parse_request_line` accepts a line, with these three fields, exactly if it has that form.
pub parse_request_line_iff :
    (line : Bytes) (r : RequestLine) → (parse_request_line line ≡ ok r) ↔ IsRequestLine line r
parse_request_line_iff line r =
    (parse_request_line-IsRequestLine line r, parse_request_line-of_IsRequestLine line r)
