-- ===== src/Parser/RequestLine.antt =====
-- `parse_request_line` of src/parser.cpp.
pub mod Fields
use mathlib.Core.Option
use http_server.Prelude.{
  ℕ, ◌+◌, ◌-◌, Bool, true, false, not, ◌&&◌, ◌||◌, List, [], ◌∷◌, Option, none, some, Bytes, codes,
  find_byte, equal, ltb, ◌==◌, if◌then◌else◌, length, take, drop,
}
use http_server.Text.{is_token}
use http_server.Parser.Outcome.{
  Parsed, Refusal, ◌>>=◌, ◌>>◌, require, ok, refuse, missing_method_separator,
  missing_target_or_version, too_many_fields, invalid_method_token, target_without_slash,
  unsupported_version,
}

pub record RequestLine : Type 0 where
  pub method : Bytes
  pub target : Bytes
  pub version : Bytes

-- `s.find(c, pos)`: an index into `s` again.
abbrev pub find_from : ℕ → Bytes → ℕ → Option ℕ
find_from c s pos = Option.map (λ i. pos + i) (find_byte c (drop pos s))

-- `found == npos || found == lowest` is an error.
abbrev pub index_above : ℕ → Option ℕ → Refusal → Parsed ℕ
index_above lowest none why = refuse why
index_above lowest (some i) why = if i == lowest then refuse why else ok i

abbrev pub is_none : Option ℕ → Bool
is_none none = true
is_none (some i) = false

-- `!s.empty() && s.front() == c`.
abbrev pub front_is : ℕ → Bytes → Bool
front_is c [] = false
front_is c (x ∷ s) = x == c

-- The tests on the three fields.
unfoldable pub check_request_line : RequestLine → Parsed RequestLine
check_request_line out = do
  require (is_token out.method) invalid_method_token
  require (front_is b'/' out.target) target_without_slash
  require (equal out.version (codes "HTTP/1.1") || equal out.version (codes "HTTP/1.0"))
      unsupported_version
  ok out

unfoldable pub parse_request_line : Bytes → Parsed RequestLine
parse_request_line line = do
  first_space ← index_above 0 (find_byte b' ' line) missing_method_separator
  let target_start = first_space + 1
  second_space ←
      index_above target_start (find_from b' ' line target_start) missing_target_or_version
  require (is_none (find_from b' ' line (second_space + 1))) too_many_fields
  check_request_line (record {
    method = take first_space line;
    target = take (second_space - first_space - 1) (drop target_start line);
    version = drop (second_space + 1) line;
  })
