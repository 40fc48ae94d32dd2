-- ===== src/Text.antt =====
-- src/parser.cpp, the helpers on bytes: `to_lower_ascii`, `trim_ows`, `is_tchar`, `is_token`.
-- `std::tolower` and `std::isalnum` are read in the "C" locale, which the program never leaves.
pub mod Trim
pub mod Tokens
use http_server.Prelude.{
  ℕ, zero, suc, ◌+◌, ◌-◌, Bool, true, false, ◌&&◌, ◌||◌, List, [], ◌∷◌, ltb, leb, ◌==◌,
  if◌then◌else◌, Bytes, codes, one_of, length, take, drop,
}
use mathlib.Core.List.{map}

-- `std::tolower`.
unfoldable pub to_lower : ℕ → ℕ
to_lower c = if leb b'A' c && leb c b'Z' then c + 32 else c

unfoldable pub to_lower_ascii : Bytes → Bytes
unfolding to_lower
to_lower_ascii = map to_lower

-- A space or a tab.
abbrev pub is_ows : ℕ → Bool
is_ows c = c == b' ' || c == b'\t'

-- `s[i]`; every call stands behind a bounds check.
unfoldable pub at : Bytes → ℕ → ℕ
at [] i = 0
at (x ∷ s) zero = x
at (x ∷ s) (suc i) = at s i

-- The first loop of `trim_ows`: the value of `begin` behind it.
unfoldable pub ows_begin : Bytes → ℕ
ows_begin [] = 0
ows_begin (c ∷ s) = if is_ows c then suc (ows_begin s) else 0

-- Its second loop: `end` steps down from `input.size()`, as long as it is above `begin`.
unfoldable pub ows_end : Bytes → ℕ → ℕ → ℕ
unfolding at
ows_end input begin zero = 0
ows_end input begin (suc e) =
    let lower = ows_end input begin e in
    if ltb begin (suc e) && is_ows (at input e) then lower else suc e

unfoldable pub trim_ows : Bytes → Bytes
unfolding ows_begin ows_end
trim_ows input =
    let begin = ows_begin input in
    let end = ows_end input begin (length input) in take (end - begin) (drop begin input)

-- `std::isalnum`.
abbrev pub is_alnum : ℕ → Bool
is_alnum c = leb b'0' c && leb c b'9' || leb b'A' c && leb c b'Z' || leb b'a' c && leb c b'z'

unfoldable pub is_tchar : ℕ → Bool
unfolding one_of
is_tchar c = is_alnum c || one_of (codes "!#$%&'*+-.^_`|~") c

unfoldable pub all_tchar : Bytes → Bool
all_tchar [] = true
all_tchar (c ∷ s) = is_tchar c && all_tchar s

unfoldable pub is_token : Bytes → Bool
unfolding all_tchar
is_token [] = false
is_token (c ∷ s) = all_tchar (c ∷ s)
