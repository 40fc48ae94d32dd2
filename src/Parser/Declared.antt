-- ===== src/Parser/Declared.antt =====
-- What a value of Content-Length says, as `parse_content_length` of src/parser.cpp reads it.
use http_server.Prelude.{ℕ, ◌≡◌, ◌≢◌, ◌<◌, not, [], ◌∷◌, Option, none, some, Bytes, size_limit}
use http_server.Number.{AreDigits, from_chars}
use http_server.Number.Value.{value as decimal_value, from_chars_iff}
use http_server.Text.{trim_ows}
use http_server.Parser.Outcome.{require-then, ok, empty_content_length}
use http_server.Parser.Head.{parse_content_length, is_empty, whole_number}

-- The value of a field that declares a length: digits between spaces and tabs, of the value n.
abbrev pub Declares : Bytes → ℕ → Type 0
Declares text n =
    (trim_ows text ≢ [])
    × AreDigits (trim_ows text)
    × (decimal_value (trim_ows text) ≡ n)
    × (n < size_limit)

whole_number-eq-ok : (o : Option (ℕ × Bytes)) {n : ℕ} → whole_number o ≡ ok n → o ≡ some (n, [])
whole_number-eq-ok none h = cc
whole_number-eq-ok (some (k, [])) h = cc
whole_number-eq-ok (some (k, c ∷ s)) h = cc

pub parse_content_length-Declares :
    (text : Bytes) (n : ℕ) → parse_content_length text ≡ ok n → Declares text n
unfolding parse_content_length
parse_content_length-Declares text n h =
    let (filled, whole) =
      require-then (not (is_empty (trim_ows text))) empty_content_length
        (whole_number (from_chars size_limit (trim_ows text))) h in
    (from_chars_iff size_limit n (trim_ows text)).0
      (whole_number-eq-ok (from_chars size_limit (trim_ows text)) whole)
