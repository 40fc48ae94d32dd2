-- ===== src/Parser/Outcome.antt =====
-- The ways in which `HttpParser::next` refuses its input, and the result of a step that may refuse.
use http_server.Prelude.{◌≡◌, refl, true, false, Bool, if◌then◌else◌, ◌++◌, Bytes, codes}

-- One constructor for each message of src/parser.cpp.
pub data Refusal : Type 0 where
  missing_method_separator missing_target_or_version too_many_fields : Refusal
  invalid_method_token target_without_slash unsupported_version : Refusal
  malformed_header_line whitespace_before_colon invalid_header_name : Refusal
  duplicate_header_field : Bytes → Refusal
  missing_host both_framings unsupported_transfer_encoding : Refusal
  empty_content_length invalid_content_length body_too_long headers_too_long : Refusal

-- The text of the message.
pub error_text : Refusal → Bytes
error_text missing_method_separator = codes "request line is missing method separator"
error_text missing_target_or_version = codes "request line is missing target or version"
error_text too_many_fields = codes "request line has too many fields"
error_text invalid_method_token = codes "invalid method token"
error_text target_without_slash = codes "request target must use origin-form beginning with slash"
error_text unsupported_version = codes "unsupported HTTP version"
error_text malformed_header_line = codes "malformed header line"
error_text whitespace_before_colon = codes "whitespace before header colon"
error_text invalid_header_name = codes "invalid header name"
error_text (duplicate_header_field name) = codes "duplicate header field: " ++ name
error_text missing_host = codes "HTTP/1.1 request requires Host header"
error_text both_framings = codes "request contains both Transfer-Encoding and Content-Length"
error_text unsupported_transfer_encoding = codes "Transfer-Encoding is not supported"
error_text empty_content_length = codes "empty Content-Length"
error_text invalid_content_length = codes "invalid Content-Length"
error_text body_too_long = codes "body exceeds configured parser limit"
error_text headers_too_long = codes "headers exceed configured parser limit"

pub data ParseErrorKind : Type 0 where
  bad_request unsupported_encoding : ParseErrorKind

-- `parse_error` is given its second argument for `Transfer-Encoding` alone.
unfoldable pub error_kind : Refusal → ParseErrorKind
error_kind unsupported_transfer_encoding = unsupported_encoding
error_kind _ = bad_request

-- What a step of the parser yields, or why it gives up.
pub data Parsed {ℓ} (A : Type ℓ) : Type ℓ where
  refuse : Refusal → Parsed A
  ok : A → Parsed A

-- A test that has to pass.
abbrev pub require : Bool → Refusal → Parsed (Unit {0})
require passed why = if passed then ok tt else refuse why

module _ {κ} {Next : Type κ} where
  infixl 5 ◌>>=◌ ◌>>◌
  abbrev pub ◌>>=◌ {ℓ} : {Found : Type ℓ} → Parsed Found → (Found → Parsed Next) → Parsed Next
  refuse why >>= next = refuse why
  ok found >>= next = next found

  abbrev pub ◌>>◌ : Parsed (Unit {0}) → Parsed Next → Parsed Next
  step >> next = step >>= λ _. next

-- A chain that has not refused: what its first step yields, and how it goes on.
pub >>=-eq-ok :
    {Found Next : Type 0} (step : Parsed Found) (next : Found → Parsed Next) {last : Next}
    → (step >>= next) ≡ ok last
    → (found : Found) × (step ≡ ok found) × (next found ≡ ok last)
>>=-eq-ok (refuse why) next done = cc
>>=-eq-ok (ok found) next done = (found, refl, done)

pub require-then :
    {Found : Type 0} (passed : Bool) (why : Refusal) (step : Parsed Found) {found : Found}
    → (require passed why >> step) ≡ ok found
    → (passed ≡ true) × (step ≡ ok found)
require-then true why step done = (refl, done)
require-then false why step done = cc

pub ok_eq : {Found : Type 0} {a b : Found} → ok a ≡ ok b → a ≡ b
ok_eq done = cc
