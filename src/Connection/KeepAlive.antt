-- ===== src/Connection/KeepAlive.antt =====
-- `has_connection_token` and `should_keep_alive` of src/connection.cpp.
use http_server.Prelude.{
  ℕ, zero, suc, ◌+◌, Bool, true, false, ◌&&◌, [], ◌∷◌, none, some, Bytes, codes, equal, find_byte,
  ◌==◌, if◌then◌else◌, length, take, drop,
}
use http_server.Request.{HttpRequest, find}
use http_server.Text.{is_ows, at, to_lower}
use http_server.Text.Trim.{strip_front}

-- The second loop of this file's own `trim_ows`: the size of the view behind it.
unfoldable pub shrunk : Bytes → ℕ → ℕ
shrunk input zero = 0
shrunk input (suc n) =
    let smaller = shrunk input n in if is_ows (at input n) then smaller else suc n

-- This file's own `trim_ows`, which moves the ends of the view.
unfoldable pub trim_view : Bytes → Bytes
trim_view input = let view = strip_front input in take (shrunk view (length view)) view

unfoldable pub ascii_iequals : Bytes → Bytes → Bool
ascii_iequals [] [] = true
ascii_iequals (l ∷ left) (r ∷ right) = to_lower l == to_lower r && ascii_iequals left right
ascii_iequals _ _ = false

-- The loop over the comma-separated list; each round consumes a byte at least.
unfoldable pub token_in : ℕ → Bytes → Bytes → Bool
token_in zero token remaining = ascii_iequals (trim_view remaining) token
token_in (suc fuel) token remaining = elim (find_byte b',' remaining) [
  | none ↦ ascii_iequals (trim_view remaining) token
  | some comma ↦ elim (ascii_iequals (trim_view (take comma remaining)) token) [
    | true ↦ true
    | false ↦ token_in fuel token (drop (comma + 1) remaining)
  ]
]

unfoldable pub has_connection_token : HttpRequest → Bytes → Bool
has_connection_token request token = elim (find (codes "connection") request.headers) [
  | none ↦ false
  | some value ↦ token_in (length value) token value
]

unfoldable pub should_keep_alive : HttpRequest → Bool
should_keep_alive request =
    if has_connection_token request (codes "close")
    then false
    else if equal request.version (codes "HTTP/1.1")
    then true
    else equal request.version (codes "HTTP/1.0")
      && has_connection_token request (codes "keep-alive")
