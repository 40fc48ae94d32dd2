-- ===== src/Legacy/Target.antt =====
-- What `handleClient` of legacy/myhttpd.cc takes from the text of a request: the words of the request
-- line, the query with the sort options, and the links of a listing.
use http_server.Prelude.{
  ℕ, zero, suc, ◌+◌, ◌-◌, Bool, ◌&&◌, ◌||◌, [], ◌∷◌, ◌++◌, Option, none, some, Bytes, codes, leb,
  ◌==◌, length, take, drop, find_byte, find_text, if◌then◌else◌,
}

-- `std::string fullRequest(request)` ends at the first NUL.
unfoldable pub c_string : Bytes → Bytes
c_string [] = []
c_string (c ∷ s) = if c == 0 then [] else c ∷ c_string s

abbrev pub is_space : ℕ → Bool
is_space c = c == 32 || (leb 9 c && leb c 13)

unfoldable pub skip_spaces : Bytes → Bytes
skip_spaces [] = []
skip_spaces (c ∷ s) = if is_space c then skip_spaces s else c ∷ s

-- The characters up to the next white space, and the rest.
unfoldable pub take_word : Bytes → Bytes × Bytes
take_word [] = ([], [])
take_word (c ∷ s) =
    let (word, rest) = take_word s in if is_space c then ([], c ∷ s) else (c ∷ word, rest)

-- `stream >> word`; at the end of the stream the word stays empty.
unfoldable pub next_word : Bytes → Bytes × Bytes
unfolding skip_spaces take_word
next_word s = take_word (skip_spaces s)

pub record RequestWords : Type 0 where
  pub method : Bytes
  pub url : Bytes

-- `reqStream >> method >> url >> version`; the version is not looked at.
unfoldable pub request_words : Bytes → RequestWords
unfolding next_word
request_words s =
    let (method, rest) = next_word s in record { method = method; url = (next_word rest).0 }

-- `fullRequest.substr(pos + 4)`. Without an empty line `pos` is `npos`, and `npos + 4` is 3.
unfoldable pub request_body : Bytes → Bytes
request_body s = elim (find_text (codes "\r\n\r\n") s) [
  | none ↦ drop 3 s
  | some pos ↦ drop (pos + 4) s
]

-- A string before and behind its first question mark, if it has one.
abbrev pub split_at : Bytes → Option ℕ → Bytes × Option Bytes
split_at url none = (url, none)
split_at url (some qm_pos) = (take qm_pos url, some (drop (qm_pos + 1) url))

abbrev pub split_query : Bytes → Bytes × Option Bytes
split_query url = split_at url (find_byte b'?' url)

abbrev pub char_at : Bytes → ℕ → Option ℕ
char_at [] i = none
char_at (c ∷ s) zero = some c
char_at (c ∷ s) (suc i) = char_at s i

-- The character behind a key, or the default where the key or the character is missing.
abbrev pub option_value : Bytes → ℕ → Bytes → ℕ
option_value key default query = elim (find_text key query) [
  | none ↦ default
  | some key_pos ↦ elim (char_at query (key_pos + 2)) [ none ↦ default | some c ↦ c ]
]

-- The options of a listing: a letter for the field and one for the order.
pub record SortOptions : Type 0 where
  pub sort_field : ℕ
  pub sort_order : ℕ

unfoldable pub sort_options : Option Bytes → SortOptions
sort_options none = record { sort_field = b'N'; sort_order = b'A' }
sort_options (some query) = record {
  sort_field = option_value (codes "C=") b'N' query;
  sort_order = option_value (codes "O=") b'A' query;
}

-- `url.back()`; `none` where the string is empty, which the C++ standard leaves undefined.
unfoldable pub back : Bytes → Option ℕ
back [] = none
back (c ∷ []) = some c
back (c ∷ d ∷ s) = back (d ∷ s)

-- `s.find_last_of(c)`; `none` is `npos`.
unfoldable pub find_last : ℕ → Bytes → Option ℕ
find_last c [] = none
find_last c (x ∷ s) = elim (find_last c s) [
  | none ↦ if x == c then some 0 else none
  | some i ↦ some (suc i)
]

-- `url.substr(0, i)`.
abbrev pub cut_at : Bytes → Option ℕ → Bytes
cut_at url none = url
cut_at url (some i) = take i url

-- The part of `url` in front of the last slash among its first `length - 1` characters, or all of it.
unfoldable pub before_last_slash : Bytes → Bytes
unfolding find_last
before_last_slash url = cut_at url (find_last b'/' (take (length url - 1) url))

abbrev pub slash_behind : Bytes → Bytes
slash_behind [] = codes "/"
slash_behind (c ∷ s) = (c ∷ s) ++ codes "/"

-- The link to the parent directory.
unfoldable pub parent_of : Bytes → Bytes
unfolding before_last_slash
parent_of url = slash_behind (before_last_slash url)
