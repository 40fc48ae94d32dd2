-- ===== src/Request.antt =====
-- include/http/request.hpp, and the operations on `std::unordered_map<std::string, std::string>` that
-- the program uses. A map is an association list with one entry for each key; the program never
-- walks the headers of a request, so the order of the entries does not show.
use http_server.Prelude.{List, [], ◌∷◌, Option, none, some, Bytes, equal, if◌then◌else◌}

pub record HeaderField : Type 0 where
  pub name : Bytes
  pub value : Bytes

abbrev pub Headers : Type 0
Headers = List HeaderField

-- `headers.find(name)`, as the value behind the iterator.
unfoldable pub find : Bytes → Headers → Option Bytes
find name [] = none
find name (h ∷ hs) = if equal h.name name then some h.value else find name hs

-- `headers[name] = value`, and `it->second = value` at the entry found.
unfoldable pub assign : Bytes → Bytes → Headers → Headers
assign name value [] = record { name = name; value = value } ∷ []
assign name value (h ∷ hs) =
    if equal h.name name then record h { value = value } ∷ hs else h ∷ assign name value hs

pub record HttpRequest : Type 0 where
  pub method : Bytes
  pub target : Bytes
  pub version : Bytes
  pub headers : Headers
  pub header_fields : List HeaderField
  pub body : Bytes
