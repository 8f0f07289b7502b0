-- ===== src/Http/Request.antt =====
-- cold/net/http/HttpRequest.h, HttpRequest.cpp and RawHttpRequest.h: a request, and how its url, its
-- cookies and its body are taken apart.
pub mod KeyValues
pub mod Decoded
mod Tests
use libcold.Base.{
  ℕ, zero, suc, ◌+◌, List, [], ◌∷◌, ◌++◌, Bool, true, false, ◌==◌, if◌then◌else◌, Option, none,
  some, bytes_of, str_eq, length, map,
}
use libcold.Base.StdMap.{StdMap, find, assign, erase, contains}
use libcold.Http.Url.{url_decode, to_upper}

pub record RawHttpRequest : Type 0 where
  pub method : List ℕ
  pub url : List ℕ
  pub version : List ℕ
  pub headers : StdMap (List ℕ)
  pub body : List ℕ

abbrev pub new_raw_request : RawHttpRequest
new_raw_request = record { method = []; url = []; version = []; headers = []; body = [] }

abbrev pub set_method : List ℕ → RawHttpRequest → RawHttpRequest
set_method method r = record r { method = map to_upper method }

-- MAP_READ: the value of a key, empty where there is none.
abbrev pub value_or_empty : Option (List ℕ) → List ℕ
value_or_empty none = []
value_or_empty (some v) = v

unfoldable pub get_value : List ℕ → StdMap (List ℕ) → List ℕ
get_value key m = value_or_empty (find key m)

-- A cut at the first place of a character: what is before it and what is behind it.
abbrev pub before_and_behind : ℕ → Option (List ℕ × List ℕ) → Option (List ℕ × List ℕ)
before_and_behind c none = none
before_and_behind c (some (front, back)) = some (c ∷ front, back)

unfoldable pub cut : ℕ → List ℕ → Option (List ℕ × List ℕ)
cut d [] = none
cut d (c ∷ s) = if c == d then some ([], s) else before_and_behind c (cut d s)

-- The rounds of ParseKV, on what is left of kvStr: after the first `=`, the value goes to the next
-- delimiter or to the end.
abbrev pub kv_value :
    (List ℕ → StdMap (List ℕ) → StdMap (List ℕ))
    → List ℕ
    → List ℕ
    → Option (List ℕ × List ℕ)
    → StdMap (List ℕ)
    → StdMap (List ℕ)
kv_value next key rest none m = assign key rest m
kv_value next key rest (some (value, more)) m = next more (assign key value m)

abbrev pub kv_key :
    ℕ
    → (List ℕ → StdMap (List ℕ) → StdMap (List ℕ))
    → Option (List ℕ × List ℕ)
    → StdMap (List ℕ)
    → StdMap (List ℕ)
kv_key kv_delim next none m = m
kv_key kv_delim next (some (key, rest)) m = kv_value next key rest (cut kv_delim rest) m

unfoldable pub parse_kv_loop : ℕ → ℕ → ℕ → List ℕ → StdMap (List ℕ) → StdMap (List ℕ)
parse_kv_loop zero k_delim kv_delim s m = m
parse_kv_loop (suc k) k_delim kv_delim s m =
    kv_key kv_delim (λ rest n. parse_kv_loop k k_delim kv_delim rest n) (cut k_delim s) m

-- A round takes a byte at least away.
unfoldable pub parse_kv : ℕ → ℕ → List ℕ → StdMap (List ℕ) → StdMap (List ℕ)
parse_kv k_delim kv_delim s m = parse_kv_loop (suc (length s)) k_delim kv_delim s m

-- Attributes are values of any type: here their encodings.
pub record HttpRequest : Type 0 where
  pub raw : RawHttpRequest
  pub url : List ℕ
  pub fragment : List ℕ
  pub body : List ℕ
  pub attributes : StdMap ℕ
  pub parameters : StdMap (List ℕ)
  pub cookies : StdMap (List ℕ)

-- find_last_of: the cut at the last place.
abbrev pub last_or : ℕ → List ℕ → Bool → Option (List ℕ × List ℕ) → Option (List ℕ × List ℕ)
last_or c s here (some (front, back)) = some (c ∷ front, back)
last_or c s here none = if here then some ([], s) else none

unfoldable pub cut_last : ℕ → List ℕ → Option (List ℕ × List ℕ)
cut_last d [] = none
cut_last d (c ∷ s) = last_or c s (c == d) (cut_last d s)

-- The url without its fragment, and the fragment.
abbrev pub without_fragment : List ℕ → Option (List ℕ × List ℕ) → List ℕ × List ℕ
without_fragment url none = (url, [])
without_fragment url (some (front, back)) = (front, back)

-- The url and the parameters; the url is cut only where there is a query.
abbrev pub with_query : List ℕ → Option (List ℕ × List ℕ) → List ℕ × StdMap (List ℕ)
with_query url none = (url, [])
with_query url (some (front, query)) = (front, parse_kv 61 38 query [])

abbrev pub parse_cookies : Option (List ℕ) → StdMap (List ℕ)
parse_cookies none = []
parse_cookies (some header) = parse_kv 61 59 header []

unfoldable pub decode_url_and_body : RawHttpRequest → HttpRequest
decode_url_and_body raw =
    let url = url_decode raw.url in
    let (view, fragment) = without_fragment url (cut_last 35 url) in
    let (url', parameters) = with_query url (cut 63 view) in
    let body = url_decode raw.body in
    record {
      raw = raw;
      url = url';
      fragment = fragment;
      body = body;
      attributes = [];
      parameters = parse_kv 61 38 body parameters;
      cookies = parse_cookies (find (bytes_of "Cookie") raw.headers);
    }

-- HttpRequest::IsKeepAlive
unfoldable pub request_is_keep_alive : HttpRequest → Bool
request_is_keep_alive r =
    if contains (bytes_of "Connection") r.raw.headers
    then str_eq (get_value (bytes_of "Connection") r.raw.headers) (bytes_of "keep-alive")
    else str_eq r.raw.version (bytes_of "HTTP/1.1")

-- The attributes of a request.
abbrev pub set_request_attribute : List ℕ → ℕ → HttpRequest → HttpRequest
set_request_attribute key value r = record r { attributes = assign key value r.attributes }

abbrev pub get_request_attribute : List ℕ → HttpRequest → Option ℕ
get_request_attribute key r = find key r.attributes

abbrev pub remove_request_attribute : List ℕ → HttpRequest → HttpRequest
remove_request_attribute key r = record r { attributes = erase key r.attributes }
