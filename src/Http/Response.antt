-- ===== src/Http/Response.antt =====
-- cold/net/http/HttpResponse.h and RawHttpResponse.h: a response, its headers and its cookies.
-- fmt::format and std::to_string write a number in decimal.
pub mod Lines
pub mod Head
mod Tests
use libcold.Base.{
  ℕ, zero, suc, ◌+◌, ◌/◌, ◌%◌, List, [], ◌∷◌, ◌++◌, Bool, true, false, ltb, ◌==◌, if◌then◌else◌,
  Option, none, some, ◌>>=◌, bytes_of, is_empty, length,
}
use libcold.Base.StdMap.{StdMap, assign}
use libcold.Http.Status.{http_status_to_http_status_msg, status_ok, status_found}

-- A number has no more digits than its value and one.
unfoldable pub decimal_loop : ℕ → ℕ → List ℕ → List ℕ
decimal_loop zero n acc = acc
decimal_loop (suc k) n acc =
    let digit = 48 + n % 10 in
    let more = decimal_loop k (n / 10) (digit ∷ acc) in if ltb n 10 then digit ∷ acc else more

unfoldable pub decimal : ℕ → List ℕ
unfolding decimal_loop
decimal n = decimal_loop (suc n) n []

abbrev pub crlf : List ℕ
crlf = 13 ∷ 10 ∷ []

-- The age is none where the source has a negative number.
pub record HttpCookie : Type 0 where
  pub key : List ℕ
  pub value : List ℕ
  pub max_age : Option ℕ
  pub domain : List ℕ
  pub path : List ℕ
  pub http_only : Bool
  pub secure : Bool

abbrev pub max_age_part : Option ℕ → List ℕ
max_age_part none = []
max_age_part (some age) = bytes_of ";Max-Age=" ++ decimal age

abbrev pub part_unless_empty : List ℕ → List ℕ → List ℕ
part_unless_empty name s = if is_empty s then [] else name ++ s

unfoldable pub dump_cookie : HttpCookie → List ℕ
dump_cookie c =
    c.key
    ++ bytes_of "="
    ++ c.value
    ++ max_age_part c.max_age
    ++ part_unless_empty (bytes_of ";Domain=") c.domain
    ++ part_unless_empty (bytes_of ";Path=") c.path
    ++ (if c.http_only then bytes_of ";HttpOnly" else [])
    ++ (if c.secure then bytes_of ";Secure" else [])

-- A body, as far as a response depends on its class.
pub record HttpResponseBody : Type 0 where
  pub set_related_headers : StdMap (List ℕ) → StdMap (List ℕ)
  pub to_raw_body : List ℕ

unfoldable pub text_body : List ℕ → HttpResponseBody
text_body content = record {
  set_related_headers = λ headers.
      assign (bytes_of "Content-Type") (bytes_of "text/html;charset=utf-8")
        (assign (bytes_of "Content-Length") (decimal (length content)) headers);
  to_raw_body = content;
}

pub data ConnectionStatus : Type 0 where
  keep_alive close upgrade : ConnectionStatus

abbrev pub connection_status_to_connection_str : ConnectionStatus → List ℕ
connection_status_to_connection_str keep_alive = bytes_of "keep-alive"
connection_status_to_connection_str close = bytes_of "close"
connection_status_to_connection_str upgrade = bytes_of "Upgrade"

pub record HttpResponse : Type 0 where
  pub status : ℕ
  pub version : List ℕ
  pub headers : StdMap (List ℕ)
  pub body : Option HttpResponseBody
  pub cookies : List HttpCookie
  pub connection_status : ConnectionStatus

abbrev pub new_response : HttpResponse
new_response = record {
  status = status_ok;
  version = bytes_of "HTTP/1.1";
  headers = [];
  body = none;
  cookies = [];
  connection_status = keep_alive;
}

abbrev pub set_status : ℕ → HttpResponse → HttpResponse
set_status status r = record r { status = status }

abbrev pub set_version : List ℕ → HttpResponse → HttpResponse
set_version version r = record r { version = version }

abbrev pub set_header : List ℕ → List ℕ → HttpResponse → HttpResponse
set_header key value r = record r { headers = assign key value r.headers }

abbrev pub set_close_connection : Bool → HttpResponse → HttpResponse
set_close_connection closes r = record r {
  connection_status = if closes then close else keep_alive;
}

abbrev pub set_upgrade_connection : HttpResponse → HttpResponse
set_upgrade_connection r = record r { connection_status = upgrade }

abbrev pub set_body : HttpResponseBody → HttpResponse → HttpResponse
set_body body r = record r { headers = body.set_related_headers r.headers; body = some body }

abbrev pub add_cookie : HttpCookie → HttpResponse → HttpResponse
add_cookie cookie r = record r { cookies = r.cookies ++ cookie ∷ [] }

abbrev pub send_redirect : List ℕ → HttpResponse → HttpResponse
send_redirect url r = record r {
  status = status_found;
  headers = assign (bytes_of "Location") url r.headers;
}

abbrev pub is_keep_alive : HttpResponse → Bool
is_keep_alive r = elim r.connection_status [ keep_alive ↦ true | close ↦ false | upgrade ↦ false ]

abbrev pub status_line : List ℕ → ℕ → List ℕ → List ℕ
status_line version status message =
    version ++ bytes_of " " ++ decimal status ++ bytes_of " " ++ message ++ crlf

abbrev pub header_lines : StdMap (List ℕ) → List ℕ
header_lines [] = []
header_lines ((key, value) ∷ rest) = key ++ bytes_of ": " ++ value ++ crlf ++ header_lines rest

abbrev pub cookie_lines : List (List ℕ) → List ℕ
cookie_lines [] = []
cookie_lines (c ∷ rest) = bytes_of "Set-Cookie: " ++ c ++ crlf ++ cookie_lines rest

abbrev pub dump_cookies : List HttpCookie → List (List ℕ)
dump_cookies [] = []
dump_cookies (c ∷ rest) = dump_cookie c ∷ dump_cookies rest

-- The response and the bytes that MakeHeaders appends; none is the assertion on the status.
unfoldable pub make_headers : HttpResponse → Option (HttpResponse × List ℕ)
make_headers r =
    let r' =
      set_header (bytes_of "Connection") (connection_status_to_connection_str r.connection_status)
        r in
    http_status_to_http_status_msg r.status >>= λ message. some (
      r',
      status_line r.version r.status message
          ++ header_lines r'.headers
          ++ cookie_lines (dump_cookies r.cookies)
          ++ crlf,
    )

pub record RawHttpResponse : Type 0 where
  pub status : ℕ
  pub version : List ℕ
  pub headers : StdMap (List ℕ)
  pub cookies : List (List ℕ)
  pub body : List ℕ

abbrev pub set_all : StdMap (List ℕ) → StdMap (List ℕ) → StdMap (List ℕ)
set_all [] m = m
set_all ((key, value) ∷ rest) m = set_all rest (assign key value m)

abbrev pub related_headers : Option HttpResponseBody → StdMap (List ℕ)
related_headers none = []
related_headers (some body) = body.set_related_headers []

abbrev pub raw_body : Option HttpResponseBody → List ℕ
raw_body none = []
raw_body (some body) = body.to_raw_body

unfoldable pub to_raw_http_response : HttpResponse → RawHttpResponse
to_raw_http_response r = record {
  status = r.status;
  version = r.version;
  headers = set_all r.headers (
      assign (bytes_of "Connection") (connection_status_to_connection_str r.connection_status)
        (related_headers r.body));
  cookies = dump_cookies r.cookies;
  body = raw_body r.body;
}

-- RawHttpResponse::Dump
unfoldable pub dump_response : RawHttpResponse → Option (List ℕ)
dump_response r = http_status_to_http_status_msg r.status >>= λ message. some (
    status_line r.version r.status message
    ++ header_lines r.headers
    ++ cookie_lines r.cookies
    ++ crlf
    ++ r.body)
