-- ===== src/Http/RequestParser.antt =====
-- cold/net/http/HttpRequestParser.h and HttpRequestParser.cpp: the callbacks that llhttp calls while
-- it reads, and what they build. llhttp is a parameter: the calls that it makes for some bytes, as
-- long as no callback returns an error, are a list of events. The configured limits are a record.
pub mod Chunks
pub mod Message
pub mod Build
pub mod Queue
pub mod Stream
mod Tests
use libcold.Base.{
  ℕ, zero, suc, ◌+◌, ◌-◌, ◌*◌, ◌^◌, List, [], ◌∷◌, ◌++◌, Bool, true, false, not, ◌&&◌, ◌||◌, ltb,
  leb, ◌==◌, if◌then◌else◌, Option, none, some, bytes_of, length,
}
use libcold.Base.StdMap.{StdMap, assign}
use libcold.StringUtils.{starts_with}
use libcold.Http.Url.{is_digit}
use libcold.Http.Request.{RawHttpRequest, new_raw_request, set_method, get_value}

pub record Limits : Type 0 where
  pub max_url_size : ℕ
  pub max_header_field_size : ℕ
  pub max_header_value_size : ℕ
  pub max_header_count : ℕ
  pub max_body_size : ℕ

abbrev pub default_limits : Limits
default_limits = record {
  max_url_size = 190000;
  max_header_field_size = 1024;
  max_header_value_size = 10 * 1024;
  max_header_count = 100;
  max_body_size = 1024 * 1024;
}

-- The calls of llhttp that the settings ask for.
pub data Event : Type 0 where
  on_method : List ℕ → Event
  on_url : List ℕ → Event
  on_url_complete : Event
  on_version : List ℕ → Event
  on_version_complete : Event
  on_header_field : List ℕ → Event
  on_header_field_complete : Event
  on_header_value : List ℕ → Event
  on_header_value_complete : Event
  on_body : List ℕ → Event
  on_message_complete : Event

pub record HttpRequestParser : Type 0 where
  pub cur_request : RawHttpRequest
  pub check_content_length : Bool
  pub buf : List ℕ
  pub buf_for_header_value : List ℕ
  pub request_queue : List RawHttpRequest

abbrev pub new_request_parser : HttpRequestParser
new_request_parser = record {
  cur_request = new_raw_request;
  check_content_length = true;
  buf = [];
  buf_for_header_value = [];
  request_queue = [];
}

-- find("..") != npos
unfoldable pub has_dot_dot : List ℕ → Bool
has_dot_dot [] = false
has_dot_dot (c ∷ s) = starts_with (46 ∷ 46 ∷ []) (c ∷ s) || has_dot_dot s

-- from_chars for a size_t: the digits at the front, none of them or too large a number is an error.
abbrev pub digits_value : ℕ → List ℕ → ℕ
digits_value n [] = n
digits_value n (c ∷ s) =
    let more = digits_value (n * 10 + (c - 48)) s in if is_digit c then more else n

abbrev pub in_size_t : ℕ → Option ℕ
in_size_t n = if ltb n (2 ^ 64) then some n else none

unfoldable pub from_chars : List ℕ → Option ℕ
from_chars [] = none
from_chars (c ∷ s) = let n = in_size_t (digits_value 0 (c ∷ s)) in if is_digit c then n else none

-- Whether the Content-Length of a request is a number, and within the limit.
abbrev pub length_fits : ℕ → Option ℕ → Bool
length_fits max none = false
length_fits max (some n) = leb n max

unfoldable pub content_length_fits : Limits → RawHttpRequest → Bool
content_length_fits limits r =
    length_fits limits.max_body_size (from_chars (get_value (bytes_of "Content-Length") r.headers))

-- A callback, none where it returns an error.
unfoldable pub callback : Limits → Event → HttpRequestParser → Option HttpRequestParser
callback limits (on_method name) p = some (record p { cur_request = set_method name p.cur_request })
callback limits (on_url at) p =
    if ltb limits.max_url_size (length p.buf + length at)
    then none
    else some (record p { buf = p.buf ++ at })
callback limits on_url_complete p =
    let request : RawHttpRequest = record p.cur_request { url = p.buf } in
    if has_dot_dot p.buf then none else some (record p { cur_request = request; buf = [] })
callback limits (on_version at) p = some (record p { buf = p.buf ++ at })
callback limits on_version_complete p =
    let request : RawHttpRequest = record p.cur_request { version = bytes_of "HTTP/" ++ p.buf } in
    some (record p { cur_request = request; buf = [] })
callback limits (on_header_field at) p =
    if ltb limits.max_header_count (length p.cur_request.headers + 1)
      || ltb limits.max_header_field_size (length p.buf + length at)
    then none
    else some (record p { buf = p.buf ++ at })
callback limits on_header_field_complete p = some p
callback limits (on_header_value at) p =
    if ltb limits.max_header_value_size (length p.buf_for_header_value + length at)
    then none
    else some (record p { buf_for_header_value = p.buf_for_header_value ++ at })
callback limits on_header_value_complete p =
    let headers : StdMap (List ℕ) = assign p.buf p.buf_for_header_value p.cur_request.headers in
    let request : RawHttpRequest = record p.cur_request { headers = headers } in
    some (record p { cur_request = request; buf = []; buf_for_header_value = [] })
callback limits (on_body at) p =
    let checked : HttpRequestParser = record p {
      check_content_length = false;
      buf = p.buf ++ at;
    } in
    if p.check_content_length && not (content_length_fits limits p.cur_request)
    then none
    else some checked
callback limits on_message_complete p =
    let request : RawHttpRequest = record p.cur_request { body = p.buf } in
    some (record p {
      cur_request = new_raw_request;
      check_content_length = true;
      buf = [];
      request_queue = p.request_queue ++ request ∷ [];
    })

-- llhttp_execute: the callbacks up to the first error.
abbrev pub and_then : {A : Type 0} → Option A → (A → Option A) → Option A
and_then none next = none
and_then (some p) next = next p

unfoldable pub execute : Limits → List Event → HttpRequestParser → Option HttpRequestParser
execute limits [] p = some p
execute limits (e ∷ es) p = and_then (callback limits e p) (λ q. execute limits es q)

-- TakeRequest, and HasRequest: none on an empty queue.
unfoldable pub take_request : HttpRequestParser → Option (RawHttpRequest × HttpRequestParser)
take_request p = elim p.request_queue [
  | [] ↦ none
  | request ∷ rest ↦ some (request, record p { request_queue = rest })
]
