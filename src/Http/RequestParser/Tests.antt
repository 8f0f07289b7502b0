-- ===== src/Http/RequestParser/Tests.antt =====
-- Runs of the callbacks, and the theorems at concrete messages.
use libcold.Base.{ℕ, ◌≡◌, refl, List, [], ◌∷◌, ◌++◌, none, some, bytes_of}
use libcold.Base.StdMap.{find, assign}
use libcold.Http.Url.{url_encode}
use libcold.Http.Request.{RawHttpRequest, get_value}
use libcold.Http.RequestParser.{
  default_limits, HttpRequestParser, new_request_parser, callback, execute, has_dot_dot,
  content_length_fits, from_chars, take_request,
}
use libcold.Http.RequestParser.Message.{
  two_dots, Message, Header, idle, request_of, read_headers, bind, events_of,
}
use libcold.Http.RequestParser.Stream.{all_events, requests_of, execute-all_events}

abbrev host : Header
host = record { field = bytes_of "Ho"; more_field = bytes_of "st" ∷ []; value = bytes_of "a" ∷ [] }

abbrev content_length : Header
content_length = record {
  field = bytes_of "Content-Length";
  more_field = [];
  value = bytes_of "3" ∷ [];
}

abbrev get : Message
get = record {
  method = bytes_of "get";
  url = bytes_of "/a" ∷ bytes_of "/b" ∷ [];
  version = bytes_of "1.1" ∷ [];
  headers = host ∷ [];
  body = [];
}

abbrev post : Message
post = record {
  method = bytes_of "POST";
  url = bytes_of "/c" ∷ [];
  version = bytes_of "1" ∷ bytes_of ".0" ∷ [];
  headers = host ∷ content_length ∷ [];
  body = bytes_of "x" ∷ bytes_of "=1" ∷ [];
}

-- A body without Content-Length, as one that comes in chunks is, is refused.
abbrev chunked : Message
chunked = record post { headers = host ∷ [] }

abbrev get_request : RawHttpRequest
get_request = record {
  method = bytes_of "GET";
  url = bytes_of "/a/b";
  version = bytes_of "HTTP/1.1";
  headers = (bytes_of "Host", bytes_of "a") ∷ [];
  body = [];
}

read_get : request_of default_limits get ≡ some get_request
unfolding request_of read_headers assign two_dots
read_get = refl

run_of_get :
    execute default_limits (events_of get) new_request_parser ≡ some (idle (get_request ∷ []))
unfolding execute callback assign has_dot_dot
run_of_get = refl

read_chunked : request_of default_limits chunked ≡ none
unfolding request_of read_headers assign two_dots content_length_fits from_chars get_value find
read_chunked = refl

take_get : take_request (idle (get_request ∷ [])) ≡ some (get_request, idle [])
unfolding take_request
take_get = refl

execute-all_events_example :
    execute default_limits (all_events (get ∷ post ∷ [])) (idle [])
    ≡ bind (requests_of default_limits (get ∷ post ∷ [])) (λ rs. some (idle ([] ++ rs)))
execute-all_events_example = execute-all_events default_limits (get ∷ post ∷ []) []

abbrev hidden : List ℕ
hidden = bytes_of "/../secret"

abbrev with_hidden : HttpRequestParser
with_hidden = record new_request_parser { buf = url_encode hidden }
