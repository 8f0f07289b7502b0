-- ===== src/Http/RequestParser/Message.antt =====
-- A message as llhttp reports it, the request that it says, and whether it is within the limits.
use libcold.Base.{
  ℕ, ◌+◌, List, [], ◌∷◌, ◌++◌, map, Bool, ◌||◌, ltb, ◌&&◌, ◌==◌, true, false, if◌then◌else◌, Option,
  none, some, length, bytes_of,
}
use libcold.Base.StdMap.{StdMap, assign}
use libcold.Http.Request.{RawHttpRequest, new_raw_request, set_method, get_value}
use libcold.Http.RequestParser.{
  Limits, Event, on_method, on_url, on_url_complete, on_version, on_version_complete,
  on_header_field, on_header_field_complete, on_header_value, on_header_value_complete, on_body,
  on_message_complete, HttpRequestParser, new_request_parser, from_chars,
}
use libcold.Http.RequestParser.Chunks.{concat}

-- A header whose name, which has a byte at least, and value come in chunks.
pub record Header : Type 0 where
  pub field : List ℕ
  pub more_field : List (List ℕ)
  pub value : List (List ℕ)

pub record Message : Type 0 where
  pub method : List ℕ
  pub url : List (List ℕ)
  pub version : List (List ℕ)
  pub headers : List Header
  pub body : List (List ℕ)

-- The calls of llhttp for a message.
abbrev pub header_events : Header → List Event
header_events h =
    map on_header_field (h.field ∷ h.more_field)
    ++ (on_header_field_complete ∷ (map on_header_value h.value ++ on_header_value_complete ∷ []))

abbrev pub headers_events : List Header → List Event
headers_events [] = []
headers_events (h ∷ hs) = header_events h ++ headers_events hs

abbrev pub events_of : Message → List Event
events_of m =
    on_method m.method
    ∷ (map on_url m.url
        ++ (on_url_complete
            ∷ (map on_version m.version
                ++ (on_version_complete
                    ∷ (headers_events m.headers
                        ++ (map on_body m.body ++ on_message_complete ∷ []))))))

-- What a message says, and whether it is within the limits.
abbrev pub header_refused : Limits → Header → StdMap (List ℕ) → Bool
header_refused limits h hs =
    ltb limits.max_header_count (length hs + 1)
    || ltb limits.max_header_field_size (length (h.field ++ concat h.more_field))
    || ltb limits.max_header_value_size (length (concat h.value))

abbrev pub put_header : Header → StdMap (List ℕ) → StdMap (List ℕ)
put_header h hs = assign (h.field ++ concat h.more_field) (concat h.value) hs

unfoldable pub read_headers : Limits → List Header → StdMap (List ℕ) → Option (StdMap (List ℕ))
read_headers limits [] hs = some hs
read_headers limits (h ∷ rest) hs =
    let more = read_headers limits rest (put_header h hs) in
    if header_refused limits h hs then none else more

-- Two dots beside each other.
unfoldable pub two_dots : List ℕ → Bool
two_dots [] = false
two_dots (c ∷ []) = false
two_dots (c ∷ d ∷ s) = (c == 46 && d == 46) || two_dots (d ∷ s)

abbrev pub url_refused : Limits → List ℕ → Bool
url_refused limits url = ltb limits.max_url_size (length url) || two_dots url

abbrev pub request_head : Message → StdMap (List ℕ) → RawHttpRequest
request_head m hs = record (set_method m.method new_raw_request) {
  url = concat m.url;
  version = bytes_of "HTTP/" ++ concat m.version;
  headers = hs;
}

-- The announced length of the body is no number, or over the limit.
abbrev pub over_limit : ℕ → Option ℕ → Bool
over_limit max none = true
over_limit max (some n) = ltb max n

abbrev pub body_refused : Limits → RawHttpRequest → Bool
body_refused limits r =
    over_limit limits.max_body_size (from_chars (get_value (bytes_of "Content-Length") r.headers))

abbrev pub read_body : Limits → RawHttpRequest → List (List ℕ) → Option RawHttpRequest
read_body limits r [] = some (record r { body = [] })
read_body limits r (c ∷ cs) =
    if body_refused limits r then none else some (record r { body = c ++ concat cs })

abbrev pub bind : {A B : Type 0} → Option A → (A → Option B) → Option B
bind none next = none
bind (some a) next = next a

unfoldable pub request_of : Limits → Message → Option RawHttpRequest
request_of limits m =
    let headers = read_headers limits m.headers [] in
    let request = bind headers (λ hs. read_body limits (request_head m hs) m.body) in
    if url_refused limits (concat m.url) then none else request

-- The parser between two messages.
abbrev pub idle : List RawHttpRequest → HttpRequestParser
idle queue = record new_request_parser { request_queue = queue }

abbrev pub in_headers : List RawHttpRequest → RawHttpRequest → HttpRequestParser
in_headers queue r = record (idle queue) { cur_request = r }
