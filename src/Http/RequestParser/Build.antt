-- ===== src/Http/RequestParser/Build.antt =====
-- What the callbacks build for a message, and when they refuse it.
use libcold.Base.{
  ℕ, ◌+◌, ◌≡◌, refl, sym, ap, ◌∙◌, List, [], ◌∷◌, ◌++◌, map, Bool, true, false, not, arith, ◌||◌,
  ltb, if◌then◌else◌, Option, none, some, Bool-cases, inl, inr, length, bytes_of,
}
use libcold.Base.StdMap.{StdMap}
use libcold.Http.Request.{RawHttpRequest, new_raw_request, set_method, get_value}
use libcold.Http.RequestParser.{
  Limits, Event, on_url, on_url_complete, on_version, on_version_complete, on_header_field,
  on_header_field_complete, on_header_value, on_header_value_complete, on_body, on_message_complete,
  HttpRequestParser, callback, execute, and_then, content_length_fits, has_dot_dot, length_fits,
  from_chars,
}
use libcold.Http.RequestParser.Chunks.{
  concat, execute-append, execute-on_url, execute-on_header_field, execute-on_header_value,
  execute-on_version, execute-on_body,
}
use libcold.Http.RequestParser.Message.{
  Header, Message, header_events, headers_events, events_of, header_refused, put_header,
  read_headers, url_refused, body_refused, over_limit, two_dots, request_head, read_body,
  request_of, bind, idle, in_headers,
}

length_fits-over : (max : ℕ) (o : Option ℕ) → length_fits max o ≡ not (over_limit max o)
length_fits-over max none = refl
length_fits-over max (some n) = ground arith

pub has_dot_dot-two_dots : (s : List ℕ) → has_dot_dot s ≡ two_dots s
unfolding has_dot_dot two_dots
has_dot_dot-two_dots [] = refl
has_dot_dot-two_dots (c ∷ []) = ground arith
has_dot_dot-two_dots (c ∷ d ∷ s) = ground (arith, has_dot_dot-two_dots (d ∷ s))

-- What the parser tests is what the limits say.
content_length_fits-refused :
    (limits : Limits) (r : RawHttpRequest)
    → content_length_fits limits r ≡ not (body_refused limits r)
unfolding content_length_fits
content_length_fits-refused limits r =
    length_fits-over limits.max_body_size
      (from_chars (get_value (bytes_of "Content-Length") r.headers))

and_then_if :
    {A : Type 0} (refused : Bool) (q : A) (next : A → Option A)
    → and_then (if refused then none else some q) next ≡ (if refused then none else next q)
and_then_if true q next = refl
and_then_if false q next = refl

if_twice :
    {A : Type 0} (a b : Bool) (o : Option A)
    → (if a then none else (if b then none else o)) ≡ (if a || b then none else o)
if_twice true b o = refl
if_twice false b o = refl

module _ (limits : Limits) where
  -- A part of the events that gives a parser or is refused, and the events behind it.
  execute-part :
      (es fs : List Event) (p q : HttpRequestParser) (refused : Bool)
      → execute limits es p ≡ (if refused then none else some q)
      → execute limits (es ++ fs) p ≡ (if refused then none else execute limits fs q)
  execute-part es fs p q refused e =
      execute-append limits es fs p
      ∙ ap (λ o. and_then o (λ r. execute limits fs r)) e
      ∙ and_then_if refused q (λ r. execute limits fs r)

  execute-event :
      (event : Event) (fs : List Event) (p q : HttpRequestParser) (refused : Bool)
      → callback limits event p ≡ (if refused then none else some q)
      → execute limits (event ∷ fs) p ≡ (if refused then none else execute limits fs q)
  unfolding execute
  execute-event event fs p q refused e =
      ap (λ o. and_then o (λ r. execute limits fs r)) e
      ∙ and_then_if refused q (λ r. execute limits fs r)

module _ (limits : Limits) (queue : List RawHttpRequest) where
  abbrev field_of : Header → List ℕ
  field_of h = h.field ++ concat h.more_field

  abbrev with_field : Header → RawHttpRequest → HttpRequestParser
  with_field h r = record (in_headers queue r) { buf = field_of h }

  execute-value :
      (h : Header) (r : RawHttpRequest)
      → execute limits
          (on_header_field_complete
            ∷ (map on_header_value h.value ++ on_header_value_complete ∷ []))
          (with_field h r)
        ≡ (if ltb limits.max_header_value_size (length (concat h.value))
            then none
            else some (in_headers queue (record r { headers = put_header h r.headers })))
  unfolding callback execute
  execute-value h r =
      execute-part limits (map on_header_value h.value) (on_header_value_complete ∷ [])
        (with_field h r) (record (with_field h r) { buf_for_header_value = concat h.value })
        (ltb limits.max_header_value_size (length (concat h.value)))
        (execute-on_header_value limits h.value (with_field h r) refl)

  execute-header :
      (h : Header) (r : RawHttpRequest)
      → execute limits (header_events h) (in_headers queue r) ≡ (
          if header_refused limits h r.headers
          then none
          else some (in_headers queue (record r { headers = put_header h r.headers })))
  execute-header h r =
      let refused =
        ltb limits.max_header_count (length r.headers + 1)
        || ltb limits.max_header_field_size (length (field_of h)) in
      execute-part limits (map on_header_field (h.field ∷ h.more_field))
        (on_header_field_complete ∷ (map on_header_value h.value ++ on_header_value_complete ∷ []))
        (in_headers queue r) (with_field h r) refused
        (execute-on_header_field limits h.field h.more_field (in_headers queue r) refl)
      ∙ ap (λ o. if refused then none else o) (execute-value h r)
      ∙ if_twice refused (ltb limits.max_header_value_size (length (concat h.value)))
          (some (in_headers queue (record r { headers = put_header h r.headers })))

  abbrev headers_done : RawHttpRequest → StdMap (List ℕ) → HttpRequestParser
  headers_done r hs = in_headers queue (record r { headers = hs })

  bind_if :
      {A B : Type 0} (refused : Bool) (o : Option A) (next : A → Option B)
      → bind (if refused then none else o) next ≡ (if refused then none else bind o next)
  bind_if true o next = refl
  bind_if false o next = refl

  execute-headers :
      (hs : List Header) (r : RawHttpRequest)
      → execute limits (headers_events hs) (in_headers queue r)
        ≡ bind (read_headers limits hs r.headers) (λ m. some (headers_done r m))
  unfolding execute read_headers
  execute-headers [] r = refl
  execute-headers (h ∷ hs) r =
      execute-part limits (header_events h) (headers_events hs) (in_headers queue r)
        (headers_done r (put_header h r.headers)) (header_refused limits h r.headers)
        (execute-header h r)
      ∙ ap (λ o. if header_refused limits h r.headers then none else o)
          (execute-headers hs (record r { headers = put_header h r.headers }))
      ∙ sym (
          bind_if (header_refused limits h r.headers)
            (read_headers limits hs (put_header h r.headers)) (λ m. some (headers_done r m)))

  execute-body :
      (cs : List (List ℕ)) (r : RawHttpRequest)
      → execute limits (map on_body cs ++ on_message_complete ∷ []) (in_headers queue r)
        ≡ bind (read_body limits r cs) (λ done. some (idle (queue ++ done ∷ [])))
  unfolding execute callback
  execute-body [] r = refl
  execute-body (c ∷ cs) r =
      execute-append limits (map on_body (c ∷ cs)) (on_message_complete ∷ []) (in_headers queue r)
      ∙ ap (λ o. and_then o (λ q. execute limits (on_message_complete ∷ []) q))
          (execute-on_body limits c cs (in_headers queue r) refl refl)
      ∙ elim (Bool-cases (body_refused limits r)) [
        | inl e ↦ rw (content_length_fits-refused limits r, e)
        | inr e ↦ rw (content_length_fits-refused limits r, e)
      ]

  bind-bind :
      {A B C : Type 0} (o : Option A) (f : A → Option B) (g : B → Option C)
      → bind (bind o f) g ≡ bind o (λ a. bind (f a) g)
  bind-bind none f g = refl
  bind-bind (some a) f g = refl

  after_headers :
      (o : Option (StdMap (List ℕ))) (cs : List (List ℕ)) (r : RawHttpRequest)
      → and_then
          (bind o (λ m. some (headers_done r m)))
          (λ q. execute limits (map on_body cs ++ on_message_complete ∷ []) q)
        ≡ bind
            (bind o (λ m. read_body limits (record r { headers = m }) cs))
            (λ done. some (idle (queue ++ done ∷ [])))
  after_headers none cs r = refl
  after_headers (some m) cs r = execute-body cs (record r { headers = m })

  execute-rest :
      (hs : List Header) (cs : List (List ℕ)) (r : RawHttpRequest)
      → execute limits
          (headers_events hs ++ (map on_body cs ++ on_message_complete ∷ []))
          (in_headers queue r)
        ≡ bind
            (bind
              (read_headers limits hs r.headers)
              (λ m. read_body limits (record r { headers = m }) cs))
            (λ done. some (idle (queue ++ done ∷ [])))
  execute-rest hs cs r =
      execute-append limits (headers_events hs) (map on_body cs ++ on_message_complete ∷ [])
        (in_headers queue r)
      ∙ ap (λ o. and_then o (λ q. execute limits (map on_body cs ++ on_message_complete ∷ []) q))
          (execute-headers hs r)
      ∙ after_headers (read_headers limits hs r.headers) cs r

  execute-version :
      (cs : List (List ℕ)) (fs : List Event) (r : RawHttpRequest)
      → execute limits (map on_version cs ++ on_version_complete ∷ fs) (in_headers queue r)
        ≡ execute limits fs
            (in_headers queue (record r { version = bytes_of "HTTP/" ++ concat cs }))
  unfolding execute callback
  execute-version cs fs r =
      execute-part limits (map on_version cs) (on_version_complete ∷ fs) (in_headers queue r)
        (record (in_headers queue r) { buf = concat cs }) false
        (execute-on_version limits cs (in_headers queue r))

  execute-url :
      (cs : List (List ℕ)) (fs : List Event) (r : RawHttpRequest)
      → execute limits (map on_url cs ++ on_url_complete ∷ fs) (in_headers queue r) ≡ (
          if url_refused limits (concat cs)
          then none
          else execute limits fs (in_headers queue (record r { url = concat cs })))
  unfolding callback
  execute-url cs fs r =
      let read : HttpRequestParser = record (in_headers queue r) { buf = concat cs } in
      execute-part limits (map on_url cs) (on_url_complete ∷ fs) (in_headers queue r) read
        (ltb limits.max_url_size (length (concat cs)))
        (execute-on_url limits cs (in_headers queue r) refl)
      ∙ ap (λ o. if ltb limits.max_url_size (length (concat cs)) then none else o)
          (execute-event limits on_url_complete fs read
            (in_headers queue (record r { url = concat cs })) (has_dot_dot (concat cs)) refl)
      ∙ if_twice (ltb limits.max_url_size (length (concat cs))) (has_dot_dot (concat cs))
          (execute limits fs (in_headers queue (record r { url = concat cs })))
      ∙ ap
          (λ b.
            if ltb limits.max_url_size (length (concat cs)) || b
            then none
            else execute limits fs (in_headers queue (record r { url = concat cs })))
          (has_dot_dot-two_dots (concat cs))

  -- However llhttp cuts the parts of a message into chunks, the callbacks for it put the request that
  -- the message says into the queue, behind those that are there, and leave the parser as it was; if
  -- the url, the number of headers, one of their names or values or the announced length of the body
  -- is over its limit, or the url has two dots in it, they return an error.
  pub execute-events_of :
      (m : Message)
      → execute limits (events_of m) (idle queue)
        ≡ bind (request_of limits m) (λ r. some (idle (queue ++ r ∷ [])))
  unfolding execute callback request_of
  execute-events_of m =
      let start = set_method m.method new_raw_request in
      let urled : RawHttpRequest = record start { url = concat m.url } in
      let tail = map on_body m.body ++ on_message_complete ∷ [] in
      execute-url m.url
        (map on_version m.version ++ on_version_complete ∷ (headers_events m.headers ++ tail)) start
      ∙ ap (λ o. if url_refused limits (concat m.url) then none else o)
          (execute-version m.version (headers_events m.headers ++ tail) urled
            ∙ execute-rest m.headers m.body (request_head m []))
      ∙ sym (
          bind_if (url_refused limits (concat m.url))
            (bind (read_headers limits m.headers [])
              (λ hs. read_body limits (request_head m hs) m.body))
            (λ r. some (idle (queue ++ r ∷ []))))
