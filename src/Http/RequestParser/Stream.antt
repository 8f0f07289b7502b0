-- ===== src/Http/RequestParser/Stream.antt =====
-- The callbacks for a stream of messages.
use libcold.Base.{
  ◌≡◌, refl, sym, ap, ◌∙◌, List, [], ◌∷◌, ◌++◌, append_assoc, append-nil, Option, none, some,
}
use libcold.Http.Request.{RawHttpRequest}
use libcold.Http.RequestParser.{Limits, Event, HttpRequestParser, execute, and_then}
use libcold.Http.RequestParser.Chunks.{execute-append}
use libcold.Http.RequestParser.Message.{Message, events_of, request_of, bind, idle}
use libcold.Http.RequestParser.Build.{execute-events_of}

abbrev pub all_events : List Message → List Event
all_events [] = []
all_events (m ∷ ms) = events_of m ++ all_events ms

unfoldable pub requests_of : Limits → List Message → Option (List RawHttpRequest)
requests_of limits [] = some []
requests_of limits (m ∷ ms) =
    bind (request_of limits m) (λ r. bind (requests_of limits ms) (λ rs. some (r ∷ rs)))

module _ (limits : Limits) where
  after_request :
      (o : Option RawHttpRequest) (queue : List RawHttpRequest)
      (next : HttpRequestParser → Option HttpRequestParser) (others : Option (List RawHttpRequest))
      → ((r : RawHttpRequest)
          → next (idle (queue ++ r ∷ [])) ≡ bind others (λ rs. some (idle (queue ++ r ∷ [] ++ rs))))
      → and_then (bind o (λ r. some (idle (queue ++ r ∷ [])))) next
        ≡ bind (bind o (λ r. bind others (λ rs. some (r ∷ rs)))) (λ rs. some (idle (queue ++ rs)))
  after_request none queue next others e = refl
  after_request (some r) queue next none e = e r
  after_request (some r) queue next (some rs) e =
      e r ∙ ap (λ q. some (idle q)) (append_assoc queue (r ∷ []) rs)

  -- However llhttp cuts the parts of the messages of a stream into chunks, the callbacks for these
  -- messages put the requests that they say into the queue, in order and behind those that are
  -- there, and leave the parser as it was; if of some message the url, the number of headers or one of
  -- their names or values is over its limit, or the url has two dots beside each other, or there is a
  -- body and its announced length is no number or over its limit, then they return an error.
  pub execute-all_events :
      (ms : List Message) (queue : List RawHttpRequest)
      → execute limits (all_events ms) (idle queue)
        ≡ bind (requests_of limits ms) (λ rs. some (idle (queue ++ rs)))
  unfolding requests_of execute
  execute-all_events [] queue = ap (λ q. some (idle q)) (sym (append-nil queue))
  execute-all_events (m ∷ ms) queue =
      execute-append limits (events_of m) (all_events ms) (idle queue)
      ∙ ap (λ o. and_then o (λ q. execute limits (all_events ms) q))
          (execute-events_of limits queue m)
      ∙ after_request (request_of limits m) queue (λ q. execute limits (all_events ms) q)
          (requests_of limits ms) (λ r. execute-all_events ms (queue ++ r ∷ []))
