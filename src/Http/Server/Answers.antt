-- ===== src/Http/Server/Answers.antt =====
-- Which requests of a connection are answered, and when.
use libcold.Base.{
  ℕ, zero, suc, ◌+◌, ◌≡◌, refl, ap, ◌∙◌, subst, List, [], ◌∷◌, ◌++◌, Option, none, some, map, take,
  drop, length,
}
use libcold.Http.Response.{make_headers}
use libcold.Http.Request.{RawHttpRequest}
use libcold.Http.RequestParser.{
  Event, HttpRequestParser, new_request_parser, execute, and_then, take_request,
}
use libcold.Http.RequestParser.Chunks.{execute-append}
use libcold.Http.RequestParser.Message.{Message, idle, bind}
use libcold.Http.RequestParser.Queue.{
  completed, with_queue, Whole, Whole-delayed, execute-behind, execute-completed,
}
use libcold.Http.RequestParser.Stream.{all_events, requests_of, execute-all_events}
use libcold.Http.Server.{
  HttpServer, Connection, Sent, answer, parse_read, respond, error_page, send, send_or_continue,
  do_http,
}

abbrev pub turn : ℕ → (ℕ → ℕ) → ℕ
turn zero next = next 0
turn (suc waiting) next = suc (next waiting)

-- How many requests are answered by the end of some reads: one for each read where one waits.
unfoldable pub turns : ℕ → List (List Event) → ℕ
turns waiting [] = 0
turns waiting (es ∷ reads) = turn (waiting + completed es) (λ w. turns w reads)

abbrev pub all_reads : List (List Event) → List Event
all_reads [] = []
all_reads (es ∷ reads) = es ++ all_reads reads

-- The answers to some requests, in their order, as long as none ends the connection.
unfoldable pub answer_all : HttpServer → List RawHttpRequest → Sent → Sent
answer_all server [] later = later
answer_all server (r ∷ rs) later =
    send (make_headers (error_page server.error_pages (respond server.context r)))
      (answer_all server rs later)

module _ (server : HttpServer) (later : List (Option (List Event))) where
  -- What the loop does with the next reads.
  abbrev next : List (List Event) → Connection → Sent
  next reads p = do_http server p (map some reads ++ later)

  -- What is sent where so many of the requests are answered.
  abbrev served : ℕ → HttpRequestParser → Sent
  served n last =
      answer_all server (take n last.request_queue)
        (do_http server (some (with_queue last (drop n last.request_queue))) later)

  abbrev AreServed : ℕ → Option HttpRequestParser → Sent → Type 0
  AreServed n o sent = Whole (λ last. sent ≡ served n last) o

  abbrev Serves : List (List Event) → Type 0
  Serves reads =
      (p : HttpRequestParser)
      → AreServed (turns (length p.request_queue) reads) (execute server.limits (all_reads reads) p)
          (next reads (some p))

  -- One read, of which the parser has made a queue.
  answer-served :
      (reads : List (List Event)) (q : HttpRequestParser) (queue : List RawHttpRequest) (n : ℕ)
      → Serves reads
      → length queue ≡ n
      → AreServed
          (turn n (λ w. turns w reads))
          (execute server.limits (all_reads reads) (with_queue q queue))
          (send_or_continue server (λ c. next reads c) (answer server (some (with_queue q queue))))
  unfolding answer take_request answer_all
  answer-served reads q [] n serves h =
      subst
        (λ m.
          AreServed (turn m (λ w. turns w reads))
            (execute server.limits (all_reads reads) (with_queue q []))
            (next reads (some (with_queue q []))))
        h (serves (with_queue q []))
  answer-served reads q (r ∷ queue) n serves h =
      subst
        (λ m.
          AreServed (turn m (λ w. turns w reads))
            (execute server.limits (all_reads reads) (with_queue q (r ∷ queue)))
            (send (make_headers (error_page server.error_pages (respond server.context r)))
              (next reads (some (with_queue q queue)))))
        h
        (rw (execute-behind server.limits (all_reads reads) r (with_queue q queue)) (
          Whole-delayed _ _ r (execute server.limits (all_reads reads) (with_queue q queue))
            (λ l e.
              ap (send (make_headers (error_page server.error_pages (respond server.context r)))) e)
            (serves (with_queue q queue))))

  answer-completed :
      (es : List Event) (reads : List (List Event)) (w : ℕ) (o : Option HttpRequestParser)
      → Serves reads
      → Whole (λ q. length q.request_queue ≡ w + completed es) o
      → AreServed
          (turns w (es ∷ reads))
          (and_then o (λ q. execute server.limits (all_reads reads) q))
          (send_or_continue server (λ c. next reads c) (answer server o))
  unfolding turns
  answer-completed es reads w none serves h = tt
  answer-completed es reads w (some q) serves h =
      answer-served reads q q.request_queue (w + completed es) serves h

  do_http-Serves : (reads : List (List Event)) → Serves reads
  unfolding do_http execute turns answer_all parse_read
  do_http-Serves [] p = refl
  do_http-Serves (es ∷ reads) p = rw (execute-append server.limits es (all_reads reads) p) (
      answer-completed es reads (length p.request_queue) (execute server.limits es p)
        (do_http-Serves reads) (execute-completed server.limits es p))

  -- The bytes of messages that are all accepted may be cut into reads at any place: the server sends
  -- the answers to their requests, from the first on, in their order, until one ends the connection;
  -- a read gives one answer if a request waits, completed in that read or before, and none if not.
  -- Otherwise the loop goes on with the reads that come later, where the parser has no message begun
  -- and the requests without an answer wait in their order.
  pub do_http-answer_all :
      (ms : List Message) (rs : List RawHttpRequest) (reads : List (List Event))
      → requests_of server.limits ms ≡ some rs
      → all_reads reads ≡ all_events ms
      → do_http server (some new_request_parser) (map some reads ++ later)
        ≡ answer_all server
            (take (turns 0 reads) rs)
            (do_http server (some (idle (drop (turns 0 reads) rs))) later)
  do_http-answer_all ms rs reads accepted cut =
      subst (λ o. AreServed (turns 0 reads) o (next reads (some new_request_parser)))
        (ap (λ es. execute server.limits es (idle [])) cut
          ∙ execute-all_events server.limits ms []
          ∙ ap (λ o. bind o (λ rs'. some (idle rs'))) accepted)
        (do_http-Serves reads new_request_parser)
