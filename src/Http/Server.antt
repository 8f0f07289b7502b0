-- ===== src/Http/Server.antt =====
-- cold/net/http/HttpServer.h and HttpServer.cpp: the loop of a connection. A read is what llhttp
-- makes of its bytes, and none where it fails, times out or is at the end; the writes succeed. The
-- handlers of error pages are parameters, as they are for the server.
pub mod Answers
mod Tests
use libcold.Base.{
  ℕ, suc, ◌+◌, List, [], ◌∷◌, ◌++◌, Bool, true, false, not, Option, none, some, ◌==◌, if◌then◌else◌,
  bytes_of,
}
use libcold.Http.Status.{status_ok, status_bad_request, http_status_to_http_status_msg}
use libcold.Http.Response.{
  HttpResponse, new_response, set_status, set_version, set_close_connection, is_keep_alive,
  raw_body, make_headers, set_header, set_body, text_body, decimal,
}
use libcold.Http.Request.{
  RawHttpRequest, HttpRequest, decode_url_and_body, request_is_keep_alive, value_or_empty,
}
use libcold.Http.RequestParser.{Limits, Event, HttpRequestParser, execute, take_request}
use libcold.Http.Dispatcher.{ServletContext, Exchange, forward_to}

-- errorPageHandler_ and defaultErrorPageHandler_
pub record ErrorPages : Type 0 where
  pub handlers : List (ℕ × (HttpResponse → HttpResponse))
  pub default_handler : HttpResponse → HttpResponse

pub record HttpServer : Type 0 where
  pub limits : Limits
  pub context : ServletContext
  pub error_pages : ErrorPages

abbrev pub handler_of :
    ℕ
    → List (ℕ × (HttpResponse → HttpResponse))
    → (HttpResponse → HttpResponse)
    → HttpResponse
    → HttpResponse
handler_of status [] other = other
handler_of status ((code, handler) ∷ rest) other =
    if code == status then handler else handler_of status rest other

-- The page of an error, for each status but OK.
unfoldable pub error_page : ErrorPages → HttpResponse → HttpResponse
error_page pages r =
    if r.status == status_ok then r else handler_of r.status pages.handlers pages.default_handler r

-- The page of the constructor. The message of a status outside of the table is an assertion that
-- fails, as it is in MakeHeaders, which comes next.
unfoldable pub default_error_page : HttpResponse → HttpResponse
default_error_page r =
    let title =
      decimal r.status
      ++ bytes_of " "
      ++ value_or_empty (http_status_to_http_status_msg r.status) in
    set_header (bytes_of "Content-type") (bytes_of "text/html;charset=utf-8") (
      set_body
        (text_body (
          bytes_of "<html><head><title>"
          ++ title
          ++ bytes_of "</title></head><body><center><h1>"
          ++ title
          ++ bytes_of "</h1></center><hr><center>Cold/1.0.0</center></body></html>"))
        r)

abbrev pub bad_request : HttpResponse
bad_request = set_close_connection true (set_status status_bad_request new_response)

-- The response to a request, before the page of an error.
unfoldable pub respond : ServletContext → RawHttpRequest → HttpResponse
respond context raw =
    let request = decode_url_and_body raw in
    let response =
      set_version request.raw.version
        (set_close_connection (not (request_is_keep_alive request)) new_response) in
    (forward_to context request.url (request, response)).1

-- The parser of a connection; none where llhttp has failed, and then it fails again.
abbrev pub Connection : Type 0
Connection = Option HttpRequestParser

unfoldable pub parse_read : HttpServer → List Event → Connection → Connection
parse_read server events none = none
parse_read server events (some p) = execute server.limits events p

-- What one read leads to: the parser that is left and the response, where there is one.
abbrev pub answer_first :
    HttpServer
    → HttpRequestParser
    → Option (RawHttpRequest × HttpRequestParser)
    → Connection × Option HttpResponse
answer_first server p none = (some p, none)
answer_first server p (some (raw, p')) = (some p', some (respond server.context raw))

unfoldable pub answer : HttpServer → Connection → Connection × Option HttpResponse
answer server none = (none, some bad_request)
answer server (some p) = answer_first server p (take_request p)

-- How the loop ends: it waits for a read, or the socket is closed. A status that is none of the
-- table's is an assertion that fails, and ends the program.
pub data Ending : Type 0 where
  reads_on : Connection → Ending
  closes : Ending
  aborts : Ending

-- The head and the body of each response that was sent, and the end.
abbrev pub Sent : Type 0
Sent = List (List ℕ × List ℕ) × Ending

abbrev pub send_first : List ℕ × List ℕ → Sent → Sent
send_first response (rest, ending) = (response ∷ rest, ending)

abbrev pub send : Option (HttpResponse × List ℕ) → Sent → Sent
send none later = ([], aborts)
send (some (r, head)) later =
    if is_keep_alive r
    then send_first (head, raw_body r.body) later
    else ((head, raw_body r.body) ∷ [], closes)

abbrev pub send_or_continue :
    HttpServer → (Connection → Sent) → Connection × Option HttpResponse → Sent
send_or_continue server next (p, none) = next p
send_or_continue server next (p, some r) =
    send (make_headers (error_page server.error_pages r)) (next p)

unfoldable pub do_http : HttpServer → Connection → List (Option (List Event)) → Sent
do_http server p [] = ([], reads_on p)
do_http server p (none ∷ reads) = ([], closes)
do_http server p (some events ∷ reads) =
    send_or_continue server (λ q. do_http server q reads)
      (answer server (parse_read server events p))
