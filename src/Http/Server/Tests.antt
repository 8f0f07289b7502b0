-- ===== src/Http/Server/Tests.antt =====
-- Runs of a connection, and the theorem at concrete reads.
use libcold.Base.{◌≡◌, refl, List, [], ◌∷◌, ◌++◌, Option, some, bytes_of, length, map, take, drop}
use libcold.Base.StdMap.{find, assign}
use libcold.StringUtils.{split_to_views, split_loop, find_delim}
use libcold.Router.{new_router, match_servlet, match_filters, match_chain, try_match, find_child}
use libcold.Http.Status.{http_status_to_http_status_msg, http_status_table}
use libcold.Http.Url.{url_decode, hex_to_num}
use libcold.Http.Response.{make_headers, decimal, decimal_loop, text_body}
use libcold.Http.Request.{
  RawHttpRequest, decode_url_and_body, cut, cut_last, parse_kv, parse_kv_loop,
  request_is_keep_alive,
}
use libcold.Http.RequestParser.{
  default_limits, Event, execute, callback, take_request, has_dot_dot, new_request_parser,
}
use libcold.Http.RequestParser.Message.{
  Message, request_of, request_head, read_headers, two_dots, idle,
}
use libcold.Http.RequestParser.Queue.{completed}
use libcold.Http.RequestParser.Stream.{requests_of, all_events}
use libcold.Http.Dispatcher.{forward_to, do_dispatcher, do_filters}
use libcold.Http.Server.{
  HttpServer, Sent, closes, do_http, parse_read, answer, respond, default_error_page, error_page,
}
use libcold.Http.Server.Answers.{turns, answer_all, do_http-answer_all}

abbrev server : HttpServer
server = record {
  limits = default_limits;
  context = record { attributes = []; router = new_router };
  error_pages = record { handlers = []; default_handler = default_error_page };
}

abbrev get : Message
get = record {
  method = bytes_of "GET";
  url = bytes_of "/a" ∷ [];
  version = bytes_of "1.1" ∷ [];
  headers = [];
  body = [];
}

abbrev dotted : Message
dotted = record get { url = bytes_of "/../a" ∷ [] }

abbrev as_read : List Message → Option (List Event)
as_read ms = some (all_events ms)

abbrev sent : List (List Message) → Sent
sent reads = do_http server (some new_request_parser) (map as_read reads)

-- Two requests in one read get one answer, until there is a next read.
answers_to_two : length (sent ((get ∷ get ∷ []) ∷ [])).0 ≡ 1
unfolding do_http parse_read execute callback answer take_request has_dot_dot make_headers
    error_page respond decode_url_and_body url_decode hex_to_num cut cut_last parse_kv parse_kv_loop
    find assign request_is_keep_alive forward_to do_dispatcher do_filters match_filters
    match_servlet match_chain try_match find_child split_to_views split_loop find_delim
    http_status_to_http_status_msg http_status_table default_error_page text_body decimal
    decimal_loop
answers_to_two = refl

-- A refused request is answered, and the connection is closed.
answers_to_dotted : (sent ((dotted ∷ []) ∷ (get ∷ []) ∷ [])).1 ≡ closes
unfolding do_http parse_read execute callback answer has_dot_dot make_headers error_page assign
    http_status_to_http_status_msg http_status_table default_error_page text_body decimal
    decimal_loop
answers_to_dotted = refl

-- The first read ends within the url of the first request, the second has all else of both.
abbrev two_gets : List Message
two_gets = get ∷ get ∷ []

abbrev cut_reads : List (List Event)
cut_reads = take 2 (all_events two_gets) ∷ drop 2 (all_events two_gets) ∷ []

abbrev two_requests : List RawHttpRequest
two_requests = request_head get [] ∷ request_head get [] ∷ []

two_gets-accepted : requests_of default_limits two_gets ≡ some two_requests
unfolding requests_of request_of read_headers two_dots
two_gets-accepted = refl

turns-cut_reads : turns 0 cut_reads ≡ 1
unfolding turns completed
turns-cut_reads = refl

abbrev bad_read : List (Option (List Event))
bad_read = as_read (dotted ∷ []) ∷ []

do_http-answer_all_example :
    do_http server (some new_request_parser) (map some cut_reads ++ bad_read)
    ≡ answer_all server
        (take (turns 0 cut_reads) two_requests)
        (do_http server (some (idle (drop (turns 0 cut_reads) two_requests))) bad_read)
do_http-answer_all_example =
    do_http-answer_all server bad_read two_gets two_requests cut_reads two_gets-accepted refl
