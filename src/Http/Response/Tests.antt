-- ===== src/Http/Response/Tests.antt =====
-- Runs of the response, and the theorem at a concrete one.
use libcold.Base.{ℕ, suc, ◌≡◌, refl, List, [], ◌++◌, some, bytes_of, true, false, length, ◌>>=◌}
use libcold.Base.StdMap.{assign}
use libcold.Http.Status.{http_status_to_http_status_msg, http_status_table}
use libcold.Http.Response.{
  HttpResponse, HttpCookie, new_response, set_body, add_cookie, text_body, make_headers,
  dump_cookie, decimal, decimal_loop, to_raw_http_response, dump_response,
}
use libcold.Http.Response.Lines.{read_head}
use libcold.Http.Response.Head.{IsPlainResponse, make_headers-read_head, sent, head_of}

abbrev dated_cookie : HttpCookie
dated_cookie = record {
  key = bytes_of "SessionId";
  value = bytes_of "7";
  max_age = some 60;
  domain = [];
  path = bytes_of "/";
  http_only = true;
  secure = false;
}

dump_session : dump_cookie dated_cookie ≡ bytes_of "SessionId=7;Max-Age=60;Path=/;HttpOnly"
unfolding dump_cookie decimal decimal_loop
dump_session = refl

abbrev hello : HttpResponse
hello = add_cookie dated_cookie (set_body (text_body (bytes_of "hello")) new_response)

-- The dump of the raw response is what is sent.
dump_hello :
    dump_response (to_raw_http_response hello)
    ≡ (make_headers hello >>= λ r. some (r.1 ++ bytes_of "hello"))
unfolding dump_response to_raw_http_response make_headers http_status_to_http_status_msg
    http_status_table dump_cookie decimal decimal_loop text_body assign
dump_hello = refl

hello-IsPlainResponse : IsPlainResponse hello
unfolding text_body assign dump_cookie decimal decimal_loop
hello-IsPlainResponse = record {
  version = refl;
  headers = ((refl, refl), ((refl, refl), tt));
  cookies = (refl, tt);
}

message_ok : http_status_to_http_status_msg 200 ≡ some (bytes_of "OK")
unfolding http_status_to_http_status_msg http_status_table
message_ok = refl

make_headers-read_head_example :
    (bytes : List ℕ) × (make_headers hello ≡ some (sent hello, bytes))
    × (read_head (suc (length (head_of hello (bytes_of "OK")))) (bytes ++ bytes_of "hello")
        ≡ some (head_of hello (bytes_of "OK"), bytes_of "hello"))
make_headers-read_head_example =
    make_headers-read_head hello (bytes_of "OK") (bytes_of "hello") message_ok hello-IsPlainResponse
