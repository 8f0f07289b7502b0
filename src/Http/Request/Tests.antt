-- ===== src/Http/Request/Tests.antt =====
-- Runs of the request, and the theorems at concrete ones.
use libcold.Base.{ℕ, String, ◌≡◌, refl, List, [], ◌∷◌, ◌++◌, some, bytes_of, true}
use libcold.Base.StdMap.{find, assign}
use libcold.Http.Response.{set_all}
use libcold.Http.Url.{url_decode, hex_to_num}
use libcold.Http.Request.{
  RawHttpRequest, new_raw_request, parse_kv, parse_kv_loop, cut, cut_last, decode_url_and_body,
  request_is_keep_alive, get_value,
}
use libcold.Http.Request.Decoded.{decode_url_and_body_correct, encoded_url}

abbrev pair : String → String → List ℕ × List ℕ
pair k v = (bytes_of k, bytes_of v)

abbrev request : RawHttpRequest
request = record new_raw_request {
  url = bytes_of "/a?x=1&y=2";
  version = bytes_of "HTTP/1.1";
  headers = pair "Cookie" "SessionId=7" ∷ [];
  body = bytes_of "x=3";
}

parameters_of_request : (decode_url_and_body request).parameters ≡ pair "x" "3" ∷ pair "y" "2" ∷ []
unfolding decode_url_and_body url_decode cut cut_last parse_kv parse_kv_loop assign find hex_to_num
parameters_of_request = refl

-- Without a query the fragment stays in the url.
fragment_of_request :
    (decode_url_and_body (record new_raw_request { url = bytes_of "/a#b" })).url ≡ bytes_of "/a#b"
unfolding decode_url_and_body url_decode cut cut_last parse_kv parse_kv_loop assign find hex_to_num
fragment_of_request = refl

keep_alive_of_request : request_is_keep_alive (decode_url_and_body request) ≡ true
unfolding request_is_keep_alive decode_url_and_body url_decode cut cut_last parse_kv parse_kv_loop
    assign find hex_to_num get_value
keep_alive_of_request = refl

decoded_url : url_decode request.url ≡ request.url
unfolding url_decode hex_to_num
decoded_url = refl

decoded_body : url_decode request.body ≡ request.body
unfolding url_decode hex_to_num
decoded_body = refl

cookie_header : find (bytes_of "Cookie") request.headers ≡ some (bytes_of "SessionId=7")
unfolding find
cookie_header = refl

decode_url_and_body_correct_example :
    ((decode_url_and_body request).url ≡ bytes_of "/a")
    × ((decode_url_and_body request).fragment ≡ [])
    × ((decode_url_and_body request).parameters
        ≡ set_all (pair "x" "3" ∷ []) (set_all (pair "x" "1" ∷ pair "y" "2" ∷ []) []))
    × ((decode_url_and_body request).cookies ≡ set_all (pair "SessionId" "7" ∷ []) [])
decode_url_and_body_correct_example =
    decode_url_and_body_correct request (bytes_of "/a") (pair "x" "1" ∷ pair "y" "2" ∷ [])
      (pair "x" "3" ∷ []) (pair "SessionId" "7" ∷ []) decoded_url refl refl
      ((refl, refl), ((refl, refl), tt)) decoded_body ((refl, refl), tt) cookie_header
      ((refl, refl), tt)

abbrev search : RawHttpRequest
search = record new_raw_request {
  url = encoded_url (bytes_of "/q") (bytes_of "s") (bytes_of "a" ++ 38 ∷ bytes_of "b");
}
