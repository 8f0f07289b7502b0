-- ===== src/Http/StaticFile/Tests.antt =====
-- Runs of static files, and the theorem at a concrete file.
use libcold.Base.{ℕ, ◌≡◌, refl, List, [], ◌∷◌, true, Option, none, some, ◌>>=◌, bytes_of}
use libcold.Base.StdMap.{find, assign}
use libcold.Http.Response.{new_response, decimal, decimal_loop}
use libcold.Http.Request.{HttpRequest, new_raw_request, cut_last}
use libcold.Http.RequestParser.{has_dot_dot}
use libcold.Http.StaticFile.{FileSystem, static_file_body, set_related_headers, handle, mimetypes}

abbrev files : FileSystem
files = record {
  readable = λ path. true;
  file_size = λ path. some 5;
  opens = λ path. true;
  content = λ path. bytes_of "hello";
}

abbrev request : List ℕ → HttpRequest
request url = record {
  raw = new_raw_request;
  url = url;
  fragment = [];
  body = [];
  attributes = [];
  parameters = [];
  cookies = [];
}

abbrev root : List ℕ
root = bytes_of "/srv"

abbrev headers_of : List ℕ → Option (List (List ℕ × List ℕ))
headers_of url = handle files root (request url) new_response >>= λ r. some r.headers

headers_of_style :
    headers_of (bytes_of "/a.css")
    ≡ some (
        (bytes_of "Content-Length", bytes_of "5")
        ∷ (bytes_of "Content-Type", bytes_of "text/css; charset=utf-8")
        ∷ [])
unfolding handle static_file_body has_dot_dot set_related_headers cut_last mimetypes find assign
    decimal decimal_loop
headers_of_style = refl

-- A file without a suffix: substr throws.
headers_of_license : headers_of (bytes_of "/LICENSE") ≡ none
unfolding handle static_file_body has_dot_dot set_related_headers cut_last
headers_of_license = refl
