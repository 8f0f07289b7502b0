-- ===== src/Http/Session/Tests.antt =====
-- Runs of the sessions, and the theorem at concrete requests.
use libcold.Base.{
  ℕ, ◌≡◌, refl, List, [], ◌∷◌, none, some, bytes_of, true, false, str_eq, if◌then◌else◌,
}
use libcold.Base.StdMap.{find, assign}
use libcold.Http.Response.{new_response, add_cookie}
use libcold.Http.Request.{HttpRequest, new_raw_request, parse_cookies}
use libcold.Http.Session.{
  HttpSessionManager, create_session, has_session, get_session, invalidate, set_attribute,
  get_attribute, session_cookie, known_session, request_session,
}
use libcold.Http.Session.Cookies.{
  session_header, Op, creates, removes, sets, run, request_session_correct,
}

abbrev first : HttpRequest
first = record {
  raw = new_raw_request;
  url = bytes_of "/";
  fragment = [];
  body = [];
  attributes = [];
  parameters = [];
  cookies = [];
}

abbrev next : HttpRequest
next = record first {
  cookies = (bytes_of "SessionId", bytes_of "u1") ∷ (bytes_of "theme", bytes_of "dark") ∷ [];
}

-- Another session is made, written to and removed in between.
abbrev others : List Op
others = creates (bytes_of "u5") ∷ sets 2 (bytes_of "x") 7 ∷ removes (bytes_of "u0") ∷ []

next_has_session : find (bytes_of "SessionId") next.cookies ≡ some (bytes_of "u1")
unfolding find
next_has_session = refl

abbrev one_session : HttpSessionManager
one_session = record {
  store = record { session_id = bytes_of "u0"; attributes = [] } ∷ [];
  sessions = (bytes_of "u0", 0) ∷ [];
}

has_session_after_create :
    has_session (bytes_of "u1") (create_session (bytes_of "u1") one_session).0 ≡ true
unfolding create_session assign find
has_session_after_create = refl

no_session : known_session (find (bytes_of "SessionId") first.cookies) one_session ≡ none
unfolding find
no_session = refl

request_session_correct_example :
    (place : ℕ) × (m' : HttpSessionManager) × (request_session first
        (bytes_of "u1")
        new_response
        one_session
      ≡ ((add_cookie (session_cookie (bytes_of "u1")) new_response, m'), place))
    × ((id : List ℕ)
        → str_eq (bytes_of "u1") id ≡ false
        → get_session id m' ≡ get_session id one_session)
    × (find (bytes_of "SessionId") (parse_cookies (some (session_header (bytes_of "u1"))))
        ≡ some (bytes_of "u1"))
    × (request_session next (bytes_of "u2") new_response (run others m')
        ≡ ((new_response, run others m'), place))
    × (get_attribute place (bytes_of "k") (set_attribute place (bytes_of "k") 5 (run others m'))
        ≡ some 5)
    × ((id : List ℕ)
        → get_session id (invalidate place (run others m'))
          ≡ (if str_eq (bytes_of "u1") id then none else get_session id (run others m')))
request_session_correct_example =
    request_session_correct first next (bytes_of "u1") (bytes_of "u2") new_response new_response
      one_session others (bytes_of "k") 5 no_session refl (refl, (tt, (refl, tt))) next_has_session
