-- ===== src/Http/Session.antt =====
-- cold/net/http/HttpSession.h, and HttpRequest::GetSession: sessions are shared objects. The manager
-- holds them by their place in the store, so that a change through one pointer is seen through all.
-- A lock is held in each operation of the manager, which is a step of its own; the uuid that a new
-- session gets is an argument.
pub mod Cookies
mod Tests
use libcold.Base.{
  ℕ, suc, ◌+◌, List, [], ◌∷◌, ◌++◌, Bool, true, false, Option, none, some, length, get_elem?, set,
  bytes_of,
}
use libcold.Base.StdMap.{StdMap, find, assign, erase, contains}
use libcold.Http.Response.{HttpCookie, HttpResponse, add_cookie}
use libcold.Http.Request.{HttpRequest}

-- Attributes are values of any type: here their encodings.
pub record HttpSession : Type 0 where
  pub session_id : List ℕ
  pub attributes : StdMap ℕ

pub record HttpSessionManager : Type 0 where
  pub store : List HttpSession
  pub sessions : StdMap ℕ

abbrev pub new_manager : HttpSessionManager
new_manager = record { store = []; sessions = [] }

unfoldable pub create_session : List ℕ → HttpSessionManager → HttpSessionManager × ℕ
create_session uuid m =
    let place = length m.store in
    let session : HttpSession = record { session_id = uuid; attributes = [] } in
    (record m { store = m.store ++ session ∷ []; sessions = assign uuid place m.sessions }, place)

abbrev pub has_session : List ℕ → HttpSessionManager → Bool
has_session id m = contains id m.sessions

abbrev pub get_session : List ℕ → HttpSessionManager → Option ℕ
get_session id m = find id m.sessions

unfoldable pub remove_session : List ℕ → HttpSessionManager → HttpSessionManager
remove_session id m = record m { sessions = erase id m.sessions }

abbrev pub removed : Option HttpSession → HttpSessionManager → HttpSessionManager
removed none m = m
removed (some s) m = remove_session s.session_id m

-- HttpSession::Invalidate
unfoldable pub invalidate : ℕ → HttpSessionManager → HttpSessionManager
invalidate place m = removed (get_elem? m.store place) m

abbrev pub with_attribute : List ℕ → ℕ → Option HttpSession → Option HttpSession
with_attribute key value none = none
with_attribute key value (some s) = some (record s { attributes = assign key value s.attributes })

abbrev pub stored_at : ℕ → Option HttpSession → HttpSessionManager → HttpSessionManager
stored_at place none m = m
stored_at place (some s) m = record m { store = set m.store place s }

-- HttpSession::SetAttribute and GetAttribute
unfoldable pub set_attribute : ℕ → List ℕ → ℕ → HttpSessionManager → HttpSessionManager
set_attribute place key value m =
    stored_at place (with_attribute key value (get_elem? m.store place)) m

abbrev pub attribute_of : List ℕ → Option HttpSession → Option ℕ
attribute_of key none = none
attribute_of key (some s) = find key s.attributes

unfoldable pub get_attribute : ℕ → List ℕ → HttpSessionManager → Option ℕ
get_attribute place key m = attribute_of key (get_elem? m.store place)

-- HttpRequest::CreateNewSession
abbrev pub session_cookie : List ℕ → HttpCookie
session_cookie id = record {
  key = bytes_of "SessionId";
  value = id;
  max_age = none;
  domain = [];
  path = bytes_of "/";
  http_only = true;
  secure = false;
}

unfoldable pub create_new_session :
    List ℕ → HttpResponse → HttpSessionManager → (HttpResponse × HttpSessionManager) × ℕ
create_new_session uuid response m =
    let (m', place) = create_session uuid m in
    ((add_cookie (session_cookie uuid) response, m'), place)

abbrev pub known_session : Option (List ℕ) → HttpSessionManager → Option ℕ
known_session none m = none
known_session (some id) m = get_session id m

abbrev pub or_create :
    Option ℕ → List ℕ → HttpResponse → HttpSessionManager → (HttpResponse × HttpSessionManager) × ℕ
or_create none uuid response m = create_new_session uuid response m
or_create (some place) uuid response m = ((response, m), place)

-- HttpRequest::GetSession; `uuid` is the one that a new session would get.
unfoldable pub request_session :
    HttpRequest
    → List ℕ
    → HttpResponse
    → HttpSessionManager
    → (HttpResponse × HttpSessionManager) × ℕ
request_session request uuid response m =
    or_create (known_session (find (bytes_of "SessionId") request.cookies) m) uuid response m
