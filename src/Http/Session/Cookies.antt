-- ===== src/Http/Session/Cookies.antt =====
-- The session of a client across its requests.
use mathlib.Core.Option.{some-injective}
use libcold.Base.{
  ℕ, suc, zero, ◌≡◌, refl, ap, ◌∙◌, List, [], ◌∷◌, ◌++◌, false, none, some, length, get_elem?, set,
  arith, str_eq_refl, str_eq, bytes_of, Every, if◌then◌else◌, Option-cases, inl, inr, sym,
}
use libcold.Base.StdMap.{find, assign, find-assign, find-erase}
use libcold.StringUtils.Split.{member}
use libcold.Http.Response.{HttpResponse, add_cookie}
use libcold.Http.Request.{HttpRequest, parse_cookies}
use libcold.Http.Request.KeyValues.{parse_kv-kv_text}
use libcold.Http.Session.{
  HttpSession, HttpSessionManager, create_session, get_session, invalidate, remove_session,
  set_attribute, get_attribute, attribute_of, session_cookie, create_new_session, known_session,
  or_create, request_session,
}

get_elem?-append :
    {A : Type 0} (xs : List A) (x : A) → get_elem? (xs ++ x ∷ []) (length xs) ≡ some x
get_elem?-append [] x = refl
get_elem?-append (y ∷ xs) x = get_elem?-append xs x

get_elem?-set :
    {A : Type 0} (xs : List A) (i : ℕ) (x y : A)
    → get_elem? xs i ≡ some x
    → get_elem? (set xs i y) i ≡ some y
get_elem?-set [] i x y h = absurd (ground (arith, h))
get_elem?-set (z ∷ xs) zero x y h = refl
get_elem?-set (z ∷ xs) (suc i) x y h = get_elem?-set xs i x y h

-- The cookies of a client that sends back the session's cookie, as name=value.
abbrev pub session_header : List ℕ → List ℕ
session_header uuid = bytes_of "SessionId=" ++ uuid

find-session_header :
    (uuid : List ℕ)
    → member 59 uuid ≡ false
    → find (bytes_of "SessionId") (parse_cookies (some (session_header uuid))) ≡ some uuid
find-session_header uuid h =
    ap (find (bytes_of "SessionId"))
      (parse_kv-kv_text 61 59 ((bytes_of "SessionId", uuid) ∷ []) [] ((refl, h), tt))
    ∙ find-assign (bytes_of "SessionId") (bytes_of "SessionId") uuid []

get_elem?-append_some :
    {A : Type 0} (xs : List A) (i : ℕ) (x y : A)
    → get_elem? xs i ≡ some x
    → get_elem? (xs ++ y ∷ []) i ≡ some x
get_elem?-append_some [] i x y h = absurd (ground (arith, h))
get_elem?-append_some (z ∷ xs) zero x y h = h
get_elem?-append_some (z ∷ xs) (suc i) x y h = get_elem?-append_some xs i x y h

-- The session of an id: the manager finds it at its place, and it has the id.
record IsHeld (uuid : List ℕ) (place : ℕ) (m : HttpSessionManager) : Type 0 where
  found : get_session uuid m ≡ some place
  session : HttpSession
  stored : get_elem? m.store place ≡ some session
  id : session.session_id ≡ uuid

-- What requests of other clients do to the manager: sessions are made, removed by their id, as
-- Invalidate does, and their attributes set.
pub data Op : Type 0 where
  creates removes : List ℕ → Op
  sets : ℕ → List ℕ → ℕ → Op

unfoldable pub run : List Op → HttpSessionManager → HttpSessionManager
run [] m = m
run (creates id ∷ ops) m = run ops (create_session id m).0
run (removes id ∷ ops) m = run ops (remove_session id m)
run (sets place key value ∷ ops) m = run ops (set_attribute place key value m)

-- No operation makes or removes a session with the id.
abbrev pub Elsewhere : List ℕ → Op → Type 0
Elsewhere uuid (creates id) = str_eq id uuid ≡ false
Elsewhere uuid (removes id) = str_eq id uuid ≡ false
Elsewhere uuid (sets place key value) = Unit

-- An attribute is set in one session, whose id stays.
record Kept (uuid : List ℕ) (store : List HttpSession) (place : ℕ) : Type 0 where
  session : HttpSession
  stored : get_elem? store place ≡ some session
  id : session.session_id ≡ uuid

Kept-set :
    (uuid : List ℕ) (store : List HttpSession) (i j : ℕ) (s t : HttpSession)
    → get_elem? store j ≡ some t
    → Kept uuid store i
    → s.session_id ≡ t.session_id
    → Kept uuid (set store j s) i
Kept-set uuid [] i j s t at k e = k
Kept-set uuid (x ∷ xs) zero zero s t at k e = record {
  session = s;
  stored = refl;
  id =
      e
      ∙ ap (λ (z : HttpSession). z.session_id) (some-injective t x (sym at))
      ∙ ap (λ (z : HttpSession). z.session_id) (some-injective x k.session k.stored)
      ∙ k.id;
}
Kept-set uuid (x ∷ xs) zero (suc j) s t at k e = record {
  session = k.session;
  stored = k.stored;
  id = k.id;
}
Kept-set uuid (x ∷ xs) (suc i) zero s t at k e = record {
  session = k.session;
  stored = k.stored;
  id = k.id;
}
Kept-set uuid (x ∷ xs) (suc i) (suc j) s t at k e =
    let r =
      Kept-set uuid xs i j s t at (record { session = k.session; stored = k.stored; id = k.id })
        e in
    record { session = r.session; stored = r.stored; id = r.id }

module _ (uuid : List ℕ) (place : ℕ) where
  IsHeld-create_session :
      (id : List ℕ) (m : HttpSessionManager)
      → str_eq id uuid ≡ false
      → IsHeld uuid place m
      → IsHeld uuid place (create_session id m).0
  unfolding create_session
  IsHeld-create_session id m other h = record {
    found = find-assign id uuid (length m.store) m.sessions ∙ rw other h.found;
    session = h.session;
    stored = get_elem?-append_some m.store place h.session _ h.stored;
    id = h.id;
  }

  IsHeld-remove_session :
      (id : List ℕ) (m : HttpSessionManager)
      → str_eq id uuid ≡ false
      → IsHeld uuid place m
      → IsHeld uuid place (remove_session id m)
  unfolding remove_session
  IsHeld-remove_session id m other h = record {
    found = find-erase id uuid m.sessions ∙ rw other h.found;
    session = h.session;
    stored = h.stored;
    id = h.id;
  }

  IsHeld-set_attribute :
      (j : ℕ) (key : List ℕ) (value : ℕ) (m : HttpSessionManager)
      → IsHeld uuid place m
      → IsHeld uuid place (set_attribute j key value m)
  unfolding set_attribute
  IsHeld-set_attribute j key value m h = elim (Option-cases (get_elem? m.store j)) [
    | inl missing ↦ rw missing h
    | inr (t, at) ↦
        let s : HttpSession = record t { attributes = assign key value t.attributes } in
        let k =
          Kept-set uuid m.store place j s t at
            (record { session = h.session; stored = h.stored; id = h.id }) refl in
        rw at (record { found = h.found; session = k.session; stored = k.stored; id = k.id })
  ]

  IsHeld-run :
      (ops : List Op) (m : HttpSessionManager)
      → Every (Elsewhere uuid) ops
      → IsHeld uuid place m
      → IsHeld uuid place (run ops m)
  unfolding run
  IsHeld-run [] m e h = h
  IsHeld-run (creates id ∷ ops) m (here, there) h =
      IsHeld-run ops (create_session id m).0 there (IsHeld-create_session id m here h)
  IsHeld-run (removes id ∷ ops) m (here, there) h =
      IsHeld-run ops (remove_session id m) there (IsHeld-remove_session id m here h)
  IsHeld-run (sets j key value ∷ ops) m (here, there) h =
      IsHeld-run ops (set_attribute j key value m) there (IsHeld-set_attribute j key value m h)

  get_session-invalidate :
      (m : HttpSessionManager) (id : List ℕ)
      → IsHeld uuid place m
      → get_session id (invalidate place m) ≡ (if str_eq uuid id then none else get_session id m)
  unfolding invalidate remove_session
  get_session-invalidate m id h = rw (h.stored, h.id) (find-erase uuid id m.sessions)

  get_attribute-set_attribute :
      (m : HttpSessionManager) (key : List ℕ) (value : ℕ)
      → IsHeld uuid place m
      → get_attribute place key (set_attribute place key value m) ≡ some value
  unfolding set_attribute get_attribute
  get_attribute-set_attribute m key value h = rw h.stored (
      ap (attribute_of key) (get_elem?-set m.store place h.session _ h.stored)
      ∙ find-assign key key value h.session.attributes
      ∙ rw (str_eq_refl key))

IsHeld-made :
    (uuid : List ℕ) (m : HttpSessionManager)
    → IsHeld uuid (create_session uuid m).1 (create_session uuid m).0
unfolding create_session
IsHeld-made uuid m = record {
  found = find-assign uuid uuid (length m.store) m.sessions ∙ rw (str_eq_refl uuid);
  session = record { session_id = uuid; attributes = [] };
  stored = get_elem?-append m.store (record { session_id = uuid; attributes = [] });
  id = refl;
}

-- A request without a cookie of a known session gets a new one, with its cookie in the response, and
-- the manager finds all other sessions as before. Whatever requests make, remove and set in other
-- sessions then, a request whose cookies have the session's id gets the same session, with no cookie
-- and no new session, and a client that sends back this one cookie is such a request; a value that is
-- set through the one pointer is read through the other; and after the session is invalidated the
-- manager does not find it, and finds all others as before.
pub request_session_correct :
    (first next : HttpRequest) (uuid uuid' : List ℕ) (response response' : HttpResponse)
    (m : HttpSessionManager) (ops : List Op) (key : List ℕ) (value : ℕ)
    → known_session (find (bytes_of "SessionId") first.cookies) m ≡ none
    → member 59 uuid ≡ false
    → Every (Elsewhere uuid) ops
    → find (bytes_of "SessionId") next.cookies ≡ some uuid
    → (place : ℕ) × (m' : HttpSessionManager) × (request_session first uuid response m
        ≡ ((add_cookie (session_cookie uuid) response, m'), place))
      × ((id : List ℕ) → str_eq uuid id ≡ false → get_session id m' ≡ get_session id m)
      × (find (bytes_of "SessionId") (parse_cookies (some (session_header uuid))) ≡ some uuid)
      × (request_session next uuid' response' (run ops m') ≡ ((response', run ops m'), place))
      × (get_attribute place key (set_attribute place key value (run ops m')) ≡ some value)
      × ((id : List ℕ)
          → get_session id (invalidate place (run ops m'))
            ≡ (if str_eq uuid id then none else get_session id (run ops m')))
unfolding request_session create_new_session create_session
request_session_correct first next uuid uuid' response response' m ops key value new clean apart c =
    let place = (create_session uuid m).1 in
    let m' = (create_session uuid m).0 in
    let held = IsHeld-run uuid place ops m' apart (IsHeld-made uuid m) in
    (
      place,
      m',
      ap (λ o. or_create o uuid response m) new,
      (λ id other. find-assign uuid id (length m.store) m.sessions ∙ rw other refl),
      find-session_header uuid clean,
      ap (λ o. or_create (known_session o (run ops m')) uuid' response' (run ops m')) c
          ∙ ap (λ o. or_create o uuid' response' (run ops m')) held.found,
      get_attribute-set_attribute uuid place (run ops m') key value held,
      λ id. get_session-invalidate uuid place (run ops m') id held,
    )
