-- ===== src/Http/Request/Decoded.antt =====
-- DecodeUrlAndBody on what a client writes.
use libcold.Base.{
  ℕ, ◌≡◌, refl, ap, ◌∙◌, List, [], ◌∷◌, ◌++◌, false, none, some, arith, Bool-cases, inl, inr,
  length, Every, bytes_of, str_eq, str_eq_iff, AreBytes,
}
use libcold.Base.StdMap.{StdMap, find}
use libcold.StringUtils.Split.{member}
use libcold.Http.Response.{set_all}
use libcold.Http.Url.{url_decode, url_encode}
use libcold.Http.Url.RoundTrip.{url_decode-append, url_decode-url_encode, url_decode-other}
use libcold.Http.Request.{
  RawHttpRequest, cut, cut_last, parse_kv, decode_url_and_body, with_query, without_fragment,
  parse_cookies,
}
use libcold.Http.Request.KeyValues.{cut-append, kv_text, IsWritable, parse_kv-kv_text}

pub cut_last-none : (d : ℕ) (s : List ℕ) → member d s ≡ false → cut_last d s ≡ none
unfolding cut_last
cut_last-none d [] h = refl
cut_last-none d (c ∷ s) h = ground (arith, cut_last-none d s)

-- What is in the url and in the parameters before the body is read.
abbrev url_parts : List ℕ → List ℕ × StdMap (List ℕ)
url_parts url = with_query url (cut 63 (without_fragment url (cut_last 35 url)).0)

-- A url without a number sign is cut at its first question mark.
decode_url-query :
    (raw : RawHttpRequest) (path query : List ℕ)
    → url_decode raw.url ≡ path ++ 63 ∷ query
    → member 35 (path ++ 63 ∷ query) ≡ false
    → member 63 path ≡ false
    → ((decode_url_and_body raw).url ≡ path)
      × ((decode_url_and_body raw).fragment ≡ [])
      × ((decode_url_and_body raw).parameters
          ≡ parse_kv 61 38 (url_decode raw.body) (parse_kv 61 38 query []))
unfolding decode_url_and_body
decode_url-query raw path query e h k =
    rw (e, cut_last-none 35 (path ++ 63 ∷ query) h, cut-append 63 path query k) (refl, refl, refl)

-- If the url decodes to a path, without a question mark in it, and a list of parameters, and has
-- no fragment, the body decodes to more parameters, and the cookies are separated by semicolons
-- alone, without the space that clients write, and in none of these a delimiter stands inside of
-- a key or a decoded value, then the request has this path as its url, no fragment, the
-- parameters of the url and then those of the body, and the cookies.
pub decode_url_and_body_correct :
    (raw : RawHttpRequest) (path : List ℕ) (ps qs cs : List (List ℕ × List ℕ))
    → url_decode raw.url ≡ path ++ 63 ∷ kv_text 61 38 ps
    → member 35 (path ++ 63 ∷ kv_text 61 38 ps) ≡ false
    → member 63 path ≡ false
    → Every (IsWritable 61 38) ps
    → url_decode raw.body ≡ kv_text 61 38 qs
    → Every (IsWritable 61 38) qs
    → find (bytes_of "Cookie") raw.headers ≡ some (kv_text 61 59 cs)
    → Every (IsWritable 61 59) cs
    → ((decode_url_and_body raw).url ≡ path)
      × ((decode_url_and_body raw).fragment ≡ [])
      × ((decode_url_and_body raw).parameters ≡ set_all qs (set_all ps []))
      × ((decode_url_and_body raw).cookies ≡ set_all cs [])
unfolding decode_url_and_body
decode_url_and_body_correct raw path ps qs cs e h k wp f wq c wc =
    let (url, fragment, parameters) = decode_url-query raw path (kv_text 61 38 ps) e h k in
    (
      url,
      fragment,
      parameters
          ∙ rw (f, parse_kv-kv_text 61 38 ps [] wp) (parse_kv-kv_text 61 38 qs (set_all ps []) wq),
      ap parse_cookies c ∙ parse_kv-kv_text 61 59 cs [] wc,
    )

parse_kv-nil : (m : StdMap (List ℕ)) → parse_kv 61 38 [] m ≡ m
parse_kv-nil m = parse_kv-kv_text 61 38 [] m tt

-- The url of a request for a path with one parameter, each part of it encoded.
abbrev pub encoded_url : List ℕ → List ℕ → List ℕ → List ℕ
encoded_url path key value = url_encode path ++ 63 ∷ (url_encode key ++ 61 ∷ url_encode value)

url_decode-encoded_url :
    (path key value : List ℕ)
    → AreBytes path
    → AreBytes key
    → AreBytes value
    → url_decode (encoded_url path key value) ≡ path ++ 63 ∷ (key ++ 61 ∷ value)
url_decode-encoded_url path key value p k v = rw (
  url_decode-append path (63 ∷ (url_encode key ++ 61 ∷ url_encode value)) p,
  url_decode-other 63 (url_encode key ++ 61 ∷ url_encode value) refl refl,
  url_decode-append key (61 ∷ url_encode value) k,
  url_decode-other 61 (url_encode value) refl refl,
  url_decode-url_encode value v,
)

longer_differs : (c : ℕ) (s : List ℕ) → str_eq (c ∷ s) s ≡ false
longer_differs c s = elim (Bool-cases (str_eq (c ∷ s) s)) [
  | inl e ↦ absurd (omega (arith, ap length ((str_eq_iff (c ∷ s) s).0 e)))
  | inr e ↦ e
]
