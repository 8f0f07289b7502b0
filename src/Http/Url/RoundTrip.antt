-- ===== src/Http/Url/RoundTrip.antt =====
-- Decoding an encoded url, and the bytes that an encoded url has.
use libcold.Base.{
  append-nil, ℕ, ◌+◌, ◌*◌, ◌/◌, ◌%◌, ◌<◌, ◌≡◌, refl, sym, ap, ◌∙◌, List, [], ◌∷◌, ◌++◌, Bool, true,
  false, ◌&&◌, ◌||◌, ◌==◌, arith, AreBytes, Every, test_below, test_below-holds, Bool-cases, inl,
  inr,
}
use libcold.Http.Url.{is_alpha, is_digit, is_xdigit, hex_digit, hex_to_num, url_encode, url_decode}

hex_table :
    test_below
      (λ c.
        is_xdigit (hex_digit (c / 16))
        && is_xdigit (hex_digit (c % 16))
        && (hex_to_num (hex_digit (c / 16)) * 16 + hex_to_num (hex_digit (c % 16))) % 256 == c)
      256
    ≡ true
unfolding test_below hex_digit hex_to_num
hex_table = refl

pub url_decode-escape :
    (c : ℕ) (s : List ℕ)
    → c < 256
    → url_decode (37 ∷ hex_digit (c / 16) ∷ hex_digit (c % 16) ∷ s) ≡ c ∷ url_decode s
unfolding url_decode
url_decode-escape c s h = ground (arith, test_below-holds _ 256 c h hex_table)

url_decode-plain :
    (c : ℕ) (s : List ℕ) → (is_alpha c || is_digit c) ≡ true → url_decode (c ∷ s) ≡ c ∷ url_decode s
unfolding url_decode
url_decode-plain c [] h = ground arith
url_decode-plain c (a ∷ []) h = ground arith
url_decode-plain c (a ∷ b ∷ s) h = ground arith

pub url_decode-nil : url_decode [] ≡ []
unfolding url_decode
url_decode-nil = refl

pub url_decode-other :
    (c : ℕ) (s : List ℕ)
    → (c == 43) ≡ false
    → (c == 37) ≡ false
    → url_decode (c ∷ s) ≡ c ∷ url_decode s
unfolding url_decode
url_decode-other c [] h k = ground arith
url_decode-other c (a ∷ []) h k = ground arith
url_decode-other c (a ∷ b ∷ s) h k = ground arith

pub url_decode-append :
    (s rest : List ℕ) → AreBytes s → url_decode (url_encode s ++ rest) ≡ s ++ url_decode rest
unfolding url_encode
url_decode-append [] rest h = refl
url_decode-append (c ∷ s) rest (here, there) = elim (Bool-cases (is_alpha c || is_digit c)) [
  | inl e ↦ rw (e, url_decode-plain c (url_encode s ++ rest) e, url_decode-append s rest there)
  | inr e ↦ rw (e, url_decode-escape c (url_encode s ++ rest) here, url_decode-append s rest there)
]

-- UrlDecode gives back each byte string that UrlEncode was given.
pub url_decode-url_encode : (s : List ℕ) → AreBytes s → url_decode (url_encode s) ≡ s
url_decode-url_encode s h =
    ap url_decode (sym (append-nil (url_encode s)))
    ∙ url_decode-append s [] h
    ∙ ap (λ t. s ++ t) url_decode-nil
    ∙ append-nil s

abbrev pub is_url_byte : ℕ → Bool
is_url_byte c = is_alpha c || is_digit c || c == 37

url_byte_table :
    test_below (λ c. is_url_byte (hex_digit (c / 16)) && is_url_byte (hex_digit (c % 16))) 256
    ≡ true
unfolding test_below hex_digit
url_byte_table = refl

-- UrlEncode writes letters, digits and percent signs only.
pub url_encode-is_url_byte :
    (s : List ℕ) → AreBytes s → Every (λ c. is_url_byte c ≡ true) (url_encode s)
unfolding url_encode
url_encode-is_url_byte [] h = tt
url_encode-is_url_byte (c ∷ s) (here, there) = elim (Bool-cases (is_alpha c || is_digit c)) [
  | inl e ↦ rw e (ground (arith, e), url_encode-is_url_byte s there)
  | inr e ↦
      let row = test_below-holds _ 256 c here url_byte_table in
      rw e (refl, (ground (arith, row), (ground (arith, row), url_encode-is_url_byte s there)))
]
