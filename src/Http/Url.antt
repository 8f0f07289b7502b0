-- ===== src/Http/Url.antt =====
-- cold/net/http/HttpCommon.h: UrlEncode and UrlDecode. isalpha, isdigit, isxdigit and toupper are
-- those of the C locale.
pub mod RoundTrip
mod Tests
use libcold.Base.{
  ℕ, ◌+◌, ◌-◌, ◌*◌, ◌/◌, ◌%◌, List, [], ◌∷◌, Bool, ◌&&◌, ◌||◌, leb, ◌==◌, if◌then◌else◌, get_or,
  bytes_of,
}

abbrev pub between : ℕ → ℕ → ℕ → Bool
between low high c = leb low c && leb c high

abbrev pub is_digit : ℕ → Bool
is_digit c = between 48 57 c

abbrev pub is_alpha : ℕ → Bool
is_alpha c = between 65 90 c || between 97 122 c

abbrev pub is_xdigit : ℕ → Bool
is_xdigit c = is_digit c || between 65 70 c || between 97 102 c

abbrev pub to_upper : ℕ → ℕ
to_upper c = if between 97 122 c then c - 32 else c

abbrev pub hex_digits : List ℕ
hex_digits = bytes_of "0123456789ABCDEF"

unfoldable pub hex_digit : ℕ → ℕ
hex_digit v = get_or hex_digits v 0

-- The bytes that stand for one byte of the url.
unfoldable pub url_encode : List ℕ → List ℕ
unfolding hex_digit
url_encode [] = []
url_encode (c ∷ s) =
    let rest = url_encode s in
    if is_alpha c || is_digit c
    then c ∷ rest
    else 37 ∷ hex_digit (c / 16) ∷ hex_digit (c % 16) ∷ rest

-- HexToNum, whose result is a uint8_t; toupper(c) is no less than '0' where it is called.
unfoldable pub hex_to_num : ℕ → ℕ
hex_to_num c = let h = to_upper c in (if between 65 90 h then h - 65 + 10 else h - 48) % 256

-- The bit-or of the source has disjoint bits, since a digit's number is below 16.
unfoldable pub url_decode : List ℕ → List ℕ
unfolding hex_to_num
url_decode [] = []
url_decode (c ∷ []) = (if c == 43 then 32 else c) ∷ []
url_decode (c ∷ a ∷ []) = (if c == 43 then 32 else c) ∷ url_decode (a ∷ [])
url_decode (c ∷ a ∷ b ∷ s) =
    let escaped = (hex_to_num a * 16 + hex_to_num b) % 256 ∷ url_decode s in
    let plain = url_decode (a ∷ b ∷ s) in
    if c == 43
    then 32 ∷ plain
    else if c == 37 && is_xdigit a && is_xdigit b
    then escaped
    else c ∷ plain
