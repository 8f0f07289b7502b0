-- ===== src/Http/Url/Tests.antt =====
-- Runs of the url codes, and the theorems at a concrete url.
use libcold.Base.{◌≡◌, refl, bytes_of}
use libcold.Http.Url.{url_encode, url_decode, hex_digit, hex_to_num}

encode_query : url_encode (bytes_of "/a b?") ≡ bytes_of "%2Fa%20b%3F"
unfolding url_encode hex_digit
encode_query = refl

decode_query : url_decode (bytes_of "a+b%3f%zz%4") ≡ bytes_of "a b?%zz%4"
unfolding url_decode hex_to_num
decode_query = refl
