-- ===== src/Crypto/Tests.antt =====
-- Base64 on sample inputs.
use libcold.Base.{ℕ, ◌≡◌, ◌≤◌, refl, bytes_of, [], ◌∷◌, List, arith, length}
use libcold.Crypto.{
  base64_encode, base64_decode, encode_group, sextet_char, decode_loop, decode_group, check_group,
  read_group, read_char, char_sextet, write_round,
}
use libcold.Crypto.Decode.{decode_loop-bound}
use libcold.Crypto.RoundTrip.{decode-encode}

encode_hello : base64_encode (bytes_of "Hello") ≡ bytes_of "SGVsbG8="
unfolding base64_encode encode_group sextet_char
encode_hello = refl

decode_hello : base64_decode (bytes_of "SGVsbG8=") ≡ bytes_of "Hello"
unfolding base64_decode decode_loop decode_group check_group read_group read_char char_sextet
    write_round
decode_hello = refl

decode_bad : base64_decode (bytes_of "SG=sbG8=") ≡ []
unfolding base64_decode decode_loop decode_group check_group read_group read_char char_sextet
    write_round
decode_bad = refl

abbrev sample : List ℕ
sample = 0 ∷ 255 ∷ 16 ∷ 131 ∷ []

decode-encode_example : base64_decode (base64_encode sample) ≡ sample
decode-encode_example = decode-encode sample (omega arith)

decode_loop-bound_example : length (decode_loop (bytes_of "SGVsbG8=SG=s")).written ≤ 9
decode_loop-bound_example = decode_loop-bound (bytes_of "SGVsbG8=SG=s")
