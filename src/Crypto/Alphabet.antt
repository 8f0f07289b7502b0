-- ===== src/Crypto/Alphabet.antt =====
-- The characters that base64_encode writes.
use libcold.Base.{
  ℕ, zero, suc, ◌+◌, ◌*◌, ◌/◌, ◌%◌, ◌^◌, ◌≡◌, refl, ◌∙◌, List, [], ◌∷◌, false, ◌||◌, ◌==◌, get_or,
  arith,
}
use libcold.StringUtils.Split.{member}
use libcold.Http.Response.Lines.{member-append}
use libcold.Crypto.{base64_encode, encode_group, sextet_char, base64_alphabet}

-- The encoder writes no carriage return.
char_not_return : (l : List ℕ) (v : ℕ) → member 13 l ≡ false → (get_or l v 0 == 13) ≡ false
char_not_return [] v h = refl
char_not_return (c ∷ l) zero h = ground arith
char_not_return (c ∷ l) (suc v) h = char_not_return l v (ground arith)

sextet_not_return : (v : ℕ) → (sextet_char v == 13) ≡ false
unfolding sextet_char
sextet_not_return v = char_not_return base64_alphabet v refl

plain_two : (p : ℕ) → member 13 (encode_group p 2) ≡ false
unfolding encode_group
plain_two p = rw (sextet_not_return (p / 2 ^ 18), sextet_not_return (p / 2 ^ 12 % 64))

plain_one : (p : ℕ) → member 13 (encode_group p 1) ≡ false
unfolding encode_group
plain_one p = rw (
  sextet_not_return (p / 2 ^ 18),
  sextet_not_return (p / 2 ^ 12 % 64),
  sextet_not_return (p / 2 ^ 6 % 64),
)

plain_none : (p : ℕ) → member 13 (encode_group p 0) ≡ false
unfolding encode_group
plain_none p = rw (
  sextet_not_return (p / 2 ^ 18),
  sextet_not_return (p / 2 ^ 12 % 64),
  sextet_not_return (p / 2 ^ 6 % 64),
  sextet_not_return (p % 64),
)

pub base64_encode-member : (s : List ℕ) → member 13 (base64_encode s) ≡ false
unfolding base64_encode
base64_encode-member [] = refl
base64_encode-member (a ∷ []) = plain_two (a * 256 * 256)
base64_encode-member (a ∷ b ∷ []) = plain_one ((a * 256 + b) * 256)
base64_encode-member (a ∷ b ∷ c ∷ s) =
    member-append 13 (encode_group ((a * 256 + b) * 256 + c) 0) (base64_encode s)
    ∙ (λ i. plain_none ((a * 256 + b) * 256 + c) i || base64_encode-member s i)
