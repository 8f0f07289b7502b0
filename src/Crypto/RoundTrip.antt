-- ===== src/Crypto/RoundTrip.antt =====
-- Decoding what was encoded.
use libcold.Base.{
  ℕ, ◌+◌, ◌*◌, ◌/◌, ◌%◌, ◌^◌, ◌<◌, ◌≡◌, refl, List, [], ◌∷◌, Bool, true, false, not, Option, none,
  some, arith, length, AreBytes, is_empty, ◌==◌, ◌&&◌, test_below, test_below-holds,
}
use libcold.Crypto.{
  Group, sextet_char, char_sextet, pad_char, encode_group, base64_encode, read_char, read_group,
  decode_group, decode_loop, check_group, write_round, base64_decode,
}

abbrev holds : Option ℕ → ℕ → Bool
holds none v = false
holds (some w) v = w == v

sextet_table :
    test_below (λ v. not (sextet_char v == pad_char) && holds (char_sextet (sextet_char v)) v) 64
    ≡ true
unfolding test_below sextet_char char_sextet
sextet_table = refl

sextet_char_facts :
    (v : ℕ)
    → v < 64
    → ((sextet_char v == pad_char) ≡ false) × (char_sextet (sextet_char v) ≡ some v)
sextet_char_facts v h = ground (arith, test_below-holds _ 64 v h sextet_table)

module _ (v : ℕ) (h : v < 64) (p : ℕ) where
  read_char-sextet :
      read_char (sextet_char v) (record { padding = 0; packed = p })
      ≡ some (record { padding = 0; packed = p * 64 + v })
  unfolding read_char
  read_char-sextet = ground (arith, sextet_char_facts v h)

read_char-pad :
    (g : Group)
    → read_char pad_char g ≡ some (record { padding = g.padding + 1; packed = g.packed * 64 })
unfolding read_char
read_char-pad g = refl

module _ (a b : ℕ) (ha : a < 64) (hb : b < 64) where
  -- The last round of a text whose length leaves one byte, or two, or none.
  check_group-two :
      check_group (sextet_char a ∷ sextet_char b ∷ pad_char ∷ pad_char ∷ []) false
      ≡ some (record { padding = 2; packed = (a * 64 + b) * 64 * 64 })
  unfolding check_group read_group
  check_group-two = ground (
    arith,
    read_char-sextet a ha 0,
    read_char-sextet b hb a,
    read_char-pad (record { padding = 0; packed = a * 64 + b }),
    read_char-pad (record { padding = 1; packed = (a * 64 + b) * 64 }),
  )

  module _ (c : ℕ) (hc : c < 64) where
    check_group-one :
        check_group (sextet_char a ∷ sextet_char b ∷ sextet_char c ∷ pad_char ∷ []) false
        ≡ some (record { padding = 1; packed = ((a * 64 + b) * 64 + c) * 64 })
    unfolding check_group read_group
    check_group-one = ground (
      arith,
      read_char-sextet a ha 0,
      read_char-sextet b hb a,
      read_char-sextet c hc (a * 64 + b),
      read_char-pad (record { padding = 0; packed = (a * 64 + b) * 64 + c }),
    )

    check_group-full :
        (d : ℕ) (more : Bool)
        → d < 64
        → check_group (sextet_char a ∷ sextet_char b ∷ sextet_char c ∷ sextet_char d ∷ []) more
          ≡ some (record { padding = 0; packed = ((a * 64 + b) * 64 + c) * 64 + d })
    unfolding check_group read_group
    check_group-full d more hd = ground (
      arith,
      read_char-sextet a ha 0,
      read_char-sextet b hb a,
      read_char-sextet c hc (a * 64 + b),
      read_char-sextet d hd ((a * 64 + b) * 64 + c),
    )

-- The decoder's loop gives the bytes back and reaches the end of the text.
decode_loop-encode :
    (s : List ℕ) → AreBytes s → decode_loop (base64_encode s) ≡ record { written = s; done = true }
unfolding base64_encode decode_loop encode_group decode_group write_round
decode_loop-encode [] h = refl
decode_loop-encode (a ∷ []) h =
    let p : ℕ = a * 256 * 256 in
    rw (check_group-two (p / 2 ^ 18) (p / 2 ^ 12 % 64) (omega arith) (omega arith)) (ground arith)
decode_loop-encode (a ∷ b ∷ []) h =
    let p : ℕ = (a * 256 + b) * 256 in
    rw
      (check_group-one (p / 2 ^ 18) (p / 2 ^ 12 % 64) (omega arith) (omega arith) (p / 2 ^ 6 % 64)
        (omega arith))
      (ground arith)
decode_loop-encode (a ∷ b ∷ c ∷ s) h =
    let p : ℕ = (a * 256 + b) * 256 + c in
    rw
      (
        check_group-full (p / 2 ^ 18) (p / 2 ^ 12 % 64) (omega arith) (omega arith) (p / 2 ^ 6 % 64)
            (omega arith) (p % 64) (not (is_empty (base64_encode s))) (omega arith),
        decode_loop-encode s h.1.1.1,
      )
      (ground arith)

-- Decoding an encoded byte string gives it back.
pub decode-encode : (s : List ℕ) → AreBytes s → base64_decode (base64_encode s) ≡ s
unfolding base64_decode
decode-encode s h = rw (decode_loop-encode s h)

-- The encoded text has four characters for each three bytes begun.
pub length-encode : (s : List ℕ) → length (base64_encode s) ≡ (length s + 2) / 3 * 4
unfolding base64_encode encode_group
length-encode [] = omega arith
length-encode (a ∷ []) = omega arith
length-encode (a ∷ b ∷ []) = omega arith
length-encode (a ∷ b ∷ c ∷ s) = omega (arith, length-encode s)
