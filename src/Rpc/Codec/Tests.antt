-- ===== src/Rpc/Codec/Tests.antt =====
-- The codec on sample messages.
use libcold.Base.{ℕ, ◌≡◌, refl, List, [], ◌∷◌, ◌++◌, arith, be_bytes}
use libcold.Rpc.Codec.{empty_codec, parse_message, take_message, write_message}
use libcold.Rpc.Codec.RoundTrip.{parse-write, frame}

write_two :
    (write_message empty_codec (7 ∷ 9 ∷ [])).write_buf ≡ 0 ∷ 0 ∷ 0 ∷ 0 ∷ 0 ∷ 0 ∷ 0 ∷ 2 ∷ 7 ∷ 9 ∷ []
unfolding write_message be_bytes
write_two = refl

parse-write_example :
    (take_message
      (parse_message empty_codec ((write_message empty_codec (7 ∷ 9 ∷ [])).write_buf ++ 5 ∷ [])).0
      (record { offset = 8; size = 2 })).read_buf
    ≡ 5 ∷ []
parse-write_example =
    (parse-write empty_codec empty_codec (7 ∷ 9 ∷ []) (5 ∷ []) refl (omega arith)).2

abbrev sent : List ℕ
sent = frame (7 ∷ 9 ∷ [])

abbrev hostile : List ℕ
hostile = 255 ∷ 255 ∷ 255 ∷ 255 ∷ 255 ∷ 255 ∷ 255 ∷ 255 ∷ []
