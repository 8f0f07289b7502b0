-- ===== src/Rpc/Codec/RoundTrip.antt =====
-- Reading back what WriteMessageToBuffer wrote, in one piece or in two.
use libcold.Base.{
  ℕ, ◌+◌, ◌<◌, ◌≡◌, refl, ap, List, [], ◌++◌, append_assoc, none, some, arith, ltb, append-nil,
  Bool-cases, inl, inr, take-append_of_le, length, length-append, take, drop, take-append,
  drop-append, be_bytes, be_value, length-be_bytes, be_value-be_bytes,
}
use libcold.Rpc.Codec.{
  RpcCodec, View, parse_buffer, parse_message, take_message, write_message, view_bytes, u64_mod,
}

-- The bytes that a message takes on the wire.
abbrev pub frame : List ℕ → List ℕ
frame m = be_bytes 8 (length m) ++ m

module _ (m rest : List ℕ) (small : length m + 8 < u64_mod) where
  header-frame : be_value (take 8 (frame m ++ rest)) ≡ length m
  header-frame =
      rw
        (
          append_assoc,
          take-append (be_bytes 8 (length m)) (m ++ rest) 8 (length-be_bytes 8 (length m)),
        )
        (be_value-be_bytes 8 (length m) (omega arith))

  pub length-frame : length (frame m ++ rest) ≡ length m + 8 + length rest
  length-frame = omega (
    arith,
    length-append (frame m) rest,
    length-append (be_bytes 8 (length m)) m,
    length-be_bytes 8 (length m),
  )

  pub parse_buffer-frame :
      parse_buffer (frame m ++ rest) ≡ some (record { offset = 8; size = length m })
  unfolding parse_buffer
  parse_buffer-frame = rw header-frame (ground (arith, length-frame))

  pub view_bytes-frame : view_bytes (record { offset = 8; size = length m }) (frame m ++ rest) ≡ m
  view_bytes-frame =
      rw
        (
          append_assoc,
          drop-append (be_bytes 8 (length m)) (m ++ rest) 8 (length-be_bytes 8 (length m)),
        )
        (take-append m rest (length m) refl)

  pub drop-frame : drop (length m + 8) (frame m ++ rest) ≡ rest
  drop-frame =
      drop-append (frame m) rest (length m + 8)
        (omega (arith, length-append (be_bytes 8 (length m)) m, length-be_bytes 8 (length m)))

-- A codec with an empty read buffer that is fed a written message, with any bytes behind it, finds
-- the message, and taking it leaves the bytes behind it.
pub parse-write :
    (c w : RpcCodec) (m rest : List ℕ)
    → c.read_buf ≡ []
    → length m + 8 < u64_mod
    → let v : View = record { offset = 8; size = length m } in
      let (c', found) = parse_message c ((write_message w m).write_buf ++ rest) in
      (found ≡ some v) × (view_bytes v c'.read_buf ≡ m) × ((take_message c' v).read_buf ≡ rest)
unfolding parse_message write_message take_message
parse-write c w m rest e small =
    rw e (parse_buffer-frame m rest small, view_bytes-frame m rest small, drop-frame m rest small)

pub parse_buffer-prefix :
    (m x y : List ℕ)
    → length m + 8 < u64_mod
    → x ++ y ≡ frame m
    → 0 < length y
    → parse_buffer x ≡ none
unfolding parse_buffer
parse_buffer-prefix m x y small e more = elim (Bool-cases (ltb (length x) 8)) [
  | inl short ↦ rw short
  | inr long ↦
      let size : be_value (take 8 x) ≡ length m =
        rw (← take-append_of_le 8 x y (ground arith), e, ← append-nil (frame m))
          (header-frame m [] small) in
      rw (long, size)
        (ground
          (arith, length-frame m [] small, append-nil (frame m), ap length e, length-append x y))
]
