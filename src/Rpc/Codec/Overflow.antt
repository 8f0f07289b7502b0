-- ===== src/Rpc/Codec/Overflow.antt =====
-- The bounds of a view that ParseMessage hands out.
use libcold.Base.{ℕ, ◌+◌, ◌≤◌, ◌<◌, ◌≡◌, List, false, some, arith, length, take, be_value}
use libcold.Rpc.Codec.{View, parse_buffer, in_bounds, u64_mod}

-- A length field of 2^64 - 8 or more makes the sum of the check wrap: the message is accepted at
-- once, with a view that runs past the end of the buffer.
parse_buffer-overflow :
    (buf : List ℕ)
    → 8 ≤ length buf
    → length buf < u64_mod
    → u64_mod ≤ be_value (take 8 buf) + 8
    → be_value (take 8 buf) < u64_mod
    → let v : View = record { offset = 8; size = be_value (take 8 buf) } in
      (parse_buffer buf ≡ some v) × (in_bounds v buf ≡ false)
unfolding parse_buffer
parse_buffer-overflow buf long fits wraps h = (ground arith, ground arith)
