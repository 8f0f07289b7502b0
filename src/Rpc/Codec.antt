-- ===== src/Rpc/Codec.antt =====
-- cold/net/rpc/RpcCodec.h: a message is eight bytes of length in network order, then its bytes.
-- The serialised form of a protobuf message is an argument: ByteSizeLong() is its length, and
-- SerializePartialToArray fills exactly that many bytes.
pub mod RoundTrip
pub mod Overflow
mod Tests
use libcold.Base.{
  ℕ, ◌+◌, ◌%◌, ◌^◌, List, [], ◌++◌, Bool, Option, none, some, ltb, if◌then◌else◌, length, take,
  drop, be_bytes, be_value,
}

-- sizeof(uint64_t), the length of the header.
abbrev pub header_size : ℕ
header_size = 8

abbrev pub u64_mod : ℕ
u64_mod = 2 ^ 64

pub record RpcCodec : Type 0 where
  pub read_buf : List ℕ
  pub write_buf : List ℕ

-- A std::string_view into the read buffer.
pub record View : Type 0 where
  pub offset : ℕ
  pub size : ℕ

abbrev pub empty_codec : RpcCodec
empty_codec = record { read_buf = []; write_buf = [] }

-- ParseMessage on the bytes that the buffer holds by then; the sum is one of uint64_t.
unfoldable pub parse_buffer : List ℕ → Option View
parse_buffer buf =
    let message_size = be_value (take header_size buf) in
    if ltb (length buf) header_size
    then none
    else if ltb (length buf) ((message_size + header_size) % u64_mod)
    then none
    else some (record { offset = header_size; size = message_size })

unfoldable pub parse_message : RpcCodec → List ℕ → RpcCodec × Option View
parse_message c buf =
    let c' : RpcCodec = record c { read_buf = c.read_buf ++ buf } in (c', parse_buffer c'.read_buf)

-- The bytes of a view, and whether they all lie in the buffer.
abbrev pub view_bytes : View → List ℕ → List ℕ
view_bytes v buf = take v.size (drop v.offset buf)

abbrev pub in_bounds : View → List ℕ → Bool
in_bounds v buf = if ltb (length buf) (v.offset + v.size) then Bool.false else Bool.true

unfoldable pub take_message : RpcCodec → View → RpcCodec
take_message c v = record c { read_buf = drop (v.size + header_size) c.read_buf }

-- WriteMessageToBuffer: clear, the size, the message.
unfoldable pub write_message : RpcCodec → List ℕ → RpcCodec
write_message c message = record c { write_buf = be_bytes header_size (length message) ++ message }
