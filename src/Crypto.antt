-- ===== src/Crypto.antt =====
-- cold/util/Crypto.h: Base64. A result "" stands for a refused input, as in the source.
pub mod Alphabet
mod Decode
mod RoundTrip
mod Tests
use libcold.Base.{
  ℕ, zero, suc, ◌+◌, ◌-◌, ◌*◌, ◌/◌, ◌%◌, ◌^◌, List, [], ◌∷◌, ◌++◌, Bool, true, false, ◌&&◌, not,
  Option, none, some, ◌>>=◌, ltb, leb, ◌==◌, if◌then◌else◌, bytes_of, get_or, replicate, is_empty,
}

abbrev pub base64_alphabet : List ℕ
base64_alphabet = bytes_of "ABCDEFGHIJKLMNOPQRSTUVWXYZabcdefghijklmnopqrstuvwxyz0123456789+/"

abbrev pub pad_char : ℕ
pad_char = b'='

pub sextet_char : ℕ → ℕ
sextet_char v = get_or base64_alphabet v 0

-- One round of the encoder's loop: up to three bytes packed into 24 bits, and `padding`.
pub encode_group : ℕ → ℕ → List ℕ
encode_group packed padding =
    sextet_char (packed / 2 ^ 18)
    ∷ sextet_char (packed / 2 ^ 12 % 64)
    ∷ ((if padding == 2 then [] else sextet_char (packed / 2 ^ 6 % 64) ∷ [])
        ++ ((if padding == 0 then sextet_char (packed % 64) ∷ [] else [])
            ++ replicate padding pad_char))

pub base64_encode : List ℕ → List ℕ
base64_encode [] = []
base64_encode (a ∷ []) = encode_group (a * 256 * 256) 2
base64_encode (a ∷ b ∷ []) = encode_group ((a * 256 + b) * 256) 1
base64_encode (a ∷ b ∷ c ∷ s) = encode_group ((a * 256 + b) * 256 + c) 0 ++ base64_encode s

-- The 6-bit value of a character, and none for an invalid one.
pub char_sextet : ℕ → Option ℕ
char_sextet c =
    if leb b'A' c && leb c b'Z'
    then some (c - b'A')
    else if leb b'a' c && leb c b'z'
    then some (c - b'a' + 26)
    else if leb b'0' c && leb c b'9'
    then some (c - b'0' + 52)
    else if c == b'+'
    then some 62
    else if c == b'/'
    then some 63
    else none

pub record Group : Type 0 where
  pub padding : ℕ
  pub packed : ℕ

-- One character of the decoder's inner loop.
pub read_char : ℕ → Group → Option Group
read_char c g =
    if c == pad_char
    then some (record { padding = g.padding + 1; packed = g.packed * 64 })
    else if ltb 0 g.padding
    then none
    else do val ← char_sextet c; some (record { padding = g.padding; packed = g.packed * 64 + val })

-- The inner loop, for the characters of one round.
pub read_group : List ℕ → Group → Option Group
read_group [] g = some g
read_group (c ∷ s) g = do g' ← read_char c g; read_group s g'

-- What a round writes.
pub decode_group : Group → List ℕ
decode_group g =
    (g.packed / 2 ^ 16 % 256)
    ∷ ((if g.padding == 2 then [] else (g.packed / 2 ^ 8 % 256) ∷ [])
        ++ (if g.padding == 0 then (g.packed % 256) ∷ [] else []))

-- The tests between the inner loop and the writes; `more` says that input is left.
pub check_group : List ℕ → Bool → Option Group
check_group s more = do
  g ← read_group s (record { padding = 0; packed = 0 })
  if ltb 0 g.padding && more then none else if ltb 2 g.padding then none else some g

-- The buffer when the loop is left, and whether it is left at the end of the input.
pub record Decoded : Type 0 where
  pub written : List ℕ
  pub done : Bool

-- A round that stops the loop, or its bytes before those of the later rounds.
pub write_round : Option Group → Decoded → Decoded
write_round none rest = record { written = []; done = false }
write_round (some g) rest = record { written = decode_group g ++ rest.written; done = rest.done }

pub decode_loop : List ℕ → Decoded
decode_loop [] = record { written = []; done = true }
decode_loop (a ∷ []) = record { written = []; done = false }
decode_loop (a ∷ b ∷ []) = record { written = []; done = false }
decode_loop (a ∷ b ∷ c ∷ []) = record { written = []; done = false }
decode_loop (a ∷ b ∷ c ∷ d ∷ s) =
    write_round (check_group (a ∷ b ∷ c ∷ d ∷ []) (not (is_empty s))) (decode_loop s)

pub base64_decode : List ℕ → List ℕ
base64_decode s = let d = decode_loop s in if d.done then d.written else []
