-- ===== src/WebSocketParser.antt =====
-- cold/net/http/WebSocketParser.h and WebSocketParser.cpp: frames of the WebSocket protocol, taken
-- apart as their bytes arrive, and written. An assertion that fails and an exception that
-- std::string::reserve throws end the program: both are the outcome `aborts`.
pub mod Wire
pub mod RoundTrip
pub mod Fragments
pub mod Messages
pub mod Faults
mod Tests
use Prim.Native.Nat.{bit_xor}
use libcold.Base.{
  ℕ, zero, suc, ◌+◌, ◌-◌, ◌*◌, ◌/◌, ◌%◌, ◌^◌, List, [], ◌∷◌, ◌++◌, Bool, true, false, not, ◌&&◌,
  ◌||◌, ltb, leb, ◌==◌, if◌then◌else◌, length, get_or, take, drop, replicate, is_empty, be_bytes,
  be_value,
}

pub record WebSocketFrame : Type 0 where
  pub fin : Bool
  pub mask : Bool
  pub opcode : ℕ
  pub payload_len : ℕ
  pub masking_key : List ℕ
  pub payload : List ℕ

abbrev pub empty_frame : WebSocketFrame
empty_frame = record {
  fin = false;
  mask = false;
  opcode = 0;
  payload_len = 0;
  masking_key = replicate 4 0;
  payload = [];
}

pub record WebSocketParser : Type 0 where
  pub buffer : List ℕ
  pub complete_frames : List WebSocketFrame
  pub frames : List WebSocketFrame
  pub new_frame : Bool

abbrev pub new_parser : WebSocketParser
new_parser = record { buffer = []; complete_frames = []; frames = []; new_frame = true }

pub data ParseState : Type 0 where
  success error need_more aborts : ParseState

-- frames_.back() and a write to it.
abbrev pub last_frame : List WebSocketFrame → WebSocketFrame
last_frame [] = empty_frame
last_frame (f ∷ []) = f
last_frame (f ∷ g ∷ fs) = last_frame (g ∷ fs)

abbrev pub replace_last : List WebSocketFrame → WebSocketFrame → List WebSocketFrame
replace_last [] n = []
replace_last (f ∷ []) n = n ∷ []
replace_last (f ∷ g ∷ fs) n = f ∷ replace_last (g ∷ fs) n

abbrev pub begin_frame : WebSocketParser → WebSocketParser
begin_frame p = record p {
  frames = if p.new_frame then p.frames ++ empty_frame ∷ [] else p.frames;
  new_frame = false;
}

-- The first two bytes of the buffer.
abbrev pub first_byte : List ℕ → ℕ
first_byte buf = get_or buf 0 0

abbrev pub second_byte : List ℕ → ℕ
second_byte buf = get_or buf 1 0

abbrev pub reserved_opcode : ℕ → Bool
reserved_opcode op = (leb 3 op && leb op 7) || op == 0xb

-- How many bytes of extended length follow.
abbrev pub more_bytes : ℕ → ℕ
more_bytes len = if len == 126 then 2 else if len == 127 then 8 else 0

abbrev pub key_bytes : Bool → ℕ
key_bytes mask = if mask then 4 else 0

-- payload[i] ^ maskingKey[i % 4], from the index `i` on.
unfoldable pub xor_key : List ℕ → ℕ → List ℕ → List ℕ
xor_key key i [] = []
xor_key key i (b ∷ s) = bit_xor b (get_or key (i % 4) 0) ∷ xor_key key (i + 1) s

abbrev pub payload_of : List WebSocketFrame → List ℕ
payload_of [] = []
payload_of (f ∷ fs) = f.payload ++ payload_of fs

abbrev pub all_continuations : List WebSocketFrame → Bool
all_continuations [] = true
all_continuations (f ∷ fs) = f.opcode == 0 && all_continuations fs

-- A last frame of a message: the frames are merged into the first one, which is complete.
unfoldable pub merge_frames : WebSocketParser → List WebSocketFrame → WebSocketParser × ParseState
merge_frames p [] = (p, success)
merge_frames p (f ∷ []) =
    (record p { complete_frames = p.complete_frames ++ f ∷ []; frames = [] }, success)
merge_frames p (f ∷ g ∷ fs) =
    let whole = f.payload ++ payload_of (g ∷ fs) in
    let merged : WebSocketFrame = record f {
      payload = whole;
      payload_len = length whole;
      fin = true;
    } in
    if all_continuations (g ∷ fs)
    then (record p { complete_frames = p.complete_frames ++ merged ∷ []; frames = [] }, success)
    else (p, aborts)

-- The rest of DoParse once all bytes of the frame are there; `head` is their number before the
-- payload.
unfoldable pub finish_frame : WebSocketParser → WebSocketFrame → ℕ → WebSocketParser × ParseState
unfolding merge_frames xor_key
finish_frame p f head =
    let raw = take f.payload_len (drop head p.buffer) in
    let key = if f.mask then take 4 (drop (head - 4) p.buffer) else f.masking_key in
    let done : WebSocketFrame = record f {
      masking_key = key;
      payload = f.payload ++ (if f.mask then xor_key key 0 raw else raw);
    } in
    let p' : WebSocketParser = record p {
      buffer = drop (head + f.payload_len) p.buffer;
      frames = replace_last p.frames done;
      new_frame = true;
    } in
    if f.fin then merge_frames p' p'.frames else (p', success)

-- The tests behind the extended length. Where the sum of uint64_t wraps it is less than the header,
-- so the test of the source passes, and its call of reserve throws.
unfoldable pub check_length :
    WebSocketParser → WebSocketFrame → ℕ → ℕ → WebSocketParser × ParseState
unfolding finish_frame
check_length p f head len =
    let f' : WebSocketFrame = record f { payload_len = len } in
    let p' : WebSocketParser = record p { frames = replace_last p.frames f' } in
    let done = finish_frame p' f' head in
    if leb (2 ^ 64) (head + len)
    then (p', aborts)
    else if ltb (length p.buffer) (head + len)
    then (p', need_more)
    else done

abbrev pub extended_length : List ℕ → ℕ → ℕ
extended_length buf code =
    if more_bytes code == 0 then code else be_value (take (more_bytes code) (drop 2 buf))

-- The tests from the mask bit on, with the header's fields in `f`.
unfoldable pub parse_length : WebSocketParser → WebSocketFrame → WebSocketParser × ParseState
unfolding check_length
parse_length p f =
    let head = 2 + key_bytes f.mask + more_bytes f.payload_len in
    let done = check_length p f head (extended_length p.buffer f.payload_len) in
    if ltb (length p.buffer) head
    then (record p { frames = replace_last p.frames f }, need_more)
    else done

-- The tests on the first two bytes: the fields of the first one are in `f`.
unfoldable pub parse_bytes : WebSocketParser → WebSocketFrame → ℕ → WebSocketParser × ParseState
parse_bytes p f b1 =
    let known = parse_length p (record f { mask = leb 128 b1; payload_len = b1 % 128 }) in
    if ltb (length p.buffer) 2
    then (p, need_more)
    else if reserved_opcode f.opcode
    then (record p { frames = replace_last p.frames f }, error)
    else known

unfoldable pub do_parse : WebSocketParser → WebSocketParser × ParseState
do_parse p =
    let q = begin_frame p in
    let b0 = first_byte p.buffer in
    let f : WebSocketFrame = record (last_frame q.frames) { fin = leb 128 b0; opcode = b0 % 16 } in
    parse_bytes q f (second_byte p.buffer)

-- The loop of Parse goes on after a success only.
abbrev pub while_success :
    (WebSocketParser → WebSocketParser × ParseState)
    → WebSocketParser × ParseState
    → WebSocketParser × ParseState
while_success next (p, success) = next p
while_success next (p, error) = (p, error)
while_success next (p, need_more) = (p, need_more)
while_success next (p, aborts) = (p, aborts)

-- A frame takes two bytes at least, so the bytes of the buffer are fuel enough.
unfoldable pub parse_loop : ℕ → WebSocketParser → WebSocketParser × ParseState
parse_loop zero p = (p, need_more)
parse_loop (suc k) p = while_success (λ p'. parse_loop k p') (do_parse p)

unfoldable pub parse : WebSocketParser → List ℕ → WebSocketParser × ParseState
parse p data' =
    let filled : WebSocketParser = record p { buffer = p.buffer ++ data' } in
    parse_loop (length filled.buffer + 1) filled

-- MakeFrameToBuffer; the key is what rand() gave.
unfoldable pub length_bytes : Bool → ℕ → List ℕ
length_bytes mask size =
    let bit = if mask then 128 else 0 in
    if ltb size 126
    then (bit + size) ∷ []
    else if ltb size 65536
    then (bit + 126) ∷ be_bytes 2 size
    else (bit + 127) ∷ be_bytes 8 size

unfoldable pub make_frame : ℕ → Bool → List ℕ → List ℕ → List ℕ
unfolding length_bytes xor_key
make_frame opcode mask key payload =
    (128 + opcode % 128)
    ∷ (length_bytes mask (length payload)
        ++ (if mask then key ++ xor_key key 0 payload else payload))
