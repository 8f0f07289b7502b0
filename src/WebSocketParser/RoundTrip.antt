-- ===== src/WebSocketParser/RoundTrip.antt =====
-- Parsing the frames that a peer writes.
use Prim.Native.Nat.{bit_xor}
use libcold.Base.{
  ℕ, zero, suc, ◌+◌, ◌%◌, ◌^◌, ◌<◌, ◌≡◌, refl, sym, ap, ◌∙◌, List, [], ◌∷◌, ◌++◌, append_assoc,
  Bool, true, false, arith, AreBytes, test_below, test_below-holds, ==_iff, ltb, leb, ◌==◌,
  if◌then◌else◌, length, get_or, replicate, Bool-cases, inl, inr,
}
use libcold.WebSocketParser.{
  WebSocketFrame, WebSocketParser, success, empty_frame, last_frame, begin_frame, first_byte,
  second_byte, reserved_opcode, key_bytes, xor_key, merge_frames, parse_length, parse_bytes,
  do_parse,
}
use libcold.WebSocketParser.Wire.{
  wire, Coded, coded, mask_bit, fin_bit, masked, key_part, length-masked, replace_last-append,
  last_frame-append, parse_length-wire,
}

xor_table : test_below (λ a. test_below (λ b. bit_xor (bit_xor a b) b == a) 256) 256 ≡ true
unfolding test_below
xor_table = refl

xor_twice : (a b : ℕ) → a < 256 → b < 256 → bit_xor (bit_xor a b) b ≡ a
xor_twice a b ha hb =
    (==_iff _ a).0 (test_below-holds _ 256 b hb (test_below-holds _ 256 a ha xor_table))

get_or-AreBytes : (s : List ℕ) (i : ℕ) → AreBytes s → get_or s i 0 < 256
get_or-AreBytes [] i h = omega arith
get_or-AreBytes (b ∷ s) zero h = h.0
get_or-AreBytes (b ∷ s) (suc i) h = get_or-AreBytes s i h.1

xor_key_twice :
    (key : List ℕ) (i : ℕ) (s : List ℕ)
    → AreBytes key
    → AreBytes s
    → xor_key key i (xor_key key i s) ≡ s
unfolding xor_key
xor_key_twice key i [] hk hs = refl
xor_key_twice key i (b ∷ s) hk hs = ground (
  arith,
  xor_twice b (get_or key (i % 4) 0) hs.0 (get_or-AreBytes key (i % 4) hk),
  xor_key_twice key (i + 1) s hk hs.1,
)

-- What a frame says, and the conditions under which it can be sent.
pub record Frame : Type 0 where
  pub fin : Bool
  pub opcode : ℕ
  pub mask : Bool
  pub key : List ℕ
  pub payload : List ℕ

abbrev pub frame_bytes : Frame → List ℕ
frame_bytes f = wire f.fin f.opcode f.mask f.key f.payload

pub record IsSendable (f : Frame) : Type 0 where
  pub known : reserved_opcode f.opcode ≡ false
  pub nibble : f.opcode < 16
  pub keyed : length f.key ≡ 4
  pub key_bytes : AreBytes f.key
  pub bytes : AreBytes f.payload
  pub small : length f.payload + 14 < 2 ^ 64

masked_twice :
    (f : Frame) → IsSendable f → masked f.mask f.key (masked f.mask f.key f.payload) ≡ f.payload
masked_twice f h = elim (Bool-cases f.mask) [
  | inl e ↦ rw e (xor_key_twice f.key 0 f.payload h.key_bytes h.bytes)
  | inr e ↦ rw e
]

-- The frame that the parser stores.
abbrev pub stored : Frame → WebSocketFrame
stored f = record {
  fin = f.fin;
  mask = f.mask;
  opcode = f.opcode;
  payload_len = length f.payload;
  masking_key = if f.mask then f.key else replicate 4 0;
  payload = f.payload;
}

abbrev pub after : WebSocketParser → Frame → List ℕ → WebSocketParser
after p f rest = record p { buffer = rest; frames = p.frames ++ stored f ∷ []; new_frame = true }

module _ (p : WebSocketParser) (f : Frame) (rest : List ℕ) (h : IsSendable f)
    (fresh : p.new_frame ≡ true) (bytes : p.buffer ≡ frame_bytes f ++ rest)
    (len : Coded f.mask (length f.payload)) where
  b0 : ℕ
  b0 = fin_bit f.fin + f.opcode

  b1 : ℕ
  b1 = mask_bit f.mask + len.code

  split_bytes :
      p.buffer
      ≡ b0 ∷ b1 ∷ (len.extra ++ (key_part f.mask f.key ++ (masked f.mask f.key f.payload ++ rest)))
  unfolding b0 b1
  split_bytes = bytes ∙ rw (len.shape, append_assoc, append_assoc) refl

  b0_fields : (leb 128 b0 ≡ f.fin) × (b0 % 16 ≡ f.opcode)
  unfolding b0
  b0_fields = ground (arith, h.nibble)

  b1_fields : (leb 128 b1 ≡ f.mask) × (b1 % 128 ≡ len.code)
  unfolding b1
  b1_fields = ground (arith, len.bound)

  begun : WebSocketParser
  begun = record p { frames = p.frames ++ empty_frame ∷ []; new_frame = false }

  opened : WebSocketFrame
  opened = record empty_frame { fin = f.fin; opcode = f.opcode }

  header : WebSocketFrame
  unfolding opened
  header = record opened { mask = f.mask; payload_len = len.code }

  begin_frame-begun : begin_frame p ≡ begun
  unfolding begun
  begin_frame-begun = rw fresh

  last_frame-begun : last_frame (begin_frame p).frames ≡ empty_frame
  last_frame-begun = rw fresh (last_frame-append p.frames empty_frame)

  do_parse-parse_bytes : do_parse p ≡ parse_bytes begun opened b1
  unfolding do_parse opened
  do_parse-parse_bytes = rw (
    begin_frame-begun,
    ap first_byte split_bytes,
    ap second_byte split_bytes,
    last_frame-begun,
    b0_fields.0,
    b0_fields.1,
  )

  long_enough : ltb (length begun.buffer) 2 ≡ false
  unfolding begun
  long_enough = ground (arith, ap length split_bytes)

  parse_bytes-header : parse_bytes begun opened b1 ≡ parse_length begun header
  unfolding parse_bytes opened header
  parse_bytes-header = rw (long_enough, h.known, b1_fields.0, b1_fields.1)

  abbrev wired : List ℕ
  wired = masked f.mask f.key f.payload

  length-key_part : length (key_part f.mask f.key) ≡ key_bytes f.mask
  length-key_part = elim (Bool-cases f.mask) [ inl e ↦ rw e h.keyed | inr e ↦ rw e ]

  key_part-stored :
      (if f.mask then key_part f.mask f.key else replicate 4 0)
      ≡ (if f.mask then f.key else replicate 4 0)
  key_part-stored = elim (Bool-cases f.mask) [ inl e ↦ rw e | inr e ↦ rw e ]

  masked-key_part : masked f.mask (key_part f.mask f.key) wired ≡ f.payload
  masked-key_part = elim (Bool-cases f.mask) [
    | inl e ↦ rw e (xor_key_twice f.key 0 f.payload h.key_bytes h.bytes)
    | inr e ↦ rw e
  ]

  length-wired : length wired ≡ length f.payload
  length-wired = length-masked f.mask f.key f.payload

  do_parse-wire : do_parse p ≡ (
      if f.fin
      then merge_frames (after p f rest) (after p f rest).frames
      else (after p f rest, success))
  unfolding header opened begun
  do_parse-wire =
      do_parse-parse_bytes
      ∙ parse_bytes-header
      ∙ parse_length-wire begun header b0 b1 len.extra (key_part f.mask f.key) wired rest
          split_bytes len.more length-key_part (len.value ∙ sym length-wired)
          (rw length-wired h.small)
      ∙ rw
          (key_part-stored, masked-key_part, length-wired, replace_last-append, replace_last-append)

-- What DoParse does with a frame whose bytes are all there.
pub do_parse-frame_bytes :
    (p : WebSocketParser) (f : Frame) (rest : List ℕ)
    → IsSendable f
    → p.new_frame ≡ true
    → p.buffer ≡ frame_bytes f ++ rest
    → do_parse p ≡ (
        if f.fin
        then merge_frames (after p f rest) (after p f rest).frames
        else (after p f rest, success))
do_parse-frame_bytes p f rest h fresh bytes =
    do_parse-wire p f rest h fresh bytes (coded f.mask (length f.payload) (omega (arith, h.small)))
