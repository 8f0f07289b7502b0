-- ===== src/WebSocketParser/Wire.antt =====
-- A frame on the wire (RFC 6455, section 5.2), and what DoParse makes of it.
use libcold.Base.{
  ℕ, suc, ◌+◌, ◌-◌, ◌^◌, ◌<◌, ◌≡◌, refl, sym, ap, ◌∙◌, List, [], ◌∷◌, ◌++◌, append_assoc, Bool,
  true, false, arith, ltb, leb, ◌==◌, if◌then◌else◌, length, length-append, take-append,
  drop-append, take, drop, be_bytes, be_value, length-be_bytes, be_value-be_bytes, Bool-cases, inl,
  inr,
}
use libcold.WebSocketParser.{
  WebSocketFrame, WebSocketParser, success, last_frame, replace_last, more_bytes, key_bytes,
  xor_key, merge_frames, finish_frame, check_length, extended_length, parse_length, length_bytes,
}

abbrev pub mask_bit : Bool → ℕ
mask_bit mask = if mask then 128 else 0

abbrev pub fin_bit : Bool → ℕ
fin_bit fin = if fin then 128 else 0

-- How a length is coded: the seven bits in the second byte, and the bytes behind it.
pub record Coded (mask : Bool) (n : ℕ) : Type 0 where
  pub code : ℕ
  pub extra : List ℕ
  pub shape : length_bytes mask n ≡ (mask_bit mask + code) ∷ extra
  pub bound : code < 128
  pub more : more_bytes code ≡ length extra
  pub value : (if more_bytes code == 0 then code else be_value extra) ≡ n

pub coded : (mask : Bool) (n : ℕ) → n < 2 ^ 64 → Coded mask n
unfolding length_bytes
coded mask n h = elim (Bool-cases (ltb n 126)) [
  | inl short ↦ record {
    code = n;
    extra = [];
    shape = rw short;
    bound = ground arith;
    more = ground arith;
    value = ground arith;
  }
  | inr long ↦ elim (Bool-cases (ltb n 65536)) [
    | inl medium ↦ record {
      code = 126;
      extra = be_bytes 2 n;
      shape = rw (long, medium);
      bound = omega arith;
      more = sym (length-be_bytes 2 n);
      value = be_value-be_bytes 2 n (ground arith);
    }
    | inr large ↦ record {
      code = 127;
      extra = be_bytes 8 n;
      shape = rw (long, large);
      bound = omega arith;
      more = sym (length-be_bytes 8 n);
      value = be_value-be_bytes 8 n (omega arith);
    }
  ]
]

abbrev pub masked : Bool → List ℕ → List ℕ → List ℕ
masked mask key payload = if mask then xor_key key 0 payload else payload

abbrev pub key_part : Bool → List ℕ → List ℕ
key_part mask key = if mask then key else []

-- The bytes of a frame.
abbrev pub wire : Bool → ℕ → Bool → List ℕ → List ℕ → List ℕ
wire fin opcode mask key payload =
    (fin_bit fin + opcode)
    ∷ (length_bytes mask (length payload) ++ (key_part mask key ++ masked mask key payload))

length-xor_key : (key : List ℕ) (i : ℕ) (s : List ℕ) → length (xor_key key i s) ≡ length s
unfolding xor_key
length-xor_key key i [] = refl
length-xor_key key i (b ∷ s) = ap suc (length-xor_key key (i + 1) s)

pub length-masked :
    (mask : Bool) (key payload : List ℕ) → length (masked mask key payload) ≡ length payload
length-masked true key payload = length-xor_key key 0 payload
length-masked false key payload = refl

pub last_frame-append :
    (fs : List WebSocketFrame) (f : WebSocketFrame) → last_frame (fs ++ f ∷ []) ≡ f
last_frame-append [] f = refl
last_frame-append (g ∷ []) f = refl
last_frame-append (g ∷ h ∷ fs) f = last_frame-append (h ∷ fs) f

pub replace_last-append :
    (fs : List WebSocketFrame) (f g : WebSocketFrame) → replace_last (fs ++ f ∷ []) g ≡ fs ++ g ∷ []
replace_last-append [] f g = refl
replace_last-append (h ∷ []) f g = refl
replace_last-append (h ∷ k ∷ fs) f g = ap (◌∷◌ h) (replace_last-append (k ∷ fs) f g)

module _ (p : WebSocketParser) (f : WebSocketFrame) (b0 b1 : ℕ) (extra key data' rest : List ℕ)
    (bytes : p.buffer ≡ b0 ∷ b1 ∷ (extra ++ (key ++ (data' ++ rest))))
    (more : more_bytes f.payload_len ≡ length extra) (keyed : length key ≡ key_bytes f.mask)
    (value : (if more_bytes f.payload_len == 0 then f.payload_len else be_value extra)
      ≡ length data')
    (small : length data' + 14 < 2 ^ 64) where
  length-bytes : length p.buffer ≡ 2 + length extra + length key + length data' + length rest
  length-bytes = omega (
    arith,
    ap length bytes,
    length-append extra (key ++ (data' ++ rest)),
    length-append key (data' ++ rest),
    length-append data' rest,
  )

  abbrev head : ℕ
  head = 2 + key_bytes f.mask + more_bytes f.payload_len

  abbrev sized : WebSocketFrame
  sized = record f { payload_len = length data' }

  abbrev started : WebSocketParser
  started = record p { frames = replace_last p.frames sized }

  extended_length-data : extended_length p.buffer f.payload_len ≡ length data'
  extended_length-data =
      rw (more, bytes, take-append extra (key ++ (data' ++ rest)) (length extra) refl, ← more) value

  head-fits : ltb (length p.buffer) head ≡ false
  head-fits = ground (arith, length-bytes, more, keyed)

  check_length-finish : check_length p f head (length data') ≡ finish_frame started sized head
  unfolding check_length
  check_length-finish = elim (Bool-cases (leb (2 ^ 64) (head + length data'))) [
    | inl wraps ↦ absurd (ground (arith, more))
    | inr fits ↦ rw fits (elim (Bool-cases (ltb (length p.buffer) (head + length data'))) [
      | inl less ↦ absurd (ground (arith, length-bytes, more, keyed))
      | inr enough ↦ rw enough
    ])
  ]

  parse_length-finish : parse_length p f ≡ finish_frame started sized head
  unfolding parse_length
  parse_length-finish = rw (head-fits, extended_length-data) check_length-finish

  regrouped : p.buffer ≡ (b0 ∷ b1 ∷ (extra ++ key)) ++ (data' ++ rest)
  regrouped = bytes ∙ ap (λ t. b0 ∷ b1 ∷ t) (sym (append_assoc extra key (data' ++ rest)))

  drop-head : drop head p.buffer ≡ data' ++ rest
  drop-head = rw regrouped (
      drop-append (b0 ∷ b1 ∷ (extra ++ key)) (data' ++ rest) head
        (omega (arith, length-append extra key, keyed, more)))

  take-data : take (length data') (drop head p.buffer) ≡ data'
  take-data = rw drop-head (take-append data' rest (length data') refl)

  drop-frame : drop (head + length data') p.buffer ≡ rest
  drop-frame =
      rw (regrouped, ← append_assoc)
        (drop-append ((b0 ∷ b1 ∷ (extra ++ key)) ++ data') rest (head + length data') (
          omega (
            arith,
            length-append (b0 ∷ b1 ∷ (extra ++ key)) data',
            length-append extra key,
            keyed,
            more,
          )))

  take-key : f.mask ≡ true → take 4 (drop (head - 4) p.buffer) ≡ key
  take-key e =
      rw
        (
          bytes,
          drop-append (b0 ∷ b1 ∷ extra) (key ++ (data' ++ rest)) (head - 4)
              (ground (arith, keyed, more)),
        )
        (take-append key (data' ++ rest) 4 (ground (arith, keyed)))

  abbrev finished : WebSocketFrame
  finished = record sized {
    masking_key = if f.mask then key else f.masking_key;
    payload = f.payload ++ masked f.mask key data';
  }

  abbrev after_frame : WebSocketParser
  after_frame = record p {
    buffer = rest;
    frames = replace_last (replace_last p.frames sized) finished;
    new_frame = true;
  }

  key-kept :
      (if f.mask then take 4 (drop (head - 4) p.buffer) else f.masking_key)
      ≡ (if f.mask then key else f.masking_key)
  key-kept = elim (Bool-cases f.mask) [ inl e ↦ ground (arith, e, take-key e) | inr e ↦ rw e ]

  payload-kept :
      (if f.mask then xor_key (if f.mask then key else f.masking_key) 0 data' else data')
      ≡ masked f.mask key data'
  payload-kept = elim (Bool-cases f.mask) [ inl e ↦ rw e | inr e ↦ rw e ]

  finish_frame-wire :
      finish_frame started sized head
      ≡ (if f.fin then merge_frames after_frame after_frame.frames else (after_frame, success))
  unfolding finish_frame
  finish_frame-wire = rw (drop-frame, take-data, key-kept, payload-kept)

  -- What DoParse does behind the first two bytes, where all bytes of the frame are there.
  pub parse_length-wire :
      parse_length p f
      ≡ (if f.fin then merge_frames after_frame after_frame.frames else (after_frame, success))
  parse_length-wire = parse_length-finish ∙ finish_frame-wire
