-- ===== src/WebSocketParser/Tests.antt =====
-- Runs of the frame parser, and the theorems at concrete frames.
use libcold.Base.{inr, map, ℕ, ◌≡◌, refl, List, [], ◌∷◌, ◌++◌, true, false, arith, be_value}
use libcold.WebSocketParser.{
  WebSocketFrame, WebSocketParser, need_more, aborts, payload_of, merge_frames, do_parse, parse,
  new_parser, parse_bytes, make_frame, parse_length, check_length, finish_frame, xor_key,
  parse_loop, length_bytes,
}
use libcold.WebSocketParser.RoundTrip.{Frame, IsSendable, frame_bytes, stored}
use libcold.WebSocketParser.Fragments.{between, waiting, all_bytes, parse-make_frame, made}
use libcold.WebSocketParser.Messages.{Message, frames_of, content, parse-frames_of}
use libcold.WebSocketParser.Faults.{do_parse_interleaved}

abbrev key : List ℕ
key = 1 ∷ 2 ∷ 3 ∷ 4 ∷ []

abbrev first_part : Frame
first_part = record { fin = false; opcode = 1; mask = true; key = key; payload = 72 ∷ 101 ∷ [] }

abbrev next_part : Frame
next_part = record first_part { opcode = 0 }

abbrev last_part : Frame
last_part = record {
  fin = true;
  opcode = 0;
  mask = true;
  key = key;
  payload = 108 ∷ 108 ∷ 111 ∷ [];
}

abbrev unmasked_ping : Frame
unmasked_ping = record { fin = true; opcode = 9; mask = false; key = key; payload = [] }

first_part-IsSendable : IsSendable first_part
first_part-IsSendable = record {
  known = refl;
  nibble = omega arith;
  keyed = refl;
  key_bytes = ground arith;
  bytes = ground arith;
  small = omega arith;
}

last_part-IsSendable : IsSendable last_part
last_part-IsSendable = record {
  known = refl;
  nibble = omega arith;
  keyed = refl;
  key_bytes = ground arith;
  bytes = ground arith;
  small = omega arith;
}

unmasked_ping-IsSendable : IsSendable unmasked_ping
unmasked_ping-IsSendable = record {
  known = refl;
  nibble = omega arith;
  keyed = refl;
  key_bytes = ground arith;
  bytes = tt;
  small = omega arith;
}

parse_hello :
    payload_of
      (parse
        (parse new_parser (0x81 ∷ 0x85 ∷ 1 ∷ 2 ∷ [])).0
        (3 ∷ 4 ∷ 73 ∷ 103 ∷ 111 ∷ 104 ∷ 110 ∷ [])).0.complete_frames
    ≡ 72 ∷ 101 ∷ 108 ∷ 108 ∷ 111 ∷ []
unfolding parse parse_loop do_parse parse_bytes parse_length check_length finish_frame merge_frames
    xor_key
parse_hello = refl

make_hello :
    make_frame 1 true key (72 ∷ 101 ∷ 108 ∷ []) ≡ 0x81 ∷ 0x83 ∷ 1 ∷ 2 ∷ 3 ∷ 4 ∷ 73 ∷ 103 ∷ 111 ∷ []
unfolding make_frame length_bytes xor_key
make_hello = refl

-- A length that wraps: the sum of the header and the payload is 0 modulo 2 ^ 64.
parse_huge_length :
    (parse new_parser (0x82 ∷ 127 ∷ 255 ∷ 255 ∷ 255 ∷ 255 ∷ 255 ∷ 255 ∷ 255 ∷ 246 ∷ [])).1 ≡ aborts
unfolding parse parse_loop do_parse parse_bytes parse_length check_length be_value
parse_huge_length = refl

-- "Hello" in two parts, and a ping.
abbrev hello : Message
hello = record {
  opcode = 1;
  first = record { mask = true; key = key; payload = 72 ∷ 101 ∷ [] };
  others = record { mask = true; key = key; payload = 108 ∷ 108 ∷ 111 ∷ [] } ∷ [];
}

abbrev bare_ping : Message
bare_ping = record {
  opcode = 9;
  first = record { mask = false; key = key; payload = [] };
  others = [];
}

parse-frames_of_example :
    (done' : List WebSocketFrame) × (parse
        (waiting ([], []))
        (all_bytes (frames_of (hello ∷ bare_ping ∷ [])))
      ≡ (waiting (done', []), need_more))
    × (map content done' ≡ (1, 72 ∷ 101 ∷ 108 ∷ 108 ∷ 111 ∷ []) ∷ (9, []) ∷ [])
parse-frames_of_example =
    parse-frames_of (waiting ([], [])) [] (hello ∷ bare_ping ∷ []) (inr refl)
      (first_part-IsSendable, (last_part-IsSendable, (unmasked_ping-IsSendable, tt)))

abbrev greeting : Frame
greeting = made 1 true key (72 ∷ 105 ∷ [])

greeting-IsSendable : IsSendable greeting
greeting-IsSendable = record {
  known = refl;
  nibble = omega arith;
  keyed = refl;
  key_bytes = ground arith;
  bytes = ground arith;
  small = omega arith;
}

parse-make_frame_example :
    parse (between [] ([], [])) (make_frame 1 true key (72 ∷ 105 ∷ []))
    ≡ (waiting (stored greeting ∷ [], []), need_more)
parse-make_frame_example = parse-make_frame 1 true key (72 ∷ 105 ∷ []) [] greeting-IsSendable

do_parse_interleaved_example :
    (do_parse
      (between (frame_bytes unmasked_ping ++ []) ([], stored first_part ∷ stored next_part ∷ []))).1
    ≡ aborts
do_parse_interleaved_example =
    do_parse_interleaved [] (stored first_part) (stored next_part ∷ []) unmasked_ping []
      unmasked_ping-IsSendable refl refl

abbrev refused : WebSocketParser
refused = between (0x83 ∷ 0 ∷ []) ([], [])
