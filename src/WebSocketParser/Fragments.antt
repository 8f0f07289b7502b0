-- ===== src/WebSocketParser/Fragments.antt =====
-- Parsing the frames that a peer writes, whole and in fragments.
use mathlib.Core.Option.{some-injective}
use libcold.Base.{
  subst, Option-cases, ℕ, zero, suc, ◌+◌, ◌≤◌, ◌<◌, ◌≡◌, refl, sym, ap, ◌∙◌, List, [], ◌∷◌, ◌++◌,
  append-nil, Bool, true, false, arith, Every, Option, none, some, if◌then◌else◌, length,
  length-append, Bool-cases, inl, inr,
}
use libcold.WebSocketParser.{
  WebSocketFrame, WebSocketParser, success, need_more, empty_frame, payload_of, all_continuations,
  merge_frames, do_parse, make_frame, parse, parse_loop, while_success, parse_bytes,
}
use libcold.WebSocketParser.RoundTrip.{Frame, IsSendable, frame_bytes, stored, do_parse-frame_bytes}

abbrev pub all_bytes : List Frame → List ℕ
all_bytes [] = []
all_bytes (f ∷ fs) = frame_bytes f ++ all_bytes fs

-- A message in fragments: all but the last are without FIN, all but the first are continuations.
abbrev pub whole : WebSocketFrame → List WebSocketFrame → WebSocketFrame
whole f fs = record f {
  fin = true;
  payload = f.payload ++ payload_of fs;
  payload_len = length (f.payload ++ payload_of fs);
}

-- The messages and the open fragments after some frames, as the parser joins them; none where a frame
-- that is no continuation ends inside of a message.
abbrev pub Inbox : Type 0
Inbox = List WebSocketFrame × List WebSocketFrame

abbrev pub close_message : List WebSocketFrame → List WebSocketFrame → Option Inbox
close_message done [] = some (done, [])
close_message done (f ∷ []) = some (done ++ f ∷ [], [])
close_message done (f ∷ g ∷ fs) =
    if all_continuations (g ∷ fs) then some (done ++ whole f (g ∷ fs) ∷ [], []) else none

abbrev pub receive : Inbox → Frame → Option Inbox
receive (done, parts) f =
    if f.fin
    then close_message done (parts ++ stored f ∷ [])
    else some (done, parts ++ stored f ∷ [])

abbrev and_then : Option Inbox → (Inbox → Option Inbox) → Option Inbox
and_then none next = none
and_then (some box) next = next box

abbrev pub receive_all : Inbox → List Frame → Option Inbox
receive_all box [] = some box
receive_all box (f ∷ fs) = and_then (receive box f) (λ box'. receive_all box' fs)

-- The parser between two frames.
abbrev pub between : List ℕ → Inbox → WebSocketParser
between buf (done, parts) = record {
  buffer = buf;
  complete_frames = done;
  frames = parts;
  new_frame = true;
}

merge_frames-close_message :
    (rest : List ℕ) (done parts parts' : List WebSocketFrame) (box : Inbox)
    → 0 < length parts'
    → close_message done parts' ≡ some box
    → merge_frames (between rest (done, parts)) parts' ≡ (between rest box, success)
unfolding merge_frames
merge_frames-close_message rest done parts [] box h e = absurd (omega arith)
merge_frames-close_message rest done parts (f ∷ []) box h e = ground arith
merge_frames-close_message rest done parts (f ∷ g ∷ fs) box h e =
    elim (Bool-cases (all_continuations (g ∷ fs))) [ inl c ↦ ground arith | inr c ↦ ground arith ]

settled :
    (rest : List ℕ) (done parts : List WebSocketFrame) (f : WebSocketFrame) (fin : Bool)
    (box : Inbox)
    → (if fin then close_message done (parts ++ f ∷ []) else some (done, parts ++ f ∷ []))
      ≡ some box
    → (if fin
        then merge_frames (between rest (done, parts ++ f ∷ [])) (parts ++ f ∷ [])
        else (between rest (done, parts ++ f ∷ []), success))
      ≡ (between rest box, success)
settled rest done parts f true box e =
    merge_frames-close_message rest done (parts ++ f ∷ []) (parts ++ f ∷ []) box
      (omega (arith, length-append parts (f ∷ []))) e
settled rest done parts f false box e = ground (arith, e)

do_parse-receive :
    (box box' : Inbox) (f : Frame) (rest : List ℕ)
    → IsSendable f
    → receive box f ≡ some box'
    → do_parse (between (frame_bytes f ++ rest) box) ≡ (between rest box', success)
do_parse-receive box box' f rest h e =
    do_parse-frame_bytes (between (frame_bytes f ++ rest) box) f rest h refl refl
    ∙ settled rest box.0 box.1 (stored f) f.fin box' e

-- The parser that waits for the first byte of a frame.
abbrev pub waiting : Inbox → WebSocketParser
waiting (done, parts) = record {
  buffer = [];
  complete_frames = done;
  frames = parts ++ empty_frame ∷ [];
  new_frame = false;
}

do_parse-empty : (box : Inbox) → do_parse (between [] box) ≡ (waiting box, need_more)
unfolding do_parse parse_bytes
do_parse-empty box = refl

parse_loop-success :
    (k : ℕ) (p p' : WebSocketParser)
    → do_parse p ≡ (p', success)
    → parse_loop (suc k) p ≡ parse_loop k p'
unfolding parse_loop
parse_loop-success k p p' e = ap (while_success (λ q. parse_loop k q)) e

parse_loop-need_more :
    (k : ℕ) (p p' : WebSocketParser)
    → do_parse p ≡ (p', need_more)
    → parse_loop (suc k) p ≡ (p', need_more)
unfolding parse_loop
parse_loop-need_more k p p' e = ap (while_success (λ q. parse_loop k q)) e

pub receive_all-some :
    (box mid : Inbox) (f : Frame) (fs : List Frame)
    → receive box f ≡ some mid
    → receive_all box (f ∷ fs) ≡ receive_all mid fs
receive_all-some box mid f fs e = ap (λ o. and_then o (λ b. receive_all b fs)) e

pub receive_all-none :
    (box : Inbox) (f : Frame) (fs : List Frame)
    → receive box f ≡ none
    → receive_all box (f ∷ fs) ≡ none
receive_all-none box f fs e = ap (λ o. and_then o (λ b. receive_all b fs)) e

parse_loop-receive_all :
    (k : ℕ) (box box' : Inbox) (fs : List Frame)
    → length fs < k
    → Every IsSendable fs
    → receive_all box fs ≡ some box'
    → parse_loop k (between (all_bytes fs) box) ≡ (waiting box', need_more)
parse_loop-receive_all zero box box' fs h ok e = absurd (omega arith)
parse_loop-receive_all (suc k) box box' [] h ok e =
    subst (λ b. parse_loop (suc k) (between [] box) ≡ (waiting b, need_more))
      (some-injective box box' e)
      (parse_loop-need_more k (between [] box) (waiting box) (do_parse-empty box))
parse_loop-receive_all (suc k) box box' (f ∷ fs) h (here, there) e =
    elim (Option-cases (receive box f)) [
      | inl missing ↦ absurd (ground (arith, e, receive_all-none box f fs missing))
      | inr (mid, found) ↦
          parse_loop-success k (between (all_bytes (f ∷ fs)) box) (between (all_bytes fs) mid)
            (do_parse-receive box mid f (all_bytes fs) here found)
          ∙ parse_loop-receive_all k mid box' fs (omega arith) there
              (sym (receive_all-some box mid f fs found) ∙ e)
    ]

length-all_bytes : (fs : List Frame) → length fs ≤ length (all_bytes fs)
length-all_bytes [] = omega arith
length-all_bytes (f ∷ fs) =
    omega (arith, length-append (frame_bytes f) (all_bytes fs), length-all_bytes fs)

-- Of frames that all fit to be sent, one call of Parse on their bytes leaves what receive_all says,
-- where it says anything.
pub parse-receive_all :
    (box box' : Inbox) (fs : List Frame)
    → Every IsSendable fs
    → receive_all box fs ≡ some box'
    → parse (between [] box) (all_bytes fs) ≡ (waiting box', need_more)
unfolding parse
parse-receive_all box box' fs ok e =
    parse_loop-receive_all (length (all_bytes fs) + 1) box box' fs
      (omega (arith, length-all_bytes fs)) ok e

-- What MakeFrameToBuffer writes for a payload.
abbrev pub made : ℕ → Bool → List ℕ → List ℕ → Frame
made opcode mask key payload = record {
  fin = true;
  opcode = opcode;
  mask = mask;
  key = key;
  payload = payload;
}

frame_bytes-made :
    (opcode : ℕ) (mask : Bool) (key payload : List ℕ)
    → opcode < 16
    → make_frame opcode mask key payload ≡ frame_bytes (made opcode mask key payload)
unfolding make_frame
frame_bytes-made opcode true key payload h = ground arith
frame_bytes-made opcode false key payload h = ground arith

-- What MakeFrameToBuffer writes, masked or not, with a known opcode and a payload that fits, Parse
-- reads back: the queue gets one frame, final and with the same opcode, mask, key and payload.
pub parse-make_frame :
    (opcode : ℕ) (mask : Bool) (key payload : List ℕ) (done : List WebSocketFrame)
    → IsSendable (made opcode mask key payload)
    → parse (between [] (done, [])) (make_frame opcode mask key payload)
      ≡ (waiting (done ++ stored (made opcode mask key payload) ∷ [], []), need_more)
parse-make_frame opcode mask key payload done h =
    ap (parse (between [] (done, []))) (
      frame_bytes-made opcode mask key payload h.nibble
      ∙ sym (append-nil (frame_bytes (made opcode mask key payload))))
    ∙ parse-receive_all (done, []) (done ++ stored (made opcode mask key payload) ∷ [], [])
        (made opcode mask key payload ∷ []) (h, tt) refl
