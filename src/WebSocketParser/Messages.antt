-- ===== src/WebSocketParser/Messages.antt =====
-- The messages of a peer, and what Parse delivers of them.
use mathlib.Core.Option.{some-injective}
use native.Mathlib.Numerals.{add-one}
use libcold.Base.{
  ℕ, ◌+◌, ◌≡◌, ◌⊎◌, inl, inr, refl, sym, ap, ◌∙◌, List, [], ◌∷◌, ◌++◌, map, append-nil,
  append_assoc, Bool, true, false, Option-cases, Option, some, length, Every, ◌==◌, arith,
}
use libcold.WebSocketParser.{
  WebSocketFrame, WebSocketParser, need_more, payload_of, all_continuations, do_parse, parse,
  parse_loop,
}
use libcold.WebSocketParser.RoundTrip.{Frame, IsSendable, stored}
use libcold.WebSocketParser.Fragments.{
  Inbox, close_message, receive, receive_all, receive_all-some, receive_all-none, all_bytes,
  between, waiting, parse-receive_all, whole,
}

-- A parser that has all bytes of the frames so far: a new one, or one that has parsed.
abbrev pub AtRest : WebSocketParser → Inbox → Type 0
AtRest p box = (p ≡ between [] box) ⊎ (p ≡ waiting box)

-- Both begin with the same frame.
loop_waiting :
    (k : ℕ) (box : Inbox) (bytes : List ℕ)
    → parse_loop (k + 1) (record (waiting box) { buffer = bytes })
      ≡ parse_loop (k + 1) (record (between [] box) { buffer = bytes })
unfolding parse_loop do_parse
loop_waiting k box bytes = rw add-one

parse-waiting :
    (box : Inbox) (bytes : List ℕ) → parse (waiting box) bytes ≡ parse (between [] box) bytes
unfolding parse
parse-waiting (done, parts) bytes = loop_waiting (length bytes) (done, parts) bytes

pub parse-AtRest :
    (p : WebSocketParser) (box : Inbox) (bytes : List ℕ)
    → AtRest p box
    → parse p bytes ≡ parse (between [] box) bytes
parse-AtRest p box bytes (inl e) = ap (λ q. parse q bytes) e
parse-AtRest p box bytes (inr e) = ap (λ q. parse q bytes) e ∙ parse-waiting box bytes

-- A message as a peer cuts it: the payload in parts, each with its key or without one.
pub record Part : Type 0 where
  pub mask : Bool
  pub key : List ℕ
  pub payload : List ℕ

pub record Message : Type 0 where
  pub opcode : ℕ
  pub first : Part
  pub others : List Part

abbrev pub frame_of : Bool → ℕ → Part → Frame
frame_of fin opcode p = record {
  fin = fin;
  opcode = opcode;
  mask = p.mask;
  key = p.key;
  payload = p.payload;
}

abbrev pub continuations : List Part → List Frame
continuations [] = []
continuations (p ∷ []) = frame_of true 0 p ∷ []
continuations (p ∷ q ∷ ps) = frame_of false 0 p ∷ continuations (q ∷ ps)

-- The frames of RFC 6455, section 5.4: the first has the opcode, the others 0, and the last has
-- FIN.
abbrev pub cut_message : ℕ → Part → List Part → List Frame
cut_message opcode p [] = frame_of true opcode p ∷ []
cut_message opcode p (q ∷ ps) = frame_of false opcode p ∷ continuations (q ∷ ps)

abbrev pub frames_of : List Message → List Frame
frames_of [] = []
frames_of (m ∷ ms) = cut_message m.opcode m.first m.others ++ frames_of ms

abbrev pub joined : List Part → List ℕ
joined [] = []
joined (p ∷ ps) = p.payload ++ joined ps

-- What a message says, and what a delivered frame has.
abbrev pub said : Message → ℕ × List ℕ
said m = (m.opcode, joined (m.first ∷ m.others))

abbrev pub content : WebSocketFrame → ℕ × List ℕ
content f = (f.opcode, f.payload)

all_continuations-append :
    (gs : List WebSocketFrame) (f : WebSocketFrame)
    → all_continuations gs ≡ true
    → (f.opcode == 0) ≡ true
    → all_continuations (gs ++ f ∷ []) ≡ true
all_continuations-append [] f h e = rw e refl
all_continuations-append (g ∷ gs) f h e = ground (arith, h, all_continuations-append gs f)

payload_of-append :
    (gs : List WebSocketFrame) (f : WebSocketFrame)
    → payload_of (gs ++ f ∷ []) ≡ payload_of gs ++ f.payload
payload_of-append [] f = append-nil f.payload
payload_of-append (g ∷ gs) f =
    ap (λ s. g.payload ++ s) (payload_of-append gs f)
    ∙ sym (append_assoc g.payload (payload_of gs) f.payload)

close_message-last :
    (done gs : List WebSocketFrame) (g f : WebSocketFrame)
    → all_continuations (gs ++ f ∷ []) ≡ true
    → (m : WebSocketFrame) × (close_message done (g ∷ (gs ++ f ∷ [])) ≡ some (done ++ m ∷ [], []))
      × (content m ≡ (g.opcode, g.payload ++ payload_of (gs ++ f ∷ [])))
close_message-last done [] g f c = (whole g (f ∷ []), rw c refl, refl)
close_message-last done (h ∷ gs) g f c = (whole g (h ∷ (gs ++ f ∷ [])), rw c refl, refl)

-- What the parser has after some frames: one message more, and no open fragments.
abbrev Delivers : List WebSocketFrame → ℕ × List ℕ → Option Inbox → Type 0
Delivers done c o = (m : WebSocketFrame) × (o ≡ some (done ++ m ∷ [], [])) × (content m ≡ c)

continuations-Delivers :
    (done : List WebSocketFrame) (g : WebSocketFrame) (gs : List WebSocketFrame) (p : Part)
    (ps : List Part)
    → all_continuations gs ≡ true
    → Delivers done
        (g.opcode, g.payload ++ (payload_of gs ++ joined (p ∷ ps)))
        (receive_all (done, g ∷ gs) (continuations (p ∷ ps)))
continuations-Delivers done g gs p [] c =
    let f = stored (frame_of true 0 p) in
    let closed = close_message-last done gs g f (all_continuations-append gs f c refl) in
    (
      closed.0,
      receive_all-some (done, g ∷ gs) (done ++ closed.0 ∷ [], []) (frame_of true 0 p) [] closed.1,
      closed.2
          ∙ ap (λ s. (g.opcode, g.payload ++ s))
              (payload_of-append gs f ∙ ap (λ s. payload_of gs ++ s) (sym (append-nil p.payload))),
    )
continuations-Delivers done g gs p (q ∷ ps) c =
    let f = stored (frame_of false 0 p) in
    let later =
      continuations-Delivers done g (gs ++ f ∷ []) q ps (all_continuations-append gs f c refl) in
    (
      later.0,
      later.1,
      later.2
          ∙ ap (λ s. (g.opcode, g.payload ++ s))
              (ap (λ s. s ++ joined (q ∷ ps)) (payload_of-append gs f)
                ∙ append_assoc (payload_of gs) p.payload (joined (q ∷ ps))),
    )

cut_message-Delivers :
    (done : List WebSocketFrame) (opcode : ℕ) (p : Part) (ps : List Part)
    → Delivers done (opcode, joined (p ∷ ps)) (receive_all (done, []) (cut_message opcode p ps))
cut_message-Delivers done opcode p [] =
    (stored (frame_of true opcode p), refl, ap (λ s. (opcode, s)) (sym (append-nil p.payload)))
cut_message-Delivers done opcode p (q ∷ ps) =
    continuations-Delivers done (stored (frame_of false opcode p)) [] q ps refl

receive_all-append :
    (box mid : Inbox) (fs gs : List Frame)
    → receive_all box fs ≡ some mid
    → receive_all box (fs ++ gs) ≡ receive_all mid gs
receive_all-append box mid [] gs e = ap (λ b. receive_all b gs) (some-injective box mid e)
receive_all-append box mid (f ∷ fs) gs e = elim (Option-cases (receive box f)) [
  | inl missing ↦ absurd (ground (arith, e, receive_all-none box f fs missing))
  | inr (next, found) ↦
      receive_all-some box next f (fs ++ gs) found
      ∙ receive_all-append next mid fs gs (sym (receive_all-some box next f fs found) ∙ e)
]

map-append : {A B : Type 0} (f : A → B) (xs ys : List A) → map f (xs ++ ys) ≡ map f xs ++ map f ys
map-append f [] ys = refl
map-append f (x ∷ xs) ys = ap (◌∷◌ (f x)) (map-append f xs ys)

frames_of-received :
    (done : List WebSocketFrame) (ms : List Message)
    → (done' : List WebSocketFrame) × (receive_all (done, []) (frames_of ms) ≡ some (done', []))
      × (map content done' ≡ map content done ++ map said ms)
frames_of-received done [] = (done, refl, sym (append-nil (map content done)))
frames_of-received done (m ∷ ms) =
    let here = cut_message-Delivers done m.opcode m.first m.others in
    let later = frames_of-received (done ++ here.0 ∷ []) ms in
    (
      later.0,
      receive_all-append (done, []) (done ++ here.0 ∷ [], [])
            (cut_message m.opcode m.first m.others) (frames_of ms) here.1
          ∙ later.1,
      later.2
          ∙ ap (λ s. s ++ map said ms)
              (map-append content done (here.0 ∷ []) ∙ ap (λ c. map content done ++ c ∷ []) here.2)
          ∙ append_assoc (map content done) (said m ∷ []) (map said ms),
    )

-- Where a peer cuts its messages into frames that fit to be sent, with no control frame between
-- the frames of one message, one call of Parse on the bytes of the frames, by a parser that is
-- new or has all bytes of whole messages behind it, ends with no bytes and no fragments left
-- over. Its queue then has, behind what was there, one frame for each message, in order, with the
-- opcode of the message and its whole payload unmasked.
pub parse-frames_of :
    (p : WebSocketParser) (done : List WebSocketFrame) (ms : List Message)
    → AtRest p (done, [])
    → Every IsSendable (frames_of ms)
    → (done' : List WebSocketFrame) × (parse p (all_bytes (frames_of ms))
        ≡ (waiting (done', []), need_more))
      × (map content done' ≡ map content done ++ map said ms)
parse-frames_of p done ms rest ok =
    let r = frames_of-received done ms in
    (
      r.0,
      parse-AtRest p (done, []) (all_bytes (frames_of ms)) rest
          ∙ parse-receive_all (done, []) (r.0, []) (frames_of ms) ok r.1,
      r.2,
    )
