-- ===== src/WebSocketParser/Faults.antt =====
-- Bytes that a peer may send and that the parser does not survive, and those that it refuses.
use libcold.Base.{
  ℕ, suc, ◌==◌, ◌≡◌, refl, ap, ◌∙◌, List, [], ◌∷◌, ◌++◌, true, false, arith, ltb, Bool, ◌&&◌,
}
use libcold.WebSocketParser.{
  WebSocketFrame, WebSocketParser, aborts, merge_frames, do_parse, all_continuations,
}
use libcold.WebSocketParser.RoundTrip.{
  Frame, IsSendable, frame_bytes, stored, after, do_parse-frame_bytes,
}
use libcold.WebSocketParser.Fragments.{between}

and_false : (b : Bool) → (b && false) ≡ false
and_false true = refl
and_false false = refl

other-all_continuations :
    (more : List WebSocketFrame) (g : WebSocketFrame)
    → (g.opcode == 0) ≡ false
    → all_continuations (more ++ g ∷ []) ≡ false
other-all_continuations [] g other = rw other refl
other-all_continuations (f ∷ more) g other =
    rw (other-all_continuations more g other) (and_false (f.opcode == 0))

merge_frames-other :
    (p : WebSocketParser) (first : WebSocketFrame) (more : List WebSocketFrame) (g : WebSocketFrame)
    → (g.opcode == 0) ≡ false
    → (merge_frames p (first ∷ (more ++ g ∷ []))).1 ≡ aborts
unfolding merge_frames
merge_frames-other p first [] g other = rw other refl
merge_frames-other p first (f ∷ more) g other = rw (other-all_continuations (f ∷ more) g other) refl

-- A frame that is no continuation, for example a ping, and that ends inside of a message of which
-- any number of fragments came: the assertion of DoParse fails.
pub do_parse_interleaved :
    (done : List WebSocketFrame) (first : WebSocketFrame) (more : List WebSocketFrame) (f : Frame)
    (rest : List ℕ)
    → IsSendable f
    → f.fin ≡ true
    → (f.opcode == 0) ≡ false
    → (do_parse (between (frame_bytes f ++ rest) (done, first ∷ more))).1 ≡ aborts
unfolding merge_frames
do_parse_interleaved done first more f rest h last other =
    ap (λ r. r.1)
      (do_parse-frame_bytes (between (frame_bytes f ++ rest) (done, first ∷ more)) f rest h refl
        refl)
    ∙ rw last (
        merge_frames-other (after (between (frame_bytes f ++ rest) (done, first ∷ more)) f rest)
          first more (record (stored f) { fin = true }) other)

long_enough : (n : ℕ) → ltb (suc (suc n)) 2 ≡ false
long_enough n = ground arith
