-- ===== src/WebSocket/Writes.antt =====
-- What a write does to the order of the frames.
use libcold.Base.{
  ℕ, ◌≡◌, refl, sym, ap, ◌∙◌, List, [], ◌∷◌, ◌++◌, append-nil, append_assoc, Bool, true, false,
  Option, none, some, if◌then◌else◌, is_empty, take, drop, take-drop,
}
use libcold.WebSocket.{
  FrameTask, WebSocket, swap_buffers, write_if_any, write_if_connected, write_loop, frame_of,
  start_if_idle, after_write,
}

-- What is on its way: the buffer that WriteN has.
abbrev pub in_flight : Bool → List ℕ → List ℕ
in_flight true buffer = buffer
in_flight false buffer = []

-- The frames are what the socket took, then what WriteN has, then the rest; while the socket is
-- connected the rest is what waits for the next write, and nothing waits where nothing is written.
pub record IsOrdered (framed : List ℕ) (w : WebSocket) : Type 0 where
  pub rest : List ℕ
  pub split : framed ≡ w.sent ++ (in_flight w.is_writing w.write_buffer ++ rest)
  pub open_rest : w.is_connected ≡ true → rest ≡ w.write_temp_buffer
  pub idle :
      w.is_connected ≡ true
      → w.is_writing ≡ false
      → (w.write_temp_buffer ≡ []) × (w.write_buffer ≡ [])

empty_of : (s : List ℕ) → is_empty s ≡ true → s ≡ []
empty_of [] e = refl
empty_of (c ∷ s) e = cc

closed_stays : (b c : Bool) → c ≡ false → (if b then false else c) ≡ true → ⊥
closed_stays true c e h = cc
closed_stays false c e h = cc

IsOrdered-write_if_any :
    (b : Bool) (framed rest : List ℕ) (w : WebSocket)
    → is_empty w.write_temp_buffer ≡ b
    → framed ≡ w.sent ++ rest
    → rest ≡ w.write_temp_buffer
    → w.write_buffer ≡ []
    → w.is_writing ≡ true
    → IsOrdered framed (write_if_any b (swap_buffers w))
IsOrdered-write_if_any true framed rest w e split open_rest clear writing = record {
  rest = [];
  split = split ∙ ap (λ r. w.sent ++ r) (open_rest ∙ empty_of w.write_temp_buffer e);
  open_rest = λ _. sym clear;
  idle = λ _ _. (clear, empty_of w.write_temp_buffer e);
}
IsOrdered-write_if_any false framed rest w e split open_rest clear writing = record {
  rest = [];
  split =
      split
      ∙ ap (λ r. w.sent ++ r) (open_rest ∙ sym (append-nil w.write_temp_buffer))
      ∙ ap (λ b. w.sent ++ (in_flight b w.write_temp_buffer ++ [])) (sym writing);
  open_rest = λ _. sym clear;
  idle = λ _ h. cc (writing, h);
}

IsOrdered-write_if_connected :
    (b : Bool) (framed rest : List ℕ) (w : WebSocket)
    → w.is_connected ≡ b
    → framed ≡ w.sent ++ rest
    → (w.is_connected ≡ true → rest ≡ w.write_temp_buffer)
    → (w.is_connected ≡ true → w.write_buffer ≡ [])
    → w.is_writing ≡ true
    → IsOrdered framed (write_if_connected b w)
IsOrdered-write_if_connected true framed rest w e split open_rest clear writing =
    IsOrdered-write_if_any (is_empty w.write_temp_buffer) framed rest w refl split (open_rest e)
      (clear e) writing
IsOrdered-write_if_connected false framed rest w e split open_rest clear writing = record {
  rest = rest;
  split = split;
  open_rest = λ h. absurd (closed_stays w.closes_after w.is_connected e h);
  idle = λ h _. absurd (closed_stays w.closes_after w.is_connected e h);
}

pub IsOrdered-start_if_idle :
    (b closes : Bool) (framed : List ℕ) (t : FrameTask) (w : WebSocket)
    → w.is_writing ≡ b
    → IsOrdered framed w
    → IsOrdered (framed ++ frame_of t) (
        start_if_idle b closes (record w { write_temp_buffer = w.write_temp_buffer ++ frame_of t }))
unfolding write_loop
IsOrdered-start_if_idle true closes framed t w e o = record {
  rest = o.rest ++ frame_of t;
  split =
      ap (λ s. s ++ frame_of t) o.split
      ∙ append_assoc w.sent (in_flight w.is_writing w.write_buffer ++ o.rest) (frame_of t)
      ∙ ap (λ s. w.sent ++ s)
          (append_assoc (in_flight w.is_writing w.write_buffer) o.rest (frame_of t));
  open_rest = λ h. ap (λ s. s ++ frame_of t) (o.open_rest h);
  idle = λ _ h. cc (e, h);
}
IsOrdered-start_if_idle false closes framed t w e o =
    let w' : WebSocket = record w {
      is_writing = true;
      closes_after = closes;
      write_temp_buffer = w.write_temp_buffer ++ frame_of t;
    } in
    IsOrdered-write_if_connected w.is_connected (framed ++ frame_of t) (o.rest ++ frame_of t) w'
      refl
      (ap (λ s. s ++ frame_of t)
          (o.split ∙ ap (λ b. w.sent ++ (in_flight b w.write_buffer ++ o.rest)) e)
        ∙ append_assoc w.sent o.rest (frame_of t))
      (λ h. ap (λ s. s ++ frame_of t) (o.open_rest h)) (λ h. (o.idle h e).1) refl

pub IsOrdered-after_write :
    (result : Option ℕ) (framed : List ℕ) (w : WebSocket)
    → w.is_writing ≡ true
    → IsOrdered framed w
    → IsOrdered framed (after_write result w)
unfolding write_loop
IsOrdered-after_write none framed w e o =
    let w' : WebSocket = record w { sent = w.sent ++ w.write_buffer; write_buffer = [] } in
    IsOrdered-write_if_connected w.is_connected framed o.rest w' refl
      (o.split
        ∙ ap (λ b. w.sent ++ (in_flight b w.write_buffer ++ o.rest)) e
        ∙ sym (append_assoc w.sent w.write_buffer o.rest))
      o.open_rest (λ _. refl) e
IsOrdered-after_write (some n) framed w e o = record {
  rest = drop n w.write_buffer ++ o.rest;
  split =
      o.split
      ∙ ap (λ b. w.sent ++ (in_flight b w.write_buffer ++ o.rest)) e
      ∙ ap (λ s. w.sent ++ (s ++ o.rest)) (sym (take-drop n w.write_buffer))
      ∙ ap (λ s. w.sent ++ s) (append_assoc (take n w.write_buffer) (drop n w.write_buffer) o.rest)
      ∙ sym (append_assoc w.sent (take n w.write_buffer) (drop n w.write_buffer ++ o.rest));
  open_rest = λ h. absurd (closed_stays w.closes_after false refl h);
  idle = λ h _. absurd (closed_stays w.closes_after false refl h);
}
