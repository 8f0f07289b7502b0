-- ===== src/WebSocket/Order.antt =====
-- The order in which a session's frames go out.
use libcold.Base.{
  ℕ, ◌+◌, ◌≡◌, refl, sym, ◌∙◌, subst, List, [], ◌∷◌, ◌++◌, append-nil, Bool, true, false, ◌||◌, not,
  Option, none, some, if◌then◌else◌, ltb, ◌==◌, guard, ◌>>◌, ◌-◌,
}
use libcold.WebSocketParser.{
  WebSocketFrame, WebSocketParser, new_parser, ParseState, success, error, need_more, aborts, parse,
}
use libcold.WebSocket.{
  FrameTask, WebSocket, run_frame, run_first, send, pong_frame, ping_frame, close_frame, send_pong,
  close, ping, after_write, write_done, on_frame, read_loop, do_read, take_and_go, parsed,
  after_read, read_done,
}
use libcold.WebSocket.Steps.{
  Step, call_send, call_close, run_pending, ping_timer, wrote, begin_read, read, step,
  frame_of_first, framed_by, and_run, run,
}
use libcold.WebSocket.Writes.{in_flight, IsOrdered, IsOrdered-start_if_idle, IsOrdered-after_write}

-- Steps that leave the buffers and the socket's bytes alone, and may close the socket.
record Keeps (w w' : WebSocket) : Type 0 where
  writing : w'.is_writing ≡ w.is_writing
  temp : w'.write_temp_buffer ≡ w.write_temp_buffer
  buffer : w'.write_buffer ≡ w.write_buffer
  sent : w'.sent ≡ w.sent
  connected : w'.is_connected ≡ true → w.is_connected ≡ true

IsOrdered-Keeps :
    (framed : List ℕ) (w w' : WebSocket) → Keeps w w' → IsOrdered framed w → IsOrdered framed w'
IsOrdered-Keeps framed w w' k o = record {
  rest = o.rest;
  split = o.split ∙ sym (λ i. k.sent i ++ (in_flight (k.writing i) (k.buffer i) ++ o.rest));
  open_rest = λ h. o.open_rest (k.connected h) ∙ sym k.temp;
  idle =
      λ h n. let p = o.idle (k.connected h) (sym k.writing ∙ n) in (k.temp ∙ p.0, k.buffer ∙ p.1);
}

-- Reading leaves the buffers alone.
Keeps-if : (b : Bool) (w x y : WebSocket) → Keeps w x → Keeps w y → Keeps w (if b then x else y)
Keeps-if true w x y p q = p
Keeps-if false w x y p q = q

Keeps-self : (w : WebSocket) → Keeps w w
Keeps-self w = record {
  writing = refl;
  temp = refl;
  buffer = refl;
  sent = refl;
  connected = λ h. h;
}

Keeps-trans : (w x y : WebSocket) → Keeps w x → Keeps x y → Keeps w y
Keeps-trans w x y p q = record {
  writing = q.writing ∙ p.writing;
  temp = q.temp ∙ p.temp;
  buffer = q.buffer ∙ p.buffer;
  sent = q.sent ∙ p.sent;
  connected = λ h. p.connected (q.connected h);
}

-- Nothing but what the reader and the queue of coroutines have changes.
Keeps-reader :
    (w : WebSocket) (p : WebSocketParser) (reading : Bool) (now closed : ℕ) (tasks : List FrameTask)
    (received : List (List ℕ))
    → Keeps w (record w {
      parser = p;
      is_reading = reading;
      last_ping_time = now;
      closed = closed;
      pending = tasks;
      received = received;
    })
Keeps-reader w p reading now closed tasks received = record {
  writing = refl;
  temp = refl;
  buffer = refl;
  sent = refl;
  connected = λ h. h;
}

Keeps-shut :
    (w : WebSocket) (p : WebSocketParser) (reading : Bool) (closed : ℕ)
    → Keeps w (record w { parser = p; is_reading = reading; closed = closed; is_connected = false })
Keeps-shut w p reading closed = record {
  writing = refl;
  temp = refl;
  buffer = refl;
  sent = refl;
  connected = λ h. cc;
}

module _ (timeout : ℕ) where
  Keeps-read_loop : (now : ℕ) (w : WebSocket) → Keeps w (read_loop timeout now w)
  unfolding read_loop
  Keeps-read_loop now w =
      Keeps-if (not w.is_connected) w _ _
        (Keeps-reader w w.parser false w.last_ping_time w.closed w.pending w.received)
        (Keeps-if (ltb timeout (now - w.last_ping_time)) w _ _
          (Keeps-shut w w.parser false (w.closed + 1))
          (Keeps-reader w w.parser true w.last_ping_time w.closed w.pending w.received))

  Keeps-on_frame : (f : WebSocketFrame) (w : WebSocket) → Keeps w (on_frame f w)
  unfolding on_frame send_pong
  Keeps-on_frame f w =
      Keeps-if (f.opcode == 1 || f.opcode == 2) w _ _
        (Keeps-reader w w.parser w.is_reading w.last_ping_time w.closed w.pending
          (w.received ++ f.payload ∷ []))
        (Keeps-if (f.opcode == 8) w _ _ (Keeps-shut w w.parser w.is_reading (w.closed + 1)) (
          Keeps-if (f.opcode == 9) w _ _
            (Keeps-if w.is_connected w _ _
              (Keeps-reader w w.parser w.is_reading w.last_ping_time w.closed
                (w.pending ++ pong_frame ∷ []) w.received)
              (Keeps-self w))
            (Keeps-if (f.opcode == 10) w _ _ (Keeps-self w)
              (Keeps-shut w w.parser w.is_reading (w.closed + 1)))))

  abbrev Ordered : List ℕ → Option WebSocket → Type 0
  Ordered framed none = Unit
  Ordered framed (some w) = IsOrdered framed w

  Ordered-guard :
      (b : Bool) (framed : List ℕ) (o : Option WebSocket)
      → (b ≡ true → Ordered framed o)
      → Ordered framed (do guard b; o)
  Ordered-guard true framed o h = h refl
  Ordered-guard false framed o h = tt

  Ordered-take_and_go :
      (now : ℕ) (fs : List WebSocketFrame) (framed : List ℕ) (w : WebSocket)
      → IsOrdered framed w
      → Ordered framed (take_and_go timeout now fs w)
  Ordered-take_and_go now [] framed w o = IsOrdered-Keeps framed w _ (Keeps-read_loop now w) o
  Ordered-take_and_go now (f ∷ fs) framed w o =
      let w1 : WebSocket = record w { parser = record w.parser { complete_frames = fs } } in
      Ordered-guard f.fin framed (some (read_loop timeout now (on_frame f w1))) (λ _.
        IsOrdered-Keeps framed w1 (read_loop timeout now (on_frame f w1))
          (Keeps-trans w1 (on_frame f w1) (read_loop timeout now (on_frame f w1))
            (Keeps-on_frame f w1) (Keeps-read_loop now (on_frame f w1)))
          (IsOrdered-Keeps framed w w1
            (Keeps-reader w w1.parser w.is_reading w.last_ping_time w.closed w.pending w.received)
            o))

  Ordered-parsed :
      (now : ℕ) (p : WebSocketParser) (state : ParseState) (framed : List ℕ) (w : WebSocket)
      → IsOrdered framed w
      → Ordered framed (parsed timeout now (p, state) w)
  Ordered-parsed now p success framed w o =
      Ordered-take_and_go now p.complete_frames framed (record w { parser = p })
        (IsOrdered-Keeps framed w (record w { parser = p })
          (Keeps-reader w p w.is_reading w.last_ping_time w.closed w.pending w.received) o)
  Ordered-parsed now p need_more framed w o =
      Ordered-take_and_go now p.complete_frames framed (record w { parser = p })
        (IsOrdered-Keeps framed w (record w { parser = p })
          (Keeps-reader w p w.is_reading w.last_ping_time w.closed w.pending w.received) o)
  Ordered-parsed now p error framed w o =
      IsOrdered-Keeps framed w _ (Keeps-shut w p false (w.closed + 1)) o
  Ordered-parsed now p aborts framed w o = tt

  Ordered-after_read :
      (now : ℕ) (result : Option (List ℕ)) (framed : List ℕ) (w : WebSocket)
      → IsOrdered framed w
      → Ordered framed (after_read timeout now result w)
  Ordered-after_read now none framed w o =
      IsOrdered-Keeps framed w _ (Keeps-shut w w.parser false w.closed) o
  Ordered-after_read now (some bytes) framed w o =
      Ordered-parsed now (parse w.parser bytes).0 (parse w.parser bytes).1 framed w o

  Ordered-run_first :
      (ts : List FrameTask) (framed : List ℕ) (w : WebSocket)
      → IsOrdered framed w
      → Ordered (framed ++ frame_of_first ts) (run_first ts w)
  unfolding run_frame
  Ordered-run_first [] framed w o = tt
  Ordered-run_first (t ∷ ts) framed w o =
      IsOrdered-start_if_idle w.is_writing t.closes framed t (record w { pending = ts }) refl
        (IsOrdered-Keeps framed w (record w { pending = ts })
          (Keeps-reader w w.parser w.is_reading w.last_ping_time w.closed ts w.received) o)

  same_frames :
      (framed : List ℕ) (o : Option WebSocket) → Ordered framed o → Ordered (framed ++ []) o
  same_frames framed o h = subst (λ s. Ordered s o) (sym (append-nil framed)) h

  Ordered-step :
      (s : Step) (framed : List ℕ) (w : WebSocket)
      → IsOrdered framed w
      → Ordered (framed ++ framed_by s w) (step timeout s w)
  unfolding step send close ping run_frame do_read write_done read_done
  Ordered-step (call_send payload binary) framed w o =
      same_frames framed (some (send payload binary w)) (
        IsOrdered-Keeps framed w (send payload binary w)
          (Keeps-if w.is_connected w _ _
            (Keeps-reader w w.parser w.is_reading w.last_ping_time w.closed
              (w.pending
                ++ (record { opcode = if binary then 2 else 1; payload = payload; closes = false })
                  ∷ [])
              w.received)
            (Keeps-self w))
          o)
  Ordered-step call_close framed w o = same_frames framed (some (close w)) (
      IsOrdered-Keeps framed w (close w)
        (Keeps-reader w w.parser w.is_reading w.last_ping_time (w.closed + 1)
          (w.pending ++ close_frame ∷ []) w.received)
        o)
  Ordered-step run_pending framed w o = Ordered-run_first w.pending framed w o
  Ordered-step (ping_timer now) framed w o =
      IsOrdered-start_if_idle w.is_writing false framed ping_frame
        (record w { last_ping_time = now }) refl
        (IsOrdered-Keeps framed w (record w { last_ping_time = now })
          (Keeps-reader w w.parser w.is_reading now w.closed w.pending w.received) o)
  Ordered-step (wrote result) framed w o = same_frames framed (write_done result w) (
      Ordered-guard w.is_writing framed (some (after_write result w))
        (λ e. IsOrdered-after_write result framed w e o))
  Ordered-step (begin_read now) framed w o = same_frames framed (some (do_read timeout now w)) (
      IsOrdered-Keeps framed w (do_read timeout now w)
        (Keeps-trans w (record w { parser = new_parser; last_ping_time = now })
          (do_read timeout now w)
          (Keeps-reader w new_parser w.is_reading now w.closed w.pending w.received)
          (Keeps-read_loop now (record w { parser = new_parser; last_ping_time = now })))
        o)
  Ordered-step (read now result) framed w o = same_frames framed (read_done timeout now result w) (
      Ordered-guard w.is_reading framed (after_read timeout now result w)
        (λ _. Ordered-after_read now result framed w o))

  OrderedRun : Option (WebSocket × List ℕ) → Type 0
  OrderedRun none = Unit
  OrderedRun (some (w, framed)) = IsOrdered framed w

  OrderedRun-and_run :
      (next : WebSocket → Option (WebSocket × List ℕ)) (framed : List ℕ) (o : Option WebSocket)
      → Ordered framed o
      → ((w : WebSocket) → IsOrdered framed w → OrderedRun (next w))
      → OrderedRun (and_run next o)
  unfolding OrderedRun
  OrderedRun-and_run next framed none h f = tt
  OrderedRun-and_run next framed (some w) h f = f w h

  OrderedRun-run :
      (ss : List Step) (w : WebSocket) (framed : List ℕ)
      → IsOrdered framed w
      → OrderedRun (run timeout ss w framed)
  unfolding OrderedRun run
  OrderedRun-run [] w framed o = o
  OrderedRun-run (s ∷ ss) w framed o =
      OrderedRun-and_run (λ w'. run timeout ss w' (framed ++ framed_by s w))
        (framed ++ framed_by s w) (step timeout s w) (Ordered-step s framed w o)
        (λ w' o'. OrderedRun-run ss w' (framed ++ framed_by s w) o')

  -- Whatever the interleaving of a session's coroutines is, and however its writes end, the bytes
  -- that the socket took, then those that WriteN has, are the first of the frames in the order in
  -- which they were made. While the socket is connected the others wait for the next write, and where
  -- no write goes on none waits.
  pub run-IsOrdered :
      (ss : List Step) (w w' : WebSocket) (framed framed' : List ℕ)
      → IsOrdered framed w
      → run timeout ss w framed ≡ some (w', framed')
      → IsOrdered framed' w'
  unfolding OrderedRun
  run-IsOrdered ss w w' framed framed' o e = subst OrderedRun e (OrderedRun-run ss w framed o)
