-- ===== src/WebSocket/Reads.antt =====
-- What a read of a session does.
use libcold.Base.{
  ℕ, ◌≡◌, ap, ◌∙◌, List, [], ◌∷◌, ◌++◌, append-nil, Bool, true, ◌||◌, ◌&&◌, not, Every, some, ltb,
  ◌-◌, ◌==◌, if◌then◌else◌, guard, ◌>>◌, arith,
}
use libcold.WebSocketParser.{WebSocketFrame}
use libcold.WebSocketParser.RoundTrip.{Frame, IsSendable}
use libcold.WebSocketParser.Fragments.{Inbox, receive_all, all_bytes, waiting, parse-receive_all}
use libcold.WebSocketParser.Messages.{AtRest, parse-AtRest}
use libcold.WebSocket.{
  FrameTask, WebSocket, pong_frame, send_pong, on_frame, read_loop, parsed, after_read, read_done,
}

-- The payload that the program gets of a message: that of a text and that of a binary one.
abbrev pub given : WebSocketFrame → List (List ℕ)
given m = if m.opcode == 1 || m.opcode == 2 then m.payload ∷ [] else []

-- The answer to a ping.
abbrev pub answers : WebSocketFrame → List FrameTask
answers m = if m.opcode == 9 then pong_frame ∷ [] else []

-- A message after which the session goes on.
abbrev pub stays_open : WebSocketFrame → Bool
stays_open m = m.opcode == 1 || m.opcode == 2 || m.opcode == 9 || m.opcode == 10

-- What the reader leaves after a message.
record Handled (m : WebSocketFrame) (w w' : WebSocket) : Type 0 where
  received : w'.received ≡ w.received ++ given m
  pending : w'.pending ≡ w.pending ++ answers m
  parser : w'.parser ≡ w.parser
  connected : w'.is_connected ≡ stays_open m
  ping : w'.last_ping_time ≡ w.last_ping_time

module _ (timeout : ℕ) where
  Handled-on_frame :
      (m : WebSocketFrame) (w : WebSocket) → w.is_connected ≡ true → Handled m w (on_frame m w)
  unfolding on_frame send_pong
  Handled-on_frame m w e = ground (arith, append-nil w.received, append-nil w.pending)

  -- The session after the read: it reads again, or is closed.
  record Resumed (now : ℕ) (w w' : WebSocket) : Type 0 where
    received : w'.received ≡ w.received
    pending : w'.pending ≡ w.pending
    parser : w'.parser ≡ w.parser
    connected : w'.is_connected ≡ (w.is_connected && not (ltb timeout (now - w.last_ping_time)))
    reading : w'.is_reading ≡ (w.is_connected && not (ltb timeout (now - w.last_ping_time)))

  Resumed-read_loop : (now : ℕ) (w : WebSocket) → Resumed now w (read_loop timeout now w)
  unfolding read_loop
  Resumed-read_loop now w = ground arith

  -- A read brings the frames of a peer, and with them a first message, whole. The session then
  -- gives this one message to the program if it is a text or binary one, answers it with a pong
  -- if it is a ping, and ends with any other but a pong; the messages behind it stay in the queue
  -- until bytes come again, and the parser is ready for the next frame. It goes on reading unless
  -- it ended, or the last ping was sent longer ago than the time that is allowed.
  pub read_done-first :
      (now : ℕ) (box : Inbox) (fs : List Frame) (m : WebSocketFrame)
      (more parts : List WebSocketFrame) (w : WebSocket)
      → w.is_reading ≡ true
      → w.is_connected ≡ true
      → AtRest w.parser box
      → Every IsSendable fs
      → receive_all box fs ≡ some (m ∷ more, parts)
      → m.fin ≡ true
      → (w' : WebSocket) × (read_done timeout now (some (all_bytes fs)) w ≡ some w')
        × (w'.received ≡ w.received ++ given m)
        × (w'.pending ≡ w.pending ++ answers m)
        × (w'.parser ≡ waiting (more, parts))
        × (w'.is_connected ≡ (stays_open m && not (ltb timeout (now - w.last_ping_time))))
        × (w'.is_reading ≡ (stays_open m && not (ltb timeout (now - w.last_ping_time))))
  unfolding read_done
  read_done-first now box fs m more parts w reading connected at_rest ok found fin =
      let w1 : WebSocket = record w { parser = waiting (more, parts) } in
      let h = Handled-on_frame m w1 connected in
      let r = Resumed-read_loop now (on_frame m w1) in
      (
        read_loop timeout now (on_frame m w1),
        ap (λ b. do guard b; after_read timeout now (some (all_bytes fs)) w) reading
            ∙ ap (λ p. parsed timeout now p w)
                (parse-AtRest w.parser box (all_bytes fs) at_rest
                  ∙ parse-receive_all box (m ∷ more, parts) fs ok found)
            ∙ ap (λ b. do guard b; some (read_loop timeout now (on_frame m w1))) fin,
        r.received ∙ h.received,
        r.pending ∙ h.pending,
        r.parser ∙ h.parser,
        r.connected ∙ (λ i. h.connected i && not (ltb timeout (now - h.ping i))),
        r.reading ∙ (λ i. h.connected i && not (ltb timeout (now - h.ping i))),
      )
