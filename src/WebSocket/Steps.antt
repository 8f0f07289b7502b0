-- ===== src/WebSocket/Steps.antt =====
-- The steps of a session, and their runs.
use libcold.Base.{ℕ, List, [], ◌∷◌, ◌++◌, Bool, Option, none, some}
use libcold.WebSocket.{
  FrameTask, WebSocket, frame_of, run_first, send, ping_frame, close, ping, write_done, do_read,
  read_done,
}

-- What the program, the peer, the timer and the loop can do.
pub data Step : Type 0 where
  call_send : List ℕ → Bool → Step
  call_close : Step
  run_pending : Step
  ping_timer : ℕ → Step
  wrote : Option ℕ → Step
  begin_read : ℕ → Step
  read : ℕ → Option (List ℕ) → Step

-- The bytes of the frame that a step appends.
abbrev pub frame_of_first : List FrameTask → List ℕ
frame_of_first [] = []
frame_of_first (t ∷ ts) = frame_of t

abbrev pub framed_by : Step → WebSocket → List ℕ
framed_by run_pending w = frame_of_first w.pending
framed_by (ping_timer now) w = frame_of ping_frame
framed_by _ w = []

abbrev pub and_run :
    (WebSocket → Option (WebSocket × List ℕ)) → Option WebSocket → Option (WebSocket × List ℕ)
and_run next none = none
and_run next (some w) = next w

module _ (timeout : ℕ) where
  unfoldable pub step : Step → WebSocket → Option WebSocket
  step (call_send payload binary) w = some (send payload binary w)
  step call_close w = some (close w)
  step run_pending w = run_first w.pending w
  step (ping_timer now) w = some (ping now w)
  step (wrote result) w = write_done result w
  step (begin_read now) w = some (do_read timeout now w)
  step (read now result) w = read_done timeout now result w

  -- The session after the steps, and the bytes of all frames in the order in which they were made.
  unfoldable pub run : List Step → WebSocket → List ℕ → Option (WebSocket × List ℕ)
  run [] w framed = some (w, framed)
  run (s ∷ ss) w framed = and_run (λ w'. run ss w' (framed ++ framed_by s w)) (step s w)
