-- ===== src/Sockets/Await.antt =====
-- What holds behind a call that a coroutine awaits, once or twice.
use libcold.Base.{ℕ, ◌≡◌, Bool, true, false, Bool-cases, inl, inr}
use libcold.Sockets.{Call, failed, Turn, eagain, is_ready, await_connected, resume_connected}

module _ {A W : Type 0} (call : W → Call A × W) (Fine : Call A × W → Type 0) where
  late-Fine :
      (connected timed : Bool) (c : Call A) (w : W)
      → ((e : ℕ) → Fine (failed e, w))
      → Fine (call w)
      → Fine (
          resume_connected connected timed
            (record { at_once = false; ready = false; ret_value = c; world = w })
            call)
  late-Fine connected true c w fails again = fails 110
  late-Fine false false c w fails again = fails 107
  late-Fine true false c w fails again = again

  -- A property of the first call where it is ready, and of the second and of no call where it is not.
  pub await_connected-Fine :
      (t : Turn) (before : Call A) (w : W)
      → Fine (call w)
      → ((e : ℕ) → Fine (failed e, w))
      → (is_ready eagain (call w).0 ≡ false
          → ((e : ℕ) → Fine (failed e, (call w).1)) × Fine (call (call w).1))
      → Fine (await_connected t before call w)
  await_connected-Fine t before w first none_yet later = elim (Bool-cases t.connected) [
    | inl on ↦ elim (Bool-cases (is_ready eagain (call w).0)) [
      | inl now ↦ rw (on, now) first
      | inr blocks ↦
          rw (on, blocks)
            (late-Fine t.connected_after t.timed_out (call w).0 (call w).1 (later blocks).0
              (later blocks).1)
    ]
    | inr off ↦ rw off (none_yet 107)
  ]
