-- ===== src/IoWatcher/Lost.antt =====
-- A reader that starts while its descriptor is only written to.
use libcold.Base.{
  ℕ, ◌≡◌, refl, ap, ◌∙◌, [], ◌∷◌, ◌++◌, true, false, none, some, ◌==◌, ==_iff, if◌then◌else◌,
  is_some, guard, ◌>>◌, not,
}
use libcold.IoWatcher.{
  Epoll, IoEvent, IoWatcher, ReadyEvent, with_event, listen_read_in, listen_read_event, watch_io,
}
use libcold.IoWatcher.Solve.{woken_of, settled, kept_if}
use libcold.IoWatcher.Wakes.{watch_io-wakes}

abbrev pub writable_only : ℕ → ReadyEvent
writable_only fd = record { fd = fd; readable = false; writable = true; disconnected = false }

module _ (e : Epoll) where
  open e use {Kernel}

  -- A coroutine starts to read from a descriptor that is listened to for writing only. The kernel is
  -- not told, and if the next event of the descriptor is that it is writable, and not that its peer
  -- is gone, then the writer is resumed, the reader is not, and the entry goes with the reader in it.
  pub listen_read_event_lost :
      (w : IoWatcher Kernel) (fd handle : ℕ) (ev : IoEvent)
      → w.io_events fd ≡ some ev
      → ev.events.epollin ≡ false
      → ev.read_handle ≡ none
      → (fd == w.wake_up_fd) ≡ false
      → (w1 : IoWatcher Kernel) × (w2 : IoWatcher Kernel) × (listen_read_event e fd (some handle) w
          ≡ some w1)
        × (w1.epoll ≡ w.epoll)
        × (watch_io e (some (writable_only fd ∷ [])) w1 ≡ some w2)
        × (w2.active_coroutines ≡ ev.write_handle ∷ [])
        × (w2.io_events fd ≡ none)
  unfolding listen_read_event
  listen_read_event_lost w fd handle ev ew no_in no_reader not_wake =
      let w1 = with_event e fd (some (record ev { read_handle = some handle })) w in
      let self : (fd == fd) ≡ true = (==_iff fd fd).1 refl in
      let entry : w1.io_events fd ≡ some (record ev { read_handle = some handle }) =
        ap (λ b. if b then some (record ev { read_handle = some handle }) else w.io_events fd)
          self in
      let t = watch_io-wakes e (writable_only fd ∷ []) w1 (ap is_some entry, tt, tt) in
      (
        w1,
        t.0,
        ap (λ o. listen_read_in e o fd (some handle) w) ew
            ∙ ap (λ h. do guard (not (is_some h)); some w1) no_reader,
        refl,
        t.1,
        t.2
            ∙ ap (λ b. (if b then [] else woken_of (w1.io_events fd) (writable_only fd)) ++ [])
                not_wake
            ∙ ap (λ o. woken_of o (writable_only fd) ++ []) entry,
        t.3 fd
            ∙ ap
                (λ b.
                  if b
                  then if fd == w.wake_up_fd
                    then w1.io_events fd
                    else settled (writable_only fd) (w1.io_events fd)
                  else w1.io_events fd)
                self
            ∙ ap (λ b. if b then w1.io_events fd else settled (writable_only fd) (w1.io_events fd))
                not_wake
            ∙ ap (settled (writable_only fd)) entry
            ∙ ap (λ b. kept_if b (record ev { read_handle = some handle })) no_in,
      )
