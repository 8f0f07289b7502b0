-- ===== src/IoWatcher/Runs.antt =====
-- Any sequence of calls keeps the table and the kernel's set the same.
use libcold.Base.{
  ℕ, ◌≡◌, refl, subst, List, [], ◌∷◌, ◌++◌, Bool, true, false, ◌||◌, Option, none, some, ◌==◌,
  if◌then◌else◌, length,
}
use libcold.IoWatcher.{
  Epoll, IoEvent, IoWatcher, ReadyEvent, listen_read_event, listen_write_event,
  stop_listening_read_event, stop_listening_write_event, stop_listening_all, wake_reader,
  wake_writer, solve_in, solve_event, solve_then, solve_events, grown, watch_io,
}
use libcold.IoWatcher.Mirror.{
  EntryValid, IsMirrored, Mirrored, entry_of, IsMirrored-with_event, Mirrored-listen_read,
  Mirrored-listen_write, Mirrored-stop_read, Mirrored-stop_write, IsMirrored-stop_all,
}

-- The calls that the event loop and the sockets make.
pub data Call : Type 0 where
  listen_read : ℕ → Option ℕ → Call
  listen_write : ℕ → ℕ → Call
  stop_read : ℕ → Call
  stop_write : ℕ → Call
  stop_all : ℕ → Call
  watch : Option (List ReadyEvent) → Call

module _ (e : Epoll) where
  open e use {Kernel, interest}

  unfoldable pub call : Call → IoWatcher Kernel → Option (IoWatcher Kernel)
  call (listen_read fd handle) w = listen_read_event e fd handle w
  call (listen_write fd handle) w = listen_write_event e fd handle w
  call (stop_read fd) w = stop_listening_read_event e fd w
  call (stop_write fd) w = stop_listening_write_event e fd w
  call (stop_all fd) w = some (stop_listening_all e fd w)
  call (watch ready) w = watch_io e ready w

  unfoldable pub calls : List Call → IoWatcher Kernel → Option (IoWatcher Kernel)
  calls [] w = some w
  calls (c ∷ cs) w = solve_then e (λ w'. calls cs w') (call c w)

  IsMirrored-wake_reader :
      (b : Bool) (handle : Option ℕ) (fd : ℕ) (event : IoEvent) (w : IoWatcher Kernel)
      → EntryValid (interest w.epoll fd) (some event)
      → IsMirrored e w
      → IsMirrored e (wake_reader e b handle fd event w)
  IsMirrored-wake_reader true (some handle) fd event w v mirror =
      IsMirrored-with_event e w fd (some (record event { read_handle = none })) v mirror
  IsMirrored-wake_reader true none fd event w v mirror = mirror
  IsMirrored-wake_reader false handle fd event w v mirror = mirror

  Mirrored-wake_writer :
      (b : Bool) (handle : Option ℕ) (fd : ℕ) (w : IoWatcher Kernel)
      → IsMirrored e w
      → Mirrored e (wake_writer e b handle fd w)
  Mirrored-wake_writer true handle fd w mirror =
      Mirrored-stop_write e (w.io_events fd) fd
        (record w { active_coroutines = w.active_coroutines ++ handle ∷ [] }) refl mirror
  Mirrored-wake_writer false handle fd w mirror = mirror

  Mirrored-solve_in :
      (o : Option IoEvent) (r : ReadyEvent) (w : IoWatcher Kernel)
      → w.io_events r.fd ≡ o
      → IsMirrored e w
      → Mirrored e (solve_in e o r w)
  Mirrored-solve_in none r w eq mirror = tt
  Mirrored-solve_in (some event) r w eq mirror =
      Mirrored-wake_writer r.writable event.write_handle r.fd
        (wake_reader e (r.readable || r.disconnected) event.read_handle r.fd event w)
        (IsMirrored-wake_reader (r.readable || r.disconnected) event.read_handle r.fd event w
          (entry_of e w r.fd mirror eq) mirror)

  Mirrored-if :
      (b : Bool) (o p : Option (IoWatcher Kernel))
      → Mirrored e o
      → Mirrored e p
      → Mirrored e (if b then o else p)
  Mirrored-if true o p v v' = v
  Mirrored-if false o p v v' = v'

  Mirrored-solve_then :
      (next : IoWatcher Kernel → Option (IoWatcher Kernel)) (o : Option (IoWatcher Kernel))
      → Mirrored e o
      → ((w : IoWatcher Kernel) → IsMirrored e w → Mirrored e (next w))
      → Mirrored e (solve_then e next o)
  Mirrored-solve_then next none v h = tt
  Mirrored-solve_then next (some w) v h = h w v

  Mirrored-solve_events :
      (rs : List ReadyEvent) (w : IoWatcher Kernel)
      → IsMirrored e w
      → Mirrored e (solve_events e rs w)
  unfolding solve_events solve_event
  Mirrored-solve_events [] w mirror = mirror
  Mirrored-solve_events (r ∷ rs) w mirror =
      Mirrored-solve_then (λ w'. solve_events e rs w')
        (if r.fd == w.wake_up_fd then some w else solve_in e (w.io_events r.fd) r w)
        (Mirrored-if (r.fd == w.wake_up_fd) (some w) (solve_in e (w.io_events r.fd) r w) mirror
          (Mirrored-solve_in (w.io_events r.fd) r w refl mirror))
        (λ w' mirror'. Mirrored-solve_events rs w' mirror')

  Mirrored-grown : (n : ℕ) (o : Option (IoWatcher Kernel)) → Mirrored e o → Mirrored e (grown e n o)
  Mirrored-grown n none v = tt
  Mirrored-grown n (some w) v = v

  Mirrored-call : (c : Call) (w : IoWatcher Kernel) → IsMirrored e w → Mirrored e (call c w)
  unfolding call listen_read_event listen_write_event stop_listening_read_event
      stop_listening_write_event stop_listening_all watch_io
  Mirrored-call (listen_read fd handle) w mirror =
      Mirrored-listen_read e (w.io_events fd) fd handle w refl mirror
  Mirrored-call (listen_write fd handle) w mirror =
      Mirrored-listen_write e (w.io_events fd) fd handle w refl mirror
  Mirrored-call (stop_read fd) w mirror = Mirrored-stop_read e (w.io_events fd) fd w refl mirror
  Mirrored-call (stop_write fd) w mirror = Mirrored-stop_write e (w.io_events fd) fd w refl mirror
  Mirrored-call (stop_all fd) w mirror = IsMirrored-stop_all e (w.io_events fd) fd w refl mirror
  Mirrored-call (watch none) w mirror = mirror
  Mirrored-call (watch (some ready)) w mirror =
      Mirrored-grown (length ready) (solve_events e ready (record w { active_coroutines = [] }))
        (Mirrored-solve_events ready (record w { active_coroutines = [] }) mirror)

  Mirrored-calls :
      (cs : List Call) (w : IoWatcher Kernel) → IsMirrored e w → Mirrored e (calls cs w)
  unfolding calls
  Mirrored-calls [] w mirror = mirror
  Mirrored-calls (c ∷ cs) w mirror =
      Mirrored-solve_then (λ w'. calls cs w') (call c w) (Mirrored-call c w mirror)
        (λ w' mirror'. Mirrored-calls cs w' mirror')

  -- After any calls the kernel listens to exactly the descriptors of the table, with the masks of
  -- the table; every entry has EPOLLIN or EPOLLOUT, and one with a coroutine that waits to write has
  -- EPOLLOUT.
  pub calls-IsMirrored :
      (cs : List Call) (w w' : IoWatcher Kernel)
      → IsMirrored e w
      → calls cs w ≡ some w'
      → IsMirrored e w'
  calls-IsMirrored cs w w' mirror eq = subst (Mirrored e) eq (Mirrored-calls cs w mirror)
