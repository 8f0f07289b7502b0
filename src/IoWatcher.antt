-- ===== src/IoWatcher.antt =====
-- cold/coro/IoWatcher.h and IoWatcher.cpp: which coroutines wait for which file descriptors. The
-- kernel's side of epoll is an interface: the set of descriptors that epoll_ctl changes. A handle is
-- a number, and none stands for noop_coroutine(). Base::FATAL, a failed assertion and a descriptor
-- that has no entry end the program: the outcome none.
pub mod Mirror
pub mod Runs
pub mod Solve
pub mod Wakes
pub mod Lost
pub mod Linux
mod Tests
use libcold.Base.{
  ℕ, ◌*◌, ◌≡◌, List, [], ◌∷◌, ◌++◌, Bool, true, false, not, ◌&&◌, ◌||◌, Option, none, some, ◌==◌,
  if◌then◌else◌, is_some, guard, ◌>>=◌, ◌>>◌, length,
}

-- The bits of a mask that the code sets: EPOLLIN, EPOLLOUT, EPOLLET.
pub record EventMask : Type 0 where
  pub epollin : Bool
  pub epollout : Bool
  pub epollet : Bool

pub data CtlOp : Type 0 where
  ctl_add ctl_mod ctl_del : CtlOp

-- A set of descriptors in the kernel, with the answers of epoll_ctl(2): an entry is added where there
-- is none, and changed or taken away where there is one.
pub record Epoll : Type 1 where
  pub Kernel : Type 0
  pub interest : Kernel → ℕ → Option EventMask
  pub epoll_ctl : CtlOp → ℕ → EventMask → Kernel → Kernel × Bool
  pub add_lem :
      (fd : ℕ) (m : EventMask) (k : Kernel)
      → interest k fd ≡ none
      → ((epoll_ctl ctl_add fd m k).1 ≡ true)
        × ((j : ℕ)
            → interest (epoll_ctl ctl_add fd m k).0 j ≡ (if j == fd then some m else interest k j))
  pub mod_lem :
      (fd : ℕ) (m m' : EventMask) (k : Kernel)
      → interest k fd ≡ some m'
      → ((epoll_ctl ctl_mod fd m k).1 ≡ true)
        × ((j : ℕ)
            → interest (epoll_ctl ctl_mod fd m k).0 j ≡ (if j == fd then some m else interest k j))
  pub del_lem :
      (fd : ℕ) (m m' : EventMask) (k : Kernel)
      → interest k fd ≡ some m'
      → ((epoll_ctl ctl_del fd m k).1 ≡ true)
        × ((j : ℕ)
            → interest (epoll_ctl ctl_del fd m k).0 j ≡ (if j == fd then none else interest k j))

pub record IoEvent : Type 0 where
  pub events : EventMask
  pub read_handle : Option ℕ
  pub write_handle : Option ℕ

abbrev pub no_events : EventMask
no_events = record { epollin = false; epollout = false; epollet = false }

abbrev pub new_event : IoEvent
new_event = record { events = no_events; read_handle = none; write_handle = none }

pub record IoWatcher (Kernel : Type 0) : Type 0 where
  pub epoll : Kernel
  pub wake_up_fd : ℕ
  pub io_events : ℕ → Option IoEvent
  pub active_coroutines : List (Option ℕ)
  pub room : ℕ

-- ioEvents_[fd] = event, and ioEvents_.erase(fd).
abbrev pub put_event : ℕ → Option IoEvent → (ℕ → Option IoEvent) → ℕ → Option IoEvent
put_event fd e table j = if j == fd then e else table j

-- What epoll_wait says of a descriptor: `fd` is the one of the entry that data.ptr points to.
pub record ReadyEvent : Type 0 where
  pub fd : ℕ
  pub readable : Bool
  pub writable : Bool
  pub disconnected : Bool

module _ (e : Epoll) where
  open e use {Kernel, epoll_ctl}

  abbrev pub with_event : ℕ → Option IoEvent → IoWatcher Kernel → IoWatcher Kernel
  with_event fd event w = record w { io_events = put_event fd event w.io_events }

  -- The constructor, where both descriptors were opened: the one of the wake-ups is listened to.
  unfoldable pub new_watcher : Kernel → ℕ → Option (IoWatcher Kernel)
  new_watcher k fd =
      let event : IoEvent = record new_event { events = record no_events { epollin = true } } in
      let answer = epoll_ctl ctl_add fd event.events k in
      do
        guard answer.1
        some (record {
          epoll = answer.0;
          wake_up_fd = fd;
          io_events = put_event fd (some event) (λ _. none);
          active_coroutines = [];
          room = 16;
        })

  abbrev pub listen_read_in :
      Option IoEvent → ℕ → Option ℕ → IoWatcher Kernel → Option (IoWatcher Kernel)
  listen_read_in none fd handle w =
      let event : IoEvent = record new_event {
        events = record no_events { epollin = true; epollet = true };
        read_handle = handle;
      } in
      let answer = epoll_ctl ctl_add fd event.events w.epoll in
      do guard answer.1; some (record (with_event fd (some event) w) { epoll = answer.0 })
  listen_read_in (some event) fd handle w = do
    guard (not (is_some event.read_handle))
    some (with_event fd (some (record event { read_handle = handle })) w)

  -- ListenReadEvent.
  unfoldable pub listen_read_event : ℕ → Option ℕ → IoWatcher Kernel → Option (IoWatcher Kernel)
  listen_read_event fd handle w = listen_read_in (w.io_events fd) fd handle w

  abbrev pub arm_write : CtlOp → IoEvent → ℕ → ℕ → IoWatcher Kernel → Option (IoWatcher Kernel)
  arm_write op event fd handle w =
      let armed : EventMask = record event.events { epollout = true; epollet = true } in
      let answer = epoll_ctl op fd armed w.epoll in
      let event' : IoEvent = record event {
        write_handle = some handle;
        events = if answer.1 then armed else event.events;
      } in
      do
        guard (not (is_some event.write_handle))
        some (record (with_event fd (some event') w) { epoll = answer.0 })

  abbrev pub listen_write_in : Option IoEvent → ℕ → ℕ → IoWatcher Kernel → Option (IoWatcher Kernel)
  listen_write_in none fd handle w = arm_write ctl_add new_event fd handle w
  listen_write_in (some event) fd handle w = arm_write ctl_mod event fd handle w

  -- ListenWriteEvent.
  unfoldable pub listen_write_event : ℕ → ℕ → IoWatcher Kernel → Option (IoWatcher Kernel)
  listen_write_event fd handle w = listen_write_in (w.io_events fd) fd handle w

  abbrev pub stop_read_in : Option IoEvent → ℕ → IoWatcher Kernel → Option (IoWatcher Kernel)
  stop_read_in none fd w = none
  stop_read_in (some event) fd w =
      some (with_event fd (some (record event { read_handle = none })) w)

  -- StopListeningReadEvent.
  unfoldable pub stop_listening_read_event : ℕ → IoWatcher Kernel → Option (IoWatcher Kernel)
  stop_listening_read_event fd w = stop_read_in (w.io_events fd) fd w

  -- The entry stays as long as its mask has EPOLLIN.
  abbrev pub disarm_write : Bool → IoEvent → ℕ → IoWatcher Kernel → IoWatcher Kernel
  disarm_write true event fd w =
      let event' : IoEvent = record event {
        write_handle = none;
        events = record event.events { epollout = false };
      } in
      record (with_event fd (some event') w) {
        epoll = (epoll_ctl ctl_mod fd event'.events w.epoll).0;
      }
  disarm_write false event fd w = record (with_event fd none w) {
    epoll = (epoll_ctl ctl_del fd (record event.events { epollout = false }) w.epoll).0;
  }

  abbrev pub stop_write_in : Option IoEvent → ℕ → IoWatcher Kernel → Option (IoWatcher Kernel)
  stop_write_in none fd w = none
  stop_write_in (some event) fd w = some (disarm_write event.events.epollin event fd w)

  -- StopListeningWriteEvent.
  unfoldable pub stop_listening_write_event : ℕ → IoWatcher Kernel → Option (IoWatcher Kernel)
  stop_listening_write_event fd w = stop_write_in (w.io_events fd) fd w

  abbrev pub stop_all_in : Option IoEvent → ℕ → IoWatcher Kernel → IoWatcher Kernel
  stop_all_in none fd w = w
  stop_all_in (some event) fd w = record (with_event fd none w) {
    epoll = (epoll_ctl ctl_del fd no_events w.epoll).0;
  }

  -- StopListeningAll.
  unfoldable pub stop_listening_all : ℕ → IoWatcher Kernel → IoWatcher Kernel
  stop_listening_all fd w = stop_all_in (w.io_events fd) fd w

  -- The reader of a descriptor that is readable or disconnected.
  abbrev pub wake_reader : Bool → Option ℕ → ℕ → IoEvent → IoWatcher Kernel → IoWatcher Kernel
  wake_reader true (some handle) fd event w =
      record (with_event fd (some (record event { read_handle = none })) w) {
        active_coroutines = w.active_coroutines ++ some handle ∷ [];
      }
  wake_reader true none fd event w = w
  wake_reader false handle fd event w = w

  -- The writer; the mask loses EPOLLOUT before StopListeningWriteEvent takes it away.
  abbrev pub wake_writer : Bool → Option ℕ → ℕ → IoWatcher Kernel → Option (IoWatcher Kernel)
  wake_writer true handle fd w =
      stop_write_in (w.io_events fd) fd
        (record w { active_coroutines = w.active_coroutines ++ handle ∷ [] })
  wake_writer false handle fd w = some w

  abbrev pub solve_in : Option IoEvent → ReadyEvent → IoWatcher Kernel → Option (IoWatcher Kernel)
  solve_in none r w = none
  solve_in (some event) r w =
      wake_writer r.writable event.write_handle r.fd
        (wake_reader (r.readable || r.disconnected) event.read_handle r.fd event w)

  -- A round of the loop of WatchIo; HandleWakeUp reads the counter of the wake-ups.
  unfoldable pub solve_event : ReadyEvent → IoWatcher Kernel → Option (IoWatcher Kernel)
  solve_event r w = if r.fd == w.wake_up_fd then some w else solve_in (w.io_events r.fd) r w

  abbrev pub solve_then :
      (IoWatcher Kernel → Option (IoWatcher Kernel))
      → Option (IoWatcher Kernel)
      → Option (IoWatcher Kernel)
  solve_then next none = none
  solve_then next (some w) = next w

  unfoldable pub solve_events : List ReadyEvent → IoWatcher Kernel → Option (IoWatcher Kernel)
  unfolding solve_event
  solve_events [] w = some w
  solve_events (r ∷ rs) w = solve_then (λ w'. solve_events rs w') (solve_event r w)

  abbrev pub grow_room : ℕ → IoWatcher Kernel → IoWatcher Kernel
  grow_room size w = record w { room = if w.room == size then size * 2 else w.room }

  abbrev pub grown : ℕ → Option (IoWatcher Kernel) → Option (IoWatcher Kernel)
  grown size none = none
  grown size (some w) = some (grow_room size w)

  -- WatchIo: epoll_wait failed, or gave these events. The coroutines to resume are in
  -- active_coroutines.
  unfoldable pub watch_io : Option (List ReadyEvent) → IoWatcher Kernel → Option (IoWatcher Kernel)
  unfolding solve_events
  watch_io none w = some (record w { active_coroutines = [] })
  watch_io (some ready) w =
      grown (length ready) (solve_events ready (record w { active_coroutines = [] }))
