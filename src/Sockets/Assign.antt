-- ===== src/Sockets/Assign.antt =====
-- What a socket leaves behind in the event loop when it ends, and when it is assigned to.
use libcold.Base.{
  ℕ, ◌≡◌, refl, ap, ◌∙◌, sym, Option, none, some, Bool, true, false, ◌==◌, ==_iff, arith, ◌≢◌,
  if◌then◌else◌,
}
use libcold.IoWatcher.{
  Epoll, IoWatcher, IoEvent, no_events, new_event, ctl_add, ctl_del, stop_all_in,
  stop_listening_all, listen_read_event, with_event,
}
use libcold.IoWatcher.Mirror.{IsMirrored, entry_of}
use libcold.Sockets.Owner.{BasicSocket, accepted, move_assign, close_old, close_fd, destroy}

abbrev reading : IoEvent
reading = record new_event { events = record no_events { epollin = true; epollet = true } }

module _ (e : Epoll) (close : ℕ → e.Kernel → e.Kernel)
    (close_lem : (fd j : ℕ) (k : e.Kernel)
      → e.interest (close fd k) j ≡ (if j == fd then none else e.interest k j)) where
  open e use {Kernel, interest, epoll_ctl}

  -- A number other than the stopped one keeps its entry and its mask.
  stop_all-other :
      (o : Option IoEvent) (fd j : ℕ) (w : IoWatcher Kernel)
      → ((ev : IoEvent) → o ≡ some ev → interest w.epoll fd ≡ some ev.events)
      → (j == fd) ≡ false
      → ((stop_all_in e o fd w).io_events j ≡ w.io_events j)
        × (interest (stop_all_in e o fd w).epoll j ≡ interest w.epoll j)
  stop_all-other none fd j w mirror other = (refl, refl)
  stop_all-other (some event) fd j w mirror other = (
    ap (λ b. if b then none else w.io_events j) other,
    (e.del_lem fd no_events event.events w.epoll (mirror event refl)).1 j
        ∙ ap (λ b. if b then none else interest w.epoll j) other,
  )

  ==-apart : (a b : ℕ) → b ≢ a → (a == b) ≡ false
  ==-apart a b apart = ground arith

  -- A new socket for a descriptor that has an entry changes the entry and nothing else.
  accepted-known :
      {Address : Type 0} (local remote : Address) (w : IoWatcher Kernel) (fd : ℕ) (event : IoEvent)
      → w.io_events fd ≡ some event
      → event.read_handle ≡ none
      → (s : BasicSocket Address) × (accepted e local remote (some fd) w
          ≡ some (s, with_event e fd (some (record event { read_handle = none })) w))
  unfolding accepted listen_read_event
  accepted-known local remote w fd event entry no_reader = (
    record {
      has_service = true;
      fd = some fd;
      local_address = local;
      remote_address = remote;
      connected = true;
    },
    rw (entry, no_reader) refl,
  )

  -- A socket that holds fd, where no coroutine reads, is assigned one with another descriptor, and
  -- fd is closed. The event loop keeps the entry of fd: when the number comes from accept again, the
  -- new socket finds the entry, and the kernel is not told to listen to it.
  pub move_assign-keeps :
      {Address : Type 0} (self other : BasicSocket Address) (local remote : Address)
      (w : IoWatcher Kernel) (fd o : ℕ) (event : IoEvent)
      → self.fd ≡ some fd
      → other.fd ≡ some o
      → fd ≢ o
      → IsMirrored e w
      → w.io_events fd ≡ some event
      → event.read_handle ≡ none
      → (s : BasicSocket Address) × (w1 : IoWatcher Kernel) × (accepted e local remote
            (some fd)
            (move_assign e close false self other w).watcher
          ≡ some (s, w1))
        × (w1.io_events fd ≡ some (record event { read_handle = none }))
        × (interest w1.epoll fd ≡ none)
  unfolding move_assign stop_listening_all
  move_assign-keeps self other local remote w fd o event fs fo apart mirror entry no_reader =
      let w1 = close_fd e close fd w in
      let w2 = stop_all_in e (w.io_events o) o w1 in
      let kept =
        stop_all-other (w.io_events o) o fd w1
          (λ ev eq.
            close_lem fd o w.epoll
            ∙ ap (λ b. if b then none else interest w.epoll o) (==-apart o fd apart)
            ∙ (entry_of e w o mirror eq).0)
          (==-apart fd o (λ eq. apart (sym eq))) in
      let found = accepted-known local remote w2 fd event (kept.0 ∙ entry) no_reader in
      (
        found.0,
        with_event e fd (some (record event { read_handle = none })) w2,
        ap (λ x. accepted e local remote (some fd) (close_old e close x other.fd w)) fs
            ∙ ap (λ x. accepted e local remote (some fd) (close_old e close (some fd) x w)) fo
            ∙ found.1,
        ap (λ b. if b then some (record event { read_handle = none }) else w2.io_events fd)
            ((==_iff fd fd).1 refl),
        kept.1
            ∙ close_lem fd fd w.epoll
            ∙ ap (λ b. if b then none else interest w.epoll fd) ((==_iff fd fd).1 refl),
      )

  -- What a new socket for a fresh descriptor tells the kernel.
  accepted-fresh :
      {Address : Type 0} (local remote : Address) (w : IoWatcher Kernel) (fd : ℕ)
      → w.io_events fd ≡ none
      → interest w.epoll fd ≡ none
      → (s : BasicSocket Address) × (k : Kernel) × (accepted e local remote (some fd) w
          ≡ some (s, record (with_event e fd (some reading) w) { epoll = k }))
        × (s.fd ≡ some fd)
        × ((j : ℕ) → interest k j ≡ (if j == fd then some reading.events else interest w.epoll j))
  unfolding accepted listen_read_event
  accepted-fresh local remote w fd entry free =
      let added = e.add_lem fd reading.events w.epoll free in
      (
        record {
          has_service = true;
          fd = some fd;
          local_address = local;
          remote_address = remote;
          connected = true;
        },
        (epoll_ctl ctl_add fd reading.events w.epoll).0,
        rw (entry, added.0) refl,
        refl,
        added.1,
      )

  restored :
      {A : Type 0} (b : Bool) (middle : A) (o : Option A)
      → (b ≡ true → o ≡ none)
      → (if b then none else if b then some middle else o) ≡ o
  restored true middle o h = sym (h refl)
  restored false middle o h = refl

  restored_twice :
      {A : Type 0} (b : Bool) (middle : A) (o : Option A)
      → (b ≡ true → o ≡ none)
      → (if b then none else if b then none else if b then some middle else o) ≡ o
  restored_twice true middle o h = sym (h refl)
  restored_twice false middle o h = refl

  -- A socket for a descriptor that the event loop does not know, and its end: the table and the set of
  -- the kernel are what they were, for every descriptor.
  pub destroy-accepted :
      {Address : Type 0} (local remote : Address) (w : IoWatcher Kernel) (fd : ℕ)
      → IsMirrored e w
      → w.io_events fd ≡ none
      → (s : BasicSocket Address) × (w1 : IoWatcher Kernel) × (accepted e local remote (some fd) w
          ≡ some (s, w1))
        × ((j : ℕ) → (destroy e close s w1).io_events j ≡ w.io_events j)
        × ((j : ℕ) → interest (destroy e close s w1).epoll j ≡ interest w.epoll j)
  unfolding destroy stop_listening_all
  destroy-accepted local remote w fd mirror entry =
      let self : (fd == fd) ≡ true = (==_iff fd fd).1 refl in
      let free = entry_of e w fd mirror entry in
      let made = accepted-fresh local remote w fd entry free in
      let w1 = record (with_event e fd (some reading) w) { epoll = made.1 } in
      let gone =
        e.del_lem fd no_events reading.events made.1
          (made.4 fd ∙ ap (λ b. if b then some reading.events else interest w.epoll fd) self) in
      (
        made.0,
        w1,
        made.2,
        (λ j.
            rw (made.3, self)
              (restored (j == fd) reading (w.io_events j)
                (λ same. ap w.io_events ((==_iff j fd).0 same) ∙ entry))),
        (λ j.
            rw (made.3, self)
              (close_lem fd j (epoll_ctl ctl_del fd no_events made.1).0
                ∙ ap (λ i. if j == fd then none else i) (gone.1 j)
                ∙ ap (λ i. if j == fd then none else if j == fd then none else i) (made.4 j)
                ∙ restored_twice (j == fd) reading.events (interest w.epoll j)
                    (λ same. ap (interest w.epoll) ((==_iff j fd).0 same) ∙ free))),
      )
