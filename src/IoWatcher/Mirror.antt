-- ===== src/IoWatcher/Mirror.antt =====
-- The table of the watcher and the set in the kernel say the same.
use libcold.Base.{
  ℕ, ◌≡◌, refl, sym, ap, subst, Bool, true, false, not, inl, inr, ◌||◌, Option, none, some, ◌==◌,
  ==_iff, if◌then◌else◌, is_some, guard, ◌>>◌, Bool-cases,
}
use libcold.IoWatcher.{
  EventMask, CtlOp, ctl_add, ctl_mod, ctl_del, Epoll, IoEvent, no_events, new_event, IoWatcher,
  put_event, with_event, listen_read_in, arm_write, listen_write_in, stop_read_in, disarm_write,
  stop_write_in, stop_all_in,
}

-- A waiting writer needs EPOLLOUT.
abbrev pub WriterArmed : Option ℕ → Bool → Type 0
WriterArmed none out = Unit
WriterArmed (some handle) out = out ≡ true

-- An entry of the table, beside what the kernel has for the descriptor.
abbrev pub EntryValid : Option EventMask → Option IoEvent → Type 0
EntryValid i none = i ≡ none
EntryValid i (some ev) =
    (i ≡ some ev.events)
    × WriterArmed ev.write_handle ev.events.epollout
    × ((ev.events.epollin || ev.events.epollout) ≡ true)

module _ (e : Epoll) where
  open e use {Kernel, interest, epoll_ctl}

  -- The kernel listens to the descriptors of the table, with the masks of the table; an entry has
  -- EPOLLIN or EPOLLOUT, and one with a writer that waits has EPOLLOUT.
  abbrev pub IsMirrored : IoWatcher Kernel → Type 0
  IsMirrored w = (fd : ℕ) → EntryValid (interest w.epoll fd) (w.io_events fd)

  EntryValid-if :
      (b : Bool) (i i' : Option EventMask) (o o' : Option IoEvent)
      → EntryValid i o
      → EntryValid i' o'
      → EntryValid (if b then i else i') (if b then o else o')
  EntryValid-if true i i' o o' v v' = v
  EntryValid-if false i i' o o' v v' = v'

  IsMirrored-put :
      (w : IoWatcher Kernel) (k : Kernel) (fd : ℕ) (i : Option EventMask) (o : Option IoEvent)
      → ((j : ℕ) → interest k j ≡ (if j == fd then i else interest w.epoll j))
      → EntryValid i o
      → IsMirrored w
      → (j : ℕ) → EntryValid (interest k j) (put_event fd o w.io_events j)
  IsMirrored-put w k fd i o h v mirror j =
      subst (λ x. EntryValid x (put_event fd o w.io_events j)) (sym (h j))
        (EntryValid-if (j == fd) i (interest w.epoll j) o (w.io_events j) v (mirror j))

  -- The mask of an entry stays as it is.
  interest_same :
      (w : IoWatcher Kernel) (fd j : ℕ)
      → interest w.epoll j ≡ (if j == fd then interest w.epoll fd else interest w.epoll j)
  interest_same w fd j = elim (Bool-cases (j == fd)) [
    | inl same ↦ rw same (ap (interest w.epoll) ((==_iff j fd).0 same))
    | inr other ↦ rw other
  ]

  pub IsMirrored-with_event :
      (w : IoWatcher Kernel) (fd : ℕ) (o : Option IoEvent)
      → EntryValid (interest w.epoll fd) o
      → IsMirrored w
      → IsMirrored (with_event e fd o w)
  IsMirrored-with_event w fd o v mirror =
      IsMirrored-put w w.epoll fd (interest w.epoll fd) o (interest_same w fd) v mirror

  -- What holds of the watcher, where the program goes on.
  abbrev pub Mirrored : Option (IoWatcher Kernel) → Type 0
  Mirrored none = Unit
  Mirrored (some w) = IsMirrored w

  pub entry_of :
      (w : IoWatcher Kernel) (fd : ℕ) {o : Option IoEvent}
      → IsMirrored w
      → w.io_events fd ≡ o
      → EntryValid (interest w.epoll fd) o
  entry_of w fd mirror eq = subst (EntryValid (interest w.epoll fd)) eq (mirror fd)

  Mirrored-guard : (b : Bool) (w : IoWatcher Kernel) → IsMirrored w → Mirrored (do guard b; some w)
  Mirrored-guard true w v = v
  Mirrored-guard false w v = tt

  pub Mirrored-listen_read :
      (o : Option IoEvent) (fd : ℕ) (handle : Option ℕ) (w : IoWatcher Kernel)
      → w.io_events fd ≡ o
      → IsMirrored w
      → Mirrored (listen_read_in e o fd handle w)
  Mirrored-listen_read none fd handle w eq mirror =
      let event : IoEvent = record new_event {
        events = record no_events { epollin = true; epollet = true };
        read_handle = handle;
      } in
      let law = e.add_lem fd event.events w.epoll (entry_of w fd mirror eq) in
      Mirrored-guard (epoll_ctl ctl_add fd event.events w.epoll).1
        (record (with_event e fd (some event) w) {
          epoll = (epoll_ctl ctl_add fd event.events w.epoll).0;
        })
        (IsMirrored-put w (epoll_ctl ctl_add fd event.events w.epoll).0 fd (some event.events)
          (some event) law.1 (refl, tt, refl) mirror)
  Mirrored-listen_read (some event) fd handle w eq mirror =
      Mirrored-guard (not (is_some event.read_handle))
        (with_event e fd (some (record event { read_handle = handle })) w)
        (IsMirrored-with_event w fd (some (record event { read_handle = handle }))
          (entry_of w fd mirror eq) mirror)

  or_true : (b : Bool) → (b || true) ≡ true
  or_true true = refl
  or_true false = refl

  -- The kernel took the mask that waits for the writer.
  Mirrored-arm_write :
      (op : CtlOp) (event : IoEvent) (fd handle : ℕ) (w : IoWatcher Kernel)
      → (let armed : EventMask = record event.events { epollout = true; epollet = true } in
          ((epoll_ctl op fd armed w.epoll).1 ≡ true)
          × ((j : ℕ)
              → interest (epoll_ctl op fd armed w.epoll).0 j
                ≡ (if j == fd then some armed else interest w.epoll j)))
      → IsMirrored w
      → Mirrored (arm_write e op event fd handle w)
  Mirrored-arm_write op event fd handle w law mirror =
      let armed : EventMask = record event.events { epollout = true; epollet = true } in
      let k = (epoll_ctl op fd armed w.epoll).0 in
      let done : Bool → IoEvent = λ b. record event {
        write_handle = some handle;
        events = if b then armed else event.events;
      } in
      Mirrored-guard (not (is_some event.write_handle))
        (record (with_event e fd (some (done (epoll_ctl op fd armed w.epoll).1)) w) { epoll = k })
        (IsMirrored-put w k fd (some armed) (some (done (epoll_ctl op fd armed w.epoll).1)) law.1
          (subst (λ b. EntryValid (some armed) (some (done b))) (sym law.0)
            (refl, refl, or_true event.events.epollin))
          mirror)

  pub Mirrored-listen_write :
      (o : Option IoEvent) (fd handle : ℕ) (w : IoWatcher Kernel)
      → w.io_events fd ≡ o
      → IsMirrored w
      → Mirrored (listen_write_in e o fd handle w)
  Mirrored-listen_write none fd handle w eq mirror =
      Mirrored-arm_write ctl_add new_event fd handle w
        (e.add_lem fd (record no_events { epollout = true; epollet = true }) w.epoll
          (entry_of w fd mirror eq))
        mirror
  Mirrored-listen_write (some event) fd handle w eq mirror =
      Mirrored-arm_write ctl_mod event fd handle w
        (e.mod_lem fd (record event.events { epollout = true; epollet = true }) event.events w.epoll
          (entry_of w fd mirror eq).0)
        mirror

  pub Mirrored-stop_read :
      (o : Option IoEvent) (fd : ℕ) (w : IoWatcher Kernel)
      → w.io_events fd ≡ o
      → IsMirrored w
      → Mirrored (stop_read_in e o fd w)
  Mirrored-stop_read none fd w eq mirror = tt
  Mirrored-stop_read (some event) fd w eq mirror =
      IsMirrored-with_event w fd (some (record event { read_handle = none }))
        (entry_of w fd mirror eq) mirror

  IsMirrored-disarm_write :
      (b : Bool) (event : IoEvent) (fd : ℕ) (w : IoWatcher Kernel)
      → event.events.epollin ≡ b
      → interest w.epoll fd ≡ some event.events
      → IsMirrored w
      → IsMirrored (disarm_write e b event fd w)
  IsMirrored-disarm_write true event fd w input eq mirror =
      let event' : IoEvent = record event {
        write_handle = none;
        events = record event.events { epollout = false };
      } in
      IsMirrored-put w (epoll_ctl ctl_mod fd event'.events w.epoll).0 fd (some event'.events)
        (some event') (e.mod_lem fd event'.events event.events w.epoll eq).1
        (refl, tt, ap (λ b. b || false) input) mirror
  IsMirrored-disarm_write false event fd w input eq mirror =
      let m : EventMask = record event.events { epollout = false } in
      IsMirrored-put w (epoll_ctl ctl_del fd m w.epoll).0 fd none none
        (e.del_lem fd m event.events w.epoll eq).1 refl mirror

  pub Mirrored-stop_write :
      (o : Option IoEvent) (fd : ℕ) (w : IoWatcher Kernel)
      → w.io_events fd ≡ o
      → IsMirrored w
      → Mirrored (stop_write_in e o fd w)
  Mirrored-stop_write none fd w eq mirror = tt
  Mirrored-stop_write (some event) fd w eq mirror =
      IsMirrored-disarm_write event.events.epollin event fd w refl (entry_of w fd mirror eq).0
        mirror

  pub IsMirrored-stop_all :
      (o : Option IoEvent) (fd : ℕ) (w : IoWatcher Kernel)
      → w.io_events fd ≡ o
      → IsMirrored w
      → IsMirrored (stop_all_in e o fd w)
  IsMirrored-stop_all none fd w eq mirror = mirror
  IsMirrored-stop_all (some event) fd w eq mirror =
      IsMirrored-put w (epoll_ctl ctl_del fd no_events w.epoll).0 fd none none
        (e.del_lem fd no_events event.events w.epoll (entry_of w fd mirror eq).0).1 refl mirror
