-- ===== src/IoWatcher/Solve.antt =====
-- What WatchIo does with the event of one descriptor.
use libcold.Base.{
  ℕ, ◌≡◌, refl, sym, ap, ◌∙◌, List, [], ◌∷◌, ◌++◌, append-nil, append_assoc, Bool, true, false, inl,
  inr, ◌||◌, Option, none, some, ◌==◌, ==_iff, if◌then◌else◌, Bool-cases, Every, is_some,
}
use libcold.IoWatcher.{
  Epoll, IoEvent, IoWatcher, ReadyEvent, disarm_write, stop_write_in, wake_reader, wake_writer,
  solve_in,
}

-- Whom the kernel's answer on one descriptor wakes: its reader, if one waits and there is something
-- to read or the peer is gone; and its writer, if there is room to write.
abbrev pub woken_reader : Bool → Option ℕ → List (Option ℕ)
woken_reader true (some handle) = some handle ∷ []
woken_reader true none = []
woken_reader false handle = []

abbrev pub woken_of : Option IoEvent → ReadyEvent → List (Option ℕ)
woken_of none r = []
woken_of (some ev) r =
    woken_reader (r.readable || r.disconnected) ev.read_handle
    ++ (if r.writable then ev.write_handle ∷ [] else [])

abbrev pub woken : ℕ → (ℕ → Option IoEvent) → List ReadyEvent → List (Option ℕ)
woken wake_up_fd table [] = []
woken wake_up_fd table (r ∷ rs) =
    (if r.fd == wake_up_fd then [] else woken_of (table r.fd) r) ++ woken wake_up_fd table rs

-- What is left of an entry: those that were woken wait no more, and an entry that has nothing to
-- wait for goes.
abbrev pub seen : Bool → IoEvent → IoEvent
seen b ev = record ev { read_handle = if b then none else ev.read_handle }

abbrev pub kept_if : Bool → IoEvent → Option IoEvent
kept_if input ev =
    if input
    then some (record ev { write_handle = none; events = record ev.events { epollout = false } })
    else none

abbrev pub written : Bool → IoEvent → Option IoEvent
written b ev = if b then kept_if ev.events.epollin ev else some ev

abbrev pub settled : ReadyEvent → Option IoEvent → Option IoEvent
settled r none = none
settled r (some ev) = written r.writable (seen (r.readable || r.disconnected) ev)

abbrev pub settle : ℕ → (ℕ → Option IoEvent) → List ReadyEvent → ℕ → Option IoEvent
settle wake_up_fd table [] j = table j
settle wake_up_fd table (r ∷ rs) j =
    if j == r.fd
    then if r.fd == wake_up_fd then table j else settled r (table r.fd)
    else settle wake_up_fd table rs j

-- epoll_wait tells each descriptor once, and only those that are in the set.
abbrev pub AllOther : ℕ → List ReadyEvent → Type 0
AllOther fd = Every (λ (r : ReadyEvent). (r.fd == fd) ≡ false)

abbrev pub IsBatch : (ℕ → Option IoEvent) → List ReadyEvent → Type 0
IsBatch table [] = Unit
IsBatch table (r ∷ rs) = (is_some (table r.fd) ≡ true) × AllOther r.fd rs × IsBatch table rs

module _ (e : Epoll) where
  open e use {Kernel}

  pub table_same :
      (table : ℕ → Option IoEvent) (fd j : ℕ) {o : Option IoEvent}
      → table fd ≡ o
      → table j ≡ (if j == fd then o else table j)
  table_same table fd j eq = elim (Bool-cases (j == fd)) [
    | inl same ↦ rw same (ap table ((==_iff j fd).0 same) ∙ eq)
    | inr other ↦ rw other
  ]

  record Read (b : Bool) (fd : ℕ) (ev : IoEvent) (w w' : IoWatcher Kernel) : Type 0 where
    active : w'.active_coroutines ≡ w.active_coroutines ++ woken_reader b ev.read_handle
    table : (j : ℕ) → w'.io_events j ≡ (if j == fd then some (seen b ev) else w.io_events j)
    wake : w'.wake_up_fd ≡ w.wake_up_fd

  Read-wake_reader :
      (b : Bool) (h : Option ℕ) (fd : ℕ) (ev : IoEvent) (w : IoWatcher Kernel)
      → ev.read_handle ≡ h
      → w.io_events fd ≡ some ev
      → Read b fd ev w (wake_reader e b h fd ev w)
  Read-wake_reader true (some handle) fd ev w eh ew = record {
    active = ap (λ x. w.active_coroutines ++ woken_reader true x) (sym eh);
    table = λ j. refl;
    wake = refl;
  }
  Read-wake_reader true none fd ev w eh ew = record {
    active =
        sym (append-nil w.active_coroutines)
        ∙ ap (λ x. w.active_coroutines ++ woken_reader true x) (sym eh);
    table =
        λ j. table_same w.io_events fd j (ew ∙ ap (λ x. some (record ev { read_handle = x })) eh);
    wake = refl;
  }
  Read-wake_reader false h fd ev w eh ew = record {
    active = sym (append-nil w.active_coroutines);
    table = λ j. table_same w.io_events fd j ew;
    wake = refl;
  }

  record Wrote (b : Bool) (h : Option ℕ) (fd : ℕ) (ev : IoEvent) (w : IoWatcher Kernel)
      : Type 0 where
    next : IoWatcher Kernel
    runs : wake_writer e b h fd w ≡ some next
    active : next.active_coroutines ≡ w.active_coroutines ++ (if b then h ∷ [] else [])
    table : (j : ℕ) → next.io_events j ≡ (if j == fd then written b ev else w.io_events j)
    wake : next.wake_up_fd ≡ w.wake_up_fd

  Wrote-disarm :
      (input : Bool) (h : Option ℕ) (fd : ℕ) (ev : IoEvent) (w : IoWatcher Kernel)
      → w.io_events fd ≡ some ev
      → ev.events.epollin ≡ input
      → Wrote true h fd ev w
  Wrote-disarm true h fd ev w ew input =
      let w1 : IoWatcher Kernel = record w { active_coroutines = w.active_coroutines ++ h ∷ [] } in
      record {
        next = disarm_write e true ev fd w1;
        runs =
            ap (λ o. stop_write_in e o fd w1) ew ∙ ap (λ b. some (disarm_write e b ev fd w1)) input;
        active = refl;
        table = λ j. ap (λ b. if j == fd then kept_if b ev else w.io_events j) (sym input);
        wake = refl;
      }
  Wrote-disarm false h fd ev w ew input =
      let w1 : IoWatcher Kernel = record w { active_coroutines = w.active_coroutines ++ h ∷ [] } in
      record {
        next = disarm_write e false ev fd w1;
        runs =
            ap (λ o. stop_write_in e o fd w1) ew ∙ ap (λ b. some (disarm_write e b ev fd w1)) input;
        active = refl;
        table = λ j. ap (λ b. if j == fd then kept_if b ev else w.io_events j) (sym input);
        wake = refl;
      }

  Wrote-wake_writer :
      (b : Bool) (h : Option ℕ) (fd : ℕ) (ev : IoEvent) (w : IoWatcher Kernel)
      → w.io_events fd ≡ some ev
      → Wrote b h fd ev w
  Wrote-wake_writer true h fd ev w ew = Wrote-disarm ev.events.epollin h fd ev w ew refl
  Wrote-wake_writer false h fd ev w ew = record {
    next = w;
    runs = refl;
    active = sym (append-nil w.active_coroutines);
    table = λ j. table_same w.io_events fd j ew;
    wake = refl;
  }

  -- An event of a descriptor with an entry.
  pub record Solved (r : ReadyEvent) (ev : IoEvent) (w : IoWatcher Kernel) : Type 0 where
    pub next : IoWatcher Kernel
    pub runs : solve_in e (some ev) r w ≡ some next
    pub active : next.active_coroutines ≡ w.active_coroutines ++ woken_of (some ev) r
    pub table :
        (j : ℕ) → next.io_events j ≡ (if j == r.fd then settled r (some ev) else w.io_events j)
    pub wake : next.wake_up_fd ≡ w.wake_up_fd

  if_twice {ℓ} :
      {A : Type ℓ} (b : Bool) (x y z : A)
      → (if b then x else (if b then y else z)) ≡ (if b then x else z)
  if_twice true x y z = refl
  if_twice false x y z = refl

  pub Solved-solve_in :
      (r : ReadyEvent) (ev : IoEvent) (w : IoWatcher Kernel)
      → w.io_events r.fd ≡ some ev
      → Solved r ev w
  Solved-solve_in r ev w ew =
      let b = r.readable || r.disconnected in
      let w1 = wake_reader e b ev.read_handle r.fd ev w in
      let first = Read-wake_reader b ev.read_handle r.fd ev w refl ew in
      let second = Wrote-wake_writer r.writable ev.write_handle r.fd (seen b ev) w1 (
        first.table r.fd
        ∙ ap (λ c. if c then some (seen b ev) else w.io_events r.fd) ((==_iff r.fd r.fd).1 refl)) in
      record {
        next = second.next;
        runs = second.runs;
        active =
            second.active
            ∙ ap (λ l. l ++ (if r.writable then ev.write_handle ∷ [] else [])) first.active
            ∙ append_assoc w.active_coroutines (woken_reader b ev.read_handle)
                (if r.writable then ev.write_handle ∷ [] else []);
        table = λ j.
            second.table j
            ∙ ap (λ x. if j == r.fd then settled r (some ev) else x) (first.table j)
            ∙ if_twice (j == r.fd) (settled r (some ev)) (some (seen b ev)) (w.io_events j);
        wake = second.wake ∙ first.wake;
      }
