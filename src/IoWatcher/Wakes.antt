-- ===== src/IoWatcher/Wakes.antt =====
-- Which coroutines a call of WatchIo wakes.
use libcold.Base.{
  ℕ, ◌≡◌, refl, sym, ap, ◌∙◌, List, [], ◌∷◌, ◌++◌, append-nil, append_assoc, true, false, inl, inr,
  Option, some, ◌==◌, ==_iff, if◌then◌else◌, length, arith, Bool-cases, Option-cases, is_some,
}
use libcold.IoWatcher.{
  Epoll, IoEvent, IoWatcher, ReadyEvent, solve_in, solve_event, solve_then, solve_events, grow_room,
  grown, watch_io,
}
use libcold.IoWatcher.Solve.{
  woken_of, woken, settled, settle, AllOther, IsBatch, table_same, Solved, Solved-solve_in,
}

module _ (e : Epoll) where
  open e use {Kernel}

  -- A whole batch.
  record AllSolved (rs : List ReadyEvent) (w : IoWatcher Kernel) : Type 0 where
    next : IoWatcher Kernel
    runs : solve_events e rs w ≡ some next
    active : next.active_coroutines ≡ w.active_coroutines ++ woken w.wake_up_fd w.io_events rs
    table : (j : ℕ) → next.io_events j ≡ settle w.wake_up_fd w.io_events rs j

  -- The entries of other descriptors do not count.
  woken_other :
      (wake fd : ℕ) (t t' : ℕ → Option IoEvent) (rs : List ReadyEvent)
      → ((j : ℕ) → (j == fd) ≡ false → t' j ≡ t j)
      → AllOther fd rs
      → woken wake t' rs ≡ woken wake t rs
  woken_other wake fd t t' [] h o = refl
  woken_other wake fd t t' (r ∷ rs) h o = λ i.
      (if r.fd == wake then [] else woken_of (h r.fd o.0 i) r)
      ++ woken_other wake fd t t' rs h o.1 i

  IsBatch-other :
      (fd : ℕ) (t t' : ℕ → Option IoEvent) (rs : List ReadyEvent)
      → ((j : ℕ) → (j == fd) ≡ false → t' j ≡ t j)
      → AllOther fd rs
      → IsBatch t rs
      → IsBatch t' rs
  IsBatch-other fd t t' [] h o b = tt
  IsBatch-other fd t t' (r ∷ rs) h o b =
      (ap is_some (h r.fd o.0) ∙ b.0, b.1, IsBatch-other fd t t' rs h o.1 b.2)

  settle_other :
      (wake fd : ℕ) (t t' : ℕ → Option IoEvent) (rs : List ReadyEvent) (j : ℕ)
      → ((i : ℕ) → (i == fd) ≡ false → t' i ≡ t i)
      → AllOther fd rs
      → (j == fd) ≡ false
      → settle wake t' rs j ≡ settle wake t rs j
  settle_other wake fd t t' [] j h o other = h j other
  settle_other wake fd t t' (r ∷ rs) j h o other = λ i.
      if j == r.fd
      then if r.fd == wake then h j other i else settled r (h r.fd o.0 i)
      else settle_other wake fd t t' rs j h o.1 other i

  not_same : (j fd i : ℕ) → (j == fd) ≡ true → (i == fd) ≡ false → (j == i) ≡ false
  not_same j fd i h k = ground arith

  settle_untouched :
      (wake fd : ℕ) (t : ℕ → Option IoEvent) (rs : List ReadyEvent) (j : ℕ)
      → (j == fd) ≡ true
      → AllOther fd rs
      → settle wake t rs j ≡ t j
  settle_untouched wake fd t [] j same o = refl
  settle_untouched wake fd t (r ∷ rs) j same o =
      ap (λ b. if b then if r.fd == wake then t j else settled r (t r.fd) else settle wake t rs j)
        (not_same j fd r.fd same o.0)
      ∙ settle_untouched wake fd t rs j same o.1

  settle_first :
      (wake fd : ℕ) (x : Option IoEvent) (t t' : ℕ → Option IoEvent) (rs : List ReadyEvent) (j : ℕ)
      → ((i : ℕ) → t' i ≡ (if i == fd then x else t i))
      → AllOther fd rs
      → settle wake t' rs j ≡ (if j == fd then x else settle wake t rs j)
  settle_first wake fd x t t' rs j h o = elim (Bool-cases (j == fd)) [
    | inl same ↦
        rw same
          (settle_untouched wake fd t' rs j same o ∙ h j ∙ ap (λ b. if b then x else t j) same)
    | inr other ↦ rw other (
        settle_other wake fd t t' rs j (λ i differs. h i ∙ ap (λ b. if b then x else t i) differs) o
          other)
  ]

  AllSolved-wake :
      (r : ReadyEvent) (rs : List ReadyEvent) (w : IoWatcher Kernel)
      → (r.fd == w.wake_up_fd) ≡ true
      → AllOther r.fd rs
      → AllSolved rs w
      → AllSolved (r ∷ rs) w
  unfolding solve_events solve_event
  AllSolved-wake r rs w is_wake o a = record {
    next = a.next;
    runs =
        ap
          (λ b.
            solve_then e (λ w'. solve_events e rs w')
              (if b then some w else solve_in e (w.io_events r.fd) r w))
          is_wake
        ∙ a.runs;
    active =
        a.active
        ∙ ap
            (λ b.
              w.active_coroutines
              ++ ((if b then [] else woken_of (w.io_events r.fd) r)
                  ++ woken w.wake_up_fd w.io_events rs))
            (sym is_wake);
    table = λ j.
        a.table j
        ∙ settle_first w.wake_up_fd r.fd (w.io_events r.fd) w.io_events w.io_events rs j
            (λ i. table_same e w.io_events r.fd i refl) o
        ∙ if_at j
        ∙ ap
            (λ b.
              if j == r.fd
              then if b then w.io_events j else settled r (w.io_events r.fd)
              else settle w.wake_up_fd w.io_events rs j)
            (sym is_wake);
  }
    where
      if_at :
          (j : ℕ)
          → (if j == r.fd then w.io_events r.fd else settle w.wake_up_fd w.io_events rs j)
            ≡ (if j == r.fd then w.io_events j else settle w.wake_up_fd w.io_events rs j)
      if_at j = elim (Bool-cases (j == r.fd)) [
        | inl same ↦ rw same (ap w.io_events (sym ((==_iff j r.fd).0 same)))
        | inr other ↦ rw other
      ]

  AllSolved-event :
      (r : ReadyEvent) (rs : List ReadyEvent) (w : IoWatcher Kernel) (ev : IoEvent)
      → (r.fd == w.wake_up_fd) ≡ false
      → w.io_events r.fd ≡ some ev
      → AllOther r.fd rs
      → (s : Solved e r ev w) → AllSolved rs s.next
      → AllSolved (r ∷ rs) w
  unfolding solve_events solve_event
  AllSolved-event r rs w ev not_wake ew o s a = record {
    next = a.next;
    runs =
        ap
          (λ b.
            solve_then e (λ w'. solve_events e rs w')
              (if b then some w else solve_in e (w.io_events r.fd) r w))
          not_wake
        ∙ ap (λ x. solve_then e (λ w'. solve_events e rs w') (solve_in e x r w)) ew
        ∙ ap (solve_then e (λ w'. solve_events e rs w')) s.runs
        ∙ a.runs;
    active =
        a.active
        ∙ (λ i. s.active i ++ woken (s.wake i) s.next.io_events rs)
        ∙ append_assoc w.active_coroutines (woken_of (some ev) r)
            (woken w.wake_up_fd s.next.io_events rs)
        ∙ ap (λ x. w.active_coroutines ++ (woken_of (some ev) r ++ x))
            (woken_other w.wake_up_fd r.fd w.io_events s.next.io_events rs
              (λ j other.
                s.table j ∙ ap (λ b. if b then settled r (some ev) else w.io_events j) other)
              o)
        ∙ ap (λ x. w.active_coroutines ++ (woken_of x r ++ woken w.wake_up_fd w.io_events rs))
            (sym ew)
        ∙ ap
            (λ b.
              w.active_coroutines
              ++ ((if b then [] else woken_of (w.io_events r.fd) r)
                  ++ woken w.wake_up_fd w.io_events rs))
            (sym not_wake);
    table = λ j.
        a.table j
        ∙ ap (λ x. settle x s.next.io_events rs j) s.wake
        ∙ settle_first w.wake_up_fd r.fd (settled r (some ev)) w.io_events s.next.io_events rs j
            s.table o
        ∙ ap (λ x. if j == r.fd then settled r x else settle w.wake_up_fd w.io_events rs j) (sym ew)
        ∙ ap
            (λ b.
              if j == r.fd
              then if b then w.io_events j else settled r (w.io_events r.fd)
              else settle w.wake_up_fd w.io_events rs j)
            (sym not_wake);
  }

  AllSolved-solve_events :
      (rs : List ReadyEvent) (w : IoWatcher Kernel) → IsBatch w.io_events rs → AllSolved rs w
  unfolding solve_events
  AllSolved-solve_events [] w b = record {
    next = w;
    runs = refl;
    active = sym (append-nil w.active_coroutines);
    table = λ j. refl;
  }
  AllSolved-solve_events (r ∷ rs) w b = elim (Bool-cases (r.fd == w.wake_up_fd)) [
    | inl is_wake ↦ AllSolved-wake r rs w is_wake b.1 (AllSolved-solve_events rs w b.2)
    | inr not_wake ↦ elim (Option-cases (w.io_events r.fd)) [
      | inl gone ↦ cc (b.0, ap is_some gone)
      | inr there ↦
          let s = Solved-solve_in e r there.0 w there.1 in
          AllSolved-event r rs w there.0 not_wake there.1 b.1 s (
            AllSolved-solve_events rs s.next (
              IsBatch-other r.fd w.io_events s.next.io_events rs
                (λ j other.
                  s.table j ∙ ap (λ b. if b then settled r (some there.0) else w.io_events j) other)
                b.1 b.2))
    ]
  ]

  -- Where epoll_wait tells each descriptor once and only such as have an entry, WatchIo does not
  -- fail. The coroutines that it gives back to be resumed are, in the order of the descriptors, the
  -- reader that waits where there is something to read or the peer is gone, and what the entry has as
  -- its writer where there is room to write. These wait no more, an entry that has nothing left to
  -- wait for is gone, and all other entries are as they were.
  pub watch_io-wakes :
      (rs : List ReadyEvent) (w : IoWatcher Kernel)
      → IsBatch w.io_events rs
      → (w' : IoWatcher Kernel) × (watch_io e (some rs) w ≡ some w')
        × (w'.active_coroutines ≡ woken w.wake_up_fd w.io_events rs)
        × ((j : ℕ) → w'.io_events j ≡ settle w.wake_up_fd w.io_events rs j)
  unfolding watch_io
  watch_io-wakes rs w b =
      let start : IoWatcher Kernel = record w { active_coroutines = [] } in
      let a = AllSolved-solve_events rs start b in
      (grow_room e (length rs) a.next, ap (grown e (length rs)) a.runs, a.active, a.table)
