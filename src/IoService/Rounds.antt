-- ===== src/IoService/Rounds.antt =====
-- The order in which the event loop starts its tasks.
use libcold.Base.{
  ℕ, ◌≡◌, refl, sym, ap, ◌∙◌, List, [], ◌∷◌, ◌++◌, append-nil, append_assoc, Option, none, some,
}
use libcold.IoWatcher.{Epoll, IoWatcher, ReadyEvent}
use libcold.IoWatcher.Solve.{IsBatch}
use libcold.IoWatcher.Wakes.{watch_io-wakes}
use libcold.TimerQueue.{handle_timeout}
use libcold.IoService.{
  IoService, start_tasks, start_timer_tasks, resume_all, round, start_pending, clear_completions,
}

-- A coroutine adds tasks with AddTask and starts none.
pub record OnlyAdds {Kernel : Type 0} (s s' : IoService Kernel) : Type 0 where
  pub new : List ℕ
  pub pending : s'.pending_tasks ≡ s.pending_tasks ++ new
  pub added : s'.added ≡ s.added ++ new
  pub started : s'.started ≡ s.started

nothing_new : {Kernel : Type 0} (s : IoService Kernel) → OnlyAdds s s
nothing_new s = record {
  new = [];
  pending = sym (append-nil s.pending_tasks);
  added = sym (append-nil s.added);
  started = refl;
}

OnlyAdds-trans :
    {Kernel : Type 0} (s s' s'' : IoService Kernel)
    → OnlyAdds s s'
    → OnlyAdds s' s''
    → OnlyAdds s s''
OnlyAdds-trans s s' s'' a b = record {
  new = a.new ++ b.new;
  pending = b.pending ∙ ap (λ p. p ++ b.new) a.pending ∙ append_assoc s.pending_tasks a.new b.new;
  added = b.added ∙ ap (λ p. p ++ b.new) a.added ∙ append_assoc s.added a.new b.new;
  started = b.started ∙ a.started;
}

regroup :
    (a : List ℕ) (t : ℕ) (b c d : List ℕ)
    → (a ++ (t ∷ (b ++ c))) ++ d ≡ (a ++ t ∷ []) ++ (b ++ (c ++ d))
regroup a t b c d = simp append_assoc refl

-- The tasks that were added are those that were started and then those that are pending.
abbrev pub InOrder : {Kernel : Type 0} → IoService Kernel → Type 0
InOrder s = s.added ≡ s.started ++ s.pending_tasks

InOrder-OnlyAdds :
    {Kernel : Type 0} (s s' : IoService Kernel) → OnlyAdds s s' → InOrder s → InOrder s'
InOrder-OnlyAdds s s' o h =
    o.added
    ∙ ap (λ x. x ++ o.new) h
    ∙ append_assoc s.started s.pending_tasks o.new
    ∙ ap (λ x. s.started ++ x) (sym o.pending)
    ∙ ap (λ x. x ++ s'.pending_tasks) (sym o.started)

module _ {Kernel : Type 0} (resume : ℕ → IoService Kernel → IoService Kernel)
    (resume_lem : (t : ℕ) (s : IoService Kernel) → OnlyAdds s (resume t s)) where
  -- `ts` are the tasks that are still to be started in this round.
  start_tasks-order :
      (ts : List ℕ) (s : IoService Kernel)
      → s.added ≡ s.started ++ (ts ++ s.pending_tasks)
      → ((start_tasks resume ts s).started ≡ s.started ++ ts)
        × ((start_tasks resume ts s).added
            ≡ (start_tasks resume ts s).started ++ (start_tasks resume ts s).pending_tasks)
  unfolding start_tasks
  start_tasks-order [] s h = (sym (append-nil s.started), h)
  start_tasks-order (t ∷ ts) s h =
      let s1 : IoService Kernel = record s {
        await_completion_tasks = t ∷ s.await_completion_tasks;
        started = s.started ++ t ∷ [];
      } in
      let o = resume_lem t s1 in
      let later = start_tasks-order ts (resume t s1) (
        o.added
        ∙ ap (λ x. x ++ o.new) h
        ∙ regroup s.started t ts s.pending_tasks o.new
        ∙ ap (λ x. x ++ (ts ++ (s.pending_tasks ++ o.new))) (sym o.started)
        ∙ ap (λ x. (resume t s1).started ++ (ts ++ x)) (sym o.pending)) in
      (later.0 ∙ ap (λ x. x ++ ts) o.started ∙ append_assoc s.started (t ∷ []) ts, later.1)

  OnlyAdds-start_timer_tasks :
      (wrap_task : ℕ → ℕ) (ts : List ℕ) (s : IoService Kernel)
      → OnlyAdds s (start_timer_tasks resume wrap_task ts s)
  unfolding start_timer_tasks
  OnlyAdds-start_timer_tasks wrap_task [] s = nothing_new s
  OnlyAdds-start_timer_tasks wrap_task (t ∷ ts) s =
      let s1 : IoService Kernel = record s {
        await_completion_tasks = wrap_task t ∷ s.await_completion_tasks;
      } in
      let o = resume_lem (wrap_task t) s1 in
      OnlyAdds-trans s (resume (wrap_task t) s1)
        (start_timer_tasks resume wrap_task ts (resume (wrap_task t) s1))
        (record { new = o.new; pending = o.pending; added = o.added; started = o.started })
        (OnlyAdds-start_timer_tasks wrap_task ts (resume (wrap_task t) s1))

  OnlyAdds-resume_all :
      (hs : List (Option ℕ)) (s : IoService Kernel) → OnlyAdds s (resume_all resume hs s)
  unfolding resume_all
  OnlyAdds-resume_all [] s = nothing_new s
  OnlyAdds-resume_all (none ∷ hs) s = OnlyAdds-resume_all hs s
  OnlyAdds-resume_all (some h ∷ hs) s =
      OnlyAdds-trans s (resume h s) (resume_all resume hs (resume h s)) (resume_lem h s)
        (OnlyAdds-resume_all hs (resume h s))

module _ (e : Epoll) (resume : ℕ → IoService e.Kernel → IoService e.Kernel)
    (resume_lem : (t : ℕ) (s : IoService e.Kernel) → OnlyAdds s (resume t s)) (wrap_task : ℕ → ℕ)
    (epoll_wait : ℕ → IoWatcher e.Kernel → List ReadyEvent)
    (epoll_wait_lem : (wait : ℕ) (w : IoWatcher e.Kernel)
      → IsBatch w.io_events (epoll_wait wait w)) where
  open e use {Kernel}

  -- Where coroutines start no tasks and add them with AddTask only, and epoll_wait tells each
  -- descriptor of the table once at most and no other, a round of the event loop does not fail. It
  -- starts exactly the tasks that were pending at its begin, in the order in which they were added.
  -- What coroutines add meanwhile is pending afterwards, in order.
  pub round-InOrder :
      (now : ℕ) (s : IoService Kernel)
      → InOrder s
      → (s' : IoService Kernel) × (round e resume wrap_task
            (λ wait w. some (epoll_wait wait w))
            now
            s
          ≡ some s')
        × (s'.started ≡ s.started ++ s.pending_tasks)
        × InOrder s'
  unfolding round
  round-InOrder now s h =
      let s0 : IoService Kernel = record s { pending_tasks = [] } in
      let s1 = start_pending resume s in
      let begun =
        start_tasks-order resume resume_lem s.pending_tasks s0
          (h ∙ ap (λ x. s.started ++ x) (sym (append-nil s.pending_tasks))) in
      let due = handle_timeout now s1.timer_queue in
      let s1' : IoService Kernel = record s1 { timer_queue = due.0 } in
      let s2 = start_timer_tasks resume wrap_task due.1 s1' in
      let timers = OnlyAdds-start_timer_tasks resume resume_lem wrap_task due.1 s1' in
      let watched =
        watch_io-wakes e (epoll_wait due.2 s2.io_watcher) s2.io_watcher
          (epoll_wait_lem due.2 s2.io_watcher) in
      let s2' : IoService Kernel = record s2 { io_watcher = watched.0 } in
      let s3 = resume_all resume watched.0.active_coroutines s2' in
      let woken = OnlyAdds-resume_all resume resume_lem watched.0.active_coroutines s2' in
      (
        clear_completions s3,
        rw watched.1 refl,
        woken.started ∙ timers.started ∙ begun.0,
        InOrder-OnlyAdds s2' s3 woken (InOrder-OnlyAdds s1' s2 timers begun.1),
      )
