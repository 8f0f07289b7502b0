-- ===== src/IoService.antt =====
-- cold/coro/IoService.h and IoService.cpp: the event loop, over TimerQueue and IoWatcher. A task is
-- the number of its coroutine. What a coroutine does until it is suspended again, the task that
-- WrapTask makes, and epoll_wait are parameters. `added` and `started` record the calls of AddTask
-- and the resumptions of pending tasks.
pub mod Rounds
mod Tests
use libcold.Base.{
  ℕ, List, [], ◌∷◌, ◌++◌, map, Bool, true, false, not, Option, none, some, ◌==◌, if◌then◌else◌,
  ◌>>=◌,
}
use libcold.IoWatcher.{Epoll, IoWatcher, ReadyEvent, watch_io}
use libcold.TimerQueue.{TimerQueue, handle_timeout}

pub record IoService (Kernel : Type 0) : Type 0 where
  pub running : Bool
  pub io_watcher : IoWatcher Kernel
  pub timer_queue : TimerQueue
  pub pending_tasks : List ℕ
  pub await_completion_tasks : List ℕ
  pub completion_tasks : List ℕ
  pub added : List ℕ
  pub started : List ℕ

abbrev pub is_among : ℕ → List ℕ → Bool
is_among t [] = false
is_among t (c ∷ cs) = if t == c then true else is_among t cs

-- awaitCompletionTasks_.erase of each completion.
abbrev pub erase_all : List ℕ → List ℕ → List ℕ
erase_all done [] = []
erase_all done (t ∷ ts) = if is_among t done then erase_all done ts else t ∷ erase_all done ts

module _ {Kernel : Type 0} where
  -- AddTask; WakeUp writes the counter that the kernel has.
  unfoldable pub add_task : ℕ → IoService Kernel → IoService Kernel
  add_task t s = record s { pending_tasks = s.pending_tasks ++ t ∷ []; added = s.added ++ t ∷ [] }

  unfoldable pub stop : IoService Kernel → IoService Kernel
  stop s = record s { running = false }

  abbrev pub clear_completions : IoService Kernel → IoService Kernel
  clear_completions s = record s {
    completion_tasks = [];
    await_completion_tasks = erase_all s.completion_tasks s.await_completion_tasks;
  }

module _ {Kernel : Type 0} (resume : ℕ → IoService Kernel → IoService Kernel) where
  abbrev pub start_task : ℕ → IoService Kernel → IoService Kernel
  start_task t s = resume t (record s {
    await_completion_tasks = t ∷ s.await_completion_tasks;
    started = s.started ++ t ∷ [];
  })

  unfoldable pub start_tasks : List ℕ → IoService Kernel → IoService Kernel
  start_tasks [] s = s
  start_tasks (t ∷ ts) s = start_tasks ts (start_task t s)

  abbrev pub start_pending : IoService Kernel → IoService Kernel
  start_pending s = start_tasks s.pending_tasks (record s { pending_tasks = [] })

  abbrev pub start_timer_task : ℕ → IoService Kernel → IoService Kernel
  start_timer_task t s =
      resume t (record s { await_completion_tasks = t ∷ s.await_completion_tasks })

  -- noop_coroutine() does nothing.
  unfoldable pub resume_all : List (Option ℕ) → IoService Kernel → IoService Kernel
  resume_all [] s = s
  resume_all (none ∷ hs) s = resume_all hs s
  resume_all (some h ∷ hs) s = resume_all hs (resume h s)

module _ {Kernel : Type 0} (resume : ℕ → IoService Kernel → IoService Kernel)
    (wrap_task : ℕ → ℕ) where
  unfoldable pub start_timer_tasks : List ℕ → IoService Kernel → IoService Kernel
  start_timer_tasks [] s = s
  start_timer_tasks (t ∷ ts) s = start_timer_tasks ts (start_timer_task resume (wrap_task t) s)

  -- The wait is what HandleTimeout says before the tasks of the timers run.
  abbrev pub run_timers : ℕ → IoService Kernel → IoService Kernel × ℕ
  run_timers now s =
      let (queue, tasks, wait) = handle_timeout now s.timer_queue in
      (start_timer_tasks tasks (record s { timer_queue = queue }), wait)

module _ (e : Epoll) (resume : ℕ → IoService e.Kernel → IoService e.Kernel) (wrap_task : ℕ → ℕ)
    (epoll_wait : ℕ → IoWatcher e.Kernel → Option (List ReadyEvent)) where
  open e use {Kernel}

  abbrev pub run_io : IoService Kernel × ℕ → Option (IoService Kernel)
  run_io (s, wait) = do
    w ← watch_io e (epoll_wait wait s.io_watcher) s.io_watcher
    some (resume_all resume w.active_coroutines (record s { io_watcher = w }))

  -- A round of the loop of Start.
  unfoldable pub round : ℕ → IoService Kernel → Option (IoService Kernel)
  unfolding start_tasks start_timer_tasks resume_all
  round now s = do
    s' ← run_io (run_timers resume wrap_task now (start_pending resume s))
    some (clear_completions s')

  abbrev pub while_running :
      Bool
      → (IoService Kernel → Option (IoService Kernel))
      → IoService Kernel
      → Option (IoService Kernel)
  while_running true next s = next s
  while_running false next s = some s

  -- The loop, for as many rounds as there are times; it ends when it is stopped.
  unfoldable pub start_loop : List ℕ → IoService Kernel → Option (IoService Kernel)
  unfolding round
  start_loop [] s = some s
  start_loop (now ∷ times) s =
      while_running s.running (λ s'. round now s' >>= λ s''. start_loop times s'') s
