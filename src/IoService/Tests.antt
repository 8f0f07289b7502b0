-- ===== src/IoService/Tests.antt =====
-- An event loop whose coroutines add tasks and timers.
use libcold.Base.{ℕ, ◌≡◌, refl, List, [], ◌∷◌, ◌++◌, Option, none, some, true, ◌==◌, if◌then◌else◌}
use libcold.IoWatcher.{IoWatcher, watch_io, solve_events}
use libcold.IoWatcher.Linux.{Interest, linux}
use libcold.TimerQueue.{
  empty_queue, add_timer, handle_timeout, timeout_loop, wait_time, pop_front, fix_down,
  fix_down_loop,
}
use libcold.IoService.{
  IoService, add_task, stop, start_tasks, start_timer_tasks, resume_all, round, start_loop,
  run_timers,
}
use libcold.IoService.Rounds.{InOrder, OnlyAdds, round-InOrder}

abbrev idle_watcher : IoWatcher Interest
idle_watcher = record {
  epoll = λ _. none;
  wake_up_fd = 3;
  io_events = λ _. none;
  active_coroutines = [];
  room = 16;
}

abbrev service_with : List ℕ → IoService Interest
service_with tasks = record {
  running = true;
  io_watcher = idle_watcher;
  timer_queue = empty_queue;
  pending_tasks = tasks;
  await_completion_tasks = [];
  completion_tasks = [];
  added = tasks;
  started = [];
}

-- Every coroutine adds task 9 and is complete.
abbrev adds_nine : ℕ → IoService Interest → IoService Interest
adds_nine t s = record s {
  pending_tasks = s.pending_tasks ++ 9 ∷ [];
  added = s.added ++ 9 ∷ [];
  completion_tasks = s.completion_tasks ++ t ∷ [];
}

adds_nine-OnlyAdds : (t : ℕ) (s : IoService Interest) → OnlyAdds s (adds_nine t s)
adds_nine-OnlyAdds t s = record { new = 9 ∷ []; pending = refl; added = refl; started = refl }

round-InOrder_example :
    (s' : IoService Interest) × (round linux adds_nine
        (λ t. t)
        (λ wait w. some [])
        100
        (service_with (1 ∷ 2 ∷ []))
      ≡ some s')
    × (s'.started ≡ 1 ∷ 2 ∷ [])
    × InOrder s'
round-InOrder_example =
    round-InOrder linux adds_nine adds_nine-OnlyAdds (λ t. t) (λ wait w. []) (λ wait w. tt) 100
      (service_with (1 ∷ 2 ∷ [])) refl

abbrev pending_of : Option (IoService Interest) → List ℕ
pending_of none = []
pending_of (some s) = s.pending_tasks

-- A second round starts what the first has added, and a third is not run once the loop is stopped.
abbrev stops_at_nine : ℕ → IoService Interest → IoService Interest
stops_at_nine t s = if t == 9 then stop s else add_task 9 s

two_rounds :
    pending_of (
      start_loop linux stops_at_nine
        (λ t. t)
        (λ wait w. some [])
        (100 ∷ 200 ∷ 300 ∷ [])
        (service_with (1 ∷ [])))
    ≡ []
unfolding start_loop round start_tasks start_timer_tasks resume_all add_task stop watch_io
    solve_events handle_timeout timeout_loop wait_time
two_rounds = refl

-- The task of a timer that is due arms a timer for 100 milliseconds later: the loop waits for 500.
abbrev arms_timer : ℕ → IoService Interest → IoService Interest
arms_timer t s = record s {
  timer_queue = add_timer s.timer_queue (record { timer_id = 2; expiry = 1_100_000_000; task = 8 });
}

abbrev due_timer : IoService Interest
due_timer = record (service_with []) {
  timer_queue = record {
    time_heap = record { timer_id = 1; expiry = 1_000_000_000; task = 7; valid = true } ∷ [];
    index = λ id. if id == 1 then some 0 else none;
  };
}

rearmed_timer_waits : (run_timers arms_timer (λ t. t) 1_000_000_000 due_timer).1 ≡ 500
unfolding handle_timeout timeout_loop wait_time pop_front fix_down fix_down_loop
rearmed_timer_waits = refl
