-- ===== src/IoWatcher/Tests.antt =====
-- A set in the kernel, and the theorems at concrete calls.
use libcold.Base.{
  ℕ, ◌≡◌, refl, List, [], ◌∷◌, Bool, true, false, Option, none, some, ◌==◌, if◌then◌else◌, is_some,
}
use libcold.IoWatcher.{
  EventMask, IoEvent, new_event, no_events, IoWatcher, ReadyEvent, new_watcher, listen_read_event,
  listen_write_event, watch_io, solve_events, solve_event,
}
use libcold.IoWatcher.Linux.{Interest, put_mask, linux}
use libcold.IoWatcher.Mirror.{IsMirrored}
use libcold.IoWatcher.Runs.{Call, listen_read, listen_write, watch, call, calls, calls-IsMirrored}
use libcold.IoWatcher.Solve.{woken, settle}
use libcold.IoWatcher.Wakes.{watch_io-wakes}
use libcold.IoWatcher.Lost.{writable_only, listen_read_event_lost}

abbrev wake_mask : EventMask
wake_mask = record no_events { epollin = true }

abbrev started : IoWatcher Interest
started = record {
  epoll = put_mask 3 (some wake_mask) (λ _. none);
  wake_up_fd = 3;
  io_events = λ j. if j == 3 then some (record new_event { events = wake_mask }) else none;
  active_coroutines = [];
  room = 16;
}

new_watcher_listens : new_watcher linux (λ _. none) 3 ≡ some started
unfolding new_watcher
new_watcher_listens = refl

abbrev empty : IoWatcher Interest
empty = record started { epoll = λ _. none; io_events = λ _. none }

abbrev ready : ℕ → ReadyEvent
ready fd = record { fd = fd; readable = true; writable = true; disconnected = false }

abbrev session : List Call
session =
    listen_read 5 (some 8) ∷ listen_write 5 9 ∷ watch (some (ready 5 ∷ [])) ∷ listen_write 6 7 ∷ []

abbrev finish : Option (IoWatcher Interest) → List (Option ℕ) × Bool × Bool
finish none = ([], false, false)
finish (some w) = (w.active_coroutines, is_some (w.io_events 5), is_some (w.io_events 6))

session_runs : finish (calls linux session empty) ≡ (some 8 ∷ some 9 ∷ [], true, true)
unfolding calls call listen_read_event listen_write_event watch_io solve_events solve_event
session_runs = refl

abbrev reading : IoWatcher Interest
reading = record empty {
  epoll = put_mask 5 (some (record no_events { epollin = true; epollet = true })) (λ _. none);
  io_events = λ j.
      if j == 5
      then some (record new_event {
        events = record no_events { epollin = true; epollet = true };
        read_handle = some 8;
      })
      else none;
}

reading_session : calls linux (listen_read 5 (some 8) ∷ []) empty ≡ some reading
unfolding calls call listen_read_event
reading_session = refl

calls-IsMirrored_example : IsMirrored linux reading
calls-IsMirrored_example =
    calls-IsMirrored linux (listen_read 5 (some 8) ∷ []) empty reading (λ fd. refl) reading_session

watch_io-wakes_example :
    (w' : IoWatcher Interest) × (watch_io linux (some (ready 5 ∷ [])) reading ≡ some w')
    × (w'.active_coroutines ≡ woken 3 reading.io_events (ready 5 ∷ []))
    × ((j : ℕ) → w'.io_events j ≡ settle 3 reading.io_events (ready 5 ∷ []) j)
watch_io-wakes_example = watch_io-wakes linux (ready 5 ∷ []) reading (refl, tt, tt)

abbrev writer : IoEvent
writer = record new_event {
  events = record no_events { epollout = true; epollet = true };
  write_handle = some 9;
}

abbrev writing : IoWatcher Interest
writing = record empty {
  epoll = put_mask 5 (some writer.events) (λ _. none);
  io_events = λ j. if j == 5 then some writer else none;
}

listen_read_event_lost_example :
    (w1 : IoWatcher Interest) × (w2 : IoWatcher Interest) × (listen_read_event linux 5
        (some 8)
        writing
      ≡ some w1)
    × (w1.epoll ≡ writing.epoll)
    × (watch_io linux (some (writable_only 5 ∷ [])) w1 ≡ some w2)
    × (w2.active_coroutines ≡ some 9 ∷ [])
    × (w2.io_events 5 ≡ none)
listen_read_event_lost_example = listen_read_event_lost linux writing 5 8 writer refl refl refl refl
