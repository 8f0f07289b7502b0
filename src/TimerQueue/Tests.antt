-- ===== src/TimerQueue/Tests.antt =====
-- A queue of three timers.
use libcold.Base.{ℕ, ◌*◌, ◌≡◌, ◌≤◌, refl, [], ◌∷◌}
use libcold.TimerQueue.{
  Timer, TimerQueue, empty_queue, add_timer, cancel_timer, update_timer, handle_timeout,
  timeout_loop, pop_front, fixup, fixup_loop, fix_down, fix_down_loop, swap_nodes, node_gt,
  wait_time,
}
use libcold.TimerQueue.Add.{IsValid, add_timer_correct, empty_queue-IsValid}
use libcold.TimerQueue.Edit.{cancel_timer_correct, update_timer_correct}
use libcold.TimerQueue.Timeout.{handle_timeout_correct}

abbrev timer : ℕ → ℕ → Timer
timer id ms = record { timer_id = id; expiry = ms * 1_000_000; task = id * 10 }

abbrev two : TimerQueue
two = add_timer (add_timer empty_queue (timer 1 50)) (timer 2 30)

abbrev three : TimerQueue
three = add_timer two (timer 3 40)

two-IsValid : IsValid two
two-IsValid =
    (add_timer_correct (add_timer empty_queue (timer 1 50)) (timer 2 30)
      (add_timer_correct empty_queue (timer 1 50) empty_queue-IsValid).0).0

add_timer_correct_example : IsValid three
add_timer_correct_example = (add_timer_correct two (timer 3 40) two-IsValid).0

three-IsValid : IsValid three
three-IsValid = (add_timer_correct two (timer 3 40) two-IsValid).0

due_tasks : (handle_timeout 45_000_000 three).1 ≡ 20 ∷ 30 ∷ []
unfolding add_timer handle_timeout timeout_loop pop_front fixup fixup_loop fix_down fix_down_loop
    swap_nodes node_gt
due_tasks = refl

next_wait : (handle_timeout 45_000_000 three).2 ≡ 5
unfolding add_timer handle_timeout timeout_loop pop_front fixup fixup_loop fix_down fix_down_loop
    swap_nodes node_gt wait_time
next_wait = refl

cancelled_tasks : (handle_timeout 45_000_000 (cancel_timer three (timer 2 0))).1 ≡ 30 ∷ []
unfolding add_timer handle_timeout timeout_loop pop_front fixup fixup_loop fix_down fix_down_loop
    swap_nodes node_gt cancel_timer
cancelled_tasks = refl

updated_tasks : (handle_timeout 100_000_000 (update_timer three (timer 2 60))).1 ≡ 30 ∷ 10 ∷ 20 ∷ []
unfolding add_timer handle_timeout timeout_loop pop_front fixup fixup_loop fix_down fix_down_loop
    swap_nodes node_gt update_timer
updated_tasks = refl

cancel_timer_correct_example : IsValid (cancel_timer three (timer 2 0))
cancel_timer_correct_example = (cancel_timer_correct three (timer 2 0) three-IsValid).0

update_timer_correct_example : IsValid (update_timer three (timer 2 60))
update_timer_correct_example = (update_timer_correct three (timer 2 60) three-IsValid).0

handle_timeout_correct_example : (handle_timeout 45_000_000 three).2 ≤ 500
handle_timeout_correct_example = (handle_timeout_correct 45_000_000 three three-IsValid).1
