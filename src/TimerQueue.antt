-- ===== src/TimerQueue.antt =====
-- cold/time/TimerQueue.h and TimerQueue.cpp: the timers of an event loop, in a binary heap with a
-- map from a timer's id to its place. Times are nanoseconds since the epoch, and not before it. A
-- task is a number that stands for the coroutine. A read of the heap is in range by the tests
-- before it, and the node for a read out of range is never seen.
pub mod Order
pub mod Index
pub mod Up
pub mod Down
pub mod Settle
pub mod Add
pub mod Edit
pub mod Pop
pub mod Timeout
mod Tests
use libcold.Base.{
  ℕ, zero, suc, ◌+◌, ◌-◌, ◌*◌, ◌/◌, ◌≡◌, List, [], ◌∷◌, ◌++◌, Bool, true, false, ◌&&◌, Option, none,
  some, ltb, leb, ◌==◌, if◌then◌else◌, length, get_or, set, take,
}

pub record TimerNode : Type 0 where
  pub timer_id : ℕ
  pub expiry : ℕ
  pub task : ℕ
  pub valid : Bool

-- The fields of cold/time/Timer.h that the queue reads.
pub record Timer : Type 0 where
  pub timer_id : ℕ
  pub expiry : ℕ
  pub task : ℕ

-- std::map<size_t, size_t>, of which only the entries matter here.
abbrev pub IndexMap : Type 0
IndexMap = ℕ → Option ℕ

pub record TimerQueue : Type 0 where
  pub time_heap : List TimerNode
  pub index : IndexMap

abbrev pub empty_queue : TimerQueue
empty_queue = record { time_heap = []; index = λ id. none }

abbrev null_node : TimerNode
null_node = record { timer_id = 0; expiry = 0; task = 0; valid = false }

abbrev pub node_at : List TimerNode → ℕ → TimerNode
node_at heap i = get_or heap i null_node

-- operator>
unfoldable pub node_gt : TimerNode → TimerNode → Bool
node_gt a b = if a.expiry == b.expiry then ltb b.timer_id a.timer_id else ltb b.expiry a.expiry

abbrev pub assign_index : IndexMap → ℕ → Option ℕ → IndexMap
assign_index m k v j = if k == j then v else m j

-- operator[] of the map, which is 0 for a new entry.
abbrev pub index_value : IndexMap → ℕ → ℕ
index_value m k = elim (m k) [ none ↦ 0 | some i ↦ i ]

abbrev pub swap_heap : List TimerNode → ℕ → ℕ → List TimerNode
swap_heap heap i j = set (set heap i (node_at heap j)) j (node_at heap i)

-- The two swaps of Fixup and FixDown: of the places in the map, then of the nodes.
unfoldable pub swap_nodes : TimerQueue → ℕ → ℕ → TimerQueue
swap_nodes q i j =
    let a = (node_at q.time_heap i).timer_id in
    let b = (node_at q.time_heap j).timer_id in
    record {
      time_heap = swap_heap q.time_heap i j;
      index =
          assign_index (assign_index q.index a (some (index_value q.index b))) b
            (some (index_value q.index a));
    }

abbrev pub parent_of : ℕ → ℕ
parent_of c = (c - 1) / 2

-- The loop of Fixup; `son` falls, so it makes at most `son` rounds.
unfoldable pub fixup_loop : ℕ → TimerQueue → ℕ → TimerQueue
fixup_loop zero q son = q
fixup_loop (suc k) q son =
    let rest = fixup_loop k (swap_nodes q (parent_of son) son) (parent_of son) in
    if son == 0
    then q
    else if node_gt (node_at q.time_heap (parent_of son)) (node_at q.time_heap son)
    then rest
    else q

unfoldable pub fixup : TimerQueue → ℕ → TimerQueue
fixup q son = fixup_loop son q son

-- The son that FixDown compares: the smaller one where there are two.
abbrev pub smaller_son : List TimerNode → ℕ → ℕ
smaller_son heap son =
    if ltb (son + 1) (length heap) && node_gt (node_at heap son) (node_at heap (son + 1))
    then son + 1
    else son

-- The loop of FixDown; `parent` grows, so it makes at most as many rounds as there are nodes.
unfoldable pub fix_down_loop : ℕ → TimerQueue → ℕ → TimerQueue
fix_down_loop zero q parent = q
fix_down_loop (suc k) q parent =
    let son = smaller_son q.time_heap (parent * 2 + 1) in
    let rest = fix_down_loop k (swap_nodes q parent son) son in
    if ltb (parent * 2 + 1) (length q.time_heap)
    then (if node_gt (node_at q.time_heap son) (node_at q.time_heap parent) then q else rest)
    else q

unfoldable pub fix_down : TimerQueue → ℕ → TimerQueue
fix_down q parent = fix_down_loop (length q.time_heap) q parent

-- AddTimer, given what the map holds for the id. A timer that is in the queue is only logged.
unfoldable pub add_at : Option ℕ → TimerQueue → Timer → TimerQueue
add_at (some i) q t = q
add_at none q t =
    let last = length q.time_heap in
    let node : TimerNode = record {
      timer_id = t.timer_id;
      expiry = t.expiry;
      task = t.task;
      valid = true;
    } in
    fixup
      (record {
        time_heap = q.time_heap ++ node ∷ [];
        index = assign_index q.index t.timer_id (some last);
      })
      last

unfoldable pub add_timer : TimerQueue → Timer → TimerQueue
unfolding add_at
add_timer q t = add_at (q.index t.timer_id) q t

unfoldable pub cancel_at : Option ℕ → TimerQueue → TimerQueue
cancel_at none q = q
cancel_at (some i) q = record q {
  time_heap = set q.time_heap i (record (node_at q.time_heap i) { valid = false });
}

unfoldable pub cancel_timer : TimerQueue → Timer → TimerQueue
unfolding cancel_at
cancel_timer q t = cancel_at (q.index t.timer_id) q

unfoldable pub update_at : Option ℕ → TimerQueue → ℕ → TimerQueue
update_at none q expiry = q
update_at (some i) q expiry =
    let moved = record q {
      time_heap = set q.time_heap i (record (node_at q.time_heap i) { expiry = expiry });
    } in
    fixup (fix_down moved i) i

unfoldable pub update_timer : TimerQueue → Timer → TimerQueue
unfolding update_at
update_timer q t = update_at (q.index t.timer_id) q t.expiry

-- One round of HandleTimeout's loop behind the test of the task: erase, swap, pop_back, FixDown.
unfoldable pub pop_front : TimerQueue → TimerQueue
pop_front q =
    let last = length q.time_heap - 1 in
    let erased = assign_index q.index (node_at q.time_heap 0).timer_id none in
    let swapped = swap_heap q.time_heap 0 last in
    fix_down
      (record {
        time_heap = take last swapped;
        index =
            if ltb 1 (length q.time_heap)
            then assign_index erased (node_at swapped 0).timer_id (some 0)
            else erased;
      })
      0

abbrev pub push_task : TimerNode → List ℕ → List ℕ
push_task n tasks = if n.valid then n.task ∷ tasks else tasks

-- The loop of HandleTimeout; each round takes one node out, so it makes at most as many as there are.
unfoldable pub timeout_loop : ℕ → ℕ → TimerQueue → TimerQueue × List ℕ
timeout_loop zero now q = (q, [])
timeout_loop (suc k) now q =
    let (q', tasks) = timeout_loop k now (pop_front q) in
    let front = node_at q.time_heap 0 in
    if ltb 0 (length q.time_heap) && leb front.expiry now
    then (q', push_task front tasks)
    else (q, [])

-- kDefaultTickMilliSeconds
abbrev pub default_tick : ℕ
default_tick = 500

abbrev pub milliseconds : ℕ → ℕ
milliseconds t = t / 1_000_000

unfoldable pub wait_time : ℕ → TimerQueue → ℕ
wait_time now q =
    let wait = milliseconds (node_at q.time_heap 0).expiry - milliseconds now in
    if ltb 0 (length q.time_heap)
    then (if ltb default_tick wait then default_tick else wait)
    else default_tick

-- The queue that is left, the tasks in the order in which they resume, and the wait.
unfoldable pub handle_timeout : ℕ → TimerQueue → TimerQueue × List ℕ × ℕ
handle_timeout now q =
    let (q', tasks) = timeout_loop (length q.time_heap) now q in (q', tasks, wait_time now q')
