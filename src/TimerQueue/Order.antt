-- ===== src/TimerQueue/Order.antt =====
-- The order of the nodes, and the heap order.
use libcold.Base.{
  ℕ, zero, suc, ◌≤◌, ◌<◌, ◌≡◌, ◌≢◌, List, true, false, arith, length, ◌==◌, if◌then◌else◌, set,
  get_or-set, length-set,
}
use libcold.TimerQueue.{TimerNode, node_gt, node_at, null_node, parent_of, swap_heap}

-- `a` comes no later than `b`.
abbrev pub NotAfter : TimerNode → TimerNode → Type 0
NotAfter a b = node_gt a b ≡ false

pub NotAfter-refl : (a : TimerNode) → NotAfter a a
unfolding node_gt
NotAfter-refl a = ground arith

pub NotAfter-trans : (a b c : TimerNode) → NotAfter a b → NotAfter b c → NotAfter a c
unfolding node_gt
NotAfter-trans a b c p q = ground arith

pub NotAfter-of_gt : (a b : TimerNode) → node_gt a b ≡ true → NotAfter b a
unfolding node_gt
NotAfter-of_gt a b p = ground arith

pub NotAfter-expiry : (a b : TimerNode) → NotAfter a b → a.expiry ≤ b.expiry
unfolding node_gt
NotAfter-expiry a b p = ground arith

pub gt_of_ne : (a b : TimerNode) → NotAfter a b → a.timer_id ≢ b.timer_id → node_gt b a ≡ true
unfolding node_gt
gt_of_ne a b p ne = ground arith

-- No node comes before its parent.
abbrev pub IsHeap : List TimerNode → Type 0
IsHeap h = (c : ℕ) → 0 < c → c < length h → NotAfter (node_at h (parent_of c)) (node_at h c)

root_least_below :
    (k : ℕ) (h : List TimerNode) (c : ℕ)
    → IsHeap h
    → c < k
    → c < length h
    → NotAfter (node_at h 0) (node_at h c)
root_least_below zero h c heap f p = absurd (omega arith)
root_least_below (suc k) h zero heap f p = NotAfter-refl (node_at h 0)
root_least_below (suc k) h (suc c) heap f p =
    NotAfter-trans (node_at h 0) (node_at h (parent_of (suc c))) (node_at h (suc c))
      (root_least_below k h (parent_of (suc c)) heap (omega arith) (omega arith))
      (heap (suc c) (omega arith) p)

-- The root of a heap is the first node.
pub root_least :
    (h : List TimerNode) (c : ℕ) → IsHeap h → c < length h → NotAfter (node_at h 0) (node_at h c)
root_least h c heap p = root_least_below (suc c) h c heap (omega arith) p

pub length-swap_heap : (h : List TimerNode) (i j : ℕ) → length (swap_heap h i j) ≡ length h
length-swap_heap h i j =
    omega (arith, length-set (set h i (node_at h j)) j (node_at h i), length-set h i (node_at h j))

pub node_at-swap_heap :
    (h : List TimerNode) (i j c : ℕ)
    → i < length h
    → j < length h
    → node_at (swap_heap h i j) c
      ≡ (if j == c then node_at h i else if i == c then node_at h j else node_at h c)
node_at-swap_heap h i j c hi hj = ground (
  arith,
  length-set h i (node_at h j),
  get_or-set null_node (set h i (node_at h j)) j c (node_at h i),
  get_or-set null_node h i c (node_at h j),
)
