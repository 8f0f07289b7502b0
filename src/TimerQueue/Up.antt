-- ===== src/TimerQueue/Up.antt =====
-- Fixup restores the heap order above one node.
use libcold.Base.{
  ℕ, zero, suc, ◌≤◌, ◌<◌, ◌≡◌, ◌≢◌, refl, ◌∙◌, List, true, arith, length, ◌==◌, if◌then◌else◌,
  Bool-cases, inl, inr,
}
use native.Mathlib.Decide.{ℕ_discrete}
use libcold.TimerQueue.{
  TimerNode, TimerQueue, node_gt, node_at, parent_of, swap_heap, swap_nodes, fixup_loop, fixup,
}
use libcold.TimerQueue.Order.{
  NotAfter, NotAfter-trans, NotAfter-of_gt, IsHeap, length-swap_heap, node_at-swap_heap,
}
use libcold.TimerQueue.Index.{
  IsIndexed, lookup_timer, swap_nodes-IsIndexed, lookup_timer-swap_nodes,
}

-- The edges are in order but perhaps the one above `s`, and the sons of `s` fit its parent.
pub record IsUp (h : List TimerNode) (s : ℕ) : Type 0 where
  pub inside : s < length h
  pub edges :
      (c : ℕ) → 0 < c → c < length h → c ≢ s → NotAfter (node_at h (parent_of c)) (node_at h c)
  pub bridged :
      (c : ℕ)
      → 0 < c
      → c < length h
      → parent_of c ≡ s
      → 0 < s
      → NotAfter (node_at h (parent_of s)) (node_at h c)

-- `r` is a heap of the timers of `q`.
pub record Repairs (q r : TimerQueue) : Type 0 where
  pub heap : IsHeap r.time_heap
  pub indexed : IsIndexed r
  pub same : (id : ℕ) → lookup_timer r id ≡ lookup_timer q id
  pub size : length r.time_heap ≡ length q.time_heap

module _ (h : List TimerNode) (s : ℕ) (u : IsUp h s) (pos : 0 < s)
    (later : node_gt (node_at h (parent_of s)) (node_at h s) ≡ true) where
  at :
      (c : ℕ)
      → node_at (swap_heap h (parent_of s) s) c ≡ (
          if s == c
          then node_at h (parent_of s)
          else if parent_of s == c
          then node_at h s
          else node_at h c)
  at c = let inside = u.inside in node_at-swap_heap h (parent_of s) s c (omega arith) u.inside

  rise : NotAfter (node_at h s) (node_at h (parent_of s))
  rise = NotAfter-of_gt _ _ later

  rise-edges :
      (c : ℕ)
      → 0 < c
      → c < length (swap_heap h (parent_of s) s)
      → c ≢ parent_of s
      → NotAfter
          (node_at (swap_heap h (parent_of s) s) (parent_of c))
          (node_at (swap_heap h (parent_of s) s) c)
  rise-edges c p k ne = ground (
    arith,
    rise,
    at c,
    at (parent_of c),
    length-swap_heap h (parent_of s) s,
    u.edges c,
    u.bridged c,
    NotAfter-trans (node_at h s) (node_at h (parent_of s)) (node_at h c),
  )

  rise-bridged :
      (c : ℕ)
      → 0 < c
      → c < length (swap_heap h (parent_of s) s)
      → parent_of c ≡ parent_of s
      → 0 < parent_of s
      → NotAfter
          (node_at (swap_heap h (parent_of s) s) (parent_of (parent_of s)))
          (node_at (swap_heap h (parent_of s) s) c)
  rise-bridged c p k e pos' = ground (
    arith,
    at c,
    at (parent_of (parent_of s)),
    length-swap_heap h (parent_of s) s,
    u.inside,
    u.edges c,
    u.edges (parent_of s),
    NotAfter-trans (node_at h (parent_of (parent_of s))) (node_at h (parent_of s)) (node_at h c),
  )

  rise-IsUp : IsUp (swap_heap h (parent_of s) s) (parent_of s)
  rise-IsUp = record {
    inside = let inside = u.inside in omega (arith, length-swap_heap h (parent_of s) s);
    edges = rise-edges;
    bridged = rise-bridged;
  }

IsUp-root : (h : List TimerNode) (s : ℕ) → IsUp h s → s ≡ 0 → IsHeap h
IsUp-root h s u e c p k = u.edges c p k (omega arith)

IsUp-rest :
    (h : List TimerNode) (s : ℕ)
    → IsUp h s
    → NotAfter (node_at h (parent_of s)) (node_at h s)
    → IsHeap h
IsUp-rest h s u below c p k = elim (ℕ_discrete c s) [
  | yes e ↦ rw e below
  | no ne ↦ u.edges c p k ne
]

pub Repairs-step :
    {q q' r : TimerQueue}
    → ((id : ℕ) → lookup_timer q' id ≡ lookup_timer q id)
    → length q'.time_heap ≡ length q.time_heap
    → Repairs q' r
    → Repairs q r
Repairs-step same size f = record {
  heap = f.heap;
  indexed = f.indexed;
  same = λ id. f.same id ∙ same id;
  size = f.size ∙ size;
}

pub length-swap_nodes :
    (q : TimerQueue) (i j : ℕ) → length (swap_nodes q i j).time_heap ≡ length q.time_heap
unfolding swap_nodes
length-swap_nodes q i j = length-swap_heap q.time_heap i j

swap_nodes-IsUp :
    (q : TimerQueue) (s : ℕ)
    → IsUp q.time_heap s
    → 0 < s
    → node_gt (node_at q.time_heap (parent_of s)) (node_at q.time_heap s) ≡ true
    → IsUp (swap_nodes q (parent_of s) s).time_heap (parent_of s)
unfolding swap_nodes
swap_nodes-IsUp q s u pos later = rise-IsUp q.time_heap s u pos later

fixup_loop-Repairs :
    (k : ℕ) (q : TimerQueue) (s : ℕ)
    → s ≤ k
    → IsUp q.time_heap s
    → IsIndexed q
    → Repairs q (fixup_loop k q s)
unfolding fixup_loop
fixup_loop-Repairs zero q s le u v = record {
  heap = IsUp-root q.time_heap s u (omega arith);
  indexed = v;
  same = λ id. refl;
  size = refl;
}
fixup_loop-Repairs (suc k) q s le u v = elim (Bool-cases (s == 0)) [
  | inl z ↦ rw z (record {
    heap = IsUp-root q.time_heap s u (ground arith);
    indexed = v;
    same = λ id. refl;
    size = refl;
  })
  | inr pos ↦
      rw pos
        (elim (Bool-cases (node_gt (node_at q.time_heap (parent_of s)) (node_at q.time_heap s))) [
          | inr below ↦ rw below (record {
            heap = IsUp-rest q.time_heap s u below;
            indexed = v;
            same = λ id. refl;
            size = refl;
          })
          | inl later ↦
              let s_pos : 0 < s = ground arith in
              let inside = u.inside in
              let p_inside : parent_of s < length q.time_heap = omega arith in
              rw later (
                Repairs-step (lookup_timer-swap_nodes q (parent_of s) s v p_inside u.inside)
                  (length-swap_nodes q (parent_of s) s)
                  (fixup_loop-Repairs k (swap_nodes q (parent_of s) s) (parent_of s) (omega arith)
                    (swap_nodes-IsUp q s u s_pos later)
                    (swap_nodes-IsIndexed q (parent_of s) s v p_inside u.inside)))
        ])
]

-- Fixup makes a heap of the same timers, wherever the heap order failed only above the node.
pub fixup-Repairs :
    (q : TimerQueue) (s : ℕ) → IsUp q.time_heap s → IsIndexed q → Repairs q (fixup q s)
unfolding fixup
fixup-Repairs q s u v = fixup_loop-Repairs s q s (omega arith) u v
