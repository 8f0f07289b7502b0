-- ===== src/TimerQueue/Index.antt =====
-- The map from ids to places, and the queue as a finite map from ids to nodes.
use libcold.Base.{ℕ, ◌<◌, ◌≡◌, List, Option, none, some, Option-cases, inl, inr, arith, length}
use libcold.TimerQueue.{TimerNode, TimerQueue, node_at, swap_nodes}
use libcold.TimerQueue.Order.{length-swap_heap, node_at-swap_heap}

-- Each node is where the map says, and the map has no other entries; so no two nodes share an id.
pub record IsIndexed (q : TimerQueue) : Type 0 where
  pub held : (i : ℕ) → i < length q.time_heap → q.index (node_at q.time_heap i).timer_id ≡ some i
  pub sound :
      (id i : ℕ)
      → q.index id ≡ some i
      → (i < length q.time_heap) × ((node_at q.time_heap i).timer_id ≡ id)

-- The queue as its clients see it.
abbrev pub node_of : Option ℕ → List TimerNode → Option TimerNode
node_of none h = none
node_of (some i) h = some (node_at h i)

abbrev pub lookup_timer : TimerQueue → ℕ → Option TimerNode
lookup_timer q id = node_of (q.index id) q.time_heap

module _ (q : TimerQueue) (i j : ℕ) (v : IsIndexed q) (hi : i < length q.time_heap)
    (hj : j < length q.time_heap) where
  swap_nodes-held :
      (c : ℕ)
      → c < length (swap_nodes q i j).time_heap
      → (swap_nodes q i j).index (node_at (swap_nodes q i j).time_heap c).timer_id ≡ some c
  unfolding swap_nodes
  swap_nodes-held c hc = ground (
    arith,
    length-swap_heap q.time_heap i j,
    node_at-swap_heap q.time_heap i j c hi hj,
    v.held i hi,
    v.held j hj,
    v.held c,
  )

  swap_nodes_sound :
      (id c : ℕ)
      → (swap_nodes q i j).index id ≡ some c
      → (c < length (swap_nodes q i j).time_heap)
        × ((node_at (swap_nodes q i j).time_heap c).timer_id ≡ id)
  unfolding swap_nodes
  swap_nodes_sound id c e =
      let at = node_at-swap_heap q.time_heap i j c hi hj in
      let same = length-swap_heap q.time_heap i j in
      (
        ground (arith, same, v.held i hi, v.held j hj, v.sound id c),
        ground (arith, at, v.held i hi, v.held j hj, v.sound id c),
      )

  pub swap_nodes-IsIndexed : IsIndexed (swap_nodes q i j)
  swap_nodes-IsIndexed = record { held = swap_nodes-held; sound = swap_nodes_sound }

  pub lookup_timer-swap_nodes : (id : ℕ) → lookup_timer (swap_nodes q i j) id ≡ lookup_timer q id
  unfolding swap_nodes
  lookup_timer-swap_nodes id = elim (Option-cases (q.index id)) [
    | inl e ↦ ground (arith, v.held i hi, v.held j hj)
    | inr (c, e) ↦ ground (
      arith,
      node_at-swap_heap q.time_heap i j i hi hj,
      node_at-swap_heap q.time_heap i j j hi hj,
      node_at-swap_heap q.time_heap i j c hi hj,
      v.held i hi,
      v.held j hj,
      v.sound id c,
    )
  ]
