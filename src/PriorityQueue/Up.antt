-- ===== src/PriorityQueue/Up.antt =====
-- `bubbleUp` puts a node that may belong higher into its place.
use autobeat.Prelude.{ℕ, zero, suc, ◌<◌, List, length, ltb, ◌≢◌, arith, Bool-cases, inl, inr}
use autobeat.Prelude.Array
use autobeat.PriorityQueue.{
  HeapNode, PriorityTaskQueue, swap, swaps, parent, bubble_up_on, bubble_up,
}
use autobeat.PriorityQueue.Order.{
  key_at, IsFresh, IsSettled, IsHeap, IsBridged, swaps-key_at, key_at-swap,
}
use autobeat.PriorityQueue.Kept.{swap-heap, IsFresh-swap}

module _ (bound : ℕ) where
  -- Only the edge above the node may be out of order.
  pub record MayRise (a : List HeapNode) (i : ℕ) : Type 0 where
    pub inside : i < length a
    pub others : (n : ℕ) → n ≢ i → IsSettled bound a n
    pub bridged : IsBridged bound a i

  swap-MayRise :
      (a : List HeapNode) (i : ℕ)
      → MayRise a i
      → 0 < i
      → key_at bound a i < key_at bound a (parent i)
      → MayRise (Array.swap a (parent i) i) (parent i)
  swap-MayRise a i v pos below =
      let up : parent i < length a = omega (arith, v.inside) in
      let size = Array.length-swap a (parent i) i in
      let moved = key_at-swap bound a (parent i) i up v.inside in
      record {
        inside = omega (arith, size, up);
        others = λ c t p q.
            ground (arith, moved c, moved (parent c), v.others c, v.others (parent i), v.bridged c);
        bridged = λ c t u p q.
            ground (arith, moved c, moved (parent (parent i)), v.others c, v.others (parent i));
      }

  bubble_up_on-IsHeap :
      (fuel : ℕ) (q : PriorityTaskQueue) (i : ℕ)
      → i < fuel
      → IsFresh bound q.heap
      → MayRise q.heap i
      → IsHeap bound (bubble_up_on fuel q i).heap
  unfolding bubble_up_on
  bubble_up_on-IsHeap zero q i f fresh v = absurd (omega arith)
  bubble_up_on-IsHeap (suc fuel) q i f fresh v =
      let up : parent i < length q.heap = omega (arith, v.inside) in
      let test = swaps-key_at bound q.heap (parent i) i up v.inside fresh in
      elim (Bool-cases (ltb 0 i)) [
        | inr root ↦ rw (root, bubble_up_on) (λ c p q. v.others c (ground arith) p q)
        | inl pos ↦ elim (Bool-cases (swaps q.heap (parent i) i)) [
          | inr settled ↦ rw (pos, settled, bubble_up_on) (λ c p q. ground (arith, v.others c))
          | inl rises ↦
              rw (pos, rises, bubble_up_on)
                (bubble_up_on-IsHeap fuel (swap q (parent i) i) (parent i) (ground arith)
                  (rw (swap-heap q (parent i) i) (IsFresh-swap bound q.heap (parent i) i fresh))
                  (rw (swap-heap q (parent i) i)
                    (swap-MayRise q.heap i v (ground arith) (ground arith))))
        ]
      ]

  pub bubble_up-IsHeap :
      (q : PriorityTaskQueue) (i : ℕ)
      → IsFresh bound q.heap
      → MayRise q.heap i
      → IsHeap bound (bubble_up q i).heap
  unfolding bubble_up
  bubble_up-IsHeap q i fresh v = bubble_up_on-IsHeap (suc i) q i (omega arith) fresh v
