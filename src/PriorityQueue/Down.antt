-- ===== src/PriorityQueue/Down.antt =====
-- `bubbleDown` puts a node that may belong lower into its place.
use autobeat.Prelude.{
  ℕ, zero, suc, ◌+◌, ◌*◌, ◌<◌, ◌≤◌, List, length, ltb, ◌==◌, if◌then◌else◌, ◌≡◌, ◌≢◌, arith, refl,
  Bool-cases, inl, inr, ◌⊎◌,
}
use autobeat.Prelude.Array
use autobeat.PriorityQueue.{
  HeapNode, PriorityTaskQueue, swap, parent, smaller, smallest, bubble_down_on, bubble_down,
}
use autobeat.PriorityQueue.Order.{
  key_at, IsFresh, IsSettled, IsHeap, IsBridged, swaps-key_at, key_at-swap,
}
use autobeat.PriorityQueue.Kept.{swap-heap, IsFresh-swap}

module _ (bound : ℕ) where
  -- Only the edges below the node may be out of order.
  pub record MaySink (a : List HeapNode) (i : ℕ) : Type 0 where
    pub others : (n : ℕ) → parent n ≢ i → IsSettled bound a n
    pub bridged : IsBridged bound a i

  -- The node itself or one of its children, whichever comes first.
  record IsSmallest (a : List HeapNode) (i m : ℕ) : Type 0 where
    inside : m < length a
    child : (m ≡ i) ⊎ ((m ≡ 2 * i + 1) ⊎ (m ≡ 2 * i + 2))
    lower : m ≢ i → key_at bound a m < key_at bound a i
    least : (c : ℕ) → 0 < c → c < length a → parent c ≡ i → key_at bound a m ≤ key_at bound a c

  smaller_lem :
      (a : List HeapNode) (i c : ℕ)
      → IsFresh bound a
      → i < length a
      → smaller a i c ≡ (
          if ltb c (length a)
          then (if ltb (key_at bound a c) (key_at bound a i) then c else i)
          else i)
  unfolding smaller
  smaller_lem a i c fresh h = elim (Bool-cases (ltb c (length a))) [
    | inl there ↦ rw (there, smaller) (rw (swaps-key_at bound a i c h (ground arith) fresh) refl)
    | inr missing ↦ rw (missing, smaller) refl
  ]

  smallest-IsSmallest :
      (a : List HeapNode) (i : ℕ) → IsFresh bound a → i < length a → IsSmallest a i (smallest a i)
  smallest-IsSmallest a i fresh h =
      let m = smaller a i (2 * i + 1) in
      let first = smaller_lem a i (2 * i + 1) fresh h in
      let inside : m < length a = ground arith in
      let second = smaller_lem a m (2 * i + 2) fresh inside in
      record {
        inside = ground arith;
        child = ground arith;
        lower = λ ne. ground arith;
        least = λ c p q r.
            let at_child : (c ≡ 2 * i + 1) ⊎ (c ≡ 2 * i + 2) = omega (arith, p, r) in ground arith;
      }

  swap-MaySink :
      (a : List HeapNode) (i m : ℕ)
      → i < length a
      → MaySink a i
      → IsSmallest a i m
      → m ≢ i
      → MaySink (Array.swap a i m) m
  swap-MaySink a i m h v s ne =
      let size = Array.length-swap a i m in
      let moved = key_at-swap bound a i m h s.inside in
      let low = s.lower ne in
      record {
        others = λ c t p q.
            ground (arith, moved c, s.least c, v.bridged m, v.others c, moved (parent c));
        bridged = λ c t u p q. ground (arith, moved c, moved (parent m), v.others c);
      }

  bubble_down_on-IsHeap :
      (fuel : ℕ) (q : PriorityTaskQueue) (i : ℕ)
      → length q.heap ≤ fuel + i
      → i < length q.heap
      → IsFresh bound q.heap
      → MaySink q.heap i
      → IsHeap bound (bubble_down_on fuel q i).heap
  unfolding bubble_down_on
  bubble_down_on-IsHeap zero q i f h fresh v = absurd (omega arith)
  bubble_down_on-IsHeap (suc fuel) q i f h fresh v =
      let m = smallest q.heap i in
      let s = smallest-IsSmallest q.heap i fresh h in
      elim (Bool-cases (m == i)) [
        | inl done ↦
            rw (done, bubble_down_on)
              (λ c p r. let same : m ≡ i = ground arith in ground (arith, v.others c, s.least c))
        | inr sinks ↦
            let deeper : i < m = ground arith in
            rw (sinks, bubble_down_on)
              (bubble_down_on-IsHeap fuel (swap q i m) m
                (rw (swap-heap q i m) (omega (arith, Array.length-swap q.heap i m, f, deeper)))
                (rw (swap-heap q i m) (omega (arith, Array.length-swap q.heap i m, s.inside)))
                (rw (swap-heap q i m) (IsFresh-swap bound q.heap i m fresh))
                (rw (swap-heap q i m) (swap-MaySink q.heap i m h v s (ground arith))))
      ]

  pub bubble_down-IsHeap :
      (q : PriorityTaskQueue) (i : ℕ)
      → i < length q.heap
      → IsFresh bound q.heap
      → MaySink q.heap i
      → IsHeap bound (bubble_down q i).heap
  unfolding bubble_down
  bubble_down-IsHeap q i h fresh v =
      bubble_down_on-IsHeap (length q.heap) q i (omega arith) h fresh v
