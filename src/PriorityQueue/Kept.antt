-- ===== src/PriorityQueue/Kept.antt =====
-- What the moves of nodes leave as it is.
use autobeat.Prelude.{
  ℕ, zero, suc, List, length, ltb, ◌==◌, ◌≡◌, arith, refl, Bool-cases, inl, inr, Option-cases, ◌∙◌,
}
use mathlib.Core.List.{Perm}
use mathlib.Core.List.Perm
use autobeat.Prelude.Array
use autobeat.PriorityQueue.{
  HeapNode, PriorityTaskQueue, swap, swaps, smallest, bubble_up_on, bubble_up, bubble_down_on,
  bubble_down, parent,
}
use autobeat.PriorityQueue.Order.{IsFresh}

pub swap-heap : (q : PriorityTaskQueue) (i j : ℕ) → (swap q i j).heap ≡ Array.swap q.heap i j
unfolding swap Array.swap
swap-heap q i j = elim (Option-cases (Array.get_elem? q.heap i)) [
  | inl e ↦ rw (e, swap, Array.swap) refl
  | inr (x, e) ↦ elim (Option-cases (Array.get_elem? q.heap j)) [
    | inl e' ↦ rw (e, e', swap, Array.swap) refl
    | inr (y, e') ↦ rw (e, e', swap) refl
  ]
]

pub IsFresh-swap :
    (bound : ℕ) (a : List HeapNode) (i j : ℕ) → IsFresh bound a → IsFresh bound (Array.swap a i j)
unfolding Array.swap
IsFresh-swap bound a i j fresh k n e = elim (Option-cases (Array.get_elem? a i)) [
  | inl e' ↦ fresh k n (rw (e', Array.swap) at e)
  | inr (x, e') ↦ elim (Option-cases (Array.get_elem? a j)) [
    | inl e'' ↦ fresh k n (rw (e', e'', Array.swap) at e)
    | inr (y, e'') ↦
        ground
          (arith, Array.get_elem?-swap a i j x y k e' e'', fresh i x e', fresh j y e'', fresh k n)
  ]
]

-- What every exchange of two nodes keeps, the loops keep.
module _ {ℓ} (P : PriorityTaskQueue → Type ℓ)
    (keep : (q : PriorityTaskQueue) (i j : ℕ) → P q → P (swap q i j)) where
  bubble_up_on_keeps : (fuel : ℕ) (q : PriorityTaskQueue) (i : ℕ) → P q → P (bubble_up_on fuel q i)
  unfolding bubble_up_on
  bubble_up_on_keeps zero q i h = h
  bubble_up_on_keeps (suc fuel) q i h = elim (Bool-cases (ltb 0 i)) [
    | inr root ↦ rw (root, bubble_up_on) h
    | inl pos ↦ elim (Bool-cases (swaps q.heap (parent i) i)) [
      | inr settled ↦ rw (pos, settled, bubble_up_on) h
      | inl rises ↦
          rw (pos, rises, bubble_up_on)
            (bubble_up_on_keeps fuel (swap q (parent i) i) (parent i) (keep q (parent i) i h))
    ]
  ]

  pub bubble_up_keeps : (q : PriorityTaskQueue) (i : ℕ) → P q → P (bubble_up q i)
  unfolding bubble_up
  bubble_up_keeps q i h = bubble_up_on_keeps (suc i) q i h

  bubble_down_on_keeps :
      (fuel : ℕ) (q : PriorityTaskQueue) (i : ℕ) → P q → P (bubble_down_on fuel q i)
  unfolding bubble_down_on
  bubble_down_on_keeps zero q i h = h
  bubble_down_on_keeps (suc fuel) q i h =
      let m = smallest q.heap i in
      elim (Bool-cases (m == i)) [
        | inl done ↦ rw (done, bubble_down_on) h
        | inr sinks ↦
            rw (sinks, bubble_down_on) (bubble_down_on_keeps fuel (swap q i m) m (keep q i m h))
      ]

  pub bubble_down_keeps : (q : PriorityTaskQueue) (i : ℕ) → P q → P (bubble_down q i)
  unfolding bubble_down
  bubble_down_keeps q i h = bubble_down_on_keeps (length q.heap) q i h

-- The parts that an exchange leaves as they are.
abbrev pub Rearranged : PriorityTaskQueue → PriorityTaskQueue → Type 0
Rearranged q q' =
    (q'.max_queue_size ≡ q.max_queue_size)
    × (q'.insertion_counter ≡ q.insertion_counter)
    × Perm q'.heap q.heap
    × (length q'.heap ≡ length q.heap)

swap-Rearranged :
    (q₀ q : PriorityTaskQueue) (i j : ℕ) → Rearranged q₀ q → Rearranged q₀ (swap q i j)
unfolding swap
swap-Rearranged q₀ q i j (m, c, p, l) = (
  limit ∙ m,
  counter ∙ c,
  rw (swap-heap q i j) (Perm.trans (Array.swap-perm q.heap i j) p),
  rw (swap-heap q i j) (Array.length-swap q.heap i j ∙ l),
)
  where
    limit : (swap q i j).max_queue_size ≡ q.max_queue_size
    limit = ground arith

    counter : (swap q i j).insertion_counter ≡ q.insertion_counter
    counter = ground arith

pub bubble_up-Rearranged : (q : PriorityTaskQueue) (i : ℕ) → Rearranged q (bubble_up q i)
bubble_up-Rearranged q i =
    bubble_up_keeps (Rearranged q) (swap-Rearranged q) q i (refl, refl, Perm.rfl, refl)

pub bubble_down-Rearranged : (q : PriorityTaskQueue) (i : ℕ) → Rearranged q (bubble_down q i)
bubble_down-Rearranged q i =
    bubble_down_keeps (Rearranged q) (swap-Rearranged q) q i (refl, refl, Perm.rfl, refl)

module _ (bound : ℕ) (q : PriorityTaskQueue) (i : ℕ) (fresh : IsFresh bound q.heap) where
  swap-IsFresh :
      (r : PriorityTaskQueue) (j k : ℕ) → IsFresh bound r.heap → IsFresh bound (swap r j k).heap
  swap-IsFresh r j k f = rw (swap-heap r j k) (IsFresh-swap bound r.heap j k f)

  pub bubble_up-IsFresh : IsFresh bound (bubble_up q i).heap
  bubble_up-IsFresh = bubble_up_keeps (λ r. IsFresh bound r.heap) swap-IsFresh q i fresh

  pub bubble_down-IsFresh : IsFresh bound (bubble_down q i).heap
  bubble_down-IsFresh = bubble_down_keeps (λ r. IsFresh bound r.heap) swap-IsFresh q i fresh
