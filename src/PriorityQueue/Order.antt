-- ===== src/PriorityQueue/Order.antt =====
-- The order of the heap, as numbers: below a bound on the insertion orders, a node's key is its priority
-- first and its insertion order second.
use autobeat.Prelude.{
  ℕ, zero, suc, ◌+◌, ◌<◌, ◌≤◌, Option, none, some, List, length, ltb, ◌==◌, if◌then◌else◌, ◌≡◌,
  arith, refl,
}
use autobeat.Prelude.Array
use autobeat.Task.{Priority, p0, p1, p2}
use autobeat.PriorityQueue.{HeapNode, should_swap, swaps, parent}

module _ (bound : ℕ) where
  abbrev pub weight : Priority → ℕ
  weight p0 = 0
  weight p1 = bound
  weight p2 = bound + bound

  abbrev pub key : HeapNode → ℕ
  key n = weight n.task.priority + n.insertion_order

  abbrev pub key_or : Option HeapNode → ℕ
  key_or none = 0
  key_or (some n) = key n

  unfoldable pub key_at : List HeapNode → ℕ → ℕ
  key_at a i = key_or (Array.get_elem? a i)

  -- Every insertion order is below the bound.
  abbrev pub IsFresh : List HeapNode → Type 0
  IsFresh a = (i : ℕ) (n : HeapNode) → Array.get_elem? a i ≡ some n → n.insertion_order < bound

  should_swap_key :
      (x y : HeapNode) (p q : Priority)
      → x.task.priority ≡ p
      → y.task.priority ≡ q
      → x.insertion_order < bound
      → y.insertion_order < bound
      → should_swap x y ≡ ltb (weight q + y.insertion_order) (weight p + x.insertion_order)
  unfolding should_swap
  should_swap_key x y p0 p0 e e' h h' = rw (e, e') (ground arith)
  should_swap_key x y p0 p1 e e' h h' = rw (e, e') (ground arith)
  should_swap_key x y p0 p2 e e' h h' = rw (e, e') (ground arith)
  should_swap_key x y p1 p0 e e' h h' = rw (e, e') (ground arith)
  should_swap_key x y p1 p1 e e' h h' = rw (e, e') (ground arith)
  should_swap_key x y p1 p2 e e' h h' = rw (e, e') (ground arith)
  should_swap_key x y p2 p0 e e' h h' = rw (e, e') (ground arith)
  should_swap_key x y p2 p1 e e' h h' = rw (e, e') (ground arith)
  should_swap_key x y p2 p2 e e' h h' = rw (e, e') (ground arith)

  pub should_swap-key :
      (x y : HeapNode)
      → x.insertion_order < bound
      → y.insertion_order < bound
      → should_swap x y ≡ ltb (key y) (key x)
  should_swap-key x y h h' = should_swap_key x y x.task.priority y.task.priority refl refl h h'

  module _ (a : List HeapNode) (i j : ℕ) (hi : i < length a) (hj : j < length a) where
    pub swaps-key_at : IsFresh a → swaps a i j ≡ ltb (key_at a j) (key_at a i)
    unfolding swaps key_at
    swaps-key_at fresh =
        let (x, e) = Array.lt-get_elem? a i hi in
        let (y, e') = Array.lt-get_elem? a j hj in
        rw (e, e', swaps) (should_swap-key x y (fresh i x e) (fresh j y e'))

    pub key_at-swap :
        (c : ℕ)
        → key_at (Array.swap a i j) c
          ≡ (if j == c then key_at a i else if i == c then key_at a j else key_at a c)
    unfolding key_at
    key_at-swap c =
        let (x, e) = Array.lt-get_elem? a i hi in
        let (y, e') = Array.lt-get_elem? a j hj in
        ground (arith, Array.get_elem?-swap a i j x y c e e')

  -- The edge from a position to its parent is in order, if there are both.
  abbrev pub IsSettled : List HeapNode → ℕ → Type 0
  IsSettled heap n = 0 < n → n < length heap → key_at heap (parent n) ≤ key_at heap n

  -- Every parent comes before its children.
  abbrev pub IsHeap : List HeapNode → Type 0
  IsHeap heap = (n : ℕ) → IsSettled heap n

  -- The edges past a node, from its parent to its children, are in order.
  abbrev pub IsBridged : List HeapNode → ℕ → Type 0
  IsBridged heap i =
      (n : ℕ)
      → parent n ≡ i
      → 0 < i
      → 0 < n
      → n < length heap
      → key_at heap (parent i) ≤ key_at heap n

  root_least_within :
      (steps : ℕ) (heap : List HeapNode)
      → IsHeap heap
      → (n : ℕ) → n < steps
      → n < length heap
      → key_at heap 0 ≤ key_at heap n
  root_least_within zero heap h n near inside = absurd (omega (arith, near))
  root_least_within (suc steps) heap h n near inside =
      ground (arith, root_least_within steps heap h (parent n), h n)

  -- Nothing comes before the root.
  pub root_least :
      (heap : List HeapNode) (n : ℕ) → IsHeap heap → n < length heap → key_at heap 0 ≤ key_at heap n
  root_least heap n h inside = root_least_within (suc n) heap h n (omega arith) inside
