-- ===== src/PriorityQueue/Valid.antt =====
-- The invariant of the queue, and a task that enters.
use autobeat.Prelude.{
  ℕ, suc, ◌<◌, false, none, List, [], ◌∷◌, ◌++◌, length, length-append, leb, ◌≡◌, arith, refl,
  Bool-cases, inl, inr,
}
use autobeat.Prelude.Array
use autobeat.Prelude.Dict
use autobeat.Task.{Task}
use autobeat.PriorityQueue.{HeapNode, PriorityTaskQueue, swaps, parent, bubble_up, enqueue, new}
use autobeat.PriorityQueue.Order.{key_at, IsFresh, IsHeap, swaps-key_at}
use autobeat.PriorityQueue.Kept.{bubble_up-IsFresh, bubble_up-Rearranged}
use autobeat.PriorityQueue.Up.{MayRise, bubble_up-IsHeap}
use autobeat.PriorityQueue.Index.{IsIndexed, append-IsIndexed, bubble_up-IsIndexed}

-- No node has to give way to a child of its.
abbrev pub IsOrdered : List HeapNode → Type 0
IsOrdered a = (c : ℕ) → 0 < c → c < length a → swaps a (parent c) c ≡ false

pub record IsValid (q : PriorityTaskQueue) : Type 0 where
  pub ordered : IsOrdered q.heap
  pub fresh : IsFresh q.insertion_counter q.heap
  pub indexed : IsIndexed q

module _ (bound : ℕ) (a : List HeapNode) (fresh : IsFresh bound a) where
  pub IsOrdered-IsHeap : IsOrdered a → IsHeap bound a
  IsOrdered-IsHeap o c p h =
      ground (arith, o c p h, swaps-key_at bound a (parent c) c (omega (arith, h)) h fresh)

  pub IsHeap-IsOrdered : IsHeap bound a → IsOrdered a
  IsHeap-IsOrdered o c p h =
      ground (arith, o c p h, swaps-key_at bound a (parent c) c (omega (arith, h)) h fresh)

pub IsFresh_mono : (bound : ℕ) (a : List HeapNode) → IsFresh bound a → IsFresh (suc bound) a
IsFresh_mono bound a fresh i n e = omega (arith, fresh i n e)

pub new-IsValid : (limit : ℕ) → IsValid (new limit)
unfolding Dict.get
new-IsValid limit = record {
  ordered = λ c p h. absurd (omega (arith, h));
  fresh = λ i n e. absurd cc;
  indexed = record { found = λ n x e. absurd cc; known = λ id n e. absurd cc };
}

module _ (q : PriorityTaskQueue) (v : IsValid q) (t : Task)
    (unknown : Dict.get q.task_index t.id ≡ none) where
  abbrev node : HeapNode
  node = record { task = t; insertion_order = q.insertion_counter }

  abbrev appended : PriorityTaskQueue
  appended = record q {
    heap = q.heap ++ node ∷ [];
    task_index = Dict.set q.task_index t.id (length q.heap);
    insertion_counter = suc q.insertion_counter;
  }

  appended-IsFresh : IsFresh (suc q.insertion_counter) appended.heap
  appended-IsFresh i n e = ground (arith, Array.get_elem?-append q.heap node i, v.fresh i n)

  appended-key_at :
      (c : ℕ)
      → c < length q.heap
      → key_at (suc q.insertion_counter) appended.heap c ≡ key_at (suc q.insertion_counter) q.heap c
  unfolding key_at
  appended-key_at c h = ground (arith, Array.get_elem?-append q.heap node c)

  appended-MayRise : MayRise (suc q.insertion_counter) appended.heap (length q.heap)
  appended-MayRise =
      let size = length-append q.heap (node ∷ []) in
      let before =
        IsOrdered-IsHeap (suc q.insertion_counter) q.heap
          (IsFresh_mono q.insertion_counter q.heap v.fresh) v.ordered in
      record {
        inside = omega (arith, size);
        others = λ c ne p h.
            let old : c < length q.heap = omega (arith, size, h, ne) in
            omega (
              arith,
              before c p old,
              appended-key_at c old,
              appended-key_at (parent c) (omega (arith, old)),
            );
        bridged = λ c e u p h. absurd (omega (arith, size, h, e, p, u));
      }

  bubbled-IsValid : IsValid (bubble_up appended (length q.heap))
  bubbled-IsValid =
      let i = length q.heap in
      let bound = suc q.insertion_counter in
      let kept = bubble_up-Rearranged appended i in
      let fresh = bubble_up-IsFresh bound appended i appended-IsFresh in
      record {
        ordered =
            IsHeap-IsOrdered bound (bubble_up appended i).heap fresh
              (bubble_up-IsHeap bound appended i appended-IsFresh appended-MayRise);
        fresh = rw kept.1 fresh;
        indexed =
            bubble_up-IsIndexed appended i
              (append-IsIndexed q appended node v.indexed unknown refl refl);
      }

  pub enqueue-IsValid : IsValid (enqueue q t).0
  unfolding enqueue
  enqueue-IsValid = elim (Bool-cases (leb q.max_queue_size (length q.heap))) [
    | inl full ↦ rw (full, enqueue) v
    | inr room ↦ rw (room, enqueue) bubbled-IsValid
  ]
