-- ===== src/PriorityQueue/Methods.antt =====
-- What `dequeue` and `remove` do to a queue whose invariant holds.
use autobeat.Prelude.{
  ℕ, suc, ◌-◌, String, true, false, none, some, [], ◌∷◌, length, ◌≡◌, arith, refl, Option-cases,
  List-cases, inl, inr, ◌⊎◌, ◌∙◌, sym, ap, dec_lt,
}
use mathlib.Core.List.{Perm}
use autobeat.Prelude.Array
use autobeat.Prelude.Dict
use autobeat.PriorityQueue.{
  HeapNode, PriorityTaskQueue, bubble_up, bubble_down, put, popped, last_of, dequeue, remove,
}
use autobeat.PriorityQueue.Kept.{bubble_up-Rearranged, bubble_down-Rearranged}
use autobeat.PriorityQueue.Index.{At}
use autobeat.PriorityQueue.Valid.{IsValid}
use autobeat.PriorityQueue.Leave.{
  rest-IsValid, rest-perm, sunk-IsValid, sunk-perm, moved-IsValid, moved-perm,
}

-- The node left the queue, and the others stayed.
pub record Left (q q' : PriorityTaskQueue) (x : HeapNode) : Type 0 where
  pub valid : IsValid q'
  pub others : Perm (x ∷ q'.heap) q.heap
  pub limit : q'.max_queue_size ≡ q.max_queue_size

rest_size :
    (q : PriorityTaskQueue) (i : ℕ) (x : HeapNode)
    → At q i x
    → length q.heap ≡ suc (length q.heap - 1)
rest_size q i x e = omega (arith, Array.get_elem?-lt q.heap i x e)

popped_size : (q : PriorityTaskQueue) (id : String) → length (popped q id).heap ≡ length q.heap - 1
unfolding popped
popped_size q id = Array.length-init q.heap

popped_limit :
    (q : PriorityTaskQueue) (id : String) → (popped q id).max_queue_size ≡ q.max_queue_size
unfolding popped
popped_limit q id = refl

refilled_limit :
    (q : PriorityTaskQueue) (id : String) (i : ℕ) (y : HeapNode)
    → (put (popped q id) i y).max_queue_size ≡ q.max_queue_size
unfolding popped put
refilled_limit q id i y = refl

module _ (q : PriorityTaskQueue) (v : IsValid q) (x : HeapNode) where
  -- The two ends of `dequeue`, for a queue with a root and a last node.
  dequeue-Left :
      (y : HeapNode)
      → At q 0 x
      → last_of q.heap ≡ some y
      → (q' : PriorityTaskQueue) × (dequeue q ≡ (q', some x.task)) × Left q q' x
  unfolding dequeue
  dequeue-Left y e last =
      let m = length q.heap - 1 in
      let size = rest_size q 0 x e in
      elim (dec_lt 0 m) [
        | no single ↦
            let at_end : 0 ≡ m = omega (arith, single) in
            (
              popped q x.task.id,
              ground (arith, popped_size q x.task.id),
              record {
                valid = rest-IsValid q v 0 m x y e size last at_end;
                others = rest-perm q v 0 m x y e size last at_end;
                limit = popped_limit q x.task.id;
              },
            )
        | yes more ↦ (
          bubble_down (put (popped q x.task.id) 0 y) 0,
          ground (arith, popped_size q x.task.id),
          record {
            valid = sunk-IsValid q v 0 m x y e size last more refl;
            others = sunk-perm q v 0 m x y e size last more;
            limit =
                (bubble_down-Rearranged (put (popped q x.task.id) 0 y) 0).0
                ∙ refilled_limit q x.task.id 0 y;
          },
        )
      ]

  remove-Left :
      (i : ℕ) (y : HeapNode)
      → At q i x
      → Dict.get q.task_index x.task.id ≡ some i
      → last_of q.heap ≡ some y
      → (q' : PriorityTaskQueue) × (remove q x.task.id ≡ (q', true)) × Left q q' x
  unfolding remove
  remove-Left i y e known last =
      let m = length q.heap - 1 in
      let size = rest_size q i x e in
      elim (dec_lt i m) [
        | no over ↦
            let at_end : i ≡ m = omega (arith, over, Array.get_elem?-lt q.heap i x e) in
            (
              popped q x.task.id,
              ground (arith, popped_size q x.task.id),
              record {
                valid = rest-IsValid q v i m x y e size last at_end;
                others = rest-perm q v i m x y e size last at_end;
                limit = popped_limit q x.task.id;
              },
            )
        | yes inner ↦ (
          bubble_down (bubble_up (put (popped q x.task.id) i y) i) i,
          ground (arith, popped_size q x.task.id),
          record {
            valid = moved-IsValid q v i m x y e size last inner;
            others = moved-perm q v i m x y e size last inner;
            limit =
                (bubble_down-Rearranged (bubble_up (put (popped q x.task.id) i y) i) i).0
                ∙ (bubble_up-Rearranged (put (popped q x.task.id) i y) i).0
                ∙ refilled_limit q x.task.id i y;
          },
        )
      ]

module _ (q : PriorityTaskQueue) (v : IsValid q) where
  last_there : (i : ℕ) (x : HeapNode) → At q i x → (y : HeapNode) × (last_of q.heap ≡ some y)
  last_there i x e =
      Array.lt-get_elem? q.heap (length q.heap - 1) (omega (arith, Array.get_elem?-lt q.heap i x e))

  dequeue_empty : q.heap ≡ [] → dequeue q ≡ (q, none)
  unfolding dequeue
  dequeue_empty e =
      let missing : Array.get_elem? q.heap 0 ≡ none = rw e refl in rw (missing, dequeue) refl

  -- `dequeue` says that the queue is empty, or takes the root.
  pub dequeue_cases :
      ((q.heap ≡ []) × (dequeue q ≡ (q, none)))
      ⊎ ((x : HeapNode) × (q' : PriorityTaskQueue) × At q 0 x
          × (dequeue q ≡ (q', some x.task))
          × Left q q' x)
  unfolding dequeue
  dequeue_cases = elim (List-cases q.heap) [
    | inl e ↦ inl (e, dequeue_empty e)
    | inr (x, more, e) ↦
        let root : At q 0 x = rw e refl in
        let (y, last) = last_there 0 x root in
        let (q', done, left) = dequeue-Left q v x y root last in inr (x, q', root, done, left)
  ]

  -- `remove` knows no such id, or takes a node of that id.
  pub remove_cases :
      (id : String)
      → ((Dict.get q.task_index id ≡ none) × (remove q id ≡ (q, false)))
        ⊎ ((x : HeapNode) × (q' : PriorityTaskQueue) × (x.task.id ≡ id)
            × (remove q id ≡ (q', true))
            × Left q q' x)
  unfolding remove
  remove_cases id = elim (Option-cases (Dict.get q.task_index id)) [
    | inl e ↦ inl (e, rw (e, remove) refl)
    | inr (i, e) ↦
        let (x, there, named) = v.indexed.known id i e in
        let (y, last) = last_there i x there in
        let (q', done, left) = remove-Left q v x i y there (rw named e) last in
        inr (x, q', named, ap (remove q) (sym named) ∙ done, left)
  ]
