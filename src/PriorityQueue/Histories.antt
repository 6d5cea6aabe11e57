-- ===== src/PriorityQueue/Histories.antt =====
-- Any use of a new queue in which no task is queued whose id is queued already.
use autobeat.Prelude.{
  ℕ, String, true, false, none, some, List, [], ◌∷◌, if◌then◌else◌, ◌≡◌, ◌≢◌, arith, Bool-cases,
  Option-cases, inl, inr, ◌⊎◌, ◌↔◌,
}
use mathlib.Core.List.{Perm}
use autobeat.Prelude.Array
use autobeat.Prelude.Dict
use autobeat.Task.{Task}
use autobeat.PriorityQueue.{
  HeapNode, PriorityTaskQueue, should_swap, new, enqueue, dequeue, remove, contains, clear,
}
use autobeat.PriorityQueue.Order.{key_at, should_swap-key, root_least}
use autobeat.PriorityQueue.Index.{At}
use autobeat.PriorityQueue.Valid.{IsValid, IsOrdered-IsHeap, new-IsValid, enqueue-IsValid}
use autobeat.PriorityQueue.Methods.{dequeue_cases, remove_cases}

pub data Call : Type 0 where
  enqueues : Task → Call
  removes : String → Call
  dequeues clears : Call

-- A task is queued only if its id is not.
unfoldable pub call : PriorityTaskQueue → Call → PriorityTaskQueue
call q (enqueues t) = if contains q t.id then q else (enqueue q t).0
call q (removes id) = (remove q id).0
call q dequeues = (dequeue q).0
call q clears = clear q

unfoldable pub calls : PriorityTaskQueue → List Call → PriorityTaskQueue
calls q [] = q
calls q (c ∷ cs) = calls (call q c) cs

pub contains_unknown :
    (q : PriorityTaskQueue) (id : String) → contains q id ≡ false → Dict.get q.task_index id ≡ none
unfolding contains
contains_unknown q id e = ground arith

module _ (q : PriorityTaskQueue) (v : IsValid q) where
  dequeue-IsValid : IsValid (dequeue q).0
  dequeue-IsValid = elim (dequeue_cases q v) [
    | inl (_, same) ↦ rw same v
    | inr (x, q', _, done, left) ↦ rw done left.valid
  ]

  pub remove-IsValid : (id : String) → IsValid (remove q id).0
  remove-IsValid id = elim (remove_cases q v id) [
    | inl (_, same) ↦ rw same v
    | inr (x, q', _, done, left) ↦ rw done left.valid
  ]

  pub call-IsValid : (c : Call) → IsValid (call q c)
  unfolding call
  call-IsValid (enqueues t) = elim (Bool-cases (contains q t.id)) [
    | inl queued ↦ rw (queued, call) v
    | inr free ↦ rw (free, call) (enqueue-IsValid q v t (contains_unknown q t.id free))
  ]
  call-IsValid (removes id) = remove-IsValid id
  call-IsValid dequeues = dequeue-IsValid
  call-IsValid clears =
      let fresh = new-IsValid q.max_queue_size in
      record {
        ordered = fresh.ordered;
        fresh = fresh.fresh;
        indexed = record { found = fresh.indexed.found; known = fresh.indexed.known };
      }

  pub node_iff :
      (id : String)
      → (contains q id ≡ true) ↔ ((n : ℕ) × (x : HeapNode) × At q n x × (x.task.id ≡ id))
  unfolding contains
  node_iff id = (there, back)
    where
      there : contains q id ≡ true → (n : ℕ) × (x : HeapNode) × At q n x × (x.task.id ≡ id)
      there h = elim (Option-cases (Dict.get q.task_index id)) [
        | inl e ↦ absurd (ground arith)
        | inr (n, e) ↦ let (x, at, named) = v.indexed.known id n e in (n, x, at, named)
      ]

      back : (n : ℕ) × (x : HeapNode) × At q n x × (x.task.id ≡ id) → contains q id ≡ true
      back (n, x, at, named) = let k = v.indexed.found n x at in ground arith

  pub first :
      (x : HeapNode) → At q 0 x → (n : ℕ) (z : HeapNode) → At q n z → should_swap x z ≡ false
  unfolding key_at
  first x root n z there =
      let bound = q.insertion_counter in
      let heap = IsOrdered-IsHeap bound q.heap v.fresh v.ordered in
      let least = root_least bound q.heap n heap (Array.get_elem?-lt q.heap n z there) in
      ground (arith, should_swap-key bound x z (v.fresh 0 x root) (v.fresh n z there))

pub calls-IsValid : (q : PriorityTaskQueue) (cs : List Call) → IsValid q → IsValid (calls q cs)
unfolding calls
calls-IsValid q [] v = v
calls-IsValid q (c ∷ cs) v = calls-IsValid (call q c) cs (call-IsValid q v c)

module _ (limit : ℕ) (cs : List Call) where
  abbrev used : PriorityTaskQueue
  used = calls (new limit) cs

  used-IsValid : IsValid used
  used-IsValid = calls-IsValid (new limit) cs (new-IsValid limit)

  -- As long as no id is queued twice, `dequeue` on an empty queue says so and changes nothing, and on any
  -- other it takes out one node, before which none of the queue comes in the order of priority and
  -- insertion, and keeps the others.
  pub dequeue_takes_first :
      ((used.heap ≡ []) × (dequeue used ≡ (used, none)))
      ⊎ ((x : HeapNode) × (q' : PriorityTaskQueue) × (dequeue used ≡ (q', some x.task))
          × Perm (x ∷ q'.heap) used.heap
          × ((n : ℕ) (z : HeapNode) → At used n z → should_swap x z ≡ false))
  dequeue_takes_first = elim (dequeue_cases used used-IsValid) [
    | inl nothing ↦ inl nothing
    | inr (x, q', root, done, left) ↦ inr (x, q', done, left.others, first used used-IsValid x root)
  ]

  -- As long as no id is queued twice, `remove` of an id that no node has changes nothing and says so, and
  -- of any other takes out one node of that id, keeps the others, and says that it did.
  pub remove_takes_named :
      (id : String)
      → (((n : ℕ) (x : HeapNode) → At used n x → x.task.id ≢ id) × (remove used id ≡ (used, false)))
        ⊎ ((x : HeapNode) × (q' : PriorityTaskQueue) × (x.task.id ≡ id)
            × (remove used id ≡ (q', true))
            × Perm (x ∷ q'.heap) used.heap)
  remove_takes_named id = elim (remove_cases used used-IsValid id) [
    | inl (unknown, same) ↦ inl (
      λ n x there named.
          let k = used-IsValid.indexed.found n x there in absurd (absent n x named k unknown),
      same,
    )
    | inr (x, q', named, done, left) ↦ inr (x, q', named, done, left.others)
  ]
    where
      absent :
          (n : ℕ) (x : HeapNode)
          → x.task.id ≡ id
          → Dict.get used.task_index x.task.id ≡ some n
          → Dict.get used.task_index id ≡ none
          → ⊥
      absent n x named k unknown = cc

  -- As long as no id is queued twice, `contains` answers exactly whether a node has the id.
  pub contains_iff :
      (id : String)
      → (contains used id ≡ true) ↔ ((n : ℕ) × (x : HeapNode) × At used n x × (x.task.id ≡ id))
  contains_iff = node_iff used used-IsValid
