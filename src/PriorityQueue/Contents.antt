-- ===== src/PriorityQueue/Contents.antt =====
-- The priority queue as the `TaskQueue` that src/bootstrap.ts builds the queue handler with.
use autobeat.Prelude.{
  ℕ, suc, String, true, some, [], ◌∷◌, ◌++◌, length, ◌≡◌, ◌≢◌, refl, arith, Option-cases, ◌⊎◌, inl,
  inr, ◌∙◌, ap, String-discrete,
}
use mathlib.Core.List.Perm
use autobeat.Prelude.Array
use autobeat.Prelude.Dict
use autobeat.Task.{Task}
use autobeat.Result.{ok, err, ErrorCode}
use autobeat.Queue.{TaskQueue, Laws}
use autobeat.PriorityQueue.{HeapNode, PriorityTaskQueue, swap, bubble_up, enqueue, remove, contains}
use autobeat.PriorityQueue.Index.{At}
use autobeat.PriorityQueue.Sorted.{All-at, at_All, All-perm}
use autobeat.PriorityQueue.Kept.{bubble_up_keeps}
use autobeat.PriorityQueue.Valid.{IsValid, enqueue-IsValid}
use autobeat.PriorityQueue.Methods.{remove_cases}
use autobeat.PriorityQueue.Histories.{contains_unknown, node_iff, remove-IsValid}

contains_some :
    (q : PriorityTaskQueue) (id : String) (n : ℕ)
    → Dict.get q.task_index id ≡ some n
    → contains q id ≡ true
unfolding contains
contains_some q id n e = ground arith

-- A table with one more entry.
contains-set :
    (q q' : PriorityTaskQueue) (k id : String) (n : ℕ)
    → q'.task_index ≡ Dict.set q.task_index k n
    → id ≢ k
    → contains q' id ≡ contains q id
unfolding contains
contains-set q q' k id n e other = ground (arith, Dict.get-set q.task_index k n id)

contains-set_same :
    (q q' : PriorityTaskQueue) (k : String) (n : ℕ)
    → q'.task_index ≡ Dict.set q.task_index k n
    → contains q' k ≡ true
unfolding contains
contains-set_same q q' k n e = ground (arith, Dict.get-set q.task_index k n k)

-- Every node's id is in the table, and the ids in the table are those of another queue.
record Covers (q₀ q : PriorityTaskQueue) : Type 0 where
  covered : (n : ℕ) (x : HeapNode) → At q n x → contains q x.task.id ≡ true
  same : (id : String) → contains q id ≡ contains q₀ id

contains-swap :
    (q : PriorityTaskQueue) (i j : ℕ)
    → ((n : ℕ) (x : HeapNode) → At q n x → contains q x.task.id ≡ true)
    → (id : String) → contains (swap q i j) id ≡ contains q id
unfolding swap contains
contains-swap q i j covered id = elim (Option-cases (Array.get_elem? q.heap i)) [
  | inl e ↦ ground arith
  | inr (x, e) ↦ elim (Option-cases (Array.get_elem? q.heap j)) [
    | inl e' ↦ ground arith
    | inr (y, e') ↦ ground (
      arith,
      covered i x e,
      covered j y e',
      Dict.get-set (Dict.set q.task_index y.task.id i) x.task.id j id,
      Dict.get-set q.task_index y.task.id i id,
    )
  ]
]

swap-At :
    (q : PriorityTaskQueue) (i j n : ℕ) (z : HeapNode) → At (swap q i j) n z → (m : ℕ) × At q m z
unfolding swap
swap-At q i j n z h = elim (Option-cases (Array.get_elem? q.heap i)) [
  | inl e ↦ (n, ground arith)
  | inr (x, e) ↦ elim (Option-cases (Array.get_elem? q.heap j)) [
    | inl e' ↦ (n, ground arith)
    | inr (y, e') ↦ exchanged x y e e' (ground (arith, Array.get_elem?-swap q.heap i j x y n e e'))
  ]
]
  where
    exchanged :
        (x y : HeapNode) → At q i x → At q j y → (z ≡ x) ⊎ ((z ≡ y) ⊎ At q n z) → (m : ℕ) × At q m z
    exchanged x y e e' (inl same) = (i, rw same e)
    exchanged x y e e' (inr (inl same)) = (j, rw same e')
    exchanged x y e e' (inr (inr old)) = (n, old)

Covers-swap : (q₀ q : PriorityTaskQueue) (i j : ℕ) → Covers q₀ q → Covers q₀ (swap q i j)
Covers-swap q₀ q i j c = record {
  covered = λ n x h.
      let (m, k) = swap-At q i j n x h in contains-swap q i j c.covered x.task.id ∙ c.covered m x k;
  same = λ id. contains-swap q i j c.covered id ∙ c.same id;
}

module _ (q : PriorityTaskQueue) (v : IsValid q) (t : Task) where
  abbrev node : HeapNode
  node = record { task = t; insertion_order = q.insertion_counter }

  abbrev appended : PriorityTaskQueue
  appended = record {
    heap = q.heap ++ node ∷ [];
    task_index = Dict.set q.task_index t.id (length q.heap);
    max_queue_size = q.max_queue_size;
    insertion_counter = suc q.insertion_counter;
  }

  -- Also when the id is in the queue already.
  appended-Covers : Covers appended appended
  appended-Covers = record { covered = covered; same = λ id. refl }
    where
      old : (n : ℕ) (x : HeapNode) → x.task.id ≢ t.id → (x ≡ node) ⊎ At q n x → At q n x
      old n x other (inl e) = absurd (other (ap (λ y. y.task.id) e))
      old n x other (inr k) = k

      covered : (n : ℕ) (x : HeapNode) → At appended n x → contains appended x.task.id ≡ true
      covered n x h = elim (String-discrete x.task.id t.id) [
        | yes own ↦ rw own (contains-set_same q appended t.id (length q.heap) refl)
        | no other ↦
            contains-set q appended t.id x.task.id (length q.heap) refl other
            ∙ contains_some q x.task.id n (
                v.indexed.found n x
                  (old n x other (ground (arith, Array.get_elem?-append q.heap node n))))
      ]

  bubbled-same :
      (id : String) → contains (bubble_up appended (length q.heap)) id ≡ contains appended id
  bubbled-same id =
      (bubble_up_keeps (λ r. Covers appended r) (Covers-swap appended) appended (length q.heap)
          appended-Covers).same
        id

  pub contains-enqueue : (enqueue q t).1 ≡ ok tt → contains (enqueue q t).0 t.id ≡ true
  unfolding enqueue
  contains-enqueue took =
      ground (arith, bubbled-same t.id, contains-set_same q appended t.id (length q.heap) refl)

  pub contains-enqueue_other :
      (id : String) → id ≢ t.id → contains (enqueue q t).0 id ≡ contains q id
  unfolding enqueue
  contains-enqueue_other id other =
      ground (arith, bubbled-same id, contains-set q appended t.id id (length q.heap) refl other)

pub enqueue_refused :
    (q : PriorityTaskQueue) (t : Task) (e : ErrorCode)
    → (enqueue q t).1 ≡ err e
    → (enqueue q t).0 ≡ q
unfolding enqueue
enqueue_refused q t e r = ground arith

-- What `remove` leaves was there before it.
pub contains-remove :
    (q : PriorityTaskQueue) (v : IsValid q) (id other : String)
    → contains (remove q id).0 other ≡ true
    → contains q other ≡ true
contains-remove q v id other h = elim (remove_cases q v id) [
  | inl (_, same) ↦ rw same at h
  | inr (x, q', _, done, left) ↦
      let Known : HeapNode → Type 0 = λ z. contains q z.task.id ≡ true in
      let before = All-at Known q.heap (λ n z e. (node_iff q v z.task.id).1 (n, z, e, refl)) in
      let after = All-perm Known (λ z. hlevel) (Perm.symm left.others) before in
      let (n, z, e, named) = (node_iff q' left.valid other).0 (rw done at h) in
      rw (← named) (at_All Known q'.heap after.1 n z e)
]

-- The priority queue as the handler sees it: `remove` never fails.
unfoldable pub priority : TaskQueue PriorityTaskQueue
priority = record {
  enqueue = enqueue;
  remove = λ q id. ((remove q id).0, ok (remove q id).1);
  contains = contains;
}

-- The priority queue keeps the laws of the handler as long as its heap and its table agree.
unfoldable pub priority-Laws : Laws priority
unfolding priority
priority-Laws = record {
  IsValid = IsValid;
  enqueue_new = λ q t v. contains-enqueue q v t;
  enqueue_refused = enqueue_refused;
  enqueue_other = λ q t v. contains-enqueue_other q v t;
  enqueue_valid = λ q t v unknown. enqueue-IsValid q v t (contains_unknown q t.id unknown);
  remove_fewer = λ q v. contains-remove q v;
  remove_valid = λ q v. remove-IsValid q v;
}
