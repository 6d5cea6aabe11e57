-- ===== src/PriorityQueue.antt =====
-- src/implementations/task-queue.ts: the class `PriorityTaskQueue`, a binary heap in an array with a
-- table of the positions. A loop over the heap is on fuel: the index of a node that rises falls, and that
-- of a node that sinks grows below the length.
pub mod Order
pub mod Kept
pub mod Up
pub mod Down
pub mod Index
pub mod Valid
pub mod Leave
pub mod Methods
pub mod Histories
pub mod Sorted
pub mod View
pub mod Shown
pub mod Refined
pub mod Fifo
pub mod Contents
use Prim.Native.Nat.{compare, Ordering}
use autobeat.Prelude.{
  ℕ, zero, suc, ◌+◌, ◌-◌, ◌*◌, ◌/◌, String, Bool, true, false, Option, none, some, List, [], ◌∷◌,
  ◌++◌, map, length, ltb, leb, ◌==◌, if◌then◌else◌,
}
use autobeat.Prelude.Array
use autobeat.Prelude.Dict
use autobeat.Prelude.Dict.{Dict}
use autobeat.Result.{Result, ok, err, ErrorCode, resource_exhausted}
use autobeat.Task.{Task, compare_priority}

pub record HeapNode : Type 0 where
  pub task : Task
  pub insertion_order : ℕ

pub record PriorityTaskQueue : Type 0 where
  pub heap : List HeapNode
  pub task_index : Dict ℕ
  pub max_queue_size : ℕ
  pub insertion_counter : ℕ

abbrev pub new : ℕ → PriorityTaskQueue
new limit = record { heap = []; task_index = []; max_queue_size = limit; insertion_counter = 0 }

-- Whether the parent has to give way: by priority, and among equals by the order of insertion.
unfoldable pub should_swap : HeapNode → HeapNode → Bool
should_swap parent child = elim (compare_priority parent.task.priority child.task.priority) [
  | Ordering.gt ↦ true
  | Ordering.eq ↦ ltb child.insertion_order parent.insertion_order
  | Ordering.lt ↦ false
]

unfoldable pub swap : PriorityTaskQueue → ℕ → ℕ → PriorityTaskQueue
swap q i j = elim (Array.get_elem? q.heap i) [
  | none ↦ q
  | some x ↦ elim (Array.get_elem? q.heap j) [
    | none ↦ q
    | some y ↦ record q {
      heap = Array.swap q.heap i j;
      task_index = Dict.set (Dict.set q.task_index y.task.id i) x.task.id j;
    }
  ]
]

-- `shouldSwap(heap[i], heap[j])`, for indices in range.
unfoldable pub swaps : List HeapNode → ℕ → ℕ → Bool
swaps heap i j = elim (Array.get_elem? heap i) [
  | none ↦ false
  | some x ↦ elim (Array.get_elem? heap j) [ none ↦ false | some y ↦ should_swap x y ]
]

abbrev pub parent : ℕ → ℕ
parent i = (i - 1) / 2

unfoldable pub bubble_up_on : ℕ → PriorityTaskQueue → ℕ → PriorityTaskQueue
bubble_up_on zero q i = q
bubble_up_on (suc fuel) q i =
    let rest = bubble_up_on fuel (swap q (parent i) i) (parent i) in
    if ltb 0 i then (if swaps q.heap (parent i) i then rest else q) else q

unfoldable pub bubble_up : PriorityTaskQueue → ℕ → PriorityTaskQueue
bubble_up q i = bubble_up_on (suc i) q i

-- `if (child < heap.length && shouldSwap(heap[smallest], heap[child])) smallest = child`
unfoldable pub smaller : List HeapNode → ℕ → ℕ → ℕ
smaller heap i child =
    if ltb child (length heap) then (if swaps heap i child then child else i) else i

abbrev pub smallest : List HeapNode → ℕ → ℕ
smallest heap i = smaller heap (smaller heap i (2 * i + 1)) (2 * i + 2)

unfoldable pub bubble_down_on : ℕ → PriorityTaskQueue → ℕ → PriorityTaskQueue
bubble_down_on zero q i = q
bubble_down_on (suc fuel) q i =
    let m = smallest q.heap i in
    let rest = bubble_down_on fuel (swap q i m) m in if m == i then q else rest

unfoldable pub bubble_down : PriorityTaskQueue → ℕ → PriorityTaskQueue
bubble_down q i = bubble_down_on (length q.heap) q i

unfoldable pub enqueue : PriorityTaskQueue → Task → PriorityTaskQueue × Result (Unit {0}) ErrorCode
enqueue q t = if leb q.max_queue_size (length q.heap) then (q, err resource_exhausted) else (
  bubble_up
      (record q {
        heap = q.heap ++ record { task = t; insertion_order = q.insertion_counter } ∷ [];
        task_index = Dict.set q.task_index t.id (length q.heap);
        insertion_counter = suc q.insertion_counter;
      })
      (length q.heap),
  ok tt,
)

-- `heap[i] = last`, with its position.
unfoldable pub put : PriorityTaskQueue → ℕ → HeapNode → PriorityTaskQueue
put q i last = record q {
  heap = Array.set q.heap i last;
  task_index = Dict.set q.task_index last.task.id i;
}

-- After `taskIndex.delete(id)` and `heap.pop()`.
unfoldable pub popped : PriorityTaskQueue → String → PriorityTaskQueue
popped q id = record q { heap = Array.init q.heap; task_index = Dict.delete q.task_index id }

abbrev pub last_of : List HeapNode → Option HeapNode
last_of heap = Array.get_elem? heap (length heap - 1)

unfoldable pub dequeue : PriorityTaskQueue → PriorityTaskQueue × Option Task
dequeue q = elim (Array.get_elem? q.heap 0) [
  | none ↦ (q, none)
  | some root ↦
      let q' = popped q root.task.id in
      elim (last_of q.heap) [
        | none ↦ (q', some root.task)
        | some last ↦
            if ltb 0 (length q'.heap)
            then (bubble_down (put q' 0 last) 0, some root.task)
            else (q', some root.task)
      ]
]

unfoldable pub peek : PriorityTaskQueue → Option Task
peek q = elim (Array.get_elem? q.heap 0) [ none ↦ none | some root ↦ some root.task ]

unfoldable pub remove : PriorityTaskQueue → String → PriorityTaskQueue × Bool
remove q id = elim (Dict.get q.task_index id) [
  | none ↦ (q, false)
  | some i ↦
      let q' = popped q id in
      elim (last_of q.heap) [
        | none ↦ (q', true)
        | some last ↦
            if ltb i (length q'.heap)
            then (bubble_down (bubble_up (put q' i last) i) i, true)
            else (q', true)
      ]
]

unfoldable pub contains : PriorityTaskQueue → String → Bool
contains q id = elim (Dict.get q.task_index id) [ none ↦ false | some i ↦ true ]

abbrev pub size : PriorityTaskQueue → ℕ
size q = length q.heap

abbrev pub clear : PriorityTaskQueue → PriorityTaskQueue
clear q = record q { heap = []; task_index = []; insertion_counter = 0 }

abbrev pub is_empty : PriorityTaskQueue → Bool
is_empty q = length q.heap == 0

-- Not after the other in the order of `getAll`.
unfoldable pub insert : HeapNode → List HeapNode → List HeapNode
insert n [] = n ∷ []
insert n (m ∷ ns) = if should_swap n m then m ∷ insert n ns else n ∷ m ∷ ns

-- `[...heap].sort(…)`, which is stable
unfoldable pub sort : List HeapNode → List HeapNode
sort [] = []
sort (n ∷ ns) = insert n (sort ns)

unfoldable pub get_all : PriorityTaskQueue → List Task
get_all q = map (λ (n : HeapNode). n.task) (sort q.heap)
