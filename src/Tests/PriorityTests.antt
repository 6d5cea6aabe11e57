-- ===== src/Tests/PriorityTests.antt =====
-- The priority queue on three tasks.
use autobeat.Prelude.{
  String, List, [], ◌∷◌, true, false, some, none, ◌≡◌, ◌≢◌, refl, ◌⊎◌, ◌↔◌, String-discrete, ℕ,
}
use mathlib.Core.List.{Perm}
use autobeat.Prelude.Array
use autobeat.Prelude.Dict
use autobeat.Task.{Task, Priority, TaskStatus, DependencyState}
use autobeat.Queue
use autobeat.Queue.{some_task, splice}
use autobeat.PriorityQueue.{
  HeapNode, PriorityTaskQueue, should_swap, swap, swaps, bubble_up_on, bubble_up, smaller,
  bubble_down_on, bubble_down, new, enqueue, put, popped, dequeue, peek, remove, contains, size,
  insert, sort, get_all,
}
use autobeat.PriorityQueue.Histories.{
  Call, enqueues, removes, dequeues, call, calls, dequeue_takes_first, remove_takes_named,
  contains_iff,
}
use autobeat.PriorityQueue.Index.{At}
use autobeat.PriorityQueue.Shown.{first_of}
use autobeat.PriorityQueue.Refined.{serve, serves, queue_refines}
use autobeat.PriorityQueue.View.{place}
use autobeat.PriorityQueue.Fifo.{fifo_calls, uniform-fifo}

program : Unit {0}
unfolding String-discrete Array.swap Dict.get Dict.set Dict.delete should_swap swap swaps
    bubble_up_on bubble_up smaller bubble_down_on bubble_down enqueue put popped dequeue peek remove
    contains insert sort get_all call calls serve serves place some_task splice
program = tt

abbrev task : String → Priority → Task
task id urgency = record {
  id = id;
  priority = urgency;
  status = TaskStatus.queued;
  dependency_state = DependencyState.none;
}

abbrev slow : Task
slow = task "a" Priority.p2

abbrev soon : Task
soon = task "b" Priority.p1

abbrev urgent : Task
urgent = task "c" Priority.p0

abbrev other : Task
other = task "d" Priority.p2

abbrev three : List Call
three = enqueues slow ∷ enqueues soon ∷ enqueues urgent ∷ []

abbrev queue : PriorityTaskQueue
queue = calls (new 3) three

urgent_first : get_all queue ≡ urgent ∷ soon ∷ slow ∷ []
unfolding program
urgent_first = refl

full : calls (new 3) (enqueues slow ∷ enqueues soon ∷ enqueues urgent ∷ enqueues other ∷ []) ≡ queue
unfolding program
full = refl

after_removal : get_all (call (call queue (removes "b")) dequeues) ≡ slow ∷ []
unfolding program
after_removal = refl

-- Of a task that is queued twice, a removal leaves one node that the index has lost.
abbrev twice : PriorityTaskQueue
twice = (remove (enqueue (enqueue (new 3) slow).0 slow).0 "a").0

twice_stays : (size twice ≡ 1) × (contains twice "a" ≡ false) × ((remove twice "a").1 ≡ false)
unfolding program
twice_stays = (refl, refl, refl)

queue_refines_example :
    (get_all queue ≡ serves 3 [] three)
    × ((dequeue queue).1 ≡ first_of (serves 3 [] three))
    × ((id : String) → contains queue id ≡ some_task (serves 3 [] three) id)
queue_refines_example = queue_refines 3 three

abbrev pair : List Call
pair = enqueues slow ∷ enqueues other ∷ removes "a" ∷ []

uniform-fifo_example :
    (get_all (calls (new 3) pair) ≡ Queue.get_all (fifo_calls (Queue.new 3) pair))
    × ((dequeue (calls (new 3) pair)).1 ≡ (Queue.dequeue (fifo_calls (Queue.new 3) pair)).1)
uniform-fifo_example = uniform-fifo Priority.p2 3 pair (refl, (refl, (tt, tt)))

dequeue_takes_first_example :
    ((queue.heap ≡ []) × (dequeue queue ≡ (queue, none)))
    ⊎ ((x : HeapNode) × (q' : PriorityTaskQueue) × (dequeue queue ≡ (q', some x.task))
        × Perm (x ∷ q'.heap) queue.heap
        × ((n : ℕ) (z : HeapNode) → At queue n z → should_swap x z ≡ false))
dequeue_takes_first_example = dequeue_takes_first 3 three

remove_takes_named_example :
    (((n : ℕ) (x : HeapNode) → At queue n x → x.task.id ≢ "b")
      × (remove queue "b" ≡ (queue, false)))
    ⊎ ((x : HeapNode) × (q' : PriorityTaskQueue) × (x.task.id ≡ "b")
        × (remove queue "b" ≡ (q', true))
        × Perm (x ∷ q'.heap) queue.heap)
remove_takes_named_example = remove_takes_named 3 three "b"

contains_iff_example :
    (contains queue "c" ≡ true) ↔ ((n : ℕ) × (x : HeapNode) × At queue n x × (x.task.id ≡ "c"))
contains_iff_example = contains_iff 3 three "c"
