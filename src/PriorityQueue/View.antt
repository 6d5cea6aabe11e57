-- ===== src/PriorityQueue/View.antt =====
-- The abstract queue: the waiting tasks in the order in which they leave.
use autobeat.Prelude.{
  suc, ◌<◌, String, false, List, [], ◌∷◌, if◌then◌else◌, ◌≡◌, ◌≢◌, arith, refl, ◌∙◌, ap, map, ltb,
  length,
}
use autobeat.Task.{Task, order}
use autobeat.Queue.{some_task, splice}
use autobeat.PriorityQueue.{HeapNode, should_swap, insert, sort}
use autobeat.PriorityQueue.Sorted.{All}

-- A task waits behind those of its priority and of a more urgent one.
unfoldable pub place : Task → List Task → List Task
place t [] = t ∷ []
place t (u ∷ us) = if ltb (order t.priority) (order u.priority) then t ∷ u ∷ us else u ∷ place t us

abbrev pub tasks_of : List HeapNode → List Task
tasks_of = map (λ (n : HeapNode). n.task)

-- The node came later than all of these.
abbrev pub IsLater : HeapNode → HeapNode → Type 0
IsLater x y = y.insertion_order < x.insertion_order

pub insert-place :
    (x : HeapNode) (l : List HeapNode)
    → All (IsLater x) l
    → tasks_of (insert x l) ≡ place x.task (tasks_of l)
unfolding insert place should_swap
insert-place x [] h = refl
insert-place x (y ∷ l) (h, hs) = ground (arith, insert-place x l hs)

abbrev pub IsNot : String → HeapNode → Type 0
IsNot id y = y.task.id ≢ id

pub IsNot-prop : (id : String) (y : HeapNode) → IsProp (IsNot id y)
IsNot-prop id y = hlevel

pub some_task-none :
    (id : String) (l : List HeapNode) → All (IsNot id) l → some_task (tasks_of l) id ≡ false
unfolding some_task
some_task-none id [] h = refl
some_task-none id (y ∷ l) (h, hs) = ground (arith, some_task-none id l hs)

pub none-some_task :
    (id : String) (l : List HeapNode) → some_task (tasks_of l) id ≡ false → All (IsNot id) l
unfolding some_task
none-some_task id [] h = tt
none-some_task id (y ∷ l) h = (λ e. ground arith, none-some_task id l (ground arith))

pub splice-insert :
    (x : HeapNode) (l : List HeapNode)
    → All (IsNot x.task.id) l
    → splice (tasks_of (insert x l)) x.task.id ≡ tasks_of l
unfolding splice insert
splice-insert x [] h = ground arith
splice-insert x (y ∷ l) (h, hs) = ground (arith, splice-insert x l hs)

pub splice_none :
    (id : String) (l : List HeapNode) → All (IsNot id) l → splice (tasks_of l) id ≡ tasks_of l
unfolding splice
splice_none id [] h = refl
splice_none id (y ∷ l) (h, hs) = ground (arith, splice_none id l hs)

length-insert :
    (x : HeapNode) (l : List HeapNode) → length (tasks_of (insert x l)) ≡ suc (length (tasks_of l))
unfolding insert
length-insert x [] = refl
length-insert x (y ∷ l) = ground (arith, length-insert x l)

pub length-sort : (l : List HeapNode) → length (tasks_of (sort l)) ≡ length l
unfolding sort
length-sort [] = refl
length-sort (x ∷ l) = length-insert x (sort l) ∙ ap suc (length-sort l)
