-- ===== src/Queue.antt =====
-- src/implementations/task-queue.ts: the class `FIFOTaskQueue`, and what `TaskQueue` of
-- src/core/interfaces.ts promises to src/services/handlers/queue-handler.ts.
pub mod Order
use autobeat.Prelude.{
  ℕ, String, Bool, true, false, Option, none, some, List, [], ◌∷◌, ◌++◌, ite, length,
  String-discrete, leb, ◌==◌, if◌then◌else◌, ◌≡◌, ◌≢◌,
}
use autobeat.Result.{Result, ok, err, ErrorCode, resource_exhausted}
use autobeat.Task.{Task}

-- The operations of a queue that the handler calls, but for `size` in its log lines.
pub record TaskQueue (Q : Type 0) : Type 0 where
  pub enqueue : Q → Task → Q × Result (Unit {0}) ErrorCode
  pub remove : Q → String → Q × Result Bool ErrorCode
  pub contains : Q → String → Bool

-- What the interface does not say and the handler takes for granted, under an invariant of the queue
-- that an implementation chooses.
pub record Laws {Q : Type 0} (tq : TaskQueue Q) : Type 1 where
  pub IsValid : Q → Type 0
  pub enqueue_new :
      (q : Q) (t : Task)
      → IsValid q
      → (tq.enqueue q t).1 ≡ ok tt
      → tq.contains (tq.enqueue q t).0 t.id ≡ true
  pub enqueue_refused :
      (q : Q) (t : Task) (e : ErrorCode) → (tq.enqueue q t).1 ≡ err e → (tq.enqueue q t).0 ≡ q
  pub enqueue_other :
      (q : Q) (t : Task)
      → IsValid q
      → (id : String) → id ≢ t.id
      → tq.contains (tq.enqueue q t).0 id ≡ tq.contains q id
  pub enqueue_valid :
      (q : Q) (t : Task) → IsValid q → tq.contains q t.id ≡ false → IsValid (tq.enqueue q t).0
  pub remove_fewer :
      (q : Q)
      → IsValid q
      → (id other : String) → tq.contains (tq.remove q id).0 other ≡ true
      → tq.contains q other ≡ true
  pub remove_valid : (q : Q) → IsValid q → (id : String) → IsValid (tq.remove q id).0

pub record FifoTaskQueue : Type 0 where
  pub tasks : List Task
  pub max_queue_size : ℕ

abbrev pub new : ℕ → FifoTaskQueue
new max_queue_size = record { tasks = []; max_queue_size = max_queue_size }

unfoldable pub enqueue : FifoTaskQueue → Task → FifoTaskQueue × Result (Unit {0}) ErrorCode
enqueue q t =
    if leb q.max_queue_size (length q.tasks)
    then (q, err resource_exhausted)
    else (record q { tasks = q.tasks ++ t ∷ [] }, ok tt)

unfoldable pub dequeue : FifoTaskQueue → FifoTaskQueue × Option Task
dequeue q = elim q.tasks [ [] ↦ (q, none) | t ∷ ts ↦ (record q { tasks = ts }, some t) ]

unfoldable pub peek : FifoTaskQueue → Option Task
peek q = elim q.tasks [ [] ↦ none | t ∷ ts ↦ some t ]

-- `tasks.some((t) => t.id === taskId)`
unfoldable pub some_task : List Task → String → Bool
some_task [] id = false
some_task (t ∷ ts) id = ite (String-discrete t.id id) true (some_task ts id)

-- `findIndex` and `splice`: the first task of that id goes.
unfoldable pub splice : List Task → String → List Task
splice [] id = []
splice (t ∷ ts) id = ite (String-discrete t.id id) ts (t ∷ splice ts id)

unfoldable pub remove : FifoTaskQueue → String → FifoTaskQueue × Bool
unfolding some_task
remove q id =
    if some_task q.tasks id then (record q { tasks = splice q.tasks id }, true) else (q, false)

unfoldable pub contains : FifoTaskQueue → String → Bool
unfolding some_task
contains q id = some_task q.tasks id

abbrev pub get_all : FifoTaskQueue → List Task
get_all q = q.tasks

abbrev pub size : FifoTaskQueue → ℕ
size q = length q.tasks

abbrev pub clear : FifoTaskQueue → FifoTaskQueue
clear q = record q { tasks = [] }

abbrev pub is_empty : FifoTaskQueue → Bool
is_empty q = length q.tasks == 0
