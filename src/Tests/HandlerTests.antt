-- ===== src/Tests/HandlerTests.antt =====
-- The queue handler with the priority queue: a task is requeued, and then a second one.
use autobeat.Prelude.{
  String, List, [], ◌∷◌, true, some, ◌≡◌, refl, ◌∈◌, arith, String-discrete, inr, inl,
}
use text.Mathlib.TextEquality.{eq_iff}
use autobeat.Prelude.Array
use autobeat.Prelude.Dict
use autobeat.Result.{err, ok, system_error}
use autobeat.Task.{Task, Priority, TaskStatus, DependencyState}
use autobeat.PriorityQueue.{
  PriorityTaskQueue, should_swap, swap, swaps, bubble_up_on, bubble_up, enqueue, remove, new,
  contains,
}
use autobeat.PriorityQueue.Valid.{new-IsValid}
use autobeat.PriorityQueue.Contents.{priority, priority-Laws}
use autobeat.QueueHandler
use autobeat.QueueHandler.{
  QueueHandler, Repositories, Call, requeues, enqueues_if_ready, enqueue_if_ready,
  handle_task_cancellation, handle_requeue_task, handle_task_unblocked, call, calls,
}
use autobeat.QueueHandler.Announced.{IsDistinct, MayRun, entered_announced, announced_contains}

program : Unit {0}
unfolding String-discrete Array.swap Dict.get Dict.set should_swap swap swaps bubble_up_on bubble_up
    enqueue remove contains priority priority-Laws QueueHandler.enqueue enqueue_if_ready
    handle_task_cancellation handle_requeue_task handle_task_unblocked call calls
program = tt

abbrev task : String → Priority → Task
task id urgency = record {
  id = id;
  priority = urgency;
  status = TaskStatus.queued;
  dependency_state = DependencyState.none;
}

abbrev slow : Task
slow = task "a" Priority.p2

abbrev urgent : Task
urgent = task "c" Priority.p0

abbrev handler : QueueHandler PriorityTaskQueue
handler = record { queue = new 3; is_set_up = true; task_queued = [] }

abbrev repositories : Repositories
repositories = record { is_blocked = λ id. err system_error; find_by_id = λ id. ok (some slow) }

abbrev history : List Call
history = requeues slow ∷ []

history-IsDistinct : IsDistinct priority repositories handler history
unfolding program
history-IsDistinct = ((λ t may. refl), tt)

abbrev used : QueueHandler PriorityTaskQueue
used = calls priority repositories handler history

entered_announced_example :
    ("c" ∈ (call priority repositories used (enqueues_if_ready urgent)).task_queued)
    × ((t : Task) × (t.id ≡ "c") × MayRun repositories (enqueues_if_ready urgent) t)
unfolding program
entered_announced_example =
    entered_announced priority priority-Laws repositories handler history refl (new-IsValid 3)
      history-IsDistinct (enqueues_if_ready urgent) "c" refl refl

announced_contains_example :
    contains (call priority repositories used (requeues urgent)).queue "c" ≡ true
unfolding program
announced_contains_example =
    announced_contains priority priority-Laws repositories handler history refl (new-IsValid 3)
      history-IsDistinct (requeues urgent) "c" absent (inr (inl refl))
  where
    absent : ¬ ("c" ∈ used.task_queued)
    absent = λ k. elim k [ inl e ↦ ground (arith, eq_iff "c" "a") | inr h ↦ h ]
