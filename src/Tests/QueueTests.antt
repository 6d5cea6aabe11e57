-- ===== src/Tests/QueueTests.antt =====
-- The FIFO queue and its handler on two tasks, of which the second is blocked.
use autobeat.Prelude.{◌≤◌, String, List, [], ◌∷◌, true, some, ◌≡◌, refl, arith, String-discrete}
use autobeat.Result.{ok, err, system_error, resource_exhausted}
use autobeat.Task.{Task, Priority, TaskStatus, DependencyState}
use autobeat.Queue.{FifoTaskQueue, new, enqueue, dequeue, some_task, splice, remove, contains, size}
use autobeat.Queue.Order
use autobeat.Queue.Order.{
  enqueue_all, dequeue_many, dequeue_many-enqueue_all, calls-new-size_le, fifo,
}
use autobeat.QueueHandler
use autobeat.QueueHandler.{
  first_failure, setup, QueueHandler, Repositories, Call, enqueues_if_ready, requeues, cancels,
  unblocks, enqueue_if_ready, handle_task_cancellation, handle_requeue_task, handle_task_unblocked,
  call, calls,
}

program : Unit {0}
unfolding String-discrete enqueue dequeue some_task splice remove contains Order.call Order.calls
    enqueue_all dequeue_many fifo QueueHandler.enqueue enqueue_if_ready handle_task_cancellation
    handle_requeue_task handle_task_unblocked call calls first_failure setup
program = tt

abbrev task : String → DependencyState → Task
task id state = record {
  id = id;
  priority = Priority.p2;
  status = TaskStatus.queued;
  dependency_state = state;
}

abbrev free_task : Task
free_task = task "a" DependencyState.none

abbrev blocked_task : Task
blocked_task = task "b" DependencyState.blocked

abbrev two : List Task
two = free_task ∷ blocked_task ∷ []

enqueue_full : (enqueue (enqueue_all (new 2) two) free_task).1 ≡ err resource_exhausted
unfolding program
enqueue_full = refl

calls-new-size_le_example :
    size (Order.calls (new 1) (Order.enqueues free_task ∷ Order.enqueues blocked_task ∷ [])) ≤ 1
calls-new-size_le_example =
    calls-new-size_le 1 (Order.enqueues free_task ∷ Order.enqueues blocked_task ∷ [])

dequeue_many-enqueue_all_example : dequeue_many 2 (enqueue_all (new 2) two) ≡ two
dequeue_many-enqueue_all_example = dequeue_many-enqueue_all 2 two (omega arith)

abbrev handler : QueueHandler FifoTaskQueue
handler = record { queue = new 2; is_set_up = true; task_queued = [] }

setup_fails : (setup handler (ok "sub-1" ∷ err system_error ∷ [])).1 ≡ err system_error
unfolding program
setup_fails = refl

abbrev repositories : Repositories
repositories = record {
  is_blocked = λ id. err system_error;
  find_by_id = λ id. ok (some blocked_task);
}

blocked_waits : calls fifo repositories handler (enqueues_if_ready blocked_task ∷ []) ≡ handler
unfolding program
blocked_waits = refl

unblocked_runs :
    (calls fifo repositories handler
      (enqueues_if_ready blocked_task ∷ unblocks "b" ∷ [])).task_queued
    ≡ "b" ∷ []
unfolding program
unblocked_runs = refl
