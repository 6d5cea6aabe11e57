-- ===== src/Schedules/Triggers.antt =====
-- src/services/handlers/schedule-handler.ts: what a trigger does, for a task, a pipeline and a loop.
use autobeat.Prelude.{ℕ, suc, String, Option, none, some, List, [], ◌∷◌, ◌++◌, map, if◌then◌else◌}
use autobeat.Prelude.Dict
use autobeat.Result.{ok, err, system_error}
use autobeat.Task.{Priority, TaskStatus}
use autobeat.Schedules.Schedule.{
  TaskTemplate, PipelineStep, Schedule, or_else, truthy, update_schedule, ScheduledTask,
  create_task, is_terminal_state, ScheduleExecution, ExecutionStatus,
}
use autobeat.Schedules.Cron.{CronParser}
use autobeat.Schedules.Store.{
  ScheduleEvent, ScheduleStore, Answers, Reply, write_row, get_execution_history, find_task,
  set_status,
}
use autobeat.Schedules.Timing.{compute_schedule_updates}

unfoldable pub live_task : Answers → ScheduleStore → Option String → Option String
live_task a s none = none
live_task a s (some id) =
    if a.task_found
    then elim (find_task s.tasks id) [
      | none ↦ none
      | some t ↦ if is_terminal_state t.status then none else some id
    ]
    else none

unfoldable pub resolve_after_schedule_task_id :
    Answers → ScheduleStore → Option String → Option String
resolve_after_schedule_task_id a s none = none
resolve_after_schedule_task_id a s (some id) =
    if a.history
    then elim (get_execution_history s.executions id 1) [
      | [] ↦ none
      | e ∷ _ ↦ live_task a s (truthy e.task_id)
    ]
    else none

unfoldable pub record_failed_execution : Answers → ScheduleStore → String → ℕ → ℕ → ScheduleStore
record_failed_execution a s id scheduled_for triggered_at =
    if a.recorded
    then record s {
      executions =
          record {
            schedule_id = id;
            task_id = none;
            loop_id = none;
            scheduled_for = scheduled_for;
            executed_at = some triggered_at;
            status = ExecutionStatus.failed;
            pipeline_task_ids = none;
          }
          ∷ s.executions;
    }
    else s

-- The subscription of the executor.
abbrev pub mark_schedule_running : ScheduleStore → String → String → ScheduleStore
mark_schedule_running s id tracking_id = record s { running = Dict.set s.running id tracking_id }

unfoldable pub emit_schedule_executed : ScheduleStore → String → String → ScheduleStore
emit_schedule_executed s id tracking_id =
    let emitted : ScheduleStore = record s {
      events = ScheduleEvent.schedule_executed id tracking_id ∷ s.events;
    } in
    if s.is_subscribed then mark_schedule_running emitted id tracking_id else emitted

-- The writes of one transaction: new tasks, an execution, and the row of the schedule.
unfoldable pub commit_run :
    CronParser
    → Answers
    → ScheduleStore
    → Schedule
    → ℕ
    → List ScheduledTask
    → ScheduleExecution
    → ScheduleStore
commit_run c a s schedule triggered_at tasks execution = record s {
  tasks = s.tasks ++ tasks;
  executions = execution ∷ s.executions;
  rows =
      write_row s.rows
        (update_schedule schedule (compute_schedule_updates c schedule triggered_at a.now));
}

abbrev pub with_after : Option (List String) → Option String → Option (List String)
with_after depends_on none = depends_on
with_after depends_on (some id) = some (or_else depends_on [] ++ id ∷ [])

unfoldable pub handle_single_task_trigger :
    CronParser → Answers → ScheduleStore → Schedule → ℕ → Reply
handle_single_task_trigger c a s schedule triggered_at =
    let template = schedule.task_template in
    let after = resolve_after_schedule_task_id a s (truthy schedule.after_schedule_id) in
    let depends_on = with_after template.depends_on after in
    let task = create_task (a.task_ids 0) template.prompt template.priority depends_on in
    let scheduled_for = or_else schedule.next_run_at triggered_at in
    let execution : ScheduleExecution = record {
      schedule_id = schedule.id;
      task_id = some task.id;
      loop_id = none;
      scheduled_for = scheduled_for;
      executed_at = some triggered_at;
      status = ExecutionStatus.triggered;
      pipeline_task_ids = none;
    } in
    let run = commit_run c a s schedule triggered_at (task ∷ []) execution in
    let emitted : ScheduleStore = record run {
      events = ScheduleEvent.task_delegated task.id ∷ run.events;
    } in
    if a.committed
    then (ok tt, emit_schedule_executed emitted schedule.id task.id)
    else (err system_error, record_failed_execution a s schedule.id scheduled_for triggered_at)

abbrev pub only : Option String → Option (List String)
only none = none
only (some id) = some (id ∷ [])

-- `a ?? b` where both may be undefined.
abbrev pub first_of : Option Priority → Option Priority → Option Priority
first_of none b = b
first_of (some a) b = some a

-- The tasks of the steps, the first of the list at position `i`, after a task that is there or not.
unfoldable pub make_tasks :
    (ℕ → String) → TaskTemplate → ℕ → Option String → List PipelineStep → List ScheduledTask
make_tasks ids defaults i before [] = []
make_tasks ids defaults i before (step ∷ steps) =
    let depends_on = only before in
    let priority = first_of step.priority defaults.priority in
    let rest = make_tasks ids defaults (suc i) (some (ids i)) steps in
    create_task (ids i) step.prompt priority depends_on ∷ rest

abbrev pub id_of : ScheduledTask → String
id_of t = t.id

-- `tasks[tasks.length - 1].id`, of a pipeline with at least one step.
unfoldable pub last_id : String → List ScheduledTask → String
last_id id [] = id
last_id id (t ∷ ts) = last_id t.id ts

-- The events of a pipeline's tasks, the latest first.
unfoldable pub delegate_all : List ScheduledTask → List ScheduleEvent → List ScheduleEvent
delegate_all [] events = events
delegate_all (t ∷ ts) events = delegate_all ts (ScheduleEvent.task_delegated t.id ∷ events)

-- `taskRepo.update` of every task of the pipeline.
unfoldable pub cancel_tasks : List ScheduledTask → List ScheduledTask → List ScheduledTask
cancel_tasks [] tasks = tasks
cancel_tasks (t ∷ ts) tasks = cancel_tasks ts (set_status tasks t.id TaskStatus.cancelled)

unfoldable pub handle_pipeline_trigger :
    CronParser → Answers → ScheduleStore → Schedule → PipelineStep → List PipelineStep → ℕ → Reply
handle_pipeline_trigger c a s schedule step steps triggered_at =
    let after = resolve_after_schedule_task_id a s (truthy schedule.after_schedule_id) in
    let tasks = make_tasks a.task_ids schedule.task_template 0 after (step ∷ steps) in
    let last = last_id (a.task_ids 0) tasks in
    let scheduled_for = or_else schedule.next_run_at triggered_at in
    let execution : ScheduleExecution = record {
      schedule_id = schedule.id;
      task_id = some last;
      loop_id = none;
      scheduled_for = scheduled_for;
      executed_at = some triggered_at;
      status = ExecutionStatus.triggered;
      pipeline_task_ids = some (map id_of tasks);
    } in
    let run = commit_run c a s schedule triggered_at tasks execution in
    let aborted : ScheduleStore = record run {
      events = ScheduleEvent.task_delegated (a.task_ids 0) ∷ run.events;
      tasks = if a.updated then cancel_tasks tasks run.tasks else run.tasks;
    } in
    let emitted : ScheduleStore = record run { events = delegate_all tasks run.events } in
    if a.committed
    then (if a.delegated
        then (ok tt, emit_schedule_executed emitted schedule.id last)
        else (err system_error, aborted))
    else (err system_error, record_failed_execution a s schedule.id scheduled_for triggered_at)
