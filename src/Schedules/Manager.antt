-- ===== src/Schedules/Manager.antt =====
-- src/services/schedule-manager.ts: the requests of users, each with the guards before its event.
use autobeat.Prelude.{String, Bool, true, false, none, some, List, [], ◌∷◌, ◌++◌, if◌then◌else◌}
use autobeat.Result.{Result, ok, err, ErrorCode, system_error, invalid_operation, task_not_found}
use autobeat.Schedules.Schedule.{
  ScheduleStatus, Schedule, or_else, truthy, is_active, is_paused, ScheduleExecution,
  ExecutionStatus,
}
use autobeat.Schedules.Cron.{CronParser}
use autobeat.Schedules.Store.{
  ScheduleEvent, ScheduleStore, Answers, Reply, find_row, get_execution_history, default_limit,
}
use autobeat.Schedules.Handler.{
  handle_schedule_cancelled, handle_schedule_paused, handle_schedule_resumed,
}

-- The bus reports a handler's error as its own.
abbrev pub emitted : Reply → Reply
emitted (ok v, s) = (ok v, s)
emitted (err e, s) = (err system_error, s)

unfoldable pub fetch_schedule_or_error :
    Answers → ScheduleStore → String → (ScheduleStatus → Bool) → Result Schedule ErrorCode
fetch_schedule_or_error a s id expected =
    if a.found
    then elim (find_row s.rows id) [
      | none ↦ err task_not_found
      | some schedule ↦ if expected schedule.status then ok schedule else err invalid_operation
    ]
    else err system_error

unfoldable pub pause_schedule : Answers → ScheduleStore → String → Reply
pause_schedule a s id = elim (fetch_schedule_or_error a s id is_active) [
  | err e ↦ (err e, s)
  | ok _ ↦ emitted (handle_schedule_paused a s id)
]

unfoldable pub resume_schedule : CronParser → Answers → ScheduleStore → String → Reply
resume_schedule c a s id = elim (fetch_schedule_or_error a s id is_paused) [
  | err e ↦ (err e, s)
  | ok _ ↦ emitted (handle_schedule_resumed c a s id)
]

abbrev pub is_triggered : ExecutionStatus → Bool
is_triggered ExecutionStatus.triggered = true
is_triggered _ = false

abbrev pub tasks_of : ScheduleExecution → List String
tasks_of e = or_else e.pipeline_task_ids (elim (truthy e.task_id) [ none ↦ [] | some t ↦ t ∷ [] ])

-- `allTaskIds`
unfoldable pub in_flight : List ScheduleExecution → List String
in_flight [] = []
in_flight (e ∷ es) =
    let rest = in_flight es in if is_triggered e.status then tasks_of e ++ rest else rest

unfoldable pub request_cancellations : List String → List ScheduleEvent → List ScheduleEvent
request_cancellations [] events = events
request_cancellations (t ∷ ts) events =
    request_cancellations ts (ScheduleEvent.task_cancellation_requested t ∷ events)

abbrev pub cancel_in_flight : Answers → String → Bool → Reply → Reply
cancel_in_flight a id cancel_tasks (err e, s) = (err e, s)
cancel_in_flight a id cancel_tasks (ok _, s) = (
  ok tt,
  if cancel_tasks
      then (if a.history
          then record s {
            events =
                request_cancellations
                  (in_flight (get_execution_history s.executions id default_limit)) s.events;
          }
          else s)
      else s,
)

abbrev pub any_status : ScheduleStatus → Bool
any_status status = true

-- Also of a schedule that has ended.
unfoldable pub cancel_schedule : Answers → ScheduleStore → String → Bool → Reply
cancel_schedule a s id cancel_tasks = elim (fetch_schedule_or_error a s id any_status) [
  | err e ↦ (err e, s)
  | ok _ ↦ cancel_in_flight a id cancel_tasks (emitted (handle_schedule_cancelled a s id))
]
