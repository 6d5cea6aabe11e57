-- ===== src/Schedules/Dispatch.antt =====
-- src/services/handlers/schedule-handler.ts: the trigger of a loop, and the choice between the triggers.
use autobeat.Prelude.{ℕ, String, Bool, true, false, ◌||◌, none, some, List, [], ◌∷◌, if◌then◌else◌}
use autobeat.Result.{ok, err, system_error, invalid_input, task_not_found}
use autobeat.Loops.Loop.{LoopStatus}
use autobeat.Loops.Loop
use autobeat.Schedules.Schedule.{Schedule, or_else, is_active, ScheduleExecution, ExecutionStatus}
use autobeat.Schedules.Cron.{CronParser}
use autobeat.Schedules.Store.{ScheduleEvent, ScheduleStore, Answers, Reply, find_row, update}
use autobeat.Schedules.Timing.{compute_schedule_updates}
use autobeat.Schedules.Triggers.{
  record_failed_execution, emit_schedule_executed, commit_run, handle_single_task_trigger,
  handle_pipeline_trigger,
}

abbrev pub is_loop_active : LoopStatus → Bool
is_loop_active status = Loop.is_running status || Loop.is_paused status

unfoldable pub active_loops : List (String × LoopStatus) → List String
active_loops [] = []
active_loops ((id, status) ∷ loops) =
    let rest = active_loops loops in if is_loop_active status then id ∷ rest else rest

-- A query that fails finds no loop.
abbrev pub loops_found : Answers → List String
loops_found a = elim a.loops [ none ↦ [] | some loops ↦ active_loops loops ]

abbrev pub is_empty : List String → Bool
is_empty [] = true
is_empty (_ ∷ _) = false

unfoldable pub start_loop : CronParser → Answers → ScheduleStore → Schedule → ℕ → Reply
start_loop c a s schedule triggered_at =
    let scheduled_for = or_else schedule.next_run_at triggered_at in
    let failed = record_failed_execution a s schedule.id scheduled_for triggered_at in
    let execution : ScheduleExecution = record {
      schedule_id = schedule.id;
      task_id = none;
      loop_id = some a.loop_id;
      scheduled_for = scheduled_for;
      executed_at = some triggered_at;
      status = ExecutionStatus.triggered;
      pipeline_task_ids = none;
    } in
    let run = commit_run c a s schedule triggered_at [] execution in
    let emitted : ScheduleStore = record run {
      events = ScheduleEvent.loop_created a.loop_id ∷ run.events;
    } in
    if a.validated
    then (if a.committed
        then (if a.loop_created
            then (ok tt, emit_schedule_executed emitted schedule.id a.loop_id)
            else (err system_error, emitted))
        else (err system_error, failed))
    else (err invalid_input, failed)

-- While a loop of the schedule is active the timing advances, and no loop is made.
unfoldable pub handle_loop_trigger : CronParser → Answers → ScheduleStore → Schedule → ℕ → Reply
handle_loop_trigger c a s schedule triggered_at =
    if is_empty (loops_found a) then start_loop c a s schedule triggered_at else (
      ok tt,
      (update a s schedule.id (compute_schedule_updates c schedule triggered_at a.now)).1,
    )

-- No step, or no list, makes no pipeline.
unfoldable pub dispatch : CronParser → Answers → ScheduleStore → Schedule → ℕ → Reply
dispatch c a s schedule triggered_at =
    if schedule.is_loop
    then handle_loop_trigger c a s schedule triggered_at
    else elim (or_else schedule.pipeline_steps []) [
      | [] ↦ handle_single_task_trigger c a s schedule triggered_at
      | step ∷ steps ↦ handle_pipeline_trigger c a s schedule step steps triggered_at
    ]

unfoldable pub handle_schedule_triggered : CronParser → Answers → ScheduleStore → String → ℕ → Reply
handle_schedule_triggered c a s id triggered_at =
    if a.found
    then elim (find_row s.rows id) [
      | none ↦ (err task_not_found, s)
      | some schedule ↦
          if is_active schedule.status then dispatch c a s schedule triggered_at else (ok tt, s)
    ]
    else (err system_error, s)
