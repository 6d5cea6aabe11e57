-- ===== src/Schedules/Executor.antt =====
-- src/services/schedule-executor.ts: the ticks that find schedules whose time has come. The answers of
-- one tick are a list, one for each schedule in turn; the last one serves those that are left.
use autobeat.Prelude.{
  ℕ, ◌-◌, String, Bool, true, false, Option, none, some, List, [], ◌∷◌, ltb, if◌then◌else◌,
}
use autobeat.Prelude.Dict
use autobeat.Result.{Result, ok, err, ErrorCode, invalid_operation}
use autobeat.Schedules.Schedule.{
  ScheduleStatus, ScheduleType, MissedRunPolicy, Schedule, no_update, or_else, truthy,
  update_schedule, ExecutionStatus,
}
use autobeat.Schedules.Cron.{CronParser, get_next_run_time}
use autobeat.Schedules.Store.{
  ScheduleEvent, ScheduleStore, Answers, Reply, find_row, write_row, find_due, update,
}
use autobeat.Schedules.Dispatch.{handle_schedule_triggered}
use autobeat.Schedules.Handler.{cancellation, clear_running_schedule_by_tracking_id}

abbrev pub is_some : Option String → Bool
is_some none = false
is_some (some _) = true

unfoldable pub is_schedule_running : ScheduleStore → String → Bool
is_schedule_running s id = is_some (Dict.get s.running id)

-- The event, and what the handler of triggers does with it.
unfoldable pub emit_schedule_triggered :
    CronParser → Answers → ScheduleStore → String → ℕ → ScheduleStore
emit_schedule_triggered c a s id now =
    (handle_schedule_triggered c a
      (record s { events = ScheduleEvent.schedule_triggered id ∷ s.events }) id now).1

abbrev pub store_next : Answers → ScheduleStore → String → Result ℕ ErrorCode → ScheduleStore
store_next a s id (err e) = s
store_next a s id (ok t) = (update a s id (record no_update { next_run_at = some (some t) })).1

unfoldable pub update_next_run :
    CronParser
    → Answers
    → ScheduleStore
    → String
    → ScheduleType
    → Option String
    → String
    → ScheduleStore
update_next_run c a s id ScheduleType.one_time expression timezone =
    (update a s id
      (record no_update { status = some ScheduleStatus.completed; next_run_at = some none })).1
update_next_run c a s id ScheduleType.cron none timezone = s
update_next_run c a s id ScheduleType.cron (some expression) timezone =
    store_next a s id (get_next_run_time c expression timezone a.now)

-- The policy FAIL, in one transaction; without the row it is rolled back.
unfoldable pub fail_missed : Answers → ScheduleStore → String → ℕ → ScheduleStore
fail_missed a s id missed_at = elim (find_row s.rows id) [
  | none ↦ s
  | some r ↦
      if a.committed
      then record s {
        rows = write_row s.rows (update_schedule r cancellation);
        executions =
            record {
              schedule_id = id;
              task_id = none;
              loop_id = none;
              scheduled_for = missed_at;
              executed_at = none;
              status = ExecutionStatus.missed;
              pipeline_task_ids = none;
            }
            ∷ s.executions;
        events = ScheduleEvent.schedule_missed id ∷ s.events;
      }
      else s
]

unfoldable pub handle_missed_run :
    CronParser → Answers → ScheduleStore → Schedule → ℕ → MissedRunPolicy → ScheduleStore
handle_missed_run c a s schedule now MissedRunPolicy.skip =
    update_next_run c a (record s { events = ScheduleEvent.schedule_missed schedule.id ∷ s.events })
      schedule.id schedule.schedule_type (truthy schedule.cron_expression) schedule.timezone
handle_missed_run c a s schedule now MissedRunPolicy.catchup =
    emit_schedule_triggered c a s schedule.id now
handle_missed_run c a s schedule now MissedRunPolicy.fail =
    fail_missed a s schedule.id (or_else schedule.next_run_at now)

-- A schedule without a next time has no delay.
abbrev pub is_missed : Option ℕ → ℕ → ℕ → Bool
is_missed next_run_at now grace_period = ltb grace_period (now - or_else next_run_at now)

unfoldable pub execute_schedule :
    CronParser → ℕ → Answers → ScheduleStore → Schedule → ℕ → ScheduleStore
execute_schedule c grace_period a s schedule now =
    if is_schedule_running s schedule.id
    then s
    else if is_missed schedule.next_run_at now grace_period
    then handle_missed_run c a s schedule now schedule.missed_run_policy
    else emit_schedule_triggered c a s schedule.id now

unfoldable pub execute_all :
    CronParser → ℕ → Answers → List Answers → ScheduleStore → List Schedule → ℕ → ScheduleStore
execute_all c grace_period a more s [] now = s
execute_all c grace_period a [] s (schedule ∷ due) now =
    execute_all c grace_period a [] (execute_schedule c grace_period a s schedule now) due now
execute_all c grace_period a (b ∷ more) s (schedule ∷ due) now =
    execute_all c grace_period b more (execute_schedule c grace_period a s schedule now) due now

unfoldable pub tick : CronParser → ℕ → Answers → List Answers → ScheduleStore → ScheduleStore
tick c grace_period a more s =
    if a.found then execute_all c grace_period a more s (find_due s.rows a.now) a.now else s

-- The first tick follows at once.
unfoldable pub start : CronParser → ℕ → Answers → List Answers → ScheduleStore → Reply
start c grace_period a more s =
    if s.is_running
    then (err invalid_operation, s)
    else (ok tt, tick c grace_period a more (record s { is_running = true }))

-- Only `create` subscribes, so that an executor that is started again hears nothing.
unfoldable pub stop : ScheduleStore → ScheduleStore
stop s = record s { is_running = false; is_subscribed = false; running = [] }

-- A task or a loop has come to its end.
unfoldable pub tracked_ends : ScheduleStore → String → ScheduleStore
tracked_ends s tracking_id =
    clear_running_schedule_by_tracking_id
      (record s { events = ScheduleEvent.ended tracking_id ∷ s.events }) tracking_id
