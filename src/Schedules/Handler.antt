-- ===== src/Schedules/Handler.antt =====
-- src/services/handlers/schedule-handler.ts: the life cycle of a schedule.
use autobeat.Prelude.{
  ℕ, String, Bool, false, Option, none, some, List, [], ◌∷◌, ltb, if◌then◌else◌, ite,
  String-discrete,
}
use autobeat.Prelude.Dict.{Dict}
use autobeat.Result.{Result, ok, err, ErrorCode, system_error, invalid_input, task_not_found}
use autobeat.Schedules.Schedule.{
  ScheduleStatus, ScheduleType, Schedule, ScheduleUpdate, no_update, truthy, update_schedule,
}
use autobeat.Schedules.Cron.{
  CronParser, validate_cron_expression, get_next_run_time, is_valid_timezone,
}
use autobeat.Schedules.Store.{
  ScheduleEvent, ScheduleStore, Answers, Reply, find_row, save_row, update,
}
use autobeat.Schedules.Dispatch.{loops_found}

abbrev pub checked : Result (Unit {0}) ErrorCode → Result ℕ ErrorCode → Result ℕ ErrorCode
checked (ok _) next = next
checked (err e) next = err e

-- A time of 0 counts as none.
abbrev pub at_time : Option ℕ → Result ℕ ErrorCode
at_time none = err invalid_input
at_time (some t) = if ltb 0 t then ok t else err invalid_input

-- `nextRunAt` of a new schedule.
unfoldable pub first_run :
    CronParser → ScheduleType → Option String → Option ℕ → String → ℕ → Result ℕ ErrorCode
first_run c ScheduleType.cron none scheduled_at timezone now = err invalid_input
first_run c ScheduleType.cron (some expression) scheduled_at timezone now =
    checked (validate_cron_expression c expression) (get_next_run_time c expression timezone now)
first_run c ScheduleType.one_time expression scheduled_at timezone now = at_time scheduled_at

unfoldable pub handle_schedule_created : CronParser → Answers → ScheduleStore → Schedule → Reply
handle_schedule_created c a s schedule =
    if is_valid_timezone c schedule.timezone
    then elim (first_run c schedule.schedule_type (truthy schedule.cron_expression)
        schedule.scheduled_at schedule.timezone a.now) [
          | err e ↦ (err e, s)
          | ok t ↦
              if a.saved
              then (
                ok tt,
                record s {
                  rows =
                      save_row s.rows (
                        update_schedule schedule
                          (record no_update { next_run_at = some (some t) }));
                },
              )
              else (err system_error, s)
        ]
    else (err invalid_input, s)

-- `runningSchedules` without the first entry of a task or loop.
unfoldable pub take_first : Dict String → String → Dict String
unfolding String-discrete
take_first [] tracking_id = []
take_first ((id, t) ∷ m) tracking_id =
    ite (String-discrete t tracking_id) m ((id, t) ∷ take_first m tracking_id)

unfoldable pub clear_running_schedule_by_tracking_id : ScheduleStore → String → ScheduleStore
clear_running_schedule_by_tracking_id s tracking_id =
    if s.is_subscribed then record s { running = take_first s.running tracking_id } else s

-- Each emission is heard by the executor.
unfoldable pub cancel_loops : List String → ScheduleStore → ScheduleStore
cancel_loops [] s = s
cancel_loops (id ∷ ids) s = cancel_loops ids (
    clear_running_schedule_by_tracking_id
      (record s { events = ScheduleEvent.loop_cancelled id ∷ s.events }) id)

abbrev pub cancellation : ScheduleUpdate
cancellation = record no_update { status = some ScheduleStatus.cancelled; next_run_at = some none }

abbrev pub has_loop : Option Schedule → Bool
has_loop none = false
has_loop (some schedule) = schedule.is_loop

abbrev pub found_row : Answers → ScheduleStore → String → Option Schedule
found_row a s id = if a.found then find_row s.rows id else none

abbrev pub cancel_loops_of : Answers → Option Schedule → Reply → Reply
cancel_loops_of a found (err e, s) = (err e, s)
cancel_loops_of a found (ok _, s) =
    (ok tt, if has_loop found then cancel_loops (loops_found a) s else s)

unfoldable pub handle_schedule_cancelled : Answers → ScheduleStore → String → Reply
handle_schedule_cancelled a s id = cancel_loops_of a (found_row a s id) (update a s id cancellation)

unfoldable pub handle_schedule_paused : Answers → ScheduleStore → String → Reply
handle_schedule_paused a s id =
    update a s id (record no_update { status = some ScheduleStatus.paused })

abbrev pub next_or_same : Result ℕ ErrorCode → Option ℕ → Option ℕ
next_or_same (ok t) same = some t
next_or_same (err e) same = same

-- A failure to find the next time keeps the old one.
unfoldable pub resumed_run :
    CronParser → ScheduleType → Option String → String → Option ℕ → ℕ → Option ℕ
resumed_run c ScheduleType.cron (some expression) timezone next_run_at now =
    next_or_same (get_next_run_time c expression timezone now) next_run_at
resumed_run c ScheduleType.cron none timezone next_run_at now = next_run_at
resumed_run c ScheduleType.one_time expression timezone next_run_at now = next_run_at

unfoldable pub handle_schedule_resumed : CronParser → Answers → ScheduleStore → String → Reply
handle_schedule_resumed c a s id =
    if a.found
    then elim (find_row s.rows id) [
      | none ↦ (err task_not_found, s)
      | some schedule ↦ update a s id (record no_update {
        status = some ScheduleStatus.active;
        next_run_at = some (
            resumed_run c schedule.schedule_type (truthy schedule.cron_expression) schedule.timezone
              schedule.next_run_at a.now);
      })
    ]
    else (err system_error, s)

unfoldable pub handle_schedule_updated : Answers → ScheduleStore → String → ScheduleUpdate → Reply
handle_schedule_updated a s id u = update a s id u
