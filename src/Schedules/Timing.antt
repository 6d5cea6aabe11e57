-- ===== src/Schedules/Timing.antt =====
-- src/services/handlers/schedule-handler.ts: when a schedule that has run runs again.
use autobeat.Prelude.{
  ℕ, suc, String, Bool, false, ◌&&◌, Option, none, some, ltb, leb, if◌then◌else◌,
}
use autobeat.Result.{Result, ok, err, ErrorCode}
use autobeat.Schedules.Schedule.{
  ScheduleStatus, ScheduleType, Schedule, ScheduleUpdate, no_update, truthy,
}
use autobeat.Schedules.Cron.{CronParser, get_next_run_time}

-- `newStatus` and `newNextRunAt`
abbrev pub Timing : Type 0
Timing = Option ScheduleStatus × Option ℕ

abbrev pub timing_of : Result ℕ ErrorCode → Timing
timing_of (ok t) = (none, some t)
timing_of (err e) = (some ScheduleStatus.paused, none)

unfoldable pub next_timing : CronParser → ScheduleType → Option String → String → ℕ → Timing
next_timing c ScheduleType.cron none timezone now = (none, none)
next_timing c ScheduleType.cron (some expression) timezone now =
    timing_of (get_next_run_time c expression timezone now)
next_timing c ScheduleType.one_time expression timezone now = (some ScheduleStatus.completed, none)

-- A limit of 0 is none.
abbrev pub is_used_up : Option ℕ → ℕ → Bool
is_used_up none n = false
is_used_up (some m) n = ltb 0 m && leb m n

abbrev pub is_over : Option ℕ → ℕ → Bool
is_over none now = false
is_over (some t) now = ltb 0 t && leb t now

unfoldable pub timing_after : CronParser → Schedule → ℕ → Timing
timing_after c schedule now =
    if is_over schedule.expires_at now
    then (some ScheduleStatus.expired, none)
    else if is_used_up schedule.max_runs (suc schedule.run_count)
    then (some ScheduleStatus.completed, none)
    else next_timing c schedule.schedule_type (truthy schedule.cron_expression) schedule.timezone
        now

unfoldable pub compute_schedule_updates : CronParser → Schedule → ℕ → ℕ → ScheduleUpdate
compute_schedule_updates c schedule triggered_at now = record no_update {
  run_count = some (suc schedule.run_count);
  last_run_at = some (some triggered_at);
  next_run_at = some (timing_after c schedule now).1;
  status = (timing_after c schedule now).0;
}
