-- ===== src/Schedules/Stable/Created.antt =====
-- What every change keeps holds after the creation of a schedule.
use autobeat.Prelude.{
  ℕ, String, Bool, true, false, ◌&&◌, not, Option, none, some, List, length, ltb, if◌then◌else◌,
  if_both,
}
use autobeat.Result.{Result, ok, err, ErrorCode}
use autobeat.Schedules.Schedule.{PipelineStep, Schedule, no_update, update_schedule}
use autobeat.Schedules.Cron.{CronParser, is_valid_timezone}
use autobeat.Schedules.Store.{ScheduleStore, Answers, Reply, save_row}
use autobeat.Schedules.Handler.{handle_schedule_created}
use autobeat.Schedules.Creation.{
  ScheduleRequest, ScheduleTiming, validate_schedule_timing, new_schedule, create_with,
  create_scheduled_pipeline, create_scheduled_loop,
}
use autobeat.Schedules.Histories.{Fits}
use autobeat.Schedules.Stable.{Lasting}
use autobeat.Schedules.Stable.Requests.{emitted-stable}

module _ (c : CronParser) (Inv : ScheduleStore → Type 0) (Made : Schedule → Type 0)
    (lasting : Lasting c Inv Made) (a : Answers) (s : ScheduleStore) (h : Inv s) where
  abbrev Holds : Reply → Type 0
  Holds reply = Inv reply.1

  pub create_with-stable :
      (id : String) (q : ScheduleRequest) (pipeline : Option (List PipelineStep)) (is_loop : Bool)
      (timing : Result ScheduleTiming ErrorCode)
      → Fits Made id q
      → Holds (create_with c a s id q pipeline is_loop timing)
  unfolding handle_schedule_created
  create_with-stable id q pipeline is_loop (err e) fits = h
  create_with-stable id q pipeline is_loop (ok timing) fits =
      emitted-stable c Inv Made lasting a s h _
        (if_both Holds (is_valid_timezone c timing.timezone) (λ _. first _) (λ _. h))
    where
      first :
          (next : Result ℕ ErrorCode)
          → Holds (elim next [
            | err e ↦ (err e, s)
            | ok t ↦
                if a.saved
                then (
                  ok tt,
                  record s {
                    rows = save_row s.rows (
                        update_schedule
                          (new_schedule id q timing pipeline is_loop)
                          (record no_update { next_run_at = some (some t) }));
                  },
                )
                else (err ErrorCode.system_error, s)
          ])
      first (err e) = h
      first (ok t) =
          if_both Holds a.saved (λ _. lasting.saves s _ (fits timing pipeline is_loop t) h) (λ _. h)

  pub loop-stable :
      (id : String) (q : ScheduleRequest) (shell ends : Bool)
      → Fits Made id (record q { after_schedule_id = none })
      → Holds (create_scheduled_loop c a s id q shell ends)
  unfolding create_scheduled_loop
  loop-stable id q shell ends fits = timed (validate_schedule_timing c q a.now)
    where
      timed :
          (r : Result ScheduleTiming ErrorCode)
          → Holds (elim r [
            | err e ↦ (err e, s)
            | ok timing ↦
                if shell && not ends
                then (err ErrorCode.invalid_input, s)
                else create_with c a s id
                    (record q { after_schedule_id = none })
                    none
                    true
                    (ok timing)
          ])
      timed (err e) = h
      timed (ok timing) =
          if_both Holds (shell && not ends) (λ _. h)
            (λ _.
              create_with-stable id (record q { after_schedule_id = none }) none true (ok timing)
                fits)

  pub pipeline-stable :
      (id : String) (q : ScheduleRequest) (steps : List PipelineStep)
      → Fits Made id q
      → Holds (create_scheduled_pipeline c a s id q steps)
  unfolding create_scheduled_pipeline
  pipeline-stable id q steps fits =
      if_both Holds (ltb (length steps) 2) (λ _. h)
        (λ _.
          if_both Holds (ltb 20 (length steps)) (λ _. h)
            (λ _. create_with-stable id q (some steps) false _ fits))
