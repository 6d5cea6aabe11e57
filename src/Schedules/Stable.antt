-- ===== src/Schedules/Stable.antt =====
-- What is kept by each single change of the state is kept by all operations: the changes, and the
-- properties that they keep.
pub mod Triggers
pub mod Ticks
pub mod Requests
pub mod Created
pub mod Steps
use autobeat.Prelude.{
  ℕ, String, Bool, true, false, Option, none, some, List, [], ◌∷◌, if◌then◌else◌, if_both, ◌≡◌,
  refl,
}
use autobeat.Prelude.Dict
use autobeat.Result.{Result, ok, err, ErrorCode}
use autobeat.Schedules.Schedule.{
  ScheduleStatus, Schedule, ScheduleUpdate, no_update, update_schedule, is_active, is_paused,
  ScheduledTask, ScheduleExecution,
}
use autobeat.Schedules.Cron.{CronParser}
use autobeat.Schedules.Store.{
  ScheduleEvent, schedule_executed, loop_cancelled, ended, ScheduleStore, Answers, Reply, find_row,
  write_row, save_row, update,
}
use autobeat.Schedules.Timing.{compute_schedule_updates}
use autobeat.Schedules.Triggers.{emit_schedule_executed}
use autobeat.Schedules.Handler.{cancellation, clear_running_schedule_by_tracking_id}

-- The updates that the code makes of a row.
pub data IsWrite (c : CronParser) (r : Schedule) : ScheduleUpdate → Type 0 where
  runs : (t now : ℕ) → is_active r.status ≡ true → IsWrite c r (compute_schedule_updates c r t now)
  cancels : IsWrite c r cancellation
  pauses :
      is_active r.status ≡ true
      → IsWrite c r (record no_update { status = some ScheduleStatus.paused })
  resumes :
      (t : Option ℕ)
      → is_paused r.status ≡ true
      → IsWrite c r (record no_update { status = some ScheduleStatus.active; next_run_at = some t })
  completes :
      IsWrite c r
        (record no_update { status = some ScheduleStatus.completed; next_run_at = some none })
  moves : (t : ℕ) → IsWrite c r (record no_update { next_run_at = some (some t) })

-- An event that neither begins nor ends a run.
abbrev pub is_neutral : ScheduleEvent → Bool
is_neutral (schedule_executed _ _) = false
is_neutral (ended _) = false
is_neutral (loop_cancelled _) = false
is_neutral _ = true

-- A property that the changes made for some of the schedules keep; a run begins only for a schedule that
-- does not run.
pub record Stable (c : CronParser) (Inv : ScheduleStore → Type 0) (Touched : String → Type 0)
    : Type 0 where
  pub emits :
      (s : ScheduleStore) (e : ScheduleEvent)
      → is_neutral e ≡ true
      → Inv s
      → Inv (record s { events = e ∷ s.events })
  pub others :
      (s : ScheduleStore) (executions : List ScheduleExecution) (tasks : List ScheduledTask)
      (b : Bool)
      → Inv s
      → Inv (record s { executions = executions; tasks = tasks; is_running = b })
  pub writes :
      (s : ScheduleStore) (id : String) (r : Schedule) (u : ScheduleUpdate)
      → Touched id
      → find_row s.rows id ≡ some r
      → IsWrite c r u
      → Inv s
      → Inv (record s { rows = write_row s.rows (update_schedule r u) })
  pub executes :
      (s : ScheduleStore) (id t : String)
      → Touched id
      → Dict.get s.running id ≡ none
      → Inv s
      → Inv (emit_schedule_executed s id t)

-- One that is also kept when users make requests and runs end.
pub record Lasting (c : CronParser) (Inv : ScheduleStore → Type 0) (Made : Schedule → Type 0)
    : Type 0 where
  pub stable : Stable c Inv (λ id. Unit)
  pub cancels_loop :
      (s : ScheduleStore) (t : String)
      → Inv s
      → Inv (
          clear_running_schedule_by_tracking_id
            (record s { events = loop_cancelled t ∷ s.events })
            t)
  pub ends :
      (s : ScheduleStore) (t : String)
      → Inv s
      → Inv (clear_running_schedule_by_tracking_id (record s { events = ended t ∷ s.events }) t)
  pub saves :
      (s : ScheduleStore) (new : Schedule)
      → Made new
      → Inv s
      → Inv (record s { rows = save_row s.rows new })

module _ (c : CronParser) (Inv : ScheduleStore → Type 0) (Touched : String → Type 0)
    (stable : Stable c Inv Touched) where
  pub update-stable :
      (a : Answers) (s : ScheduleStore) (id : String) (u : ScheduleUpdate)
      → Touched id
      → ((r : Schedule) → find_row s.rows id ≡ some r → IsWrite c r u)
      → Inv s
      → Inv (update a s id u).1
  unfolding update
  update-stable a s id u touched write h = found (find_row s.rows id) refl
    where
      found :
          (o : Option Schedule)
          → find_row s.rows id ≡ o
          → Inv
              (elim o as (λ _. Reply) [
                | none ↦ (err ErrorCode.task_not_found, s)
                | some r ↦
                    if a.updated
                    then (ok tt, record s { rows = write_row s.rows (update_schedule r u) })
                    else (err ErrorCode.system_error, s)
              ]).1
      found none e = h
      found (some r) e =
          if_both (λ (reply : Reply). Inv reply.1) a.updated
            (λ _. stable.writes s id r u touched e (write r e) h) (λ _. h)
