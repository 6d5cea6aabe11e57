-- ===== src/Schedules/Histories.antt =====
-- What may happen to the schedules, one thing after the other. The first answers of a tick are those
-- for its query and the first schedule. `ScheduleUpdated` is no step, since no part emits it.
use autobeat.Prelude.{ℕ, String, Bool, Option, none, some, List, [], ◌∷◌, ◌≡◌, refl}
use autobeat.Task.{TaskStatus}
use autobeat.Schedules.Schedule.{PipelineStep, Schedule, no_update, update_schedule}
use autobeat.Schedules.Cron.{CronParser}
use autobeat.Schedules.Store.{ScheduleStore, Answers, set_status}
use autobeat.Schedules.Executor.{tick, start, stop, tracked_ends}
use autobeat.Schedules.Manager.{pause_schedule, resume_schedule, cancel_schedule}
use autobeat.Schedules.Creation.{
  ScheduleRequest, ScheduleTiming, new_schedule, create_schedule, create_scheduled_pipeline,
  create_scheduled_loop,
}

pub data Step : Type 0 where
  schedule_requested : Answers → String → ScheduleRequest → Step
  pipeline_requested : Answers → String → ScheduleRequest → List PipelineStep → Step
  loop_requested : Answers → String → ScheduleRequest → Bool → Bool → Step
  pause_requested : Answers → String → Step
  resume_requested : Answers → String → Step
  cancel_requested : Answers → String → Bool → Step
  ticks : Answers → List Answers → Step
  starts : Answers → List Answers → Step
  stops : Step
  tracked_ended : String → Step
  -- Another part changes a task.
  task_changed : String → TaskStatus → Step

unfoldable pub step : CronParser → ℕ → ScheduleStore → Step → ScheduleStore
step c grace s (schedule_requested a id q) = (create_schedule c a s id q).1
step c grace s (pipeline_requested a id q steps) = (create_scheduled_pipeline c a s id q steps).1
step c grace s (loop_requested a id q shell ends) = (create_scheduled_loop c a s id q shell ends).1
step c grace s (pause_requested a id) = (pause_schedule a s id).1
step c grace s (resume_requested a id) = (resume_schedule c a s id).1
step c grace s (cancel_requested a id cancel_tasks) = (cancel_schedule a s id cancel_tasks).1
step c grace s (ticks a more) = tick c grace a more s
step c grace s (starts a more) = (start c grace a more s).1
step c grace s stops = stop s
step c grace s (tracked_ended id) = tracked_ends s id
step c grace s (task_changed id status) = record s { tasks = set_status s.tasks id status }

unfoldable pub steps : CronParser → ℕ → ScheduleStore → List Step → ScheduleStore
steps c grace s [] = s
steps c grace s (x ∷ xs) = steps c grace (step c grace s x) xs

-- The id of a schedule that a step asks for.
abbrev pub requested_id : Step → Option String
requested_id (schedule_requested a id q) = some id
requested_id (pipeline_requested a id q steps) = some id
requested_id (loop_requested a id q shell ends) = some id
requested_id _ = none

module _ (P : Schedule → Type 0) where
  -- A new schedule of that id, with whatever times and kind.
  abbrev pub Fits : String → ScheduleRequest → Type 0
  Fits id q =
      (timing : ScheduleTiming) (pipeline : Option (List PipelineStep)) (is_loop : Bool) (t : ℕ)
      → P (
          update_schedule (new_schedule id q timing pipeline is_loop)
            (record no_update { next_run_at = some (some t) }))

  -- What holds of the rows that a step creates.
  abbrev pub Creates : Step → Type 0
  Creates (schedule_requested a id q) = Fits id q
  Creates (pipeline_requested a id q steps) = Fits id q
  Creates (loop_requested a id q shell ends) = Fits id (record q { after_schedule_id = none })
  Creates _ = Unit

  abbrev pub CreateAll : List Step → Type 0
  CreateAll [] = Unit
  CreateAll (x ∷ xs) = Creates x × CreateAll xs

  pub Creates-requested :
      (x : Step)
      → ((id : String) → requested_id x ≡ some id → (q : ScheduleRequest) → Fits id q)
      → Creates x
  Creates-requested (schedule_requested a id q) f = f id refl q
  Creates-requested (pipeline_requested a id q steps) f = f id refl q
  Creates-requested (loop_requested a id q shell ends) f =
      f id refl (record q { after_schedule_id = none })
  Creates-requested (pause_requested a id) f = tt
  Creates-requested (resume_requested a id) f = tt
  Creates-requested (cancel_requested a id b) f = tt
  Creates-requested (ticks a more) f = tt
  Creates-requested (starts a more) f = tt
  Creates-requested stops f = tt
  Creates-requested (tracked_ended id) f = tt
  Creates-requested (task_changed id status) f = tt

  pub CreateAll-requests :
      (xs : List Step) → ((id : String) (q : ScheduleRequest) → Fits id q) → CreateAll xs
  CreateAll-requests [] f = tt
  CreateAll-requests (x ∷ xs) f = (Creates-requested x (λ id _ q. f id q), CreateAll-requests xs f)
