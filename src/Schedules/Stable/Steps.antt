-- ===== src/Schedules/Stable/Steps.antt =====
-- What every change keeps holds after any history.
use autobeat.Prelude.{ℕ, true, false, none, List, [], ◌∷◌, if_both, ◌≡◌, ◌≢◌, ◌⊎◌, inl, inr, refl}
use autobeat.Schedules.Schedule.{Schedule}
use autobeat.Schedules.Cron.{CronParser}
use autobeat.Schedules.Store.{ScheduleStore, Answers, Reply, find_due, set_status}
use autobeat.Schedules.Executor.{tick, start, stop, tracked_ends}
use autobeat.Schedules.Creation.{create_schedule}
use autobeat.Schedules.Histories.{
  Step, schedule_requested, pipeline_requested, loop_requested, pause_requested, resume_requested,
  cancel_requested, ticks, starts, stops, tracked_ended, task_changed, step, steps, Creates,
  CreateAll,
}
use autobeat.Schedules.Stable.{Lasting}
use autobeat.Schedules.Stable.Ticks.{AllTouched, execute_all-stable}
use autobeat.Schedules.Stable.Requests.{pause-stable, resume-stable, cancel-stable}
use autobeat.Schedules.Stable.Created.{create_with-stable, loop-stable, pipeline-stable}

-- The executor is not stopped.
abbrev pub IsUnstopped : List Step → Type 0
IsUnstopped [] = Unit
IsUnstopped (x ∷ xs) = (x ≢ stops) × IsUnstopped xs

module _ (c : CronParser) (Inv : ScheduleStore → Type 0) (Made : Schedule → Type 0)
    (lasting : Lasting c Inv Made) (grace : ℕ) where
  all_touched : (due : List Schedule) → AllTouched c Inv (λ id. Unit) lasting.stable due
  all_touched [] = tt
  all_touched (r ∷ due) = (tt, all_touched due)

  tick-stable :
      (a : Answers) (more : List Answers) (s : ScheduleStore) → Inv s → Inv (tick c grace a more s)
  unfolding tick
  tick-stable a more s h =
      if_both Inv a.found
        (λ _.
          execute_all-stable c Inv (λ id. Unit) lasting.stable grace a more s
            (find_due s.rows a.now) a.now (all_touched (find_due s.rows a.now)) h)
        (λ _. h)

  -- A stop keeps it as well, or is not the step.
  abbrev Permits : Step → Type 0
  Permits x = Creates Made x × (x ≡ stops → (s : ScheduleStore) → Inv s → Inv (stop s))

  step-stable : (s : ScheduleStore) (x : Step) → Permits x → Inv s → Inv (step c grace s x)
  unfolding step create_schedule start tracked_ends
  step-stable s (schedule_requested a id q) (f, _) h =
      create_with-stable c Inv Made lasting a s h id q none false _ f
  step-stable s (pipeline_requested a id q ps) (f, _) h =
      pipeline-stable c Inv Made lasting a s h id q ps f
  step-stable s (loop_requested a id q shell ends) (f, _) h =
      loop-stable c Inv Made lasting a s h id q shell ends f
  step-stable s (pause_requested a id) f h = pause-stable c Inv Made lasting a s h id
  step-stable s (resume_requested a id) f h = resume-stable c Inv Made lasting a s h id
  step-stable s (cancel_requested a id b) f h = cancel-stable c Inv Made lasting a s h id b
  step-stable s (ticks a more) f h = tick-stable a more s h
  step-stable s (starts a more) f h =
      if_both (λ (reply : Reply). Inv reply.1) s.is_running (λ _. h)
        (λ _.
          tick-stable a more (record s { is_running = true })
            (lasting.stable.others s s.executions s.tasks true h))
  step-stable s stops (_, k) h = k refl s h
  step-stable s (tracked_ended id) f h = lasting.ends s id h
  step-stable s (task_changed id status) f h =
      lasting.stable.others s s.executions (set_status s.tasks id status) s.is_running h

  pub steps-stable :
      (s : ScheduleStore) (xs : List Step)
      → CreateAll Made xs
      → ((t : ScheduleStore) → Inv t → Inv (stop t)) ⊎ IsUnstopped xs
      → Inv s
      → Inv (steps c grace s xs)
  unfolding steps
  steps-stable s [] f k h = h
  steps-stable s (x ∷ xs) (f, fs) (inl k) h =
      steps-stable (step c grace s x) xs fs (inl k) (step-stable s x (f, λ e. k) h)
  steps-stable s (x ∷ xs) (f, fs) (inr (n, ns)) h =
      steps-stable (step c grace s x) xs fs (inr ns) (step-stable s x (f, λ e. absurd (n e)) h)
