-- ===== src/Schedules/Stable/Triggers.antt =====
-- What every change keeps holds after the trigger of a schedule that does not run.
use autobeat.Prelude.{
  ℕ, String, true, Option, none, some, List, [], ◌∷◌, if◌then◌else◌, if_both, ◌≡◌, refl, sym, ◌∙◌,
  subst,
}
use autobeat.Prelude.Dict
use autobeat.Result.{ok, err, ErrorCode}
use autobeat.Schedules.Schedule.{
  PipelineStep, Schedule, or_else, update_schedule, is_active, ScheduledTask, ScheduleExecution,
}
use autobeat.Schedules.Cron.{CronParser}
use autobeat.Schedules.Store.{
  task_delegated, loop_created, ScheduleStore, Answers, Reply, find_row, write_row,
}
use autobeat.Schedules.Timing.{compute_schedule_updates}
use autobeat.Schedules.Triggers.{
  record_failed_execution, commit_run, handle_single_task_trigger, delegate_all,
  handle_pipeline_trigger,
}
use autobeat.Schedules.Dispatch.{
  loops_found, is_empty, start_loop, handle_loop_trigger, dispatch, handle_schedule_triggered,
}
use autobeat.Schedules.Rows.{find-id, some_inj}
use autobeat.Schedules.Stable.{Stable, IsWrite, runs, update-stable}

module _ (c : CronParser) (Inv : ScheduleStore → Type 0) (Touched : String → Type 0)
    (stable : Stable c Inv Touched) where
  abbrev Holds : Reply → Type 0
  Holds reply = Inv reply.1

  failed-stable :
      (a : Answers) (s : ScheduleStore) (id : String) (for t : ℕ)
      → Inv s
      → Inv (record_failed_execution a s id for t)
  unfolding record_failed_execution
  failed-stable a s id for t h =
      if_both Inv a.recorded (λ _. stable.others s _ s.tasks s.is_running h) (λ _. h)

  delegate-stable :
      (ts : List ScheduledTask) (s : ScheduleStore)
      → Inv s
      → Inv (record s { events = delegate_all ts s.events })
  unfolding delegate_all
  delegate-stable [] s h = h
  delegate-stable (t ∷ ts) s h =
      delegate-stable ts (record s { events = task_delegated t.id ∷ s.events })
        (stable.emits s (task_delegated t.id) refl h)

  module _ (a : Answers) (s : ScheduleStore) (r : Schedule) (t : ℕ) (touched : Touched r.id)
      (row : find_row s.rows r.id ≡ some r) (on : is_active r.status ≡ true)
      (idle : Dict.get s.running r.id ≡ none) (h : Inv s) where
    -- The writes of the transaction, possibly with other tasks.
    commit-stable :
        {tasks : List ScheduledTask} {executions : List ScheduleExecution}
        → Inv (record s {
          tasks = tasks;
          executions = executions;
          rows = write_row s.rows (update_schedule r (compute_schedule_updates c r t a.now));
        })
    commit-stable =
        stable.others
          (record s {
            rows = write_row s.rows (update_schedule r (compute_schedule_updates c r t a.now));
          })
          _ _ s.is_running
          (stable.writes s r.id r (compute_schedule_updates c r t a.now) touched row
            (runs t a.now on) h)

    single-stable : Holds (handle_single_task_trigger c a s r t)
    unfolding handle_single_task_trigger commit_run
    single-stable =
        if_both Holds a.committed
          (λ _.
            stable.executes _ r.id _ touched idle
              (stable.emits _ (task_delegated _) refl commit-stable))
          (λ _. failed-stable a s r.id _ t h)

    pipeline-stable :
        (step : PipelineStep) (steps : List PipelineStep)
        → Holds (handle_pipeline_trigger c a s r step steps t)
    unfolding handle_pipeline_trigger commit_run
    pipeline-stable step steps =
        if_both Holds a.committed
          (λ _.
            if_both Holds a.delegated
              (λ _. stable.executes _ r.id _ touched idle (delegate-stable _ _ commit-stable))
              (λ _. stable.emits _ (task_delegated (a.task_ids 0)) refl commit-stable))
          (λ _. failed-stable a s r.id _ t h)

    start_loop-stable : Holds (start_loop c a s r t)
    unfolding start_loop commit_run
    start_loop-stable =
        if_both Holds a.validated
          (λ _.
            if_both Holds a.committed
              (λ _.
                if_both Holds a.loop_created
                  (λ _.
                    stable.executes _ r.id _ touched idle
                      (stable.emits _ (loop_created a.loop_id) refl commit-stable))
                  (λ _. stable.emits _ (loop_created a.loop_id) refl commit-stable))
              (λ _. failed-stable a s r.id _ t h))
          (λ _. failed-stable a s r.id _ t h)

    dispatch-stable : Holds (dispatch c a s r t)
    unfolding dispatch handle_loop_trigger
    dispatch-stable =
        if_both Holds r.is_loop
          (λ _.
            if_both Holds (is_empty (loops_found a)) (λ _. start_loop-stable)
              (λ _.
                update-stable c Inv Touched stable a s r.id (compute_schedule_updates c r t a.now)
                  touched
                  (λ q e.
                    subst (λ (x : Schedule). IsWrite c x (compute_schedule_updates c r t a.now))
                      (some_inj r q (sym row ∙ e)) (runs t a.now on))
                  h))
          (λ _. either (or_else r.pipeline_steps []))
      where
        either :
            (steps : List PipelineStep)
            → Holds (elim steps [
              | [] ↦ handle_single_task_trigger c a s r t
              | step ∷ rest ↦ handle_pipeline_trigger c a s r step rest t
            ])
        either [] = single-stable
        either (step ∷ rest) = pipeline-stable step rest

  pub triggered-stable :
      (a : Answers) (s : ScheduleStore) (id : String) (t : ℕ)
      → Touched id
      → Dict.get s.running id ≡ none
      → Inv s
      → Holds (handle_schedule_triggered c a s id t)
  unfolding handle_schedule_triggered
  triggered-stable a s id t touched idle h =
      if_both Holds a.found (λ _. found (find_row s.rows id) refl) (λ _. h)
    where
      found :
          (o : Option Schedule)
          → find_row s.rows id ≡ o
          → Holds (elim o [
            | none ↦ (err ErrorCode.task_not_found, s)
            | some schedule ↦
                if is_active schedule.status then dispatch c a s schedule t else (ok tt, s)
          ])
      found none e = h
      found (some r) e =
          let same : id ≡ r.id = sym (find-id s.rows id r e) in
          if_both Holds (is_active r.status)
            (λ on.
              dispatch-stable a s r t (subst Touched same touched)
                (subst (λ (k : String). find_row s.rows k ≡ some r) same e) on
                (subst (λ (k : String). Dict.get s.running k ≡ none) same idle) h)
            (λ _. h)
