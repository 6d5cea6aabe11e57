-- ===== src/Schedules/Runs.antt =====
-- A trigger runs its schedule, when the database answers.
use autobeat.Prelude.{
  ℕ, suc, String, true, false, Option, none, some, List, [], ◌∷◌, if◌then◌else◌, if_both, ◌≡◌, refl,
  sym, subst,
}
use autobeat.Result.{ok, err, ErrorCode}
use autobeat.Schedules.Schedule.{PipelineStep, Schedule, or_else, update_schedule, is_active}
use autobeat.Schedules.Cron.{CronParser}
use autobeat.Schedules.Store.{ScheduleStore, Answers, Reply, find_row, write_row, update}
use autobeat.Schedules.Timing.{compute_schedule_updates}
use autobeat.Schedules.Triggers.{
  emit_schedule_executed, commit_run, handle_single_task_trigger, handle_pipeline_trigger,
}
use autobeat.Schedules.Dispatch.{
  loops_found, is_empty, start_loop, handle_loop_trigger, dispatch, handle_schedule_triggered,
}
use autobeat.Schedules.Due.{find-write_same}

-- The database answers and commits, tasks are handed on, and a loop passes its validation.
pub record IsWell (a : Answers) : Type 0 where
  pub found : a.found ≡ true
  pub committed : a.committed ≡ true
  pub updated : a.updated ≡ true
  pub validated : a.validated ≡ true
  pub delegated : a.delegated ≡ true

abbrev pub AllWell : List Answers → Type 0
AllWell [] = Unit
AllWell (a ∷ more) = IsWell a × AllWell more

-- The schedule has one more run, at that time.
abbrev pub HasRun : Schedule → ℕ → List Schedule → Type 0
HasRun r now rows =
    (q : Schedule) × (find_row rows r.id ≡ some q)
    × (q.run_count ≡ suc r.run_count)
    × (q.last_run_at ≡ some now)

module _ (c : CronParser) (a : Answers) (s : ScheduleStore) (r : Schedule) (t : ℕ) (well : IsWell a)
    (row : find_row s.rows r.id ≡ some r) where
  abbrev Ran : Reply → Type 0
  Ran reply = HasRun r t reply.1.rows

  committed :
      find_row (write_row s.rows (update_schedule r (compute_schedule_updates c r t a.now))) r.id
      ≡ some (update_schedule r (compute_schedule_updates c r t a.now))
  committed =
      find-write_same s.rows r (update_schedule r (compute_schedule_updates c r t a.now)) row

  run_HasRun :
      HasRun r t (write_row s.rows (update_schedule r (compute_schedule_updates c r t a.now)))
  unfolding compute_schedule_updates
  run_HasRun = (update_schedule r (compute_schedule_updates c r t a.now), committed, refl, refl)

  executed_HasRun :
      (x : ScheduleStore) (id k : String)
      → HasRun r t x.rows
      → HasRun r t (emit_schedule_executed x id k).rows
  unfolding emit_schedule_executed
  executed_HasRun x id k h =
      if_both (λ (y : ScheduleStore). HasRun r t y.rows) x.is_subscribed (λ _. h) (λ _. h)

  single_Ran : Ran (handle_single_task_trigger c a s r t)
  unfolding handle_single_task_trigger commit_run
  single_Ran =
      if_both Ran a.committed (λ _. executed_HasRun _ r.id _ run_HasRun)
        (λ off. let on = well.committed in absurd cc)

  pipeline_Ran :
      (step : PipelineStep) (steps : List PipelineStep)
      → Ran (handle_pipeline_trigger c a s r step steps t)
  unfolding handle_pipeline_trigger commit_run
  pipeline_Ran step steps =
      if_both Ran a.committed
        (λ _. if_both Ran a.delegated (λ _. executed_HasRun _ r.id _ run_HasRun) (λ _. run_HasRun))
        (λ off. let on = well.committed in absurd cc)

  start_loop-Ran : Ran (start_loop c a s r t)
  unfolding start_loop commit_run
  start_loop-Ran =
      if_both Ran a.validated
        (λ _.
          if_both Ran a.committed
            (λ _.
              if_both Ran a.loop_created (λ _. executed_HasRun _ r.id _ run_HasRun)
                (λ _. run_HasRun))
            (λ off. let on = well.committed in absurd cc))
        (λ off. let on = well.validated in absurd cc)

  update-Ran : Ran (update a s r.id (compute_schedule_updates c r t a.now))
  unfolding update
  update-Ran = found (find_row s.rows r.id) row
    where
      found :
          (o : Option Schedule)
          → o ≡ some r
          → Ran (elim o [
            | none ↦ (err ErrorCode.task_not_found, s)
            | some q ↦
                if a.updated
                then (
                  ok tt,
                  record s {
                    rows =
                        write_row s.rows (update_schedule q (compute_schedule_updates c r t a.now));
                  },
                )
                else (err ErrorCode.system_error, s)
          ])
      found none e = absurd cc
      found (some q) e =
          let same : q ≡ r = cc in
          if_both Ran a.updated
            (λ _.
              subst
                (λ (x : Schedule).
                  HasRun r t
                    (write_row s.rows (update_schedule x (compute_schedule_updates c r t a.now))))
                (sym same) run_HasRun)
            (λ off. let on = well.updated in absurd cc)

  dispatch-Ran : Ran (dispatch c a s r t)
  unfolding dispatch handle_loop_trigger
  dispatch-Ran =
      if_both Ran r.is_loop
        (λ _. if_both Ran (is_empty (loops_found a)) (λ _. start_loop-Ran) (λ _. update-Ran))
        (λ _. either (or_else r.pipeline_steps []))
    where
      either :
          (steps : List PipelineStep)
          → Ran (elim steps [
            | [] ↦ handle_single_task_trigger c a s r t
            | step ∷ rest ↦ handle_pipeline_trigger c a s r step rest t
          ])
      either [] = single_Ran
      either (step ∷ rest) = pipeline_Ran step rest

  pub triggered_Ran : is_active r.status ≡ true → Ran (handle_schedule_triggered c a s r.id t)
  unfolding handle_schedule_triggered
  triggered_Ran on =
      if_both Ran a.found (λ _. found (find_row s.rows r.id) row)
        (λ off. let answers = well.found in absurd cc)
    where
      guarded :
          (q : Schedule)
          → q ≡ r
          → Ran (if is_active q.status then dispatch c a s q t else (ok tt, s))
      guarded q same =
          if_both Ran (is_active q.status)
            (λ _. subst (λ (x : Schedule). Ran (dispatch c a s x t)) (sym same) dispatch-Ran)
            (λ off.
              let off' = subst (λ (x : Schedule). is_active x.status ≡ false) same off in absurd cc)

      found :
          (o : Option Schedule)
          → o ≡ some r
          → Ran (elim o [
            | none ↦ (err ErrorCode.task_not_found, s)
            | some schedule ↦
                if is_active schedule.status then dispatch c a s schedule t else (ok tt, s)
          ])
      found none e = absurd cc
      found (some q) e = guarded q cc
