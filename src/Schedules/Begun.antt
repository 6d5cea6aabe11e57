-- ===== src/Schedules/Begun.antt =====
-- How often a schedule has been executed, by the events.
use autobeat.Prelude.{
  ℕ, suc, ◌≤◌, String, true, false, Option, none, some, List, [], ◌∷◌, if◌then◌else◌, if_both, ite,
  ◌≡◌, refl, sym, ◌∙◌, ap, subst, arith, String-discrete,
}
use autobeat.Result.{ok, err, ErrorCode}
use autobeat.Schedules.Schedule.{PipelineStep, Schedule, or_else, is_active, ScheduledTask}
use autobeat.Schedules.Cron.{CronParser}
use autobeat.Schedules.Store.{
  ScheduleEvent, schedule_executed, loop_cancelled, ended, task_delegated, loop_created,
  task_cancellation_requested, schedule_triggered, schedule_missed, ScheduleStore, Answers, Reply,
  find_row,
}
use autobeat.Schedules.Triggers.{
  emit_schedule_executed, commit_run, handle_single_task_trigger, delegate_all,
  handle_pipeline_trigger,
}
use autobeat.Schedules.Dispatch.{dispatch, handle_schedule_triggered}
use autobeat.Schedules.Executor.{execute_schedule, execute_all}
use autobeat.Schedules.Stable.{Stable, is_neutral}
use autobeat.Schedules.Stable.Ticks.{AllTouched, execute-stable, execute_all-stable}

unfoldable pub executions_in : String → List ScheduleEvent → ℕ
unfolding String-discrete
executions_in k [] = 0
executions_in k (schedule_executed id t ∷ es) =
    let rest = executions_in k es in ite (String-discrete id k) (suc rest) rest
executions_in k (_ ∷ es) = executions_in k es

emit-executions_in :
    (s : ScheduleStore) (id t : String)
    → executions_in id (emit_schedule_executed s id t).events ≡ suc (executions_in id s.events)
unfolding emit_schedule_executed executions_in
emit-executions_in s id t =
    if_both (λ (x : ScheduleStore). executions_in id x.events ≡ suc (executions_in id s.events))
      s.is_subscribed (λ _. here) (λ _. here)
  where
    here :
        ite (String-discrete id id) (suc (executions_in id s.events)) (executions_in id s.events)
        ≡ suc (executions_in id s.events)
    here = ground arith

delegate-executions_in :
    (k : String) (ts : List ScheduledTask) (es : List ScheduleEvent)
    → executions_in k (delegate_all ts es) ≡ executions_in k es
unfolding delegate_all executions_in
delegate-executions_in k [] es = refl
delegate-executions_in k (t ∷ ts) es = delegate-executions_in k ts (task_delegated t.id ∷ es)

module _ (c : CronParser) (a : Answers) (s : ScheduleStore) (r : Schedule) (t : ℕ)
    (commits : a.committed ≡ true) (delegates : a.delegated ≡ true)
    (tasks : r.is_loop ≡ false) where
  abbrev Begun : Reply → Type 0
  Begun reply = executions_in r.id reply.1.events ≡ suc (executions_in r.id s.events)

  single_Begun : Begun (handle_single_task_trigger c a s r t)
  unfolding handle_single_task_trigger commit_run executions_in
  single_Begun = if_both Begun a.committed (λ _. emit-executions_in _ r.id _) (λ off. absurd cc)

  pipeline_Begun :
      (step : PipelineStep) (steps : List PipelineStep)
      → Begun (handle_pipeline_trigger c a s r step steps t)
  unfolding handle_pipeline_trigger commit_run
  pipeline_Begun step steps =
      if_both Begun a.committed
        (λ _.
          if_both Begun a.delegated
            (λ _. emit-executions_in _ r.id _ ∙ ap suc (delegate-executions_in r.id _ s.events))
            (λ off. absurd cc))
        (λ off. absurd cc)

  dispatch-Begun : Begun (dispatch c a s r t)
  unfolding dispatch
  dispatch-Begun =
      if_both Begun r.is_loop (λ on. absurd cc) (λ _. either (or_else r.pipeline_steps []))
    where
      either :
          (steps : List PipelineStep)
          → Begun (elim steps [
            | [] ↦ handle_single_task_trigger c a s r t
            | step ∷ rest ↦ handle_pipeline_trigger c a s r step rest t
          ])
      either [] = single_Begun
      either (step ∷ rest) = pipeline_Begun step rest

  pub triggered_Begun :
      a.found ≡ true
      → find_row s.rows r.id ≡ some r
      → is_active r.status ≡ true
      → Begun (handle_schedule_triggered c a s r.id t)
  unfolding handle_schedule_triggered
  triggered_Begun answers row on =
      if_both Begun a.found (λ _. found (find_row s.rows r.id) row) (λ off. absurd cc)
    where
      guarded :
          (q : Schedule)
          → q ≡ r
          → Begun (if is_active q.status then dispatch c a s q t else (ok tt, s))
      guarded q same =
          if_both Begun (is_active q.status)
            (λ _. subst (λ (x : Schedule). Begun (dispatch c a s x t)) (sym same) dispatch-Begun)
            (λ off.
              let off' = subst (λ (x : Schedule). is_active x.status ≡ false) same off in absurd cc)

      found :
          (o : Option Schedule)
          → o ≡ some r
          → Begun (elim o [
            | none ↦ (err ErrorCode.task_not_found, s)
            | some schedule ↦
                if is_active schedule.status then dispatch c a s schedule t else (ok tt, s)
          ])
      found none e = absurd cc
      found (some q) e = guarded q cc

neutral-executions_in :
    (k : String) (e : ScheduleEvent) (es : List ScheduleEvent)
    → is_neutral e ≡ true
    → executions_in k (e ∷ es) ≡ executions_in k es
unfolding executions_in
neutral-executions_in k (schedule_executed _ _) es n = absurd cc
neutral-executions_in k (ended _) es n = refl
neutral-executions_in k (loop_cancelled _) es n = refl
neutral-executions_in k (task_delegated _) es n = refl
neutral-executions_in k (loop_created _) es n = refl
neutral-executions_in k (task_cancellation_requested _) es n = refl
neutral-executions_in k (schedule_triggered _) es n = refl
neutral-executions_in k (schedule_missed _) es n = refl

-- The number only grows.
module _ (k : String) (n : ℕ) where
  abbrev pub Reaches : ScheduleStore → Type 0
  Reaches s = n ≤ executions_in k s.events

  reaches-Stable : (c : CronParser) → Stable c Reaches (λ id. Unit)
  unfolding emit_schedule_executed executions_in
  reaches-Stable c = record {
    emits = λ s e m h. subst (λ (x : ℕ). n ≤ x) (sym (neutral-executions_in k e s.events m)) h;
    others = λ s executions tasks b h. h;
    writes = λ s id r u touched e w h. h;
    executes = λ s id t touched idle h.
        if_both Reaches s.is_subscribed (λ _. ground (arith, h)) (λ _. ground (arith, h));
  }

  all_touched :
      (c : CronParser) (due : List Schedule)
      → AllTouched c Reaches (λ id. Unit) (reaches-Stable c) due
  all_touched c [] = tt
  all_touched c (r ∷ due) = (tt, all_touched c due)

  pub execute-Reaches :
      (c : CronParser) (grace now : ℕ) (a : Answers) (s : ScheduleStore) (q : Schedule)
      → Reaches s
      → Reaches (execute_schedule c grace a s q now)
  execute-Reaches c grace now a s q h =
      execute-stable c Reaches (λ id. Unit) (reaches-Stable c) grace a s q now tt h

  pub execute_all-Reaches :
      (c : CronParser) (grace now : ℕ) (a : Answers) (more : List Answers) (s : ScheduleStore)
      (due : List Schedule)
      → Reaches s
      → Reaches (execute_all c grace a more s due now)
  execute_all-Reaches c grace now a more s due h =
      execute_all-stable c Reaches (λ id. Unit) (reaches-Stable c) grace a more s due now
        (all_touched c due) h
