-- ===== src/Schedules/Stable/Ticks.antt =====
-- What every change keeps holds after a tick.
use autobeat.Prelude.{
  ℕ, String, false, Option, none, some, List, [], ◌∷◌, if◌then◌else◌, if_both, ◌≡◌, refl,
}
use autobeat.Prelude.Dict
use autobeat.Result.{Result, ok, err, ErrorCode}
use autobeat.Schedules.Schedule.{
  ScheduleType, MissedRunPolicy, Schedule, or_else, truthy, update_schedule, ExecutionStatus,
}
use autobeat.Schedules.Cron.{CronParser, get_next_run_time}
use autobeat.Schedules.Store.{
  schedule_missed, schedule_triggered, ScheduleStore, Answers, find_row, write_row,
}
use autobeat.Schedules.Handler.{cancellation}
use autobeat.Schedules.Executor.{
  is_some, is_schedule_running, emit_schedule_triggered, store_next, update_next_run, fail_missed,
  handle_missed_run, is_missed, execute_schedule, execute_all,
}
use autobeat.Schedules.Stable.{Stable, cancels, completes, moves, update-stable}
use autobeat.Schedules.Stable.Triggers.{triggered-stable}

idle_get : (o : Option String) → is_some o ≡ false → o ≡ none
idle_get none e = refl
idle_get (some t) e = absurd cc

module _ (c : CronParser) (Inv : ScheduleStore → Type 0) (Touched : String → Type 0)
    (stable : Stable c Inv Touched) where
  -- It holds of the state, and of each schedule of the list.
  abbrev pub AllTouched : List Schedule → Type 0
  AllTouched [] = Unit
  AllTouched (r ∷ due) = Touched r.id × AllTouched due

  emit_triggered-stable :
      (a : Answers) (s : ScheduleStore) (id : String) (now : ℕ)
      → Touched id
      → Dict.get s.running id ≡ none
      → Inv s
      → Inv (emit_schedule_triggered c a s id now)
  unfolding emit_schedule_triggered
  emit_triggered-stable a s id now touched idle h =
      triggered-stable c Inv Touched stable a _ id now touched idle
        (stable.emits s (schedule_triggered id) refl h)

  store_next-stable :
      (a : Answers) (s : ScheduleStore) (id : String) (next : Result ℕ ErrorCode)
      → Touched id
      → Inv s
      → Inv (store_next a s id next)
  store_next-stable a s id (err e) touched h = h
  store_next-stable a s id (ok t) touched h =
      update-stable c Inv Touched stable a s id _ touched (λ r _. moves t) h

  update_next-stable :
      (a : Answers) (s : ScheduleStore) (id : String) (type : ScheduleType)
      (expression : Option String) (timezone : String)
      → Touched id
      → Inv s
      → Inv (update_next_run c a s id type expression timezone)
  unfolding update_next_run
  update_next-stable a s id ScheduleType.one_time expression timezone touched h =
      update-stable c Inv Touched stable a s id _ touched (λ r _. completes) h
  update_next-stable a s id ScheduleType.cron none timezone touched h = h
  update_next-stable a s id ScheduleType.cron (some expression) timezone touched h =
      store_next-stable a s id (get_next_run_time c expression timezone a.now) touched h

  fail_missed-stable :
      (a : Answers) (s : ScheduleStore) (id : String) (missed_at : ℕ)
      → Touched id
      → Inv s
      → Inv (fail_missed a s id missed_at)
  unfolding fail_missed
  fail_missed-stable a s id missed_at touched h = found (find_row s.rows id) refl
    where
      found :
          (o : Option Schedule)
          → find_row s.rows id ≡ o
          → Inv (elim o [
            | none ↦ s
            | some r ↦
                if a.committed
                then record s {
                  rows = write_row s.rows (update_schedule r cancellation);
                  executions =
                      record {
                        schedule_id = id;
                        task_id = none;
                        loop_id = none;
                        scheduled_for = missed_at;
                        executed_at = none;
                        status = ExecutionStatus.missed;
                        pipeline_task_ids = none;
                      }
                      ∷ s.executions;
                  events = schedule_missed id ∷ s.events;
                }
                else s
          ])
      found none e = h
      found (some r) e =
          if_both Inv a.committed
            (λ _. stable.emits _ (schedule_missed id) refl (
              stable.others (record s { rows = write_row s.rows (update_schedule r cancellation) })
                _ s.tasks s.is_running (stable.writes s id r cancellation touched e cancels h)))
            (λ _. h)

  missed-stable :
      (a : Answers) (s : ScheduleStore) (r : Schedule) (now : ℕ) (policy : MissedRunPolicy)
      → Touched r.id
      → Dict.get s.running r.id ≡ none
      → Inv s
      → Inv (handle_missed_run c a s r now policy)
  unfolding handle_missed_run
  missed-stable a s r now MissedRunPolicy.skip touched idle h =
      update_next-stable a _ r.id r.schedule_type (truthy r.cron_expression) r.timezone touched
        (stable.emits s (schedule_missed r.id) refl h)
  missed-stable a s r now MissedRunPolicy.catchup touched idle h =
      emit_triggered-stable a s r.id now touched idle h
  missed-stable a s r now MissedRunPolicy.fail touched idle h =
      fail_missed-stable a s r.id (or_else r.next_run_at now) touched h

  pub execute-stable :
      (grace : ℕ) (a : Answers) (s : ScheduleStore) (r : Schedule) (now : ℕ)
      → Touched r.id
      → Inv s
      → Inv (execute_schedule c grace a s r now)
  unfolding execute_schedule is_schedule_running
  execute-stable grace a s r now touched h =
      if_both Inv (is_some (Dict.get s.running r.id)) (λ _. h)
        (λ off.
          let idle = idle_get (Dict.get s.running r.id) off in
          if_both Inv (is_missed r.next_run_at now grace)
            (λ _. missed-stable a s r now r.missed_run_policy touched idle h)
            (λ _. emit_triggered-stable a s r.id now touched idle h))

  pub execute_all-stable :
      (grace : ℕ) (a : Answers) (more : List Answers) (s : ScheduleStore) (due : List Schedule)
      (now : ℕ)
      → AllTouched due
      → Inv s
      → Inv (execute_all c grace a more s due now)
  unfolding execute_all
  execute_all-stable grace a more s [] now touched h = h
  execute_all-stable grace a [] s (r ∷ due) now (touched, all) h =
      execute_all-stable grace a [] _ due now all (execute-stable grace a s r now touched h)
  execute_all-stable grace a (b ∷ more) s (r ∷ due) now (touched, all) h =
      execute_all-stable grace b more _ due now all (execute-stable grace a s r now touched h)
