-- ===== src/Schedules/Executed.antt =====
-- A schedule whose time has come is run by the next tick.
use autobeat.Prelude.{
  suc, ◌<◌, arith, ℕ, String, true, false, ◌&&◌, ◌⊎◌, Option, none, some, List, [], ◌∷◌, if_both,
  ◌≡◌, refl, sym, subst, inl, inr,
}
use autobeat.Prelude.Dict
use autobeat.Schedules.Schedule.{MissedRunPolicy, Schedule, is_active}
use autobeat.Schedules.Cron.{CronParser}
use autobeat.Schedules.Store.{
  schedule_triggered, ScheduleStore, Answers, find_row, is_reached, find_due,
}
use autobeat.Schedules.Executor.{
  is_some, is_schedule_running, emit_schedule_triggered, handle_missed_run, is_missed,
  execute_schedule, execute_all, tick,
}
use autobeat.Schedules.Untouched.{IsFree, IsLeft, execute-IsLeft, execute_all-IsLeft}
use autobeat.Schedules.Due.{IsOnce, due-IsOnce, once-find}
use autobeat.Schedules.Runs.{IsWell, AllWell, HasRun, triggered_Ran}
use autobeat.Schedules.Begun.{
  executions_in, triggered_Begun, Reaches, execute-Reaches, execute_all-Reaches,
}

idle_none : (o : Option String) → o ≡ none → is_some o ≡ false
idle_none none e = refl
idle_none (some t) e = absurd cc

module _ (c : CronParser) (grace now base : ℕ) (r : Schedule) (on : is_active r.status ≡ true)
    (punctual : is_missed r.next_run_at now grace ≡ false
      ⊎ r.missed_run_policy ≡ MissedRunPolicy.catchup) where
  -- It has run, and unless it starts loops it has been executed more often than before.
  abbrev Done : ScheduleStore → Type 0
  Done s = HasRun r now s.rows × (r.is_loop ≡ false → base < executions_in r.id s.events)

  emit-Done :
      (a : Answers) (s : ScheduleStore)
      → IsWell a
      → find_row s.rows r.id ≡ some r
      → Reaches r.id base s
      → Done (emit_schedule_triggered c a s r.id now)
  unfolding emit_schedule_triggered executions_in
  emit-Done a s well row reached = (
    triggered_Ran c a (record s { events = schedule_triggered r.id ∷ s.events }) r now well row on,
    λ tasks.
        let begun =
          triggered_Begun c a (record s { events = schedule_triggered r.id ∷ s.events }) r now
            well.committed well.delegated tasks well.found row on in
        omega (arith, begun, reached),
  )

  execute-Done :
      (a : Answers) (s : ScheduleStore)
      → IsWell a
      → IsLeft r.id (some r) none s
      → Reaches r.id base s
      → Done (execute_schedule c grace a s r now)
  unfolding execute_schedule is_schedule_running handle_missed_run
  execute-Done a s well h reached =
      if_both Done (is_some (Dict.get s.running r.id))
        (λ busy. let idle = idle_none (Dict.get s.running r.id) h.remembered in absurd cc)
        (λ _.
          if_both Done (is_missed r.next_run_at now grace)
            (λ late. missed late r.missed_run_policy refl) (λ _. emit-Done a s well h.kept reached))
    where
      missed :
          is_missed r.next_run_at now grace ≡ true
          → (policy : MissedRunPolicy) → r.missed_run_policy ≡ policy
          → Done (handle_missed_run c a s r now policy)
      missed late MissedRunPolicy.catchup e = emit-Done a s well h.kept reached
      missed late MissedRunPolicy.skip e = elim punctual [ inl f ↦ absurd cc | inr f ↦ absurd cc ]
      missed late MissedRunPolicy.fail e = elim punctual [ inl f ↦ absurd cc | inr f ↦ absurd cc ]

  left-Done :
      (a : Answers) (more : List Answers) (s : ScheduleStore) (due : List Schedule)
      → IsFree r.id due
      → Done s
      → Done (execute_all c grace a more s due now)
  left-Done a more s due free ((q, row, count, last), begun) =
      let h =
        execute_all-IsLeft r.id (some q) (Dict.get s.running r.id) c grace now a more s due free
          (record { kept = row; remembered = refl }) in
      (
        (q, h.kept, count, last),
        λ tasks. execute_all-Reaches r.id (suc base) c grace now a more s due (begun tasks),
      )

  execute_all-Done :
      (a : Answers) (more : List Answers) (s : ScheduleStore) (due : List Schedule)
      → IsWell a
      → AllWell more
      → IsOnce r.id r due
      → IsLeft r.id (some r) none s
      → Reaches r.id base s
      → Done (execute_all c grace a more s due now)
  unfolding execute_all
  execute_all-Done a more s [] well all once h reached = absurd once
  execute_all-Done a [] s (q ∷ due) well all (inl (same, free)) h reached =
      left-Done a [] (execute_schedule c grace a s q now) due free (
        subst (λ (x : Schedule). Done (execute_schedule c grace a s x now)) (sym same)
          (execute-Done a s well h reached))
  execute_all-Done a (b ∷ more) s (q ∷ due) well all (inl (same, free)) h reached =
      left-Done b more (execute_schedule c grace a s q now) due free (
        subst (λ (x : Schedule). Done (execute_schedule c grace a s x now)) (sym same)
          (execute-Done a s well h reached))
  execute_all-Done a [] s (q ∷ due) well all (inr (n, once)) h reached =
      execute_all-Done a [] (execute_schedule c grace a s q now) due well all once
        (execute-IsLeft r.id (some r) none c grace now a s q n h)
        (execute-Reaches r.id base c grace now a s q reached)
  execute_all-Done a (b ∷ more) s (q ∷ due) well (next, all) (inr (n, once)) h reached =
      execute_all-Done b more (execute_schedule c grace a s q now) due next all once
        (execute-IsLeft r.id (some r) none c grace now a s q n h)
        (execute-Reaches r.id base c grace now a s q reached)

-- A tick triggers every active schedule whose time has come and whose last run has ended, when it is in
-- time or the missed run is to be caught up, and when the database answers and tasks are handed on:
-- afterwards the schedule counts one more run, at the time of the tick, and unless it starts loops it
-- has been executed more often than before, whatever other schedules are due.
pub due_runs :
    (c : CronParser) (grace : ℕ) (a : Answers) (more : List Answers) (s : ScheduleStore)
    (r : Schedule)
    → IsOnce r.id r s.rows
    → is_active r.status ≡ true
    → is_reached r.next_run_at a.now ≡ true
    → is_missed r.next_run_at a.now grace ≡ false ⊎ r.missed_run_policy ≡ MissedRunPolicy.catchup
    → Dict.get s.running r.id ≡ none
    → IsWell a
    → AllWell more
    → HasRun r a.now (tick c grace a more s).rows
      × (r.is_loop ≡ false
          → executions_in r.id s.events < executions_in r.id (tick c grace a more s).events)
unfolding tick
due_runs c grace a more s r once on reached punctual idle well all =
    if_both
      (λ (x : ScheduleStore).
        HasRun r a.now x.rows
        × (r.is_loop ≡ false → executions_in r.id s.events < executions_in r.id x.events))
      a.found
      (λ _.
        execute_all-Done c grace a.now (executions_in r.id s.events) r on punctual a more s
          (find_due s.rows a.now) well all (due-IsOnce r.id r s.rows a.now refl both once)
          (record { kept = once-find r.id r s.rows refl once; remembered = idle }) (omega arith))
      (λ off. let answers = well.found in absurd cc)
  where
    both : (is_active r.status && is_reached r.next_run_at a.now) ≡ true
    both = rw (on, reached) refl
