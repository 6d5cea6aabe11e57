-- ===== src/Schedules/Stable/Requests.antt =====
-- What every change keeps holds after a request of a user.
use autobeat.Prelude.{
  String, Bool, true, false, Option, none, some, List, [], ◌∷◌, if◌then◌else◌, if_both, ◌≡◌, refl,
  sym, ◌∙◌, subst,
}
use autobeat.Result.{Result, ok, err, ErrorCode}
use autobeat.Schedules.Schedule.{
  ScheduleStatus, Schedule, ScheduleUpdate, no_update, truthy, is_active, is_paused,
}
use autobeat.Schedules.Cron.{CronParser}
use autobeat.Schedules.Store.{
  task_cancellation_requested, ScheduleStore, Answers, Reply, find_row, update,
}
use autobeat.Schedules.Dispatch.{loops_found}
use autobeat.Schedules.Handler.{
  cancel_loops, cancellation, has_loop, found_row, cancel_loops_of, handle_schedule_cancelled,
  handle_schedule_paused, handle_schedule_resumed, resumed_run,
}
use autobeat.Schedules.Manager.{
  emitted, fetch_schedule_or_error, pause_schedule, resume_schedule, request_cancellations,
  cancel_in_flight, any_status, cancel_schedule,
}
use autobeat.Schedules.Rows.{some_inj}
use autobeat.Schedules.Stable.{Lasting, IsWrite, cancels, pauses, resumes, update-stable}

-- A fetched row has the expected status.
fetched :
    (a : Answers) (s : ScheduleStore) (id : String) (expected : ScheduleStatus → Bool)
    (r : Schedule)
    → fetch_schedule_or_error a s id expected ≡ ok r
    → (find_row s.rows id ≡ some r) × (expected r.status ≡ true)
unfolding fetch_schedule_or_error
fetched a s id expected r e = found a.found (find_row s.rows id) refl e
  where
    found :
        (b : Bool) (o : Option Schedule)
        → find_row s.rows id ≡ o
        → (if b
            then elim o [
              | none ↦ err ErrorCode.task_not_found
              | some schedule ↦
                  if expected schedule.status then ok schedule else err ErrorCode.invalid_operation
            ]
            else err ErrorCode.system_error)
          ≡ ok r
        → (find_row s.rows id ≡ some r) × (expected r.status ≡ true)
    found false o e f = absurd cc
    found true none e f = absurd cc
    found true (some q) e f = guarded (expected q.status) refl f
      where
        guarded :
            (b : Bool)
            → expected q.status ≡ b
            → (if b then ok q else err ErrorCode.invalid_operation) ≡ ok r
            → (find_row s.rows id ≡ some r) × (expected r.status ≡ true)
        guarded false g f = absurd cc
        guarded true g f =
            let same : q ≡ r = cc in
            subst (λ (x : Schedule). (find_row s.rows id ≡ some x) × (expected x.status ≡ true))
              same (e, g)

module _ (c : CronParser) (Inv : ScheduleStore → Type 0) (Made : Schedule → Type 0)
    (lasting : Lasting c Inv Made) (a : Answers) (s : ScheduleStore) (h : Inv s) where
  abbrev Holds : Reply → Type 0
  Holds reply = Inv reply.1

  updated :
      (id : String) (u : ScheduleUpdate)
      → ((r : Schedule) → find_row s.rows id ≡ some r → IsWrite c r u)
      → Holds (update a s id u)
  updated id u write = update-stable c Inv (λ k. Unit) lasting.stable a s id u tt write h

  pub emitted-stable : (reply : Reply) → Holds reply → Holds (emitted reply)
  emitted-stable (ok v, t) k = k
  emitted-stable (err e, t) k = k

  -- A request is refused, or does what its handler does with the row.
  guarded :
      (r : Result Schedule ErrorCode) (reply : Reply)
      → ((q : Schedule) → r ≡ ok q → Holds reply)
      → Holds (elim r [ err e ↦ (err e, s) | ok _ ↦ emitted reply ])
  guarded (err e) reply k = h
  guarded (ok q) reply k = emitted-stable reply (k q refl)

  pub pause-stable : (id : String) → Holds (pause_schedule a s id)
  unfolding pause_schedule handle_schedule_paused
  pause-stable id =
      guarded (fetch_schedule_or_error a s id is_active) (handle_schedule_paused a s id) (λ q f.
        let (found, on) = fetched a s id is_active q f in
        updated id (record no_update { status = some ScheduleStatus.paused })
          (λ r g. pauses (
            subst (λ (x : Schedule). is_active x.status ≡ true) (some_inj q r (sym found ∙ g)) on)))

  pub resume-stable : (id : String) → Holds (resume_schedule c a s id)
  unfolding resume_schedule handle_schedule_resumed
  resume-stable id =
      guarded (fetch_schedule_or_error a s id is_paused) (handle_schedule_resumed c a s id) (λ q f.
        let (found, on) = fetched a s id is_paused q f in
        if_both Holds a.found (λ _. resumed q (find_row s.rows id) found on) (λ _. h))
    where
      resumed :
          (q : Schedule) (o : Option Schedule)
          → find_row s.rows id ≡ some q
          → is_paused q.status ≡ true
          → Holds (elim o [
            | none ↦ (err ErrorCode.task_not_found, s)
            | some schedule ↦ update a s id (record no_update {
              status = some ScheduleStatus.active;
              next_run_at = some (
                  resumed_run c schedule.schedule_type
                    (truthy schedule.cron_expression)
                    schedule.timezone
                    schedule.next_run_at
                    a.now);
            })
          ])
      resumed q none found on = h
      resumed q (some row) found on = updated id _ (λ r g.
          resumes _
            (subst (λ (x : Schedule). is_paused x.status ≡ true) (some_inj q r (sym found ∙ g)) on))

  loops-stable : (ids : List String) (t : ScheduleStore) → Inv t → Inv (cancel_loops ids t)
  unfolding cancel_loops
  loops-stable [] t k = k
  loops-stable (id ∷ ids) t k = loops-stable ids _ (lasting.cancels_loop t id k)

  requests-stable :
      (ts : List String) (t : ScheduleStore)
      → Inv t
      → Inv (record t { events = request_cancellations ts t.events })
  unfolding request_cancellations
  requests-stable [] t k = k
  requests-stable (id ∷ ts) t k =
      requests-stable ts (record t { events = task_cancellation_requested id ∷ t.events })
        (lasting.stable.emits t (task_cancellation_requested id) refl k)

  loops_of-stable :
      (found : Option Schedule) (reply : Reply)
      → Holds reply
      → Holds (cancel_loops_of a found reply)
  loops_of-stable found (err e, t) k = k
  loops_of-stable found (ok v, t) k =
      if_both Inv (has_loop found) (λ _. loops-stable (loops_found a) t k) (λ _. k)

  in_flight-stable :
      (id : String) (cancel_tasks : Bool) (reply : Reply)
      → Holds reply
      → Holds (cancel_in_flight a id cancel_tasks reply)
  in_flight-stable id cancel_tasks (err e, t) k = k
  in_flight-stable id cancel_tasks (ok v, t) k =
      if_both Inv cancel_tasks (λ _. if_both Inv a.history (λ _. requests-stable _ t k) (λ _. k))
        (λ _. k)

  pub cancel-stable :
      (id : String) (cancel_tasks : Bool) → Holds (cancel_schedule a s id cancel_tasks)
  unfolding cancel_schedule handle_schedule_cancelled
  cancel-stable id cancel_tasks = fetched_or (fetch_schedule_or_error a s id any_status)
    where
      fetched_or :
          (r : Result Schedule ErrorCode)
          → Holds (elim r [
            | err e ↦ (err e, s)
            | ok _ ↦ cancel_in_flight a id cancel_tasks (emitted (handle_schedule_cancelled a s id))
          ])
      fetched_or (err e) = h
      fetched_or (ok q) =
          in_flight-stable id cancel_tasks (emitted (handle_schedule_cancelled a s id)) (
            emitted-stable (handle_schedule_cancelled a s id) (
              loops_of-stable (found_row a s id) (update a s id cancellation)
                (updated id cancellation (λ r _. cancels))))
