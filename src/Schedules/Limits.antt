-- ===== src/Schedules/Limits.antt =====
-- How often a schedule runs.
use autobeat.Prelude.{
  ℕ, suc, String, ◌≤◌, ◌<◌, Bool, true, false, ◌||◌, Option, none, some, List, [], if◌then◌else◌,
  ◌≡◌, refl, subst, sym, arith,
}
use autobeat.Schedules.Schedule.{
  ScheduleStatus, Schedule, or_else, truthy, update_schedule, is_active, is_paused,
}
use autobeat.Schedules.Cron.{CronParser}
use autobeat.Schedules.Store.{ScheduleStore, find_row}
use autobeat.Schedules.Timing.{
  Timing, next_timing, is_used_up, is_over, timing_after, compute_schedule_updates,
}
use autobeat.Schedules.Rows.{All, find-All}
use autobeat.Schedules.Creation.{ScheduleRequest}
use autobeat.Schedules.Histories.{Step, steps, Fits, CreateAll-requests}
use autobeat.Schedules.Kept.{IsClosed, steps-All}
use autobeat.Schedules.Stable.{runs, cancels, pauses, resumes, completes, moves}

-- It may still run, now or after it is resumed.
abbrev pub is_open : ScheduleStatus → Bool
is_open status = is_active status || is_paused status

-- A limit is not exceeded, and not reached by a schedule that may still run.
abbrev pub IsBounded : Schedule → Type 0
IsBounded r =
    (limit : ℕ)
    → r.max_runs ≡ some limit
    → 0 < limit
    → (r.run_count ≤ limit) × (is_open r.status ≡ true → r.run_count < limit)

active_open : (status : ScheduleStatus) → is_active status ≡ true → is_open status ≡ true
active_open status e = ground arith

paused_open : (status : ScheduleStatus) → is_paused status ≡ true → is_open status ≡ true
paused_open status e = ground arith

abbrev pick : Bool → Timing → Timing → Timing
pick b x y = if b then x else y

-- A run that reaches its limit ends the schedule.
timing_goes_on :
    (c : CronParser) (r : Schedule) (now limit : ℕ)
    → r.max_runs ≡ some limit
    → 0 < limit
    → is_open (or_else (timing_after c r now).0 r.status) ≡ true
    → suc r.run_count < limit
unfolding timing_after
timing_goes_on c r now limit e 0<l o = over (is_over r.expires_at now) refl o
  where
    limited :
        (m : Option ℕ)
        → m ≡ some limit
        → is_used_up m (suc r.run_count) ≡ false
        → suc r.run_count < limit
    limited none e f = absurd cc
    limited (some m) e f = ground (arith, 0<l)

    used :
        (b : Bool)
        → is_used_up r.max_runs (suc r.run_count) ≡ b
        → is_open (
            or_else
              (pick b
                (some ScheduleStatus.completed, none)
                (next_timing c r.schedule_type (truthy r.cron_expression) r.timezone now)).0
              r.status)
          ≡ true
        → suc r.run_count < limit
    used true f o = absurd cc
    used false f o = limited r.max_runs e f

    over :
        (b : Bool)
        → is_over r.expires_at now ≡ b
        → is_open (
            or_else
              (pick b
                (some ScheduleStatus.expired, none)
                (pick
                  (is_used_up r.max_runs (suc r.run_count))
                  (some ScheduleStatus.completed, none)
                  (next_timing c r.schedule_type (truthy r.cron_expression) r.timezone now))).0
              r.status)
          ≡ true
        → suc r.run_count < limit
    over true f o = absurd cc
    over false f o = used (is_used_up r.max_runs (suc r.run_count)) refl o

run-IsBounded :
    (c : CronParser) (r : Schedule) (t now : ℕ)
    → is_active r.status ≡ true
    → IsBounded r
    → IsBounded (update_schedule r (compute_schedule_updates c r t now))
unfolding compute_schedule_updates
run-IsBounded c r t now on b limit e 0<l =
    let (le, lt) = b limit e 0<l in
    let before = lt (active_open r.status on) in
    (omega (arith, before), λ o. timing_goes_on c r now limit e 0<l o)

IsBounded-closed : (c : CronParser) → IsClosed IsBounded c
IsBounded-closed c r _ (runs t now on) b limit e 0<l = run-IsBounded c r t now on b limit e 0<l
IsBounded-closed c r _ cancels b limit e 0<l = ((b limit e 0<l).0, λ f. absurd cc)
IsBounded-closed c r _ (pauses on) b limit e 0<l =
    let (le, lt) = b limit e 0<l in (le, λ _. lt (active_open r.status on))
IsBounded-closed c r _ (resumes t on) b limit e 0<l =
    let (le, lt) = b limit e 0<l in (le, λ _. lt (paused_open r.status on))
IsBounded-closed c r _ completes b limit e 0<l = ((b limit e 0<l).0, λ f. absurd cc)
IsBounded-closed c r _ (moves t) b limit e 0<l = b limit e 0<l

new-IsBounded : (id : String) (q : ScheduleRequest) → Fits IsBounded id q
new-IsBounded id q timing pipeline is_loop t limit e 0<l = (omega arith, λ _. 0<l)

-- A schedule with a limit of runs runs at most that often, whatever is requested and whatever the
-- database, the clock and the parser of cron expressions answer.
pub run_count_le :
    (c : CronParser) (grace : ℕ) (s : ScheduleStore) (xs : List Step) (id : String) (r : Schedule)
    (limit : ℕ)
    → s.rows ≡ []
    → find_row (steps c grace s xs).rows id ≡ some r
    → r.max_runs ≡ some limit
    → 0 < limit
    → r.run_count ≤ limit
run_count_le c grace s xs id r limit empty e m 0<l =
    let all : All IsBounded s.rows = subst (All IsBounded) (sym empty) tt in
    (find-All IsBounded (steps c grace s xs).rows id r e
      (steps-All IsBounded c grace s xs (IsBounded-closed c)
        (CreateAll-requests IsBounded xs new-IsBounded) all)
      limit m 0<l).0
