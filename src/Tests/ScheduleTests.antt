-- ===== src/Tests/ScheduleTests.antt =====
-- A schedule that runs every minute, at most twice.
use autobeat.Prelude.{
  ℕ, ◌+◌, ◌≤◌, ◌<◌, String, true, false, none, some, List, [], ◌∷◌, map, inl, ◌≡◌, refl, arith,
  String-discrete,
}
use autobeat.Prelude.Dict
use autobeat.Result.{ok, err, ErrorCode}
use autobeat.Task.{Priority}
use autobeat.Schedules.Schedule.{
  ScheduleStatus, ScheduleType, MissedRunPolicy, PipelineStep, Schedule, or_else, truthy,
}
use autobeat.Schedules.Cron.{
  CronParser, validate_cron_expression, get_next_run_time, is_valid_timezone,
}
use autobeat.Schedules.Store.{
  ScheduleStore, Answers, find_row, write_row, save_row, insert_due, find_due, insert_execution,
  executions_of, get_execution_history, find_task, set_status, update,
}
use autobeat.Schedules.Timing.{next_timing, timing_after, compute_schedule_updates}
use autobeat.Schedules.Triggers.{
  id_of, live_task, resolve_after_schedule_task_id, record_failed_execution, emit_schedule_executed,
  commit_run, handle_single_task_trigger, make_tasks, last_id, delegate_all, cancel_tasks,
  handle_pipeline_trigger,
}
use autobeat.Schedules.Dispatch.{
  active_loops, start_loop, handle_loop_trigger, dispatch, handle_schedule_triggered,
}
use autobeat.Schedules.Handler.{
  first_run, handle_schedule_created, take_first, clear_running_schedule_by_tracking_id,
  cancel_loops, handle_schedule_cancelled, handle_schedule_paused, handle_schedule_resumed,
  resumed_run,
}
use autobeat.Schedules.Executor.{
  is_schedule_running, emit_schedule_triggered, update_next_run, fail_missed, handle_missed_run,
  execute_schedule, execute_all, tick, start, stop, tracked_ends,
}
use autobeat.Schedules.Manager.{
  fetch_schedule_or_error, pause_schedule, resume_schedule, in_flight, request_cancellations,
  cancel_schedule,
}
use autobeat.Schedules.Creation.{
  ScheduleRequest, to_missed_run_policy, next_run_of, validate_schedule_timing, create_schedule,
  create_scheduled_pipeline, create_scheduled_loop,
}
use autobeat.Schedules.Histories.{
  Step, schedule_requested, cancel_requested, ticks, starts, stops, tracked_ended, resume_requested,
  step, steps,
}
use autobeat.Schedules.Limits.{run_count_le}
use autobeat.Schedules.Ended.{is_ended, ended_stays}
use autobeat.Schedules.Tracking.{without, live, Alternates}
use autobeat.Schedules.Overlaps.{executions_alternate}
use autobeat.Schedules.Runs.{HasRun}
use autobeat.Schedules.Begun.{executions_in}
use autobeat.Schedules.Executed.{due_runs}

program : Unit {0}
unfolding String-discrete Dict.get Dict.set truthy validate_cron_expression get_next_run_time
    is_valid_timezone find_row write_row save_row insert_due find_due insert_execution executions_of
    get_execution_history find_task set_status update next_timing timing_after
    compute_schedule_updates live_task resolve_after_schedule_task_id record_failed_execution
    emit_schedule_executed commit_run handle_single_task_trigger make_tasks last_id delegate_all
    cancel_tasks handle_pipeline_trigger active_loops start_loop handle_loop_trigger dispatch
    handle_schedule_triggered first_run handle_schedule_created take_first
    clear_running_schedule_by_tracking_id cancel_loops handle_schedule_cancelled
    handle_schedule_paused handle_schedule_resumed resumed_run is_schedule_running
    emit_schedule_triggered update_next_run fail_missed handle_missed_run execute_schedule
    execute_all tick start stop tracked_ends fetch_schedule_or_error pause_schedule resume_schedule
    in_flight request_cancellations cancel_schedule to_missed_run_policy next_run_of
    validate_schedule_timing create_schedule create_scheduled_pipeline create_scheduled_loop step
    steps without live Alternates
program = tt

-- Every expression means every minute.
abbrev every_minute : CronParser
every_minute = record {
  parses = λ e. true;
  next = λ e zone now. some (now + 60000);
  has_timezone = λ zone. true;
  parse_date = λ text. none;
}

abbrev grace : ℕ
grace = 300000

-- The task made in this call has that id.
abbrev well : ℕ → String → Answers
well now task = record {
  now = now;
  found = true;
  saved = true;
  updated = true;
  committed = true;
  recorded = true;
  history = true;
  task_found = true;
  loops = some [];
  validated = true;
  delegated = true;
  loop_created = true;
  task_ids = λ i. task;
  loop_id = "loop";
}

abbrev request : ScheduleRequest
request = record {
  task_template = record { prompt = "tidy up"; priority = none; depends_on = none };
  schedule_type = ScheduleType.cron;
  cron_expression = some "* * * * *";
  scheduled_at = none;
  timezone = none;
  missed_run_policy = none;
  max_runs = some 2;
  expires_at = none;
  after_schedule_id = none;
}

abbrev empty : ScheduleStore
empty = record {
  rows = [];
  executions = [];
  tasks = [];
  events = [];
  running = [];
  is_running = false;
  is_subscribed = true;
}

abbrev no_schedule : Schedule
no_schedule = record {
  id = "none";
  task_template = record { prompt = ""; priority = none; depends_on = none };
  schedule_type = ScheduleType.cron;
  cron_expression = none;
  scheduled_at = none;
  timezone = "UTC";
  missed_run_policy = MissedRunPolicy.skip;
  status = ScheduleStatus.active;
  max_runs = none;
  run_count = 0;
  last_run_at = none;
  next_run_at = none;
  expires_at = none;
  after_schedule_id = none;
  pipeline_steps = none;
  is_loop = false;
}

-- The second tick comes while the first task runs.
abbrev history : List Step
history =
    schedule_requested (well 0 "") "s" request
    ∷ ticks (well 60000 "t1") []
    ∷ ticks (well 120000 "t2") []
    ∷ tracked_ended "t1"
    ∷ ticks (well 130000 "t3") []
    ∷ ticks (well 200000 "t4") []
    ∷ []

abbrev row_of : ScheduleStore → Schedule
row_of s = or_else (find_row s.rows "s") no_schedule

abbrev after : ScheduleStore
after = steps every_minute grace empty history

after-runs :
    (map id_of after.tasks ≡ "t1" ∷ "t3" ∷ [])
    × ((row_of after).status ≡ ScheduleStatus.completed)
    × ((row_of after).next_run_at ≡ none)
unfolding program
after-runs = (refl, refl, refl)

after_row : find_row after.rows "s" ≡ some (row_of after)
unfolding program
after_row = refl

after_limit : (row_of after).max_runs ≡ some 2
unfolding program
after_limit = refl

run_count_le_example : (row_of after).run_count ≤ 2
run_count_le_example =
    run_count_le every_minute grace empty history "s" (row_of after) 2 refl after_row after_limit
      (omega arith)

abbrev later : List Step
later =
    resume_requested (well 210000 "") "s"
    ∷ tracked_ended "t3"
    ∷ ticks (well 300000 "t5") []
    ∷ cancel_requested (well 310000 "") "s" false
    ∷ []

abbrev at_last : ScheduleStore
at_last = steps every_minute grace after later

at_last_row : find_row at_last.rows "s" ≡ some (row_of at_last)
unfolding program
at_last_row = refl

ended_stays_example : (is_ended (row_of at_last).status ≡ true) × ((row_of at_last).run_count ≡ 2)
unfolding program
ended_stays_example =
    ended_stays every_minute grace after later "s" 2 (row_of at_last) ((λ e. (refl, refl)), tt)
      ((λ e. cc), ((λ e. cc), ((λ e. cc), ((λ e. cc), tt)))) at_last_row

executions_alternate_example : Alternates (steps every_minute grace empty history).events
executions_alternate_example =
    executions_alternate every_minute grace empty history refl refl
      ((λ e. cc), ((λ e. cc), ((λ e. cc), ((λ e. cc), ((λ e. cc), ((λ e. cc), tt))))))

-- The schedule before its first run.
abbrev created : ScheduleStore
created = steps every_minute grace empty (schedule_requested (well 0 "") "s" request ∷ [])

created_row : find_row created.rows "s" ≡ some (row_of created)
unfolding program
created_row = refl

due_runs_example :
    HasRun (row_of created) 60000 (tick every_minute grace (well 60000 "t1") [] created).rows
    × ((row_of created).is_loop ≡ false
        → executions_in (row_of created).id created.events
          < executions_in
              (row_of created).id
              (tick every_minute grace (well 60000 "t1") [] created).events)
unfolding program
due_runs_example =
    due_runs every_minute grace (well 60000 "t1") [] created (row_of created) (inl (refl, tt)) refl
      refl (inl refl) refl
      (record {
        found = refl;
        committed = refl;
        updated = refl;
        validated = refl;
        delegated = refl;
      })
      tt

abbrev restart : List Step
restart = ticks (well 60000 "t1") [] ∷ stops ∷ starts (well 120000 "t2") [] ∷ []

-- Stopped and started again, the executor runs a schedule whose last task still runs.
restarted : map id_of (steps every_minute grace created restart).tasks ≡ "t1" ∷ "t2" ∷ []
unfolding program
restarted = refl

-- Three steps after each other; a step without a priority takes that of the template.
abbrev three_steps : List PipelineStep
three_steps =
    record { prompt = "a"; priority = none }
    ∷ record { prompt = "b"; priority = some Priority.p0 }
    ∷ record { prompt = "c"; priority = none }
    ∷ []

one_step_refused :
    (create_scheduled_pipeline every_minute
      (well 0 "")
      empty
      "p"
      request
      (record { prompt = "a"; priority = none } ∷ [])).0
    ≡ err ErrorCode.invalid_input
unfolding program
one_step_refused = refl

steps_accepted :
    (create_scheduled_pipeline every_minute (well 0 "") empty "p" request three_steps).0 ≡ ok tt
unfolding program
steps_accepted = refl
