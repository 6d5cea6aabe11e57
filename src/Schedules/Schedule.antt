-- ===== src/Schedules/Schedule.antt =====
-- src/core/domain.ts: schedules. Times are milliseconds since 1970 as natural numbers. Of the template
-- of a task and of the steps of a pipeline only the prompt, the priority and the dependencies are kept;
-- the other settings are passed on in the same way. The creation and update times of a row are left out.
use autobeat.Prelude.{ℕ, String, Bool, true, false, Option, none, some, List, ite, String-discrete}
use autobeat.Task.{Priority, TaskStatus}

pub data ScheduleStatus : Type 0 where
  active paused completed cancelled expired : ScheduleStatus

pub data ScheduleType : Type 0 where
  cron one_time : ScheduleType

pub data MissedRunPolicy : Type 0 where
  skip catchup fail : MissedRunPolicy

pub record TaskTemplate : Type 0 where
  pub prompt : String
  pub priority : Option Priority
  pub depends_on : Option (List String)

pub record PipelineStep : Type 0 where
  pub prompt : String
  pub priority : Option Priority

pub record Schedule : Type 0 where
  pub id : String
  pub task_template : TaskTemplate
  pub schedule_type : ScheduleType
  pub cron_expression : Option String
  pub scheduled_at : Option ℕ
  pub timezone : String
  pub missed_run_policy : MissedRunPolicy
  pub status : ScheduleStatus
  pub max_runs : Option ℕ
  pub run_count : ℕ
  pub last_run_at : Option ℕ
  pub next_run_at : Option ℕ
  pub expires_at : Option ℕ
  pub after_schedule_id : Option String
  pub pipeline_steps : Option (List PipelineStep)
  -- There is a `loopConfig`.
  pub is_loop : Bool

-- `Partial<Schedule>`, as the code makes it: `none` is a field left out, `some none` one set to undefined.
pub record ScheduleUpdate : Type 0 where
  pub status : Option ScheduleStatus
  pub cron_expression : Option (Option String)
  pub scheduled_at : Option (Option ℕ)
  pub timezone : Option String
  pub missed_run_policy : Option MissedRunPolicy
  pub max_runs : Option (Option ℕ)
  pub run_count : Option ℕ
  pub last_run_at : Option (Option ℕ)
  pub next_run_at : Option (Option ℕ)
  pub expires_at : Option (Option ℕ)
  pub after_schedule_id : Option (Option String)

abbrev pub no_update : ScheduleUpdate
no_update = record {
  status = none;
  cron_expression = none;
  scheduled_at = none;
  timezone = none;
  missed_run_policy = none;
  max_runs = none;
  run_count = none;
  last_run_at = none;
  next_run_at = none;
  expires_at = none;
  after_schedule_id = none;
}

-- `a ?? b`
abbrev pub or_else : {A : Type 0} → Option A → A → A
or_else none b = b
or_else (some a) b = a

-- A text, unless it is empty.
unfoldable pub truthy : Option String → Option String
unfolding String-discrete
truthy none = none
truthy (some s) = ite (String-discrete s "") none (some s)

abbrev pub update_schedule : Schedule → ScheduleUpdate → Schedule
update_schedule schedule u = record schedule {
  status = or_else u.status schedule.status;
  cron_expression = or_else u.cron_expression schedule.cron_expression;
  scheduled_at = or_else u.scheduled_at schedule.scheduled_at;
  timezone = or_else u.timezone schedule.timezone;
  missed_run_policy = or_else u.missed_run_policy schedule.missed_run_policy;
  max_runs = or_else u.max_runs schedule.max_runs;
  run_count = or_else u.run_count schedule.run_count;
  last_run_at = or_else u.last_run_at schedule.last_run_at;
  next_run_at = or_else u.next_run_at schedule.next_run_at;
  expires_at = or_else u.expires_at schedule.expires_at;
  after_schedule_id = or_else u.after_schedule_id schedule.after_schedule_id;
}

abbrev pub is_active : ScheduleStatus → Bool
is_active ScheduleStatus.active = true
is_active _ = false

abbrev pub is_paused : ScheduleStatus → Bool
is_paused ScheduleStatus.paused = true
is_paused _ = false

-- The row of a task that a run creates.
pub record ScheduledTask : Type 0 where
  pub id : String
  pub prompt : String
  pub priority : Priority
  pub depends_on : Option (List String)
  pub status : TaskStatus

abbrev pub create_task : String → String → Option Priority → Option (List String) → ScheduledTask
create_task id prompt priority depends_on = record {
  id = id;
  prompt = prompt;
  priority = or_else priority Priority.p2;
  depends_on = depends_on;
  status = TaskStatus.queued;
}

abbrev pub is_terminal_state : TaskStatus → Bool
is_terminal_state TaskStatus.completed = true
is_terminal_state TaskStatus.failed = true
is_terminal_state TaskStatus.cancelled = true
is_terminal_state _ = false

pub data ExecutionStatus : Type 0 where
  triggered failed missed : ExecutionStatus

pub record ScheduleExecution : Type 0 where
  pub schedule_id : String
  pub task_id : Option String
  pub loop_id : Option String
  pub scheduled_for : ℕ
  pub executed_at : Option ℕ
  pub status : ExecutionStatus
  pub pipeline_task_ids : Option (List String)
