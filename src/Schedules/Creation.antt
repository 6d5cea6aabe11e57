-- ===== src/Schedules/Creation.antt =====
-- src/services/schedule-manager.ts: the creation of schedules, after the validation of their times.
use autobeat.Prelude.{
  ℕ, String, Bool, true, false, ◌&&◌, not, Option, none, some, List, ltb, leb, if◌then◌else◌, ite,
  String-discrete, length,
}
use autobeat.Result.{Result, ok, err, ErrorCode, invalid_input}
use autobeat.Schedules.Schedule.{
  ScheduleStatus, ScheduleType, MissedRunPolicy, TaskTemplate, PipelineStep, Schedule, or_else,
  truthy,
}
use autobeat.Schedules.Cron.{
  CronParser, validate_cron_expression, get_next_run_time, is_valid_timezone,
}
use autobeat.Schedules.Store.{ScheduleStore, Answers, Reply}
use autobeat.Schedules.Handler.{handle_schedule_created}
use autobeat.Schedules.Manager.{emitted}

pub record ScheduleRequest : Type 0 where
  pub task_template : TaskTemplate
  pub schedule_type : ScheduleType
  pub cron_expression : Option String
  pub scheduled_at : Option String
  pub timezone : Option String
  pub missed_run_policy : Option String
  pub max_runs : Option ℕ
  pub expires_at : Option String
  pub after_schedule_id : Option String

-- What `validateScheduleTiming` returns.
pub record ScheduleTiming : Type 0 where
  pub scheduled_at_ms : Option ℕ
  pub expires_at_ms : Option ℕ
  pub next_run_at : ℕ
  pub timezone : String

-- `toMissedRunPolicy`
unfoldable pub to_missed_run_policy : Option String → MissedRunPolicy
unfolding String-discrete
to_missed_run_policy none = MissedRunPolicy.skip
to_missed_run_policy (some value) =
    ite (String-discrete value "catchup") MissedRunPolicy.catchup
      (ite (String-discrete value "fail") MissedRunPolicy.fail MissedRunPolicy.skip)

-- What the type of a schedule requires.
abbrev pub has_required : ScheduleType → Option String → Option String → Bool
has_required ScheduleType.cron (some _) scheduled_at = true
has_required ScheduleType.cron none scheduled_at = false
has_required ScheduleType.one_time expression (some _) = true
has_required ScheduleType.one_time expression none = false

abbrev pub expression_is_valid : CronParser → Option String → Bool
expression_is_valid c none = true
expression_is_valid c (some e) = elim (validate_cron_expression c e) [ ok _ ↦ true | err _ ↦ false ]

-- A date that was given, and is no date.
abbrev pub is_no_date : CronParser → Option String → Bool
is_no_date c none = false
is_no_date c (some text) = elim (c.parse_date text) [ none ↦ true | some _ ↦ false ]

abbrev pub date : CronParser → Option String → Option ℕ
date c none = none
date c (some text) = c.parse_date text

abbrev pub is_past : Option ℕ → ℕ → Bool
is_past none now = false
is_past (some t) now = leb t now

abbrev pub required_time : Option ℕ → Result ℕ ErrorCode
required_time none = err invalid_input
required_time (some t) = ok t

unfoldable pub next_run_of :
    CronParser → ScheduleType → Option String → Option ℕ → String → ℕ → Result ℕ ErrorCode
next_run_of c ScheduleType.cron (some expression) scheduled_at timezone now =
    get_next_run_time c expression timezone now
next_run_of c ScheduleType.cron none scheduled_at timezone now = required_time scheduled_at
next_run_of c ScheduleType.one_time expression scheduled_at timezone now =
    required_time scheduled_at

-- One clock reading serves the whole validation.
unfoldable pub validate_schedule_timing :
    CronParser → ScheduleRequest → ℕ → Result ScheduleTiming ErrorCode
validate_schedule_timing c q now =
    let expression = truthy q.cron_expression in
    let timezone = or_else q.timezone "UTC" in
    let scheduled_at = date c (truthy q.scheduled_at) in
    if has_required q.schedule_type expression (truthy q.scheduled_at)
    then (if expression_is_valid c expression
        then (if is_valid_timezone c timezone
            then (if is_no_date c (truthy q.scheduled_at)
                then err invalid_input
                else if is_past scheduled_at now
                then err invalid_input
                else if is_no_date c (truthy q.expires_at)
                then err invalid_input
                else elim (next_run_of c q.schedule_type expression scheduled_at timezone now) [
                  | err e ↦ err e
                  | ok t ↦ ok (record {
                    scheduled_at_ms = scheduled_at;
                    expires_at_ms = date c (truthy q.expires_at);
                    next_run_at = t;
                    timezone = timezone;
                  })
                ])
            else err invalid_input)
        else err invalid_input)
    else err invalid_input

-- `createSchedule` of src/core/domain.ts with a time that the service has computed.
abbrev pub new_schedule :
    String → ScheduleRequest → ScheduleTiming → Option (List PipelineStep) → Bool → Schedule
new_schedule id q timing pipeline_steps is_loop = record {
  id = id;
  task_template = q.task_template;
  schedule_type = q.schedule_type;
  cron_expression = q.cron_expression;
  scheduled_at = timing.scheduled_at_ms;
  timezone = timing.timezone;
  missed_run_policy = to_missed_run_policy q.missed_run_policy;
  status = ScheduleStatus.active;
  max_runs = q.max_runs;
  run_count = 0;
  last_run_at = none;
  next_run_at = some timing.next_run_at;
  expires_at = timing.expires_at_ms;
  after_schedule_id = q.after_schedule_id;
  pipeline_steps = pipeline_steps;
  is_loop = is_loop;
}

abbrev pub create_with :
    CronParser
    → Answers
    → ScheduleStore
    → String
    → ScheduleRequest
    → Option (List PipelineStep)
    → Bool
    → Result ScheduleTiming ErrorCode
    → Reply
create_with c a s id q pipeline_steps is_loop (err e) = (err e, s)
create_with c a s id q pipeline_steps is_loop (ok timing) =
    emitted (handle_schedule_created c a s (new_schedule id q timing pipeline_steps is_loop))

-- The settings have passed the checks of directories and agents, which are not modelled.
unfoldable pub create_schedule :
    CronParser → Answers → ScheduleStore → String → ScheduleRequest → Reply
create_schedule c a s id q = create_with c a s id q none false (validate_schedule_timing c q a.now)

unfoldable pub create_scheduled_pipeline :
    CronParser → Answers → ScheduleStore → String → ScheduleRequest → List PipelineStep → Reply
create_scheduled_pipeline c a s id q steps =
    if ltb (length steps) 2
    then (err invalid_input, s)
    else if ltb 20 (length steps)
    then (err invalid_input, s)
    else create_with c a s id q (some steps) false (validate_schedule_timing c q a.now)

-- The evaluation mode is the shell's, and the exit condition is not blank; the template is the one made
-- of the configuration of the loop, and such a schedule follows no other.
unfoldable pub create_scheduled_loop :
    CronParser → Answers → ScheduleStore → String → ScheduleRequest → Bool → Bool → Reply
create_scheduled_loop c a s id q is_shell has_exit_condition =
    let unchained : ScheduleRequest = record q { after_schedule_id = none } in
    elim (validate_schedule_timing c q a.now) [
      | err e ↦ (err e, s)
      | ok timing ↦
          if is_shell && not has_exit_condition
          then (err invalid_input, s)
          else create_with c a s id unchained none true (ok timing)
    ]
