-- ===== src/Schedules/Store.antt =====
-- src/implementations/schedule-repository.ts: the rows of schedules and of their executions; with the
-- rows of the tasks that are run, the events that are emitted, and the map `runningSchedules` of
-- src/services/schedule-executor.ts.
use autobeat.Prelude.{
  ℕ, String, Bool, true, false, ◌&&◌, Option, none, some, List, [], ◌∷◌, take, leb, if◌then◌else◌,
  ite, String-discrete,
}
use autobeat.Prelude.Dict.{Dict}
use autobeat.Result.{Result, ok, err, ErrorCode, system_error, task_not_found}
use autobeat.Task.{TaskStatus}
use autobeat.Loops.Loop.{LoopStatus}
use autobeat.Schedules.Schedule.{
  Schedule, ScheduleUpdate, update_schedule, is_active, ScheduledTask, ScheduleExecution,
}

pub data ScheduleEvent : Type 0 where
  task_delegated loop_created loop_cancelled task_cancellation_requested : String → ScheduleEvent
  -- The schedule, and the task or loop that it waits for.
  schedule_executed : String → String → ScheduleEvent
  schedule_triggered schedule_missed : String → ScheduleEvent
  -- `TaskCompleted`, `TaskFailed`, `TaskCancelled`, `TaskTimeout`, `LoopCompleted`, and the
  -- `LoopCancelled` of a user.
  ended : String → ScheduleEvent

pub record ScheduleStore : Type 0 where
  pub rows : List Schedule
  -- The latest first.
  pub executions : List ScheduleExecution
  pub tasks : List ScheduledTask
  -- The latest first.
  pub events : List ScheduleEvent
  -- `runningSchedules`, with the task or loop of each.
  pub running : Dict String
  -- `isRunning` of the executor
  pub is_running : Bool
  -- The executor hears the events.
  pub is_subscribed : Bool

-- What the clock, the database, the generator of ids and the other handlers answer during one call.
pub record Answers : Type 0 where
  pub now : ℕ
  -- `findById` and `findDue` answer.
  pub found : Bool
  -- `save` succeeds.
  pub saved : Bool
  -- `update` succeeds on a row that exists.
  pub updated : Bool
  -- The transaction commits.
  pub committed : Bool
  -- `recordExecution` succeeds.
  pub recorded : Bool
  -- `getExecutionHistory` answers.
  pub history : Bool
  -- `findById` of the tasks answers.
  pub task_found : Bool
  -- The loops of the schedule, or `none` when the query fails.
  pub loops : Option (List (String × LoopStatus))
  -- There is no `LoopService`, or its validation succeeds.
  pub validated : Bool
  -- The emission of the first `TaskDelegated`, and that of `LoopCreated`, succeeds.
  pub delegated : Bool
  pub loop_created : Bool
  -- The ids of the tasks made in this call, by their position, and that of the loop.
  pub task_ids : ℕ → String
  pub loop_id : String

unfoldable pub find_row : List Schedule → String → Option Schedule
unfolding String-discrete
find_row [] id = none
find_row (r ∷ rows) id = ite (String-discrete r.id id) (some r) (find_row rows id)

-- `UPDATE schedules ... WHERE id = @id`
unfoldable pub write_row : List Schedule → Schedule → List Schedule
unfolding String-discrete
write_row [] new = []
write_row (r ∷ rows) new = ite (String-discrete r.id new.id) (new ∷ rows) (r ∷ write_row rows new)

-- `INSERT OR REPLACE INTO schedules`
unfoldable pub save_row : List Schedule → Schedule → List Schedule
unfolding String-discrete
save_row [] new = new ∷ []
save_row (r ∷ rows) new =
    let rest = save_row rows new in ite (String-discrete r.id new.id) rest (r ∷ rest)

-- `next_run_at IS NOT NULL AND next_run_at <= ?`
abbrev pub is_reached : Option ℕ → ℕ → Bool
is_reached none now = false
is_reached (some t) now = leb t now

-- Whether the first comes no later than the second.
abbrev pub is_before : Option ℕ → Option ℕ → Bool
is_before (some a) (some b) = leb a b
is_before _ _ = true

unfoldable pub insert_due : Schedule → List Schedule → List Schedule
insert_due r [] = r ∷ []
insert_due r (q ∷ qs) =
    let rest = insert_due r qs in
    if is_before r.next_run_at q.next_run_at then r ∷ q ∷ qs else q ∷ rest

-- `ORDER BY next_run_at ASC`; rows of one time stay in their order here.
unfoldable pub find_due : List Schedule → ℕ → List Schedule
find_due [] now = []
find_due (r ∷ rows) now =
    let rest = find_due rows now in
    if is_active r.status && is_reached r.next_run_at now then insert_due r rest else rest

unfoldable pub insert_execution :
    ScheduleExecution → List ScheduleExecution → List ScheduleExecution
insert_execution e [] = e ∷ []
insert_execution e (f ∷ fs) =
    let rest = insert_execution e fs in
    if leb f.scheduled_for e.scheduled_for then e ∷ f ∷ fs else f ∷ rest

-- `ORDER BY scheduled_for DESC`; of those of one time the one recorded last comes first here.
unfoldable pub executions_of : List ScheduleExecution → String → List ScheduleExecution
unfolding String-discrete
executions_of [] id = []
executions_of (e ∷ es) id =
    let rest = executions_of es id in
    ite (String-discrete e.schedule_id id) (insert_execution e rest) rest

-- `DEFAULT_LIMIT`
abbrev pub default_limit : ℕ
default_limit = 100

unfoldable pub get_execution_history : List ScheduleExecution → String → ℕ → List ScheduleExecution
get_execution_history executions id limit = take limit (executions_of executions id)

unfoldable pub find_task : List ScheduledTask → String → Option ScheduledTask
unfolding String-discrete
find_task [] id = none
find_task (t ∷ ts) id = ite (String-discrete t.id id) (some t) (find_task ts id)

-- `update` of a task's status.
unfoldable pub set_status : List ScheduledTask → String → TaskStatus → List ScheduledTask
unfolding String-discrete
set_status [] id status = []
set_status (t ∷ ts) id status =
    ite (String-discrete t.id id) (record t { status = status } ∷ ts) (t ∷ set_status ts id status)

-- What a call returns, and the state that it leaves.
abbrev pub Reply : Type 0
Reply = Result (Unit {0}) ErrorCode × ScheduleStore

-- `update`, which reads the row again.
unfoldable pub update : Answers → ScheduleStore → String → ScheduleUpdate → Reply
update a s id u = elim (find_row s.rows id) [
  | none ↦ (err task_not_found, s)
  | some r ↦
      if a.updated
      then (ok tt, record s { rows = write_row s.rows (update_schedule r u) })
      else (err system_error, s)
]
