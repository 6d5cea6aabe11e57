-- ===== src/Dependencies.antt =====
-- src/implementations/dependency-repository.ts and src/services/handlers/dependency-handler.ts. The
-- tables are lists of rows, and a statement does what its SQL says. Events are collected in the
-- order of their emission. What the database answers while a task's end is handled is a parameter.
-- Log lines, time stamps and row numbers are left out.
pub mod Batch
pub mod Delegated
pub mod Limits
pub mod Resolved
pub mod Outcomes
use autobeat.Prelude.{
  ℕ, suc, ◌+◌, String, Bool, true, false, Option, none, some, List, [], ◌∷◌, ◌++◌, map, ite, length,
  dec_in, dec_lt, String-discrete, if◌then◌else◌, ltb, not,
}
use autobeat.Result.{Result, ok, err, ErrorCode, invalid_operation, task_not_found, system_error}
use autobeat.Graph.{DependencyGraph, would_create_cycle, add_edge}
use autobeat.Depth.{get_max_depth}

pub data Resolution : Type 0 where
  pending completed failed cancelled : Resolution

-- A row of `task_dependencies`.
pub record Row : Type 0 where
  pub task_id : String
  pub depends_on : String
  pub resolution : Resolution

-- The ids of `tasks`, and `task_dependencies`.
pub record Store : Type 0 where
  pub tasks : List String
  pub rows : List Row

abbrev pub max_dependencies_per_task : ℕ
max_dependencies_per_task = 100

-- `SELECT * FROM task_dependencies WHERE task_id = ?`
unfoldable pub get_dependencies : List Row → String → List Row
get_dependencies [] t = []
get_dependencies (r ∷ rs) t =
    ite (String-discrete r.task_id t) (r ∷ get_dependencies rs t) (get_dependencies rs t)

-- `SELECT * FROM task_dependencies WHERE depends_on_task_id = ?`
unfoldable pub get_dependents : List Row → String → List Row
get_dependents [] t = []
get_dependents (r ∷ rs) t =
    ite (String-discrete r.depends_on t) (r ∷ get_dependents rs t) (get_dependents rs t)

-- `SELECT COUNT(*) … WHERE task_id = ? AND depends_on_task_id = ?`, as a test of its result
unfoldable pub has_row : List Row → String → String → Bool
has_row [] t d = false
has_row (r ∷ rs) t d =
    let rest = has_row rs t d in
    ite (String-discrete r.task_id t) (ite (String-discrete r.depends_on d) true rest) rest

-- `for (const depId of dependsOn) if (… count === 0) throw …`
unfoldable pub all_exist : List String → List String → Bool
all_exist tasks [] = true
all_exist tasks (d ∷ ds) = ite (dec_in d tasks) (all_exist tasks ds) false

-- `for (const depId of dependsOn) if (… count > 0) throw …`
unfoldable pub none_known : List Row → String → List String → Bool
none_known rows t [] = true
none_known rows t (d ∷ ds) = if has_row rows t d then false else none_known rows t ds

abbrev pub new_row : String → String → Row
new_row t d = record { task_id = t; depends_on = d; resolution = pending }

-- The insertions. The table's UNIQUE constraint refuses a pair that it has, as for an id that the
-- request names twice, and the transaction is rolled back.
unfoldable pub insert_each : List Row → String → List String → Result (List Row) ErrorCode
insert_each rows t [] = ok rows
insert_each rows t (d ∷ ds) =
    let rest = insert_each (rows ++ new_row t d ∷ []) t ds in
    if has_row rows t d then err system_error else rest

-- `addDependencies`: the table with the new rows, and those rows.
unfoldable pub add_dependencies : Store → String → List String → Result (Store × List Row) ErrorCode
add_dependencies s t [] = err invalid_operation
add_dependencies s t (d ∷ ds) =
    let all = d ∷ ds in
    if ltb max_dependencies_per_task (length all)
    then err invalid_operation
    else ite (dec_in t s.tasks)
        (if ltb max_dependencies_per_task (length (get_dependencies s.rows t) + length all)
          then err invalid_operation
          else if all_exist s.tasks all
          then (if none_known s.rows t all
              then (elim (insert_each s.rows t all) [
                | err e ↦ err e
                | ok rows ↦ ok (record s { rows = rows }, map (new_row t) all)
              ])
              else err invalid_operation)
          else err task_not_found)
        (err task_not_found)

pub data Event : Type 0 where
  dependency_failed dependency_added : (task_id depends_on : String) → Event
  dependency_resolved : (task_id depends_on : String) → Resolution → Event
  cancellation_requested unblocked : (task_id : String) → Event

-- The handler's graph, the repository behind it, and the events that it has emitted.
pub record Handler : Type 0 where
  pub graph : DependencyGraph
  pub store : Store
  pub events : List Event

abbrev pub emit : Handler → Event → Handler
emit h e = record h { events = h.events ++ e ∷ [] }

pub data Failure : Type 0 where
  cycle depth : Failure

-- `validateSingleDependency`: `none` for a valid one.
unfoldable pub validate_single_dependency : DependencyGraph → ℕ → String → String → Option Failure
validate_single_dependency g max_chain_depth task_id dep_id =
    if would_create_cycle g task_id dep_id
    then some cycle
    else if ltb max_chain_depth (1 + get_max_depth g dep_id)
    then some depth
    else none

-- The first failure among the validations, with its id.
unfoldable pub find_failure : DependencyGraph → ℕ → String → List String → Option (String × Failure)
find_failure g max_chain_depth t [] = none
find_failure g max_chain_depth t (d ∷ ds) =
    elim (validate_single_dependency g max_chain_depth t d) [
      | some f ↦ some (d, f)
      | none ↦ find_failure g max_chain_depth t ds
    ]

-- `updateGraphAfterPersistence`: an edge that is refused is only logged.
unfoldable pub update_graph_after_persistence : DependencyGraph → List Row → DependencyGraph
update_graph_after_persistence g [] = g
update_graph_after_persistence g (r ∷ rs) = elim (add_edge g r.task_id r.depends_on) [
  | ok g' ↦ update_graph_after_persistence g' rs
  | err e ↦ update_graph_after_persistence g rs
]

-- `emitDependencyAddedEvents`
unfoldable pub emit_dependency_added_events : Handler → List Row → Handler
emit_dependency_added_events h [] = h
emit_dependency_added_events h (r ∷ rs) =
    emit_dependency_added_events (emit h (dependency_added r.task_id r.depends_on)) rs

-- `handleTaskDelegated`, for a task with the given `dependsOn`.
unfoldable pub handle_task_delegated :
    ℕ → Handler → String → List String → Handler × Result (Unit {0}) ErrorCode
handle_task_delegated max_chain_depth h t [] = (h, ok tt)
handle_task_delegated max_chain_depth h t (d ∷ ds) =
    elim (find_failure h.graph max_chain_depth t (d ∷ ds)) [
      | some (bad, why) ↦ (emit h (dependency_failed t bad), err invalid_operation)
      | none ↦ elim (add_dependencies h.store t (d ∷ ds)) [
        | err e ↦ (emit h (dependency_failed t d), err e)
        | ok (store, rows) ↦ (
          emit_dependency_added_events
              (record h { graph = update_graph_after_persistence h.graph rows; store = store })
              rows,
          ok tt,
        )
      ]
    ]

-- `UPDATE … SET resolution = ? WHERE depends_on_task_id = ? AND resolution = 'pending'`
unfoldable pub settle : Resolution → Resolution → Resolution
settle new pending = new
settle new old = old

unfoldable pub resolve_dependencies_batch : List Row → String → Resolution → List Row
unfolding settle
resolve_dependencies_batch [] t new = []
resolve_dependencies_batch (r ∷ rs) t new =
    ite (String-discrete r.depends_on t) (record r { resolution = settle new r.resolution }) r
    ∷ resolve_dependencies_batch rs t new

abbrev pub is_pending : Resolution → Bool
is_pending pending = true
is_pending _ = false

abbrev pub is_bad : Resolution → Bool
is_bad failed = true
is_bad cancelled = true
is_bad _ = false

-- `SELECT COUNT(*) … WHERE task_id = ? AND resolution = 'pending'`, as the test of `isBlocked`
unfoldable pub any_row : (Resolution → Bool) → List Row → Bool
any_row p [] = false
any_row p (r ∷ rs) = if p r.resolution then true else any_row p rs

unfoldable pub is_blocked : Store → String → Bool
unfolding any_row get_dependencies
is_blocked s t = any_row is_pending (get_dependencies s.rows t)

-- Which statements succeed while the dependents of a task are resolved: `getDependents` and the batch
-- update once, and `isBlocked`, `getDependencies` and `findById` for each dependent by its id.
pub record Database : Type 0 where
  pub dependents : Bool
  pub updates : Bool
  pub blocked : String → Bool
  pub dependencies : String → Bool
  pub finds : String → Bool

-- One round of the loop of `resolveDependencies`, after the batch update, for a row that was pending.
-- A statement that fails ends the round without a further event.
unfoldable pub resolve_one : Database → Handler → Resolution → Row → Handler
unfolding is_blocked
resolve_one db h new dep =
    let h' = emit h (dependency_resolved dep.task_id dep.depends_on new) in
    if not (db.blocked dep.task_id)
    then h'
    else if is_blocked h.store dep.task_id
    then h'
    else if not (db.dependencies dep.task_id)
    then h'
    else if any_row is_bad (get_dependencies h.store.rows dep.task_id)
    then emit h' (cancellation_requested dep.task_id)
    else if not (db.finds dep.task_id)
    then h'
    else ite (dec_in dep.task_id h.store.tasks) (emit h' (unblocked dep.task_id)) h'

unfoldable pub resolve_each : Database → Handler → Resolution → List Row → Handler
unfolding resolve_one
resolve_each db h new [] = h
resolve_each db h new (dep ∷ deps) =
    resolve_each db (if is_pending dep.resolution then resolve_one db h new dep else h) new deps

-- `resolveDependencies`: the dependents are read before the update.
unfoldable pub resolve_dependencies :
    Database → Handler → String → Resolution → Handler × Result (Unit {0}) ErrorCode
unfolding resolve_each resolve_dependencies_batch get_dependents
resolve_dependencies db h t new =
    if not db.dependents then (h, err system_error) else (elim (get_dependents h.store.rows t) [
      | [] ↦ (h, ok tt)
      | r ∷ rs ↦
          if not db.updates
          then (h, err system_error)
          else (let rows = resolve_dependencies_batch h.store.rows t new in
              (
                resolve_each db (record h { store = record h.store { rows = rows } }) new (r ∷ rs),
                ok tt,
              ))
    ])

-- The event that a task ends with.
pub data Ending : Type 0 where
  task_completed task_failed task_cancelled task_timeout : Ending

-- `handleTaskCompleted`, `handleTaskFailed`, `handleTaskCancelled` and `handleTaskTimeout`
unfoldable pub handle_task_ended :
    Database → Handler → Ending → String → Handler × Result (Unit {0}) ErrorCode
handle_task_ended db h task_completed t = resolve_dependencies db h t completed
handle_task_ended db h task_failed t = resolve_dependencies db h t failed
handle_task_ended db h task_cancelled t = resolve_dependencies db h t cancelled
handle_task_ended db h task_timeout t = resolve_dependencies db h t failed
