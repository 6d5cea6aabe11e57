-- ===== src/QueueHandler.antt =====
-- src/services/handlers/queue-handler.ts: the class `QueueHandler`, over any
-- implementation of `TaskQueue`. The two repositories are functions that may fail. Events are collected in the order
-- of their emission; what the listeners do meanwhile is not part of a call.
pub mod Announced
use autobeat.Prelude.{
  String, Bool, true, false, Option, none, some, List, [], ◌∷◌, ◌++◌, if◌then◌else◌,
}
use autobeat.Result.{Result, ok, err, ErrorCode, system_error, task_not_found}
use autobeat.Task.{Task, is_queued, is_blocked}
use autobeat.Queue.{TaskQueue}

-- The queue, whether `setup` has stored the event bus, and the ids of the `TaskQueued` events.
pub record QueueHandler (Q : Type 0) : Type 0 where
  pub queue : Q
  pub is_set_up : Bool
  pub task_queued : List String

-- The repositories: `isBlocked` and `findById`.
pub record Repositories : Type 0 where
  pub is_blocked : String → Result Bool ErrorCode
  pub find_by_id : String → Result (Option Task) ErrorCode

abbrev pub Outcome : Type 0 → Type 0
Outcome Q = QueueHandler Q × Result (Unit {0}) ErrorCode

-- `for (const result of subscriptions) if (!result.ok) return result`
unfoldable pub first_failure : List (Result String ErrorCode) → Result (Unit {0}) ErrorCode
first_failure [] = ok tt
first_failure (ok id ∷ rest) = first_failure rest
first_failure (err e ∷ rest) = err e

-- `setup`, from the answers of the bus to the three subscriptions. The bus is stored in any case.
unfoldable pub setup : {Q : Type 0} → QueueHandler Q → List (Result String ErrorCode) → Outcome Q
setup h subscriptions = (record h { is_set_up = true }, first_failure subscriptions)

-- `isBlockedResult`: a check that fails counts as free.
abbrev pub counts_as_blocked : Result Bool ErrorCode → Bool
counts_as_blocked (ok b) = b
counts_as_blocked (err e) = false

module _ {Q : Type 0} (tq : TaskQueue Q) where
  -- What the three ways into the queue share: `TaskQueued` follows when the queue took the task, if
  -- there is a bus.
  unfoldable pub enqueue : QueueHandler Q → Task → Outcome Q
  enqueue h t =
      let (q, r) = tq.enqueue h.queue t in
      elim r [
        | ok done ↦ (
          record h {
            queue = q;
            task_queued = if h.is_set_up then h.task_queued ++ t.id ∷ [] else h.task_queued;
          },
          ok tt,
        )
        | err e ↦ (record h { queue = q }, err e)
      ]

  unfoldable pub enqueue_if_ready : Repositories → QueueHandler Q → Task → Outcome Q
  enqueue_if_ready repos h t =
      if h.is_set_up
      then (if is_blocked t.dependency_state
          then (h, ok tt)
          else if counts_as_blocked (repos.is_blocked t.id)
          then (h, ok tt)
          else enqueue h t)
      else (h, err system_error)

  unfoldable pub handle_task_cancellation : QueueHandler Q → String → Outcome Q
  handle_task_cancellation h id =
      if tq.contains h.queue id
      then (let (q, r) = tq.remove h.queue id in
          elim r [
            | ok b ↦ (record h { queue = q }, ok tt)
            | err e ↦ (record h { queue = q }, err e)
          ])
      else (h, ok tt)

  unfoldable pub handle_requeue_task : QueueHandler Q → Task → Outcome Q
  handle_requeue_task h t = enqueue h t

  unfoldable pub handle_task_unblocked : Repositories → QueueHandler Q → String → Outcome Q
  handle_task_unblocked repos h id = elim (repos.find_by_id id) [
    | err e ↦ (h, err e)
    | ok none ↦ (h, err task_not_found)
    | ok (some t) ↦ if is_queued t.status then enqueue h t else (h, ok tt)
  ]

-- The calls of the handler.
pub data Call : Type 0 where
  enqueues_if_ready requeues : Task → Call
  cancels unblocks : String → Call

module _ {Q : Type 0} (tq : TaskQueue Q) (repos : Repositories) where
  unfoldable pub call : QueueHandler Q → Call → QueueHandler Q
  call h (enqueues_if_ready t) = (enqueue_if_ready tq repos h t).0
  call h (requeues t) = (handle_requeue_task tq h t).0
  call h (cancels id) = (handle_task_cancellation tq h id).0
  call h (unblocks id) = (handle_task_unblocked tq repos h id).0

  unfoldable pub calls : QueueHandler Q → List Call → QueueHandler Q
  calls h [] = h
  calls h (c ∷ cs) = calls (call h c) cs
