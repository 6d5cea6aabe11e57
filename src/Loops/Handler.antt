-- ===== src/Loops/Handler.antt =====
-- The handler of one loop of single tasks: its row, the rows of its iterations, and the events it emits.
use autobeat.Prelude.{
  ℕ, suc, String, Bool, true, false, ◌&&◌, Option, none, some, List, [], ◌∷◌, ltb, leb,
  if◌then◌else◌, ite, String-discrete,
}
use autobeat.Loops.Loop.{Loop, LoopStatus, LoopStrategy, OptimizeDirection, Scores, is_paused}
use autobeat.Loops.Loop
use autobeat.Loops.Iteration.{
  LoopIteration, IterationStatus, GitOutcome, is_successful, update_iteration, is_tracked, untrack,
  cancel_iteration, cancel_latest,
}

pub data LoopEvent : Type 0 where
  loop_completed : LoopEvent
  loop_iteration_completed : ℕ → IterationStatus → LoopEvent
  task_delegated : ℕ → LoopEvent

pub record LoopStore (S : Type 0) : Type 0 where
  pub loop : Loop S
  -- The latest first.
  pub iterations : List (LoopIteration S)
  -- The numbers of the iterations whose tasks `taskToLoop` has.
  pub task_to_loop : List ℕ
  -- A cooldown is running out.
  pub cooldown_timer : Bool
  -- The latest first.
  pub events : List LoopEvent

-- What the database and git answer during one call.
pub record Answers : Type 0 where
  -- The transaction that records a result commits.
  pub recorded : Bool
  -- The write of `completeLoop` succeeds.
  pub updated : Bool
  -- `getIterations` answers.
  pub listed : Bool
  -- The transaction that counts the iteration commits.
  pub counted : Bool
  -- The transaction that saves the task and its iteration commits.
  pub saved : Bool
  -- What `setupGitForIteration` and `commitAndCaptureDiff` return.
  pub pre_iteration_commit_sha : Option String
  pub commit : GitOutcome

-- A string that is there and not empty.
abbrev pub is_truthy : Option String → Bool
is_truthy none = false
is_truthy (some s) = ite (String-discrete s "") false true

module _ {S : Type 0} where
  abbrev pub finish_loop : LoopStore S → LoopStore S
  finish_loop s = record s { cooldown_timer = false; events = loop_completed ∷ s.events }

  -- The loop comes with what `extraUpdate` has.
  unfoldable pub complete_loop : Answers → LoopStore S → Loop S → LoopStatus → LoopStore S
  complete_loop a s loop status =
      finish_loop (if a.updated then record s { loop = record loop { status = status } } else s)

  unfoldable pub start_single_task_iteration : Answers → LoopStore S → ℕ → LoopStore S
  start_single_task_iteration a s n =
      if a.saved
      then record s {
        iterations =
            record {
              iteration_number = n;
              status = IterationStatus.running;
              score = none;
              git_commit_sha = none;
              pre_iteration_commit_sha = a.pre_iteration_commit_sha;
              git_diff_summary = none;
            }
            ∷ s.iterations;
        task_to_loop = n ∷ s.task_to_loop;
        events = task_delegated n ∷ s.events;
      }
      else s

  unfoldable pub start_next_iteration : Answers → LoopStore S → LoopStore S
  start_next_iteration a s =
      let n = suc s.loop.current_iteration in
      let started =
        start_single_task_iteration a (record s { loop = record s.loop { current_iteration = n } })
          n in
      if a.counted && Loop.is_running s.loop.status then started else s

  unfoldable pub schedule_next_iteration : Answers → LoopStore S → Loop S → LoopStore S
  schedule_next_iteration a s loop =
      if is_paused loop.status
      then s
      else if ltb 0 loop.cooldown_ms
      then record s { cooldown_timer = true }
      else start_next_iteration a s

  -- `resetIterationGitState` resets the work tree only.
  unfoldable pub handle_iteration_git_outcome :
      Answers → LoopIteration S → IterationStatus → GitOutcome
  handle_iteration_git_outcome a it status =
      if is_truthy it.pre_iteration_commit_sha && is_successful status
      then a.commit
      else record { git_commit_sha = none; git_diff_summary = none }

  -- Only the end as a failure passes `{ consecutiveFailures }` on.
  unfoldable pub ended_with : Loop S → LoopStatus → ℕ → Loop S
  ended_with loop LoopStatus.failed n = record loop { consecutive_failures = n }
  ended_with loop _ n = loop

  -- The end of a loop together with its last iteration, in one transaction.
  unfoldable pub record_and_stop :
      Answers → LoopStore S → Loop S → LoopIteration S → IterationStatus → Option S → LoopStore S
  record_and_stop a s loop it status score =
      let git = handle_iteration_git_outcome a it status in
      let new : LoopIteration S = record it {
        status = status;
        score = score;
        git_commit_sha = git.git_commit_sha;
        git_diff_summary = git.git_diff_summary;
      } in
      if a.recorded
      then finish_loop (record s {
        loop = record loop { status = LoopStatus.completed };
        iterations = update_iteration s.iterations new;
      })
      else complete_loop a s loop LoopStatus.failed

  unfoldable pub handle_task_failed : Answers → LoopStore S → Loop S → LoopIteration S → LoopStore S
  handle_task_failed a s loop it =
      let failures = suc loop.consecutive_failures in
      let updated : Loop S = record loop { consecutive_failures = failures } in
      let s' : LoopStore S = record s {
        loop = updated;
        iterations = update_iteration s.iterations (record it { status = IterationStatus.fail });
      } in
      if a.recorded
      then (if ltb 0 loop.max_consecutive_failures && leb loop.max_consecutive_failures failures
          then complete_loop a s' updated LoopStatus.failed
          else schedule_next_iteration a s' updated)
      else complete_loop a s loop LoopStatus.failed

  abbrev pub forget : LoopStore S → ℕ → LoopStore S
  forget s n = record s { task_to_loop = untrack s.task_to_loop n }

  -- The row of a created loop is saved.
  unfoldable pub handle_loop_created : Answers → Loop S → LoopStore S
  handle_loop_created a loop = start_next_iteration a (record {
    loop = loop;
    iterations = [];
    task_to_loop = [];
    cooldown_timer = false;
    events = [];
  })

  unfoldable pub cooldown_ends : Answers → LoopStore S → LoopStore S
  cooldown_ends a s =
      if s.cooldown_timer then start_next_iteration a (record s { cooldown_timer = false }) else s

  -- `listed` answers the query of the iteration, `updated` its write.
  unfoldable pub handle_task_cancelled : Answers → LoopStore S → ℕ → LoopStore S
  handle_task_cancelled a s n =
      if is_tracked s.task_to_loop n
      then record s {
        iterations =
            if a.listed && a.updated then cancel_iteration s.iterations n else s.iterations;
        task_to_loop = untrack s.task_to_loop n;
      }
      else s

  -- `updated` answers the write of the loop, `listed` the query and the write of its last iteration.
  unfoldable pub handle_loop_cancelled : Answers → LoopStore S → LoopStore S
  handle_loop_cancelled a s = record s {
    loop = if a.updated then record s.loop { status = LoopStatus.cancelled } else s.loop;
    iterations = if a.listed then cancel_latest s.iterations else s.iterations;
    task_to_loop = [];
    cooldown_timer = false;
  }

  -- A forced pause also cancels the iteration that runs, and asks for the cancellation of its task.
  unfoldable pub handle_loop_paused : Answers → LoopStore S → Bool → LoopStore S
  handle_loop_paused a s force =
      if Loop.is_running s.loop.status
      then record s {
        loop = if a.updated then record s.loop { status = LoopStatus.paused } else s.loop;
        iterations = if force && a.listed then cancel_latest s.iterations else s.iterations;
        cooldown_timer = false;
      }
      else s
