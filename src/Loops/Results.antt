-- ===== src/Loops/Results.antt =====
-- What the handler makes of the result of an iteration: it records it, tests whether the loop ends, and
-- goes on.
use autobeat.Prelude.{
  take, ℕ, suc, String, Bool, true, false, ◌&&◌, ◌||◌, Option, none, some, List, [], ◌∷◌, map,
  length, ltb, leb, if◌then◌else◌,
}
use autobeat.Loops.Loop.{Loop, LoopStatus, LoopStrategy, OptimizeDirection, Scores, is_paused}
use autobeat.Loops.Loop
use autobeat.Loops.Iteration.{
  LoopIteration, IterationStatus, EvalResult, Decision, is_keep, is_successful, is_evaluated,
  find_iteration, update_iteration, is_tracked,
}
use autobeat.Loops.Iteration
use autobeat.Loops.Handler.{
  loop_iteration_completed, LoopStore, Answers, is_truthy, complete_loop, schedule_next_iteration,
  handle_iteration_git_outcome, ended_with, record_and_stop, handle_task_failed, forget,
}

abbrev pub convergence_window : ℕ
convergence_window = 5

abbrev pub convergence_min_iterations : ℕ
convergence_min_iterations = 3

abbrev pub convergence_max_changed_lines : ℕ
convergence_max_changed_lines = 10

abbrev pub is_some {ℓ} : {A : Type ℓ} → Option A → Bool
is_some none = false
is_some (some x) = true

abbrev pub or_else {ℓ} : {A : Type ℓ} → Option A → Option A → Option A
or_else none other = other
or_else (some x) other = some x

unfoldable pub filter {ℓ} : {A : Type ℓ} → (A → Bool) → List A → List A
filter p [] = []
filter p (x ∷ xs) = let rest = filter p xs in if p x then x ∷ rest else rest

unfoldable pub every {ℓ} : {A : Type ℓ} → (A → Bool) → List A → Bool
every p [] = true
every p (x ∷ xs) = p x && every p xs

unfoldable pub somes {ℓ} : {A : Type ℓ} → List (Option A) → List A
somes [] = []
somes (none ∷ xs) = somes xs
somes (some x ∷ xs) = x ∷ somes xs

module _ {S : Type 0} (scores : Scores S) (changed_lines : Option String → ℕ) where
  -- The first of the two signals: the latest successful iterations changed little.
  unfoldable pub few_changes : Loop S → List (LoopIteration S) → Bool
  few_changes loop all =
      let successful = filter (λ (it : LoopIteration S). is_successful it.status) all in
      let tracked =
        filter (λ (it : LoopIteration S). is_some it.pre_iteration_commit_sha)
          (take convergence_min_iterations successful) in
      (is_truthy loop.git_branch || is_truthy loop.git_start_commit_sha)
      && (leb convergence_min_iterations (length tracked)
          && every
              (λ (it : LoopIteration S).
                ltb (changed_lines it.git_diff_summary) convergence_max_changed_lines)
              tracked)

  unfoldable pub all_near : List S → Bool
  all_near [] = true
  all_near (x ∷ xs) = every (λ y. scores.is_near y x) (x ∷ xs)

  -- The second: the latest evaluated iterations scored the same.
  unfoldable pub plateau : Loop S → List (LoopIteration S) → Bool
  plateau loop all =
      let evaluated = filter (λ (it : LoopIteration S). is_evaluated it.status) all in
      let found =
        somes
          (map (λ (it : LoopIteration S). it.score) (take convergence_min_iterations evaluated)) in
      elim loop.strategy [
        | LoopStrategy.retry ↦ false
        | LoopStrategy.optimize ↦ leb convergence_min_iterations (length found) && all_near found
      ]

  unfoldable pub has_converged : Answers → LoopStore S → Loop S → Bool
  has_converged a s loop =
      let all = take convergence_window s.iterations in
      loop.convergence_enabled && (a.listed && (few_changes loop all || plateau loop all))

  -- What ends a loop: the status that it ends with, or none.
  unfoldable pub termination : Answers → LoopStore S → Loop S → ℕ → Option LoopStatus
  termination a s loop consecutive_failures =
      if ltb 0 loop.max_iterations && leb loop.max_iterations loop.current_iteration
      then some LoopStatus.completed
      else if ltb 0 loop.max_consecutive_failures
          && leb loop.max_consecutive_failures consecutive_failures
      then some LoopStatus.failed
      else if has_converged a s loop
      then some LoopStatus.completed
      else none

  -- After the commit: the event, and the end or the next iteration.
  unfoldable pub go_on :
      Answers → LoopStore S → Loop S → LoopIteration S → IterationStatus → ℕ → LoopStore S
  go_on a s loop it status consecutive_failures =
      let s' : LoopStore S = record s {
        events = loop_iteration_completed it.iteration_number status ∷ s.events;
      } in
      elim (termination a s' loop consecutive_failures) [
        | none ↦ schedule_next_iteration a s' loop
        | some final ↦ complete_loop a s' (ended_with loop final consecutive_failures) final
      ]

  unfoldable pub record_and_continue :
      Answers
      → LoopStore S
      → Loop S
      → LoopIteration S
      → IterationStatus
      → ℕ
      → Loop S
      → Option S
      → LoopStore S
  record_and_continue a s loop it status consecutive_failures loop_update score =
      let git = handle_iteration_git_outcome a it status in
      let updated : Loop S =
        if is_keep status && is_truthy git.git_commit_sha
        then record loop_update { best_iteration_commit_sha = git.git_commit_sha }
        else loop_update in
      let new : LoopIteration S = record it {
        status = status;
        score = or_else score it.score;
        git_commit_sha = git.git_commit_sha;
        git_diff_summary = or_else git.git_diff_summary it.git_diff_summary;
      } in
      if a.recorded
      then go_on a (record s { loop = updated; iterations = update_iteration s.iterations new })
          updated it status consecutive_failures
      else complete_loop a s loop LoopStatus.failed

  unfoldable pub handle_retry_result :
      Answers → LoopStore S → Loop S → LoopIteration S → EvalResult S → LoopStore S
  handle_retry_result a s loop it result =
      let again =
        record_and_continue a s loop it IterationStatus.progress 0
          (record loop { consecutive_failures = 0 }) none in
      elim result.decision [
        | some Decision.continue ↦ again
        | some Decision.stop ↦ record_and_stop a s loop it IterationStatus.pass result.score
        | none ↦
            if result.passed
            then record_and_stop a s loop it IterationStatus.pass it.score
            else again
      ]

  unfoldable pub is_score_better : S → S → Option OptimizeDirection → Bool
  is_score_better new best (some OptimizeDirection.minimize) = scores.is_less new best
  is_score_better new best _ = scores.is_less best new

  unfoldable pub keeps : S → Loop S → Bool
  keeps score loop = elim loop.best_score [
    | none ↦ true
    | some best ↦ is_score_better score best loop.eval_direction
  ]

  unfoldable pub handle_optimize_result :
      Answers → LoopStore S → Loop S → LoopIteration S → EvalResult S → LoopStore S
  handle_optimize_result a s loop it result =
      let failures = suc loop.consecutive_failures in
      let worse = λ (status : IterationStatus) (score : Option S).
        record_and_continue a s loop it status failures
          (record loop { consecutive_failures = failures }) score in
      let crash = worse IterationStatus.crash none in
      elim result.decision [
        | some Decision.continue ↦
            record_and_continue a s loop it IterationStatus.discard loop.consecutive_failures loop
              none
        | some Decision.stop ↦ record_and_stop a s loop it IterationStatus.keep result.score
        | none ↦ elim result.score [
          | none ↦ crash
          | some score ↦
              if result.passed
              then (if keeps score loop
                  then record_and_continue a s loop it IterationStatus.keep 0
                      (record loop {
                        best_score = some score;
                        best_iteration_id = some it.iteration_number;
                        consecutive_failures = 0;
                      })
                      (some score)
                  else worse IterationStatus.discard (some score))
              else crash
        ]
      ]

  unfoldable pub handle_iteration_result :
      Answers → LoopStore S → Loop S → LoopIteration S → EvalResult S → LoopStore S
  handle_iteration_result a s loop it result = elim loop.strategy [
    | LoopStrategy.retry ↦ handle_retry_result a s loop it result
    | LoopStrategy.optimize ↦ handle_optimize_result a s loop it result
  ]

  -- The task of an iteration completed, with a result of its evaluation, or failed, with none. The queries
  -- that find the rows succeed.
  unfoldable pub handle_task_terminal :
      Answers → LoopStore S → ℕ → Option (EvalResult S) → LoopStore S
  handle_task_terminal a s n outcome =
      if is_tracked s.task_to_loop n
      then (if Loop.is_running s.loop.status || is_paused s.loop.status
          then elim (find_iteration s.iterations n) [
            | none ↦ s
            | some it ↦
                if Iteration.is_running it.status
                then forget
                    (elim outcome [
                      | none ↦ handle_task_failed a s s.loop it
                      | some result ↦ handle_iteration_result a s s.loop it result
                    ])
                    n
                else forget s n
          ]
          else forget s n)
      else s
