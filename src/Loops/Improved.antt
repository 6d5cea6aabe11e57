-- ===== src/Loops/Improved.antt =====
-- No recorded score is better than the best score of the row.
use autobeat.Prelude.{
  ℕ, String, suc, Bool, true, ◌&&◌, ◌||◌, Option, none, some, if_both, ltb, leb, ◌≡◌, refl,
}
use autobeat.Loops.Loop.{Loop, LoopStatus, LoopStrategy, OptimizeDirection, Scores, is_paused}
use autobeat.Loops.Loop
use autobeat.Loops.Iteration.{
  LoopIteration, IterationStatus, EvalResult, Decision, is_keep, find_iteration, update_iteration,
}
use autobeat.Loops.Handler.{
  LoopStore, Answers, is_truthy, handle_iteration_git_outcome, record_and_stop, handle_task_failed,
}
use autobeat.Loops.Results.{
  or_else, go_on, record_and_continue, handle_retry_result, keeps, handle_optimize_result,
  handle_iteration_result,
}
use autobeat.Loops.Best.{
  IsBeaten, AreBeaten, IsBest, update-AreBeaten, find-AreBeaten, not_better_self, kept-AreBeaten,
  not_kept, schedule-IsBest, complete-IsBest, go_on-IsBest,
}

abbrev pub is_active : LoopStatus → Bool
is_active status = Loop.is_running status || is_paused status

module _ {S : Type 0} (scores : Scores S) (lines : Option String → ℕ) where
  abbrev pub Best : LoopStore S → Type 0
  Best = IsBest scores lines

  -- The end of a loop by a decision may leave a better score behind.
  abbrev pub IsUnbeaten : LoopStore S → Type 0
  IsUnbeaten s = is_active s.loop.status ≡ true → Best s

  module _ (a : Answers) (s : LoopStore S) (h : Best s) (it : LoopIteration S) (n : ℕ)
      (there : find_iteration s.iterations n ≡ some it) where
    own : IsBeaten scores lines s.loop.best_score s.loop.eval_direction it.score
    own =
        find-AreBeaten scores lines s.loop.best_score s.loop.eval_direction n s.iterations it there
          h

    continue-Best :
        (status : IterationStatus) (failures : ℕ) (loop : Loop S) (score : Option S)
        → AreBeaten scores lines loop.best_score loop.eval_direction s.iterations
        → IsBeaten scores lines loop.best_score loop.eval_direction (or_else score it.score)
        → Best (record_and_continue scores lines a s s.loop it status failures loop score)
    unfolding record_and_continue
    continue-Best status failures loop score others new_one =
        let git = handle_iteration_git_outcome a it status in
        let new : LoopIteration S = record it {
          status = status;
          score = or_else score it.score;
          git_commit_sha = git.git_commit_sha;
          git_diff_summary = or_else git.git_diff_summary it.git_diff_summary;
        } in
        let updated =
          update-AreBeaten scores lines loop.best_score loop.eval_direction s.iterations new new_one
            others in
        if_both Best a.recorded
          (λ _.
            if_both
              (λ (l : Loop S). Best (
                go_on scores lines a
                  (record s { loop = l; iterations = update_iteration s.iterations new }) l it
                  status failures))
              (is_keep status && is_truthy git.git_commit_sha)
              (λ _. go_on-IsBest scores lines a _ it status failures updated)
              (λ _. go_on-IsBest scores lines a _ it status failures updated))
          (λ _. complete-IsBest scores lines a s s.loop LoopStatus.failed h h)

    stop-IsUnbeaten :
        (status : IterationStatus) (score : Option S)
        → IsUnbeaten (record_and_stop a s s.loop it status score)
    unfolding record_and_stop
    stop-IsUnbeaten status score =
        if_both IsUnbeaten a.recorded (λ _. λ active. absurd cc)
          (λ _. λ active. complete-IsBest scores lines a s s.loop LoopStatus.failed h h)

    pub failed-Best : Best (handle_task_failed a s s.loop it)
    unfolding handle_task_failed
    failed-Best =
        let new : LoopIteration S = record it { status = IterationStatus.fail } in
        let updated =
          update-AreBeaten scores lines s.loop.best_score s.loop.eval_direction s.iterations new own
            h in
        if_both Best a.recorded
          (λ _.
            if_both Best
              (ltb 0 s.loop.max_consecutive_failures
                && leb s.loop.max_consecutive_failures (suc s.loop.consecutive_failures))
              (λ _. complete-IsBest scores lines a _ _ LoopStatus.failed updated updated)
              (λ _. schedule-IsBest scores lines a _ _ updated))
          (λ _. complete-IsBest scores lines a s s.loop LoopStatus.failed h h)

    retry-IsUnbeaten :
        (result : EvalResult S) → IsUnbeaten (handle_retry_result scores lines a s s.loop it result)
    unfolding handle_retry_result
    retry-IsUnbeaten result = decided result.decision
      where
        again : IsUnbeaten (
            record_and_continue scores lines a s s.loop it IterationStatus.progress 0
              (record s.loop { consecutive_failures = 0 })
              none)
        again active =
            continue-Best IterationStatus.progress 0 (record s.loop { consecutive_failures = 0 })
              none h own

        decided :
            (d : Option Decision)
            → IsUnbeaten
                (handle_retry_result scores lines a s s.loop it (record result { decision = d }))
        decided (some Decision.continue) = again
        decided (some Decision.stop) = stop-IsUnbeaten IterationStatus.pass result.score
        decided none =
            if_both IsUnbeaten result.passed (λ _. stop-IsUnbeaten IterationStatus.pass it.score)
              (λ _. again)

    optimize-IsUnbeaten :
        (result : EvalResult S)
        → IsUnbeaten (handle_optimize_result scores lines a s s.loop it result)
    unfolding handle_optimize_result
    optimize-IsUnbeaten result = decided result.decision result.score
      where
        worse_loop : Loop S
        worse_loop = record s.loop { consecutive_failures = suc s.loop.consecutive_failures }

        crash : IsUnbeaten (
            record_and_continue scores lines a s s.loop it IterationStatus.crash
              (suc s.loop.consecutive_failures)
              (record s.loop { consecutive_failures = suc s.loop.consecutive_failures })
              none)
        crash active =
            continue-Best IterationStatus.crash (suc s.loop.consecutive_failures) worse_loop none h
              own

        decided :
            (d : Option Decision) (x : Option S)
            → IsUnbeaten (
                handle_optimize_result scores lines a s s.loop it
                  (record result { decision = d; score = x }))
        decided (some Decision.continue) x = λ active.
            continue-Best IterationStatus.discard s.loop.consecutive_failures s.loop none h own
        decided (some Decision.stop) x = stop-IsUnbeaten IterationStatus.keep x
        decided none none = crash
        decided none (some x) =
            if_both IsUnbeaten result.passed
              (λ _.
                if_both IsUnbeaten (keeps scores lines x s.loop)
                  (λ better. λ active.
                    continue-Best IterationStatus.keep 0
                      (record s.loop {
                        best_score = some x;
                        best_iteration_id = some it.iteration_number;
                        consecutive_failures = 0;
                      })
                      (some x) (kept-AreBeaten scores lines x s.loop s.iterations better h)
                      (x, refl, not_better_self scores lines x s.loop.eval_direction))
                  (λ same. λ active.
                    continue-Best IterationStatus.discard (suc s.loop.consecutive_failures)
                      worse_loop (some x) h (not_kept scores lines x s.loop same)))
              (λ _. crash)

    pub result-IsUnbeaten :
        (result : EvalResult S)
        → IsUnbeaten (handle_iteration_result scores lines a s s.loop it result)
    unfolding handle_iteration_result
    result-IsUnbeaten result =
        elim s.loop.strategy
          as (λ k. IsUnbeaten (elim k [
            | LoopStrategy.retry ↦ handle_retry_result scores lines a s s.loop it result
            | LoopStrategy.optimize ↦ handle_optimize_result scores lines a s s.loop it result
          ])) [
            | LoopStrategy.retry ↦ retry-IsUnbeaten result
            | LoopStrategy.optimize ↦ optimize-IsUnbeaten result
          ]
