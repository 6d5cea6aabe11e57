-- ===== src/Loops/Outcomes.antt =====
-- The result of an iteration, whatever it is, keeps its loop within the limits.
use autobeat.Prelude.{
  ℕ, String, suc, ◌+◌, ◌≤◌, ◌<◌, true, false, ◌&&◌, Option, none, some, if_both, ltb, leb, ◌≡◌,
  arith, refl, ◌∙◌,
}
use autobeat.Loops.Loop.{Loop, LoopStatus, LoopStrategy, Scores}
use autobeat.Loops.Iteration.{
  LoopIteration, IterationStatus, EvalResult, Decision, is_running, is_keep, find_iteration,
  update_iteration,
}
use autobeat.Loops.Handler.{
  LoopStore, Answers, finish_loop, handle_iteration_git_outcome, is_truthy, record_and_stop,
  handle_task_failed,
}
use autobeat.Loops.Results.{
  or_else, go_on, record_and_continue, handle_retry_result, keeps, handle_optimize_result,
  handle_iteration_result,
}
use autobeat.Loops.Limits.{IsOnly, update-IsIdle, find-IsOnly, IsWithin, Phase, rests, waits, runs}
use autobeat.Loops.Bounded.{
  none_runs, IsDone, done-Within, IsDone-finish, schedule-Within, complete-Within, go_on-Within,
}

module _ {S : Type 0} (scores : Scores S) (lines : Option String → ℕ) (M F : ℕ) (0<M : 0 < M)
    (0<F : 0 < F) where
  abbrev Within : LoopStore S → Type 0
  Within = IsWithin M F 0<M 0<F

  -- A running iteration whose result is recorded.
  module _ (a : Answers) (s : LoopStore S) (w : Within s) (it : LoopIteration S)
      (runs_now : is_running it.status ≡ true) (n : ℕ)
      (there : find_iteration s.iterations n ≡ some it) where
    abbrev IsRun : Type 0
    IsRun =
        IsOnly it.iteration_number s.iterations
        × (s.cooldown_timer ≡ false)
        × (s.loop.current_iteration ≤ M + s.loop.consecutive_failures)
        × (s.loop.consecutive_failures < F)

    run : IsRun
    run = from w.phase
      where
        from : Phase M F 0<M 0<F s.loop s.iterations s.cooldown_timer → IsRun
        from (rests idle _ _) = absurd (none_runs s.iterations idle n it there runs_now)
        from (waits idle _ _) = absurd (none_runs s.iterations idle n it there runs_now)
        from (runs only timer cur cf) =
            let same = find-IsOnly s.loop.current_iteration n s.iterations it there runs_now only in
            (rw same only, timer, cur, cf)

    -- After any other status is recorded, and the loop's own row with it.
    recorded-IsDone :
        (new : LoopIteration S) (loop : Loop S)
        → new.iteration_number ≡ it.iteration_number
        → is_running new.status ≡ false
        → loop.max_iterations ≡ s.loop.max_iterations
        → loop.max_consecutive_failures ≡ s.loop.max_consecutive_failures
        → loop.current_iteration ≡ s.loop.current_iteration
        → IsDone scores lines M F 0<M 0<F
            (record s { loop = loop; iterations = update_iteration s.iterations new })
    recorded-IsDone new loop named ends m f c =
        let (only, timer, cur, cf) = run in
        record {
          iterations = m ∙ w.iterations;
          failures = f ∙ w.failures;
          idle = update-IsIdle s.iterations new ends (rw named only);
          timer = timer;
          bound = omega (arith, c, cur, cf);
        }

    timer_off : s.cooldown_timer ≡ false
    timer_off = let (_, timer, _, _) = run in timer

    -- What a result may change in the row of the loop.
    abbrev IsNext : Loop S → Type 0
    IsNext loop =
        (loop.max_iterations ≡ s.loop.max_iterations)
        × (loop.max_consecutive_failures ≡ s.loop.max_consecutive_failures)
        × (loop.current_iteration ≡ s.loop.current_iteration)

    continue-Within :
        (status : IterationStatus) (loop : Loop S) (score : Option S)
        → is_running status ≡ false
        → IsNext loop
        → Within (
            record_and_continue scores lines a s s.loop it status loop.consecutive_failures loop
              score)
    unfolding record_and_continue
    continue-Within status loop score ends (m, f, c) =
        let git = handle_iteration_git_outcome a it status in
        let new : LoopIteration S = record it {
          status = status;
          score = or_else score it.score;
          git_commit_sha = git.git_commit_sha;
          git_diff_summary = or_else git.git_diff_summary it.git_diff_summary;
        } in
        if_both Within a.recorded
          (λ _.
            if_both
              (λ (l : Loop S). Within (
                go_on scores lines a
                  (record s { loop = l; iterations = update_iteration s.iterations new }) l it
                  status loop.consecutive_failures))
              (is_keep status && is_truthy git.git_commit_sha)
              (λ _. go_on-Within scores lines M F 0<M 0<F a _ it status (
                recorded-IsDone new (record loop { best_iteration_commit_sha = git.git_commit_sha })
                  refl ends m f c))
              (λ _.
                go_on-Within scores lines M F 0<M 0<F a _ it status
                  (recorded-IsDone new loop refl ends m f c)))
          (λ _. complete-Within scores lines M F 0<M 0<F a s LoopStatus.failed w timer_off)

    stop-Within :
        (status : IterationStatus) (score : Option S)
        → is_running status ≡ false
        → Within (record_and_stop a s s.loop it status score)
    unfolding record_and_stop
    stop-Within status score ends =
        let git = handle_iteration_git_outcome a it status in
        let new : LoopIteration S = record it {
          status = status;
          score = score;
          git_commit_sha = git.git_commit_sha;
          git_diff_summary = git.git_diff_summary;
        } in
        let loop : Loop S = record s.loop { status = LoopStatus.completed } in
        let s' : LoopStore S = record s {
          loop = loop;
          iterations = update_iteration s.iterations new;
        } in
        if_both Within a.recorded
          (λ _. done-Within scores lines M F 0<M 0<F (finish_loop s') (
            IsDone-finish scores lines M F 0<M 0<F s'
              (recorded-IsDone new loop refl ends refl refl refl)))
          (λ _. complete-Within scores lines M F 0<M 0<F a s LoopStatus.failed w timer_off)

    pub failed-Within : Within (handle_task_failed a s s.loop it)
    unfolding handle_task_failed
    failed-Within =
        let updated : Loop S = record s.loop {
          consecutive_failures = suc s.loop.consecutive_failures;
        } in
        let d =
          recorded-IsDone (record it { status = IterationStatus.fail }) updated refl refl refl refl
            refl in
        let (_, _, cur, cf) = run in
        if_both Within a.recorded
          (λ _.
            if_both Within
              (ltb 0 s.loop.max_consecutive_failures
                && leb s.loop.max_consecutive_failures (suc s.loop.consecutive_failures))
              (λ over.
                complete-Within scores lines M F 0<M 0<F a _ LoopStatus.failed
                  (done-Within scores lines M F 0<M 0<F _ d) timer_off)
              (λ under.
                schedule-Within scores lines M F 0<M 0<F a _ d (omega (arith, cur))
                  (ground (arith, w.failures))))
          (λ _. complete-Within scores lines M F 0<M 0<F a s LoopStatus.failed w timer_off)

    retry-Within :
        (result : EvalResult S) → Within (handle_retry_result scores lines a s s.loop it result)
    unfolding handle_retry_result
    retry-Within result = decided result.decision
      where
        again : Within (
            record_and_continue scores lines a s s.loop it IterationStatus.progress 0
              (record s.loop { consecutive_failures = 0 })
              none)
        again =
            continue-Within IterationStatus.progress (record s.loop { consecutive_failures = 0 })
              none refl (refl, refl, refl)

        decided :
            (d : Option Decision)
            → Within
                (handle_retry_result scores lines a s s.loop it (record result { decision = d }))
        decided (some Decision.continue) = again
        decided (some Decision.stop) = stop-Within IterationStatus.pass result.score refl
        decided none =
            if_both Within result.passed (λ _. stop-Within IterationStatus.pass it.score refl)
              (λ _. again)

    optimize-Within :
        (result : EvalResult S) → Within (handle_optimize_result scores lines a s s.loop it result)
    unfolding handle_optimize_result
    optimize-Within result = decided result.decision result.score
      where
        failed_loop : Loop S
        failed_loop = record s.loop { consecutive_failures = suc s.loop.consecutive_failures }

        crash : Within (
            record_and_continue scores lines a s s.loop it IterationStatus.crash
              (suc s.loop.consecutive_failures)
              (record s.loop { consecutive_failures = suc s.loop.consecutive_failures })
              none)
        crash = continue-Within IterationStatus.crash failed_loop none refl (refl, refl, refl)

        decided :
            (d : Option Decision) (x : Option S)
            → Within (
                handle_optimize_result scores lines a s s.loop it
                  (record result { decision = d; score = x }))
        decided (some Decision.continue) x =
            continue-Within IterationStatus.discard s.loop none refl (refl, refl, refl)
        decided (some Decision.stop) x = stop-Within IterationStatus.keep x refl
        decided none none = crash
        decided none (some x) =
            if_both Within result.passed
              (λ _.
                if_both Within (keeps scores lines x s.loop)
                  (λ _.
                    continue-Within IterationStatus.keep
                      (record s.loop {
                        best_score = some x;
                        best_iteration_id = some it.iteration_number;
                        consecutive_failures = 0;
                      })
                      (some x) refl (refl, refl, refl))
                  (λ _.
                    continue-Within IterationStatus.discard failed_loop (some x) refl
                      (refl, refl, refl)))
              (λ _. crash)

    pub result-Within :
        (result : EvalResult S) → Within (handle_iteration_result scores lines a s s.loop it result)
    unfolding handle_iteration_result
    result-Within result =
        elim s.loop.strategy
          as (λ k. Within (elim k [
            | LoopStrategy.retry ↦ handle_retry_result scores lines a s s.loop it result
            | LoopStrategy.optimize ↦ handle_optimize_result scores lines a s s.loop it result
          ])) [
            | LoopStrategy.retry ↦ retry-Within result
            | LoopStrategy.optimize ↦ optimize-Within result
          ]
