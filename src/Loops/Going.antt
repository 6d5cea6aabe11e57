-- ===== src/Loops/Going.antt =====
-- A loop does not come to a standstill after the result of an iteration.
use autobeat.Prelude.{
  ℕ, String, suc, true, false, ◌&&◌, ◌||◌, Option, none, some, List, ◌∷◌, if_both, ltb, leb, ◌≡◌,
  ◌⊎◌, arith, refl, Bool-cases, Option-cases, inl, inr,
}
use autobeat.Loops.Loop.{Loop, LoopStatus, LoopStrategy, Scores, is_paused}
use autobeat.Loops.Loop
use autobeat.Loops.Iteration.{
  LoopIteration, IterationStatus, EvalResult, Decision, is_tracked, find_iteration,
}
use autobeat.Loops.Iteration
use autobeat.Loops.Handler.{
  loop_iteration_completed, LoopStore, Answers, finish_loop, complete_loop,
  start_single_task_iteration, start_next_iteration, schedule_next_iteration, ended_with,
  record_and_stop, handle_task_failed,
}
use autobeat.Loops.Results.{
  termination, go_on, record_and_continue, handle_retry_result, keeps, handle_optimize_result,
  handle_iteration_result, handle_task_terminal,
}

module _ {S : Type 0} (scores : Scores S) (lines : Option String → ℕ) where
  -- It has ended or is paused, or its cooldown is running out, or its latest iteration runs.
  abbrev pub IsGoing : LoopStore S → Type 0
  IsGoing s =
      (Loop.is_running s.loop.status ≡ false)
      ⊎ ((s.cooldown_timer ≡ true)
          ⊎ ((it : LoopIteration S) × (find_iteration s.iterations s.loop.current_iteration
                ≡ some it)
              × (Iteration.is_running it.status ≡ true)))

  is_paused-is_running : (x : LoopStatus) → is_paused x ≡ true → Loop.is_running x ≡ false
  is_paused-is_running LoopStatus.running e = absurd cc
  is_paused-is_running LoopStatus.paused e = refl
  is_paused-is_running LoopStatus.completed e = refl
  is_paused-is_running LoopStatus.failed e = refl
  is_paused-is_running LoopStatus.cancelled e = refl

  termination_ends :
      (a : Answers) (s : LoopStore S) (loop : Loop S) (n : ℕ) (final : LoopStatus)
      → termination scores lines a s loop n ≡ some final
      → Loop.is_running final ≡ false
  unfolding termination
  termination_ends a s loop n LoopStatus.running e = absurd (ground arith)
  termination_ends a s loop n LoopStatus.paused e = refl
  termination_ends a s loop n LoopStatus.completed e = refl
  termination_ends a s loop n LoopStatus.failed e = refl
  termination_ends a s loop n LoopStatus.cancelled e = refl

  -- The database does what it is asked for.
  module _ (a : Answers) (recorded : a.recorded ≡ true) (updated : a.updated ≡ true)
      (counted : a.counted ≡ true) (saved : a.saved ≡ true) where
    find_first :
        (new : LoopIteration S) (its : List (LoopIteration S)) (n : ℕ)
        → new.iteration_number ≡ n
        → find_iteration (new ∷ its) n ≡ some new
    unfolding find_iteration
    find_first new its n e = ground arith

    start-IsGoing : (s : LoopStore S) → IsGoing (start_next_iteration a s)
    unfolding start_next_iteration start_single_task_iteration
    start-IsGoing s = elim (Bool-cases (Loop.is_running s.loop.status)) [
      | inr over ↦
          if_both IsGoing (a.counted && Loop.is_running s.loop.status) (λ c. absurd (ground arith))
            (λ _. inl over)
      | inl on ↦
          if_both IsGoing (a.counted && Loop.is_running s.loop.status)
            (λ _.
              if_both IsGoing a.saved
                (λ _.
                  inr
                    (inr (_, find_first _ s.iterations (suc s.loop.current_iteration) refl, refl)))
                (λ u. absurd cc))
            (λ c. absurd (ground arith))
    ]

    schedule-IsGoing : (s : LoopStore S) → IsGoing (schedule_next_iteration a s s.loop)
    unfolding schedule_next_iteration
    schedule-IsGoing s =
        if_both IsGoing (is_paused s.loop.status)
          (λ paused. inl (is_paused-is_running s.loop.status paused))
          (λ _.
            if_both IsGoing (ltb 0 s.loop.cooldown_ms) (λ _. inr (inl refl)) (λ _. start-IsGoing s))

    complete-IsGoing :
        (s : LoopStore S) (loop : Loop S) (status : LoopStatus)
        → Loop.is_running status ≡ false
        → IsGoing (complete_loop a s loop status)
    unfolding complete_loop
    complete-IsGoing s loop status e =
        if_both (λ r. IsGoing (finish_loop r)) a.updated (λ _. inl e) (λ u. absurd cc)

    go_on-IsGoing :
        (s : LoopStore S) (it : LoopIteration S) (status : IterationStatus) (n : ℕ)
        → IsGoing (go_on scores lines a s s.loop it status n)
    unfolding go_on
    go_on-IsGoing s it status n =
        let s' : LoopStore S = record s {
          events = loop_iteration_completed it.iteration_number status ∷ s.events;
        } in
        elim (Option-cases (termination scores lines a s' s.loop n)) [
          | inl on ↦ rw (on, go_on) (schedule-IsGoing s')
          | inr (final, over) ↦
              rw (over, go_on)
                (complete-IsGoing s' (ended_with s.loop final n) final
                  (termination_ends a s' s.loop n final over))
        ]

    module _ (s : LoopStore S) (it : LoopIteration S) where
      continue-IsGoing :
          (status : IterationStatus) (failures : ℕ) (loop : Loop S) (score : Option S)
          → IsGoing (record_and_continue scores lines a s s.loop it status failures loop score)
      unfolding record_and_continue
      continue-IsGoing status failures loop score =
          if_both IsGoing a.recorded (λ _. go_on-IsGoing _ it status failures)
            (λ _. complete-IsGoing s s.loop LoopStatus.failed refl)

      stop-IsGoing :
          (status : IterationStatus) (score : Option S)
          → IsGoing (record_and_stop a s s.loop it status score)
      unfolding record_and_stop
      stop-IsGoing status score =
          if_both IsGoing a.recorded (λ _. inl refl)
            (λ _. complete-IsGoing s s.loop LoopStatus.failed refl)

      failed-IsGoing : IsGoing (handle_task_failed a s s.loop it)
      unfolding handle_task_failed
      failed-IsGoing =
          if_both IsGoing a.recorded
            (λ _.
              if_both IsGoing
                (ltb 0 s.loop.max_consecutive_failures
                  && leb s.loop.max_consecutive_failures (suc s.loop.consecutive_failures))
                (λ _. complete-IsGoing _ _ LoopStatus.failed refl) (λ _. schedule-IsGoing _))
            (λ _. complete-IsGoing s s.loop LoopStatus.failed refl)

      retry-IsGoing :
          (result : EvalResult S) → IsGoing (handle_retry_result scores lines a s s.loop it result)
      unfolding handle_retry_result
      retry-IsGoing result = decided result.decision
        where
          again : IsGoing (
              record_and_continue scores lines a s s.loop it IterationStatus.progress 0
                (record s.loop { consecutive_failures = 0 })
                none)
          again =
              continue-IsGoing IterationStatus.progress 0
                (record s.loop { consecutive_failures = 0 }) none

          decided :
              (d : Option Decision)
              → IsGoing
                  (handle_retry_result scores lines a s s.loop it (record result { decision = d }))
          decided (some Decision.continue) = again
          decided (some Decision.stop) = stop-IsGoing IterationStatus.pass result.score
          decided none =
              if_both IsGoing result.passed (λ _. stop-IsGoing IterationStatus.pass it.score)
                (λ _. again)

      optimize-IsGoing :
          (result : EvalResult S)
          → IsGoing (handle_optimize_result scores lines a s s.loop it result)
      unfolding handle_optimize_result
      optimize-IsGoing result = decided result.decision result.score
        where
          decided :
              (d : Option Decision) (x : Option S)
              → IsGoing (
                  handle_optimize_result scores lines a s s.loop it
                    (record result { decision = d; score = x }))
          decided (some Decision.continue) x =
              continue-IsGoing IterationStatus.discard s.loop.consecutive_failures s.loop none
          decided (some Decision.stop) x = stop-IsGoing IterationStatus.keep x
          decided none none = continue-IsGoing IterationStatus.crash _ _ none
          decided none (some x) =
              if_both IsGoing result.passed
                (λ _.
                  if_both IsGoing (keeps scores lines x s.loop)
                    (λ _. continue-IsGoing IterationStatus.keep 0 _ (some x))
                    (λ _. continue-IsGoing IterationStatus.discard _ _ (some x)))
                (λ _. continue-IsGoing IterationStatus.crash _ _ none)

      result-IsGoing :
          (result : EvalResult S)
          → IsGoing (handle_iteration_result scores lines a s s.loop it result)
      unfolding handle_iteration_result
      result-IsGoing result =
          elim s.loop.strategy
            as (λ k. IsGoing (elim k [
              | LoopStrategy.retry ↦ handle_retry_result scores lines a s s.loop it result
              | LoopStrategy.optimize ↦ handle_optimize_result scores lines a s s.loop it result
            ])) [
              | LoopStrategy.retry ↦ retry-IsGoing result
              | LoopStrategy.optimize ↦ optimize-IsGoing result
            ]

      ended-IsGoing :
          (outcome : Option (EvalResult S))
          → IsGoing (elim outcome [
            | none ↦ handle_task_failed a s s.loop it
            | some result ↦ handle_iteration_result scores lines a s s.loop it result
          ])
      ended-IsGoing none = failed-IsGoing
      ended-IsGoing (some result) = result-IsGoing result

    -- While the database does what it is asked for, the end of the task of an iteration that runs, in a loop
    -- that is running or paused, leaves no loop behind that is running and has neither a cooldown nor a
    -- latest iteration that runs.
    pub ended_goes_on :
        (s : LoopStore S) (it : LoopIteration S) (n : ℕ) (outcome : Option (EvalResult S))
        → is_tracked s.task_to_loop n ≡ true
        → (Loop.is_running s.loop.status || is_paused s.loop.status) ≡ true
        → find_iteration s.iterations n ≡ some it
        → Iteration.is_running it.status ≡ true
        → IsGoing (handle_task_terminal scores lines a s n outcome)
    unfolding handle_task_terminal
    ended_goes_on s it n outcome tracked active there runs =
        rw (tracked, active, there, runs, handle_task_terminal) (ended-IsGoing s it outcome)
