-- ===== src/Loops/Unbeaten.antt =====
-- No score in the history of a loop is better than its best score.
use autobeat.Prelude.{
  ℕ, String, Bool, true, false, ◌&&◌, ◌||◌, Option, none, some, List, [], ◌∷◌, if◌then◌else◌,
  if_both, ◌≡◌, arith, refl, subst, Bool-cases, inl, inr,
}
use autobeat.Loops.Loop.{Loop, LoopStatus, LoopStrategy, OptimizeDirection, Scores, is_paused}
use autobeat.Loops.Loop
use autobeat.Loops.Iteration.{
  LoopIteration, IterationStatus, EvalResult, Decision, GitOutcome, is_keep, is_tracked,
  find_iteration, update_iteration, cancel_latest,
}
use autobeat.Loops.Iteration
use autobeat.Loops.Handler.{
  LoopStore, Answers, start_next_iteration, handle_task_failed, forget, handle_loop_created,
  cooldown_ends, handle_loop_cancelled, handle_loop_paused, handle_task_cancelled,
}
use autobeat.Loops.Results.{is_score_better, handle_iteration_result, handle_task_terminal}
use autobeat.Loops.Histories.{
  Step, task_ends, task_cancelled, cooldown_passes, pauses, cancels, step, steps,
}
use autobeat.Loops.Best.{
  IsBeaten, AreBeaten, IsBest, cancel_latest-AreBeaten, cancel_iteration-AreBeaten, find-AreBeaten,
  start-IsBest,
}
use autobeat.Loops.Improved
use autobeat.Loops.Improved.{is_active, failed-Best, result-IsUnbeaten}

module _ {S : Type 0} (scores : Scores S) (lines : Option String → ℕ) where
  abbrev Best : LoopStore S → Type 0
  Best = IsBest scores lines

  abbrev IsUnbeaten : LoopStore S → Type 0
  IsUnbeaten = Improved.IsUnbeaten scores lines

  ends-IsUnbeaten :
      (a : Answers) (s : LoopStore S) (n : ℕ) (outcome : Option (EvalResult S))
      → IsUnbeaten s
      → IsUnbeaten (handle_task_terminal scores lines a s n outcome)
  unfolding handle_task_terminal
  ends-IsUnbeaten a s n outcome h =
      if_both IsUnbeaten (is_tracked s.task_to_loop n)
        (λ _.
          if_both IsUnbeaten (Loop.is_running s.loop.status || is_paused s.loop.status)
            (λ active. found active (find_iteration s.iterations n) refl) (λ _. h))
        (λ _. h)
    where
      ended :
          is_active s.loop.status ≡ true
          → (o : Option (EvalResult S)) (it : LoopIteration S)
          → find_iteration s.iterations n ≡ some it
          → IsUnbeaten (elim o [
            | none ↦ handle_task_failed a s s.loop it
            | some result ↦ handle_iteration_result scores lines a s s.loop it result
          ])
      ended active none it e = λ _. failed-Best scores lines a s (h active) it n e
      ended active (some result) it e = result-IsUnbeaten scores lines a s (h active) it n e result

      found :
          is_active s.loop.status ≡ true
          → (o : Option (LoopIteration S)) → find_iteration s.iterations n ≡ o
          → IsUnbeaten (elim o [
            | none ↦ s
            | some it ↦
                if Iteration.is_running it.status
                then forget
                    (elim outcome [
                      | none ↦ handle_task_failed a s s.loop it
                      | some result ↦ handle_iteration_result scores lines a s s.loop it result
                    ])
                    n
                else forget s n
          ])
      found active none e = h
      found active (some it) e =
          if_both IsUnbeaten (Iteration.is_running it.status) (λ _. ended active outcome it e)
            (λ _. h)

  halted :
      (s : LoopStore S) (written cancelling : Bool) (status : LoopStatus) (tracked : List ℕ)
      → (is_active status ≡ true → is_active s.loop.status ≡ true)
      → IsUnbeaten s
      → IsUnbeaten (record s {
        loop = if written then record s.loop { status = status } else s.loop;
        iterations = if cancelling then cancel_latest s.iterations else s.iterations;
        task_to_loop = tracked;
        cooldown_timer = false;
      })
  halted s written cancelling status tracked stays h = row written
    where
      kept :
          Best s
          → AreBeaten scores lines s.loop.best_score s.loop.eval_direction
              (if cancelling then cancel_latest s.iterations else s.iterations)
      kept b =
          if_both (AreBeaten scores lines s.loop.best_score s.loop.eval_direction) cancelling
            (λ _.
              cancel_latest-AreBeaten scores lines s.loop.best_score s.loop.eval_direction
                s.iterations b)
            (λ _. b)

      row :
          (w : Bool)
          → IsUnbeaten (record s {
            loop = if w then record s.loop { status = status } else s.loop;
            iterations = if cancelling then cancel_latest s.iterations else s.iterations;
            task_to_loop = tracked;
            cooldown_timer = false;
          })
      row true active = kept (h (stays active))
      row false active = kept (h active)

  cancelled-IsUnbeaten :
      (a : Answers) (s : LoopStore S) (n : ℕ)
      → IsUnbeaten s
      → IsUnbeaten (handle_task_cancelled a s n)
  unfolding handle_task_cancelled
  cancelled-IsUnbeaten a s n h =
      if_both IsUnbeaten (is_tracked s.task_to_loop n)
        (λ _. λ active.
          if_both (AreBeaten scores lines s.loop.best_score s.loop.eval_direction)
            (a.listed && a.updated)
            (λ _.
              cancel_iteration-AreBeaten scores lines s.loop.best_score s.loop.eval_direction n
                s.iterations (h active))
            (λ _. h active))
        (λ _. h)

  start-IsUnbeaten :
      (a : Answers) (s : LoopStore S) → IsUnbeaten s → IsUnbeaten (start_next_iteration a s)
  unfolding start_next_iteration
  start-IsUnbeaten a s h = elim (Bool-cases (a.counted && Loop.is_running s.loop.status)) [
    | inr stays ↦ rw (stays, start_next_iteration) h
    | inl counts ↦ λ _. start-IsBest scores lines a s (h (ground arith))
  ]

  step-IsUnbeaten :
      (s : LoopStore S) (c : Step S) → IsUnbeaten s → IsUnbeaten (step scores lines s c)
  unfolding step cooldown_ends handle_loop_paused handle_loop_cancelled
  step-IsUnbeaten s (task_ends a n outcome) h = ends-IsUnbeaten a s n outcome h
  step-IsUnbeaten s (task_cancelled a n) h = cancelled-IsUnbeaten a s n h
  step-IsUnbeaten s (cooldown_passes a) h =
      if_both IsUnbeaten s.cooldown_timer
        (λ _. start-IsUnbeaten a (record s { cooldown_timer = false }) h) (λ _. h)
  step-IsUnbeaten s (pauses a force) h =
      if_both IsUnbeaten (Loop.is_running s.loop.status)
        (λ runs.
          halted s a.updated (force && a.listed) LoopStatus.paused s.task_to_loop
            (λ _. ground arith) h)
        (λ _. h)
  step-IsUnbeaten s (cancels a) h =
      halted s a.updated a.listed LoopStatus.cancelled [] (λ active. absurd cc) h

  steps-IsUnbeaten :
      (s : LoopStore S) (cs : List (Step S)) → IsUnbeaten s → IsUnbeaten (steps scores lines s cs)
  unfolding steps
  steps-IsUnbeaten s [] h = h
  steps-IsUnbeaten s (c ∷ cs) h =
      steps-IsUnbeaten (step scores lines s c) cs (step-IsUnbeaten s c h)

  created-IsUnbeaten : (a : Answers) (loop : Loop S) → IsUnbeaten (handle_loop_created a loop)
  unfolding handle_loop_created
  created-IsUnbeaten a loop = start-IsUnbeaten a _ (λ _. tt)

  module _ (a : Answers) (loop : Loop S) (cs : List (Step S)) where
    abbrev ran : LoopStore S
    ran = steps scores lines (handle_loop_created a loop) cs

    -- As long as a loop is running or paused, whatever happened to it since it was created, each score that
    -- one of its iterations has is not better, in the direction of the loop, than the best score of its
    -- row, which then is there; it is not resumed or recovered meanwhile.
    pub best_score_unbeaten :
        (n : ℕ) (it : LoopIteration S) (x : S)
        → is_active ran.loop.status ≡ true
        → find_iteration ran.iterations n ≡ some it
        → it.score ≡ some x
        → (b : S) × (ran.loop.best_score ≡ some b)
          × (is_score_better scores lines x b ran.loop.eval_direction ≡ false)
    best_score_unbeaten n it x active there scored =
        let h =
          steps-IsUnbeaten (handle_loop_created a loop) cs (created-IsUnbeaten a loop) active in
        subst (IsBeaten scores lines ran.loop.best_score ran.loop.eval_direction) scored (
          find-AreBeaten scores lines ran.loop.best_score ran.loop.eval_direction n ran.iterations
            it there h)
