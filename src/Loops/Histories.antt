-- ===== src/Loops/Histories.antt =====
-- What may happen to a loop, in any order.
use autobeat.Prelude.{
  ℕ, String, ◌+◌, ◌-◌, ◌≤◌, ◌<◌, Bool, true, false, ◌&&◌, ◌||◌, Option, none, some, List, [], ◌∷◌,
  if◌then◌else◌, if_both, ◌≡◌, arith, refl,
}
use autobeat.Loops.Loop.{Loop, LoopStatus, Scores, is_paused}
use autobeat.Loops.Loop
use autobeat.Loops.Iteration.{
  LoopIteration, EvalResult, is_tracked, find_iteration, cancel_iteration, cancel_latest,
}
use autobeat.Loops.Iteration
use autobeat.Loops.Handler.{
  LoopStore, Answers, start_next_iteration, handle_task_failed, forget, handle_loop_created,
  cooldown_ends, handle_loop_cancelled, handle_loop_paused, handle_task_cancelled,
}
use autobeat.Loops.Results.{handle_iteration_result, handle_task_terminal}
use autobeat.Loops.Limits.{
  IsIdle, IsOnly, cancel_latest-IsOnly, cancel_latest-IsIdle, cancel_iteration-IsOnly,
  cancel_iteration-IsIdle, IsWithin, Phase, rests, waits, runs, start-IsWithin,
}
use autobeat.Loops.Outcomes.{failed-Within, result-Within}

pub data Step (S : Type 0) : Type 0 where
  task_ends : Answers → ℕ → Option (EvalResult S) → Step S
  task_cancelled : Answers → ℕ → Step S
  cooldown_passes : Answers → Step S
  pauses : Answers → Bool → Step S
  cancels : Answers → Step S

module _ {S : Type 0} (scores : Scores S) (lines : Option String → ℕ) where
  unfoldable pub step : LoopStore S → Step S → LoopStore S
  step s (task_ends a n outcome) = handle_task_terminal scores lines a s n outcome
  step s (task_cancelled a n) = handle_task_cancelled a s n
  step s (cooldown_passes a) = cooldown_ends a s
  step s (pauses a force) = handle_loop_paused a s force
  step s (cancels a) = handle_loop_cancelled a s

  unfoldable pub steps : LoopStore S → List (Step S) → LoopStore S
  steps s [] = s
  steps s (c ∷ cs) = steps (step s c) cs

  module _ (M F : ℕ) (0<M : 0 < M) (0<F : 0 < F) where
    abbrev Within : LoopStore S → Type 0
    Within = IsWithin M F 0<M 0<F

    ends-Within :
        (a : Answers) (s : LoopStore S) (n : ℕ) (outcome : Option (EvalResult S))
        → Within s
        → Within (handle_task_terminal scores lines a s n outcome)
    unfolding handle_task_terminal
    ends-Within a s n outcome w =
        if_both Within (is_tracked s.task_to_loop n)
          (λ _.
            if_both Within (Loop.is_running s.loop.status || is_paused s.loop.status)
              (λ _. found (find_iteration s.iterations n) refl) (λ _. forgets s w))
          (λ _. w)
      where
        forgets : (r : LoopStore S) → Within r → Within (forget r n)
        forgets r v = record { iterations = v.iterations; failures = v.failures; phase = v.phase }

        ended :
            (o : Option (EvalResult S)) (it : LoopIteration S)
            → Iteration.is_running it.status ≡ true
            → find_iteration s.iterations n ≡ some it
            → Within (elim o [
              | none ↦ handle_task_failed a s s.loop it
              | some result ↦ handle_iteration_result scores lines a s s.loop it result
            ])
        ended none it r e = failed-Within scores lines M F 0<M 0<F a s w it r n e
        ended (some result) it r e = result-Within scores lines M F 0<M 0<F a s w it r n e result

        found :
            (o : Option (LoopIteration S))
            → find_iteration s.iterations n ≡ o
            → Within (elim o [
              | none ↦ s
              | some it ↦
                  if Iteration.is_running it.status
                  then forget
                      (elim outcome [
                        | none ↦ handle_task_failed a s s.loop it
                        | some result ↦ handle_iteration_result scores lines a s s.loop it result
                      ])
                      n
                  else forget s n
            ])
        found none e = w
        found (some it) e =
            if_both Within (Iteration.is_running it.status) (λ r. forgets _ (ended outcome it r e))
              (λ _. forgets s w)

    cooldown-Within : (a : Answers) (s : LoopStore S) → Within s → Within (cooldown_ends a s)
    unfolding cooldown_ends
    cooldown-Within a s w = if_both Within s.cooldown_timer (λ on. from on w.phase) (λ _. w)
      where
        from :
            s.cooldown_timer ≡ true
            → Phase M F 0<M 0<F s.loop s.iterations s.cooldown_timer
            → Within (start_next_iteration a (record s { cooldown_timer = false }))
        from on (rests _ off _) = absurd cc
        from on (runs _ off _ _) = absurd cc
        from on (waits idle cur cf) =
            start-IsWithin M F 0<M 0<F a (record s { cooldown_timer = false }) w.iterations
              w.failures idle refl cur cf

    cancelled-Within :
        (a : Answers) (s : LoopStore S) (n : ℕ) → Within s → Within (handle_task_cancelled a s n)
    unfolding handle_task_cancelled
    cancelled-Within a s n w =
        if_both Within (is_tracked s.task_to_loop n)
          (λ _. record {
            iterations = w.iterations;
            failures = w.failures;
            phase =
                if_both (λ its. Phase M F 0<M 0<F s.loop its s.cooldown_timer)
                  (a.listed && a.updated) (λ _. from w.phase) (λ _. w.phase);
          })
          (λ _. w)
      where
        from :
            Phase M F 0<M 0<F s.loop s.iterations s.cooldown_timer
            → Phase M F 0<M 0<F s.loop (cancel_iteration s.iterations n) s.cooldown_timer
        from (rests h timer bound) = rests (cancel_iteration-IsIdle n s.iterations h) timer bound
        from (waits h cur cf) = waits (cancel_iteration-IsIdle n s.iterations h) cur cf
        from (runs h timer cur cf) = runs (cancel_iteration-IsOnly _ n s.iterations h) timer cur cf

    stopped :
        (l l' : Loop S) (its its' : List (LoopIteration S)) (timer : Bool)
        → l'.current_iteration ≡ l.current_iteration
        → l'.consecutive_failures ≡ l.consecutive_failures
        → (IsIdle its → IsIdle its')
        → ((k : ℕ) → IsOnly k its → IsOnly k its')
        → Phase M F 0<M 0<F l its timer
        → Phase M F 0<M 0<F l' its' false
    stopped l l' its its' timer c f idle only (rests h _ bound) =
        rests (idle h) refl (omega (arith, c, bound))
    stopped l l' its its' timer c f idle only (waits h cur cf) =
        rests (idle h) refl (omega (arith, c, cur, cf))
    stopped l l' its its' timer c f idle only (runs h _ cur cf) =
        runs (rw c (only _ h)) refl (omega (arith, c, f, cur)) (omega (arith, f, cf))

    -- A pause or a cancellation: another status, the timer off, and the last iteration as it is or cancelled.
    halted :
        (s : LoopStore S) (written cancelling : Bool) (status : LoopStatus) (tracked : List ℕ)
        → Within s
        → Within (record s {
          loop = if written then record s.loop { status = status } else s.loop;
          iterations = if cancelling then cancel_latest s.iterations else s.iterations;
          task_to_loop = tracked;
          cooldown_timer = false;
        })
    halted s written cancelling status tracked w = loop_row written
      where
        idle :
            IsIdle s.iterations
            → IsIdle (if cancelling then cancel_latest s.iterations else s.iterations)
        idle h = if_both IsIdle cancelling (λ _. cancel_latest-IsIdle s.iterations h) (λ _. h)

        only :
            (k : ℕ)
            → IsOnly k s.iterations
            → IsOnly k (if cancelling then cancel_latest s.iterations else s.iterations)
        only k h =
            if_both (IsOnly k) cancelling (λ _. cancel_latest-IsOnly k s.iterations h) (λ _. h)

        loop_row :
            (b : Bool)
            → Within (record s {
              loop = if b then record s.loop { status = status } else s.loop;
              iterations = if cancelling then cancel_latest s.iterations else s.iterations;
              task_to_loop = tracked;
              cooldown_timer = false;
            })
        loop_row true = record {
          iterations = w.iterations;
          failures = w.failures;
          phase =
              stopped s.loop (record s.loop { status = status }) s.iterations _ s.cooldown_timer
                refl refl idle only w.phase;
        }
        loop_row false = record {
          iterations = w.iterations;
          failures = w.failures;
          phase = stopped s.loop s.loop s.iterations _ s.cooldown_timer refl refl idle only w.phase;
        }

    step-Within : (s : LoopStore S) (c : Step S) → Within s → Within (step s c)
    unfolding step handle_loop_paused handle_loop_cancelled
    step-Within s (task_ends a n outcome) w = ends-Within a s n outcome w
    step-Within s (task_cancelled a n) w = cancelled-Within a s n w
    step-Within s (cooldown_passes a) w = cooldown-Within a s w
    step-Within s (pauses a force) w =
        if_both Within (Loop.is_running s.loop.status)
          (λ _. halted s a.updated (force && a.listed) LoopStatus.paused s.task_to_loop w) (λ _. w)
    step-Within s (cancels a) w = halted s a.updated a.listed LoopStatus.cancelled [] w

    steps-Within : (s : LoopStore S) (cs : List (Step S)) → Within s → Within (steps s cs)
    unfolding steps
    steps-Within s [] w = w
    steps-Within s (c ∷ cs) w = steps-Within (step s c) cs (step-Within s c w)

    Within-bound : (s : LoopStore S) → Within s → s.loop.current_iteration ≤ M + (F - 1)
    Within-bound s w = from w.phase
      where
        from :
            Phase M F 0<M 0<F s.loop s.iterations s.cooldown_timer
            → s.loop.current_iteration ≤ M + (F - 1)
        from (rests _ _ bound) = bound
        from (waits _ cur cf) = omega (arith, cur, cf)
        from (runs _ _ cur cf) = omega (arith, cur, cf)

  created-Within :
      (a : Answers) (loop : Loop S) (0<M : 0 < loop.max_iterations)
      (0<F : 0 < loop.max_consecutive_failures)
      → loop.current_iteration ≡ 0
      → loop.consecutive_failures ≡ 0
      → IsWithin loop.max_iterations loop.max_consecutive_failures 0<M 0<F
          (handle_loop_created a loop)
  unfolding handle_loop_created
  created-Within a loop 0<M 0<F c f =
      start-IsWithin loop.max_iterations loop.max_consecutive_failures 0<M 0<F a _ refl refl tt refl
        (omega (arith, c, f, 0<M)) (omega (arith, f, 0<F))

  -- A new loop with limits on its iterations and on consecutive failures, whatever its tasks, evaluations,
  -- pauses, cooldowns and database do, starts at most as many iterations as its first limit allows and one
  -- less than the second more; it is not resumed or recovered meanwhile.
  pub current_iteration_le :
      (a : Answers) (loop : Loop S) (cs : List (Step S))
      → 0 < loop.max_iterations
      → 0 < loop.max_consecutive_failures
      → loop.current_iteration ≡ 0
      → loop.consecutive_failures ≡ 0
      → (steps (handle_loop_created a loop) cs).loop.current_iteration
        ≤ loop.max_iterations + (loop.max_consecutive_failures - 1)
  current_iteration_le a loop cs 0<M 0<F c f =
      let M = loop.max_iterations in
      let F = loop.max_consecutive_failures in
      let w = created-Within a loop 0<M 0<F c f in
      Within-bound M F 0<M 0<F _ (steps-Within M F 0<M 0<F (handle_loop_created a loop) cs w)
