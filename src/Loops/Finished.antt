-- ===== src/Loops/Finished.antt =====
-- A loop that has ended.
use autobeat.Prelude.{
  ℕ, String, Bool, true, false, ◌&&◌, Option, List, [], ◌∷◌, if_both, if◌then◌else◌, ◌≡◌, ◌⊎◌, inl,
  inr, arith, refl, ap, ◌∙◌,
}
use autobeat.Loops.Loop.{Loop, LoopStatus, Scores, is_paused}
use autobeat.Loops.Loop
use autobeat.Loops.Iteration.{EvalResult, is_tracked}
use autobeat.Loops.Handler.{
  LoopStore, Answers, start_next_iteration, cooldown_ends, handle_loop_paused,
  handle_loop_cancelled, handle_task_cancelled,
}
use autobeat.Loops.Results.{handle_task_terminal}
use autobeat.Loops.Improved.{is_active}
use autobeat.Loops.Histories.{
  Step, task_ends, task_cancelled, cooldown_passes, pauses, cancels, step, steps,
}

module _ {S : Type 0} (scores : Scores S) (lines : Option String → ℕ) (s₀ : LoopStore S)
    (over : is_active s₀.loop.status ≡ false) where
  -- The row is that of the ended loop, or the same with the status of a cancelled one, and there are
  -- the same events.
  abbrev HasEnded : LoopStore S → Type 0
  HasEnded s =
      ((s.loop ≡ s₀.loop) ⊎ (s.loop ≡ record s₀.loop { status = LoopStatus.cancelled }))
      × (s.events ≡ s₀.events)

  HasEnded-idle : (s : LoopStore S) → HasEnded s → is_active s.loop.status ≡ false
  HasEnded-idle s (inl e, _) = ap (λ (l : Loop S). is_active l.status) e ∙ over
  HasEnded-idle s (inr e, _) = ap (λ (l : Loop S). is_active l.status) e

  module _ (s : LoopStore S) (h : HasEnded s) where
    idle : is_active s.loop.status ≡ false
    idle = HasEnded-idle s h

    cooldown-HasEnded : (a : Answers) → HasEnded (cooldown_ends a s)
    unfolding cooldown_ends start_next_iteration
    cooldown-HasEnded a =
        if_both HasEnded s.cooldown_timer
          (λ _.
            if_both HasEnded (a.counted && Loop.is_running s.loop.status)
              (λ counts. absurd (ground (arith, idle))) (λ _. h))
          (λ _. h)

    ends-HasEnded :
        (a : Answers) (n : ℕ) (outcome : Option (EvalResult S))
        → HasEnded (handle_task_terminal scores lines a s n outcome)
    unfolding handle_task_terminal
    ends-HasEnded a n outcome =
        if_both HasEnded (is_tracked s.task_to_loop n)
          (λ _.
            if_both HasEnded (is_active s.loop.status) (λ active. absurd (ground (arith, idle)))
              (λ _. h))
          (λ _. h)

    cancelled_row :
        (b : Bool) (s' : LoopStore S)
        → s'.loop ≡ (if b then record s.loop { status = LoopStatus.cancelled } else s.loop)
        → s'.events ≡ s.events
        → HasEnded s'
    cancelled_row false s' row same = elim (h.0) [
      | inl e ↦ (inl (row ∙ e), same ∙ h.1)
      | inr e ↦ (inr (row ∙ e), same ∙ h.1)
    ]
    cancelled_row true s' row same =
        let cancel : Loop S → Loop S = λ l. record l { status = LoopStatus.cancelled } in
        elim (h.0) [
          | inl e ↦ (inr (row ∙ ap cancel e), same ∙ h.1)
          | inr e ↦ (inr (row ∙ ap cancel e), same ∙ h.1)
        ]

    step-HasEnded : (c : Step S) → HasEnded (step scores lines s c)
    unfolding step handle_task_cancelled handle_loop_paused handle_loop_cancelled
    step-HasEnded (task_ends a n outcome) = ends-HasEnded a n outcome
    step-HasEnded (cooldown_passes a) = cooldown-HasEnded a
    step-HasEnded (task_cancelled a n) =
        if_both HasEnded (is_tracked s.task_to_loop n) (λ _. h) (λ _. h)
    step-HasEnded (pauses a force) =
        if_both HasEnded (Loop.is_running s.loop.status) (λ runs. absurd (ground (arith, idle)))
          (λ _. h)
    step-HasEnded (cancels a) = cancelled_row a.updated (handle_loop_cancelled a s) refl refl

  steps-HasEnded :
      (s : LoopStore S) (cs : List (Step S)) → HasEnded s → HasEnded (steps scores lines s cs)
  unfolding steps
  steps-HasEnded s [] h = h
  steps-HasEnded s (c ∷ cs) h = steps-HasEnded (step scores lines s c) cs (step-HasEnded s h c)

  -- Once a loop is neither running nor paused, and is not resumed or recovered, its row stays as it is
  -- or becomes the same with the status of a cancelled loop, and no event is emitted, so no task is
  -- delegated, whatever its tasks, cooldowns, pauses and cancellations and the database do.
  pub finished_stays :
      (cs : List (Step S))
      → (((steps scores lines s₀ cs).loop ≡ s₀.loop)
          ⊎ ((steps scores lines s₀ cs).loop ≡ record s₀.loop { status = LoopStatus.cancelled }))
        × ((steps scores lines s₀ cs).events ≡ s₀.events)
  finished_stays cs = steps-HasEnded s₀ cs (inl refl, refl)
