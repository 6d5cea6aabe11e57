-- ===== src/Loops/Best.antt =====
-- The best score of a loop.
use autobeat.Prelude.{
  ℕ, String, true, false, ◌&&◌, Option, none, some, List, [], ◌∷◌, if_both, ◌==◌, ltb, ◌≡◌, arith,
  refl, subst, Bool-cases, Option-cases, inl, inr,
}
use autobeat.Loops.Loop.{Loop, LoopStatus, LoopStrategy, OptimizeDirection, Scores, is_paused}
use autobeat.Loops.Loop
use autobeat.Loops.Iteration.{
  LoopIteration, IterationStatus, EvalResult, Decision, GitOutcome, is_keep, is_tracked,
  find_iteration, update_iteration, cancel_iteration, cancel_latest,
}
use autobeat.Loops.Iteration
use autobeat.Loops.Handler.{
  loop_iteration_completed, LoopStore, Answers, finish_loop, complete_loop,
  start_single_task_iteration, start_next_iteration, schedule_next_iteration, ended_with,
}
use autobeat.Loops.Results.{termination, go_on, is_score_better, keeps}

module _ {S : Type 0} (scores : Scores S) (lines : Option String → ℕ) where
  -- The score, if there is one, is not better than the best, which then is there.
  abbrev pub IsBeaten : Option S → Option OptimizeDirection → Option S → Type 0
  IsBeaten best direction none = Unit
  IsBeaten best direction (some x) =
      (b : S) × (best ≡ some b) × (is_score_better scores lines x b direction ≡ false)

  abbrev pub AreBeaten : Option S → Option OptimizeDirection → List (LoopIteration S) → Type 0
  AreBeaten best direction [] = Unit
  AreBeaten best direction (it ∷ its) =
      IsBeaten best direction it.score × AreBeaten best direction its

  abbrev pub IsBest : LoopStore S → Type 0
  IsBest s = AreBeaten s.loop.best_score s.loop.eval_direction s.iterations

  module _ (best : Option S) (direction : Option OptimizeDirection) where
    pub update-AreBeaten :
        (its : List (LoopIteration S)) (new : LoopIteration S)
        → IsBeaten best direction new.score
        → AreBeaten best direction its
        → AreBeaten best direction (update_iteration its new)
    unfolding update_iteration
    update-AreBeaten [] new b h = tt
    update-AreBeaten (it ∷ its) new b (h, hs) = (
      if_both (λ (x : LoopIteration S). IsBeaten best direction x.score)
          (it.iteration_number == new.iteration_number) (λ _. b) (λ _. h),
      update-AreBeaten its new b hs,
    )

    pub cancel_latest-AreBeaten :
        (its : List (LoopIteration S))
        → AreBeaten best direction its
        → AreBeaten best direction (cancel_latest its)
    unfolding cancel_latest
    cancel_latest-AreBeaten [] h = h
    cancel_latest-AreBeaten (it ∷ its) h =
        if_both (AreBeaten best direction) (Iteration.is_running it.status)
          (λ _.
            update-AreBeaten (it ∷ its) (record it { status = IterationStatus.cancelled }) h.0 h)
          (λ _. h)

    pub find-AreBeaten :
        (n : ℕ) (its : List (LoopIteration S)) (it : LoopIteration S)
        → find_iteration its n ≡ some it
        → AreBeaten best direction its
        → IsBeaten best direction it.score
    unfolding find_iteration
    find-AreBeaten n [] it e h = absurd cc
    find-AreBeaten n (i ∷ its) it e (h, hs) = elim (Bool-cases (i.iteration_number == n)) [
      | inl here ↦
          let same : i ≡ it = ground arith in
          subst (λ (x : LoopIteration S). IsBeaten best direction x.score) same h
      | inr later ↦ find-AreBeaten n its it (ground arith) hs
    ]

    pub cancel_iteration-AreBeaten :
        (n : ℕ) (its : List (LoopIteration S))
        → AreBeaten best direction its
        → AreBeaten best direction (cancel_iteration its n)
    unfolding cancel_iteration
    cancel_iteration-AreBeaten n its h = elim (Option-cases (find_iteration its n)) [
      | inl e ↦ rw (e, cancel_iteration) h
      | inr (it, e) ↦
          rw (e, cancel_iteration)
            (update-AreBeaten its (record it { status = IterationStatus.cancelled })
              (find-AreBeaten n its it e h) h)
    ]

  -- A best score that gives way to a better one still beats the others.
  not_better_trans :
      (x b new : S) (direction : Option OptimizeDirection)
      → is_score_better scores lines x b direction ≡ false
      → is_score_better scores lines new b direction ≡ true
      → is_score_better scores lines x new direction ≡ false
  unfolding is_score_better
  not_better_trans x b new none h k = ground (arith, scores.is_less_trans b new x)
  not_better_trans x b new (some OptimizeDirection.maximize) h k =
      ground (arith, scores.is_less_trans b new x)
  not_better_trans x b new (some OptimizeDirection.minimize) h k =
      ground (arith, scores.is_less_trans x new b)

  pub not_better_self :
      (x : S) (direction : Option OptimizeDirection)
      → is_score_better scores lines x x direction ≡ false
  unfolding is_score_better
  not_better_self x none = scores.is_less_irrefl x
  not_better_self x (some OptimizeDirection.maximize) = scores.is_less_irrefl x
  not_better_self x (some OptimizeDirection.minimize) = scores.is_less_irrefl x

  -- A score that the handler keeps beats all the others.
  pub kept-AreBeaten :
      (score : S) (loop : Loop S) (its : List (LoopIteration S))
      → keeps scores lines score loop ≡ true
      → AreBeaten loop.best_score loop.eval_direction its
      → AreBeaten (some score) loop.eval_direction its
  unfolding keeps
  kept-AreBeaten score loop [] k h = tt
  kept-AreBeaten score loop (it ∷ its) k (h, hs) =
      (beaten it.score h, kept-AreBeaten score loop its k hs)
    where
      beaten :
          (x : Option S)
          → IsBeaten loop.best_score loop.eval_direction x
          → IsBeaten (some score) loop.eval_direction x
      beaten none h = tt
      beaten (some x) (b, e, worse) =
          (score, refl, not_better_trans x b score loop.eval_direction worse (ground arith))

  pub not_kept :
      (score : S) (loop : Loop S)
      → keeps scores lines score loop ≡ false
      → IsBeaten loop.best_score loop.eval_direction (some score)
  unfolding keeps
  not_kept score loop k = elim (Option-cases loop.best_score) [
    | inl e ↦ absurd (ground arith)
    | inr (b, e) ↦ (b, e, ground arith)
  ]

  pub start-IsBest : (a : Answers) (s : LoopStore S) → IsBest s → IsBest (start_next_iteration a s)
  unfolding start_next_iteration start_single_task_iteration
  start-IsBest a s h =
      if_both IsBest (a.counted && Loop.is_running s.loop.status)
        (λ _. if_both IsBest a.saved (λ _. (tt, h)) (λ _. h)) (λ _. h)

  pub schedule-IsBest :
      (a : Answers) (s : LoopStore S) (loop : Loop S)
      → IsBest s
      → IsBest (schedule_next_iteration a s loop)
  unfolding schedule_next_iteration
  schedule-IsBest a s loop h =
      if_both IsBest (is_paused loop.status) (λ _. h)
        (λ _. if_both IsBest (ltb 0 loop.cooldown_ms) (λ _. h) (λ _. start-IsBest a s h))

  pub complete-IsBest :
      (a : Answers) (s : LoopStore S) (loop : Loop S) (status : LoopStatus)
      → IsBest s
      → AreBeaten loop.best_score loop.eval_direction s.iterations
      → IsBest (complete_loop a s loop status)
  unfolding complete_loop
  complete-IsBest a s loop status h k =
      if_both (λ r. IsBest (finish_loop r)) a.updated (λ _. k) (λ _. h)

  ended_best :
      (loop : Loop S) (status : LoopStatus) (n : ℕ) (its : List (LoopIteration S))
      → AreBeaten loop.best_score loop.eval_direction its
      → AreBeaten
          (ended_with loop status n).best_score
          (ended_with loop status n).eval_direction
          its
  unfolding ended_with
  ended_best loop LoopStatus.running n its h = h
  ended_best loop LoopStatus.paused n its h = h
  ended_best loop LoopStatus.completed n its h = h
  ended_best loop LoopStatus.failed n its h = h
  ended_best loop LoopStatus.cancelled n its h = h

  pub go_on-IsBest :
      (a : Answers) (s : LoopStore S) (it : LoopIteration S) (status : IterationStatus) (n : ℕ)
      → IsBest s
      → IsBest (go_on scores lines a s s.loop it status n)
  unfolding go_on
  go_on-IsBest a s it status n h =
      let s' : LoopStore S = record s {
        events = loop_iteration_completed it.iteration_number status ∷ s.events;
      } in
      elim (Option-cases (termination scores lines a s' s.loop n)) [
        | inl on ↦ rw (on, go_on) (schedule-IsBest a s' s.loop h)
        | inr (final, over) ↦
            rw (over, go_on)
              (complete-IsBest a s' (ended_with s.loop final n) final h
                (ended_best s.loop final n s.iterations h))
      ]
