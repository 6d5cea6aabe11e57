-- ===== src/Loops/Limits.antt =====
-- How often a loop starts its task.
use autobeat.Prelude.{
  ℕ, suc, ◌+◌, ◌-◌, ◌≤◌, ◌<◌, Bool, true, false, ◌&&◌, some, List, [], ◌∷◌, ◌==◌, ◌≡◌, arith, refl,
  subst, sym, Bool-cases, Option-cases, inl, inr,
}
use autobeat.Loops.Loop.{Loop, LoopStatus, LoopStrategy, Scores, is_paused}
use autobeat.Loops.Loop
use autobeat.Loops.Iteration.{
  LoopIteration, IterationStatus, is_running, find_iteration, update_iteration, cancel_iteration,
  cancel_latest,
}
use autobeat.Loops.Handler.{LoopStore, Answers, start_single_task_iteration, start_next_iteration}

module _ {S : Type 0} where
  abbrev pub IsIdle : List (LoopIteration S) → Type 0
  IsIdle [] = Unit
  IsIdle (it ∷ its) = (is_running it.status ≡ false) × IsIdle its

  -- No iteration but the one of that number runs.
  abbrev pub IsOnly : ℕ → List (LoopIteration S) → Type 0
  IsOnly k [] = Unit
  IsOnly k (it ∷ its) = (is_running it.status ≡ true → it.iteration_number ≡ k) × IsOnly k its

  pub IsIdle-IsOnly : (k : ℕ) (its : List (LoopIteration S)) → IsIdle its → IsOnly k its
  IsIdle-IsOnly k [] h = tt
  IsIdle-IsOnly k (it ∷ its) (h, hs) = (λ e. absurd cc, IsIdle-IsOnly k its hs)

  pub update-IsIdle :
      (its : List (LoopIteration S)) (new : LoopIteration S)
      → is_running new.status ≡ false
      → IsOnly new.iteration_number its
      → IsIdle (update_iteration its new)
  unfolding update_iteration
  update-IsIdle [] new e h = tt
  update-IsIdle (it ∷ its) new e (h, hs) = (ground (arith, h), update-IsIdle its new e hs)

  pub find-IsOnly :
      (k n : ℕ) (its : List (LoopIteration S)) (it : LoopIteration S)
      → find_iteration its n ≡ some it
      → is_running it.status ≡ true
      → IsOnly k its
      → it.iteration_number ≡ k
  unfolding find_iteration
  find-IsOnly k n [] it e r h = absurd cc
  find-IsOnly k n (i ∷ its) it e r (h, hs) = elim (Bool-cases (i.iteration_number == n)) [
    | inl here ↦
        let same : i ≡ it = ground arith in
        subst (λ (x : LoopIteration S). x.iteration_number ≡ k) same
          (h (subst (λ (x : LoopIteration S). is_running x.status ≡ true) (sym same) r))
    | inr later ↦ find-IsOnly k n its it (ground arith) r hs
  ]

  pub find-number :
      (n : ℕ) (its : List (LoopIteration S)) (it : LoopIteration S)
      → find_iteration its n ≡ some it
      → it.iteration_number ≡ n
  unfolding find_iteration
  find-number n [] it e = absurd cc
  find-number n (i ∷ its) it e = elim (Bool-cases (i.iteration_number == n)) [
    | inl here ↦
        let same : i ≡ it = ground arith in
        subst (λ (x : LoopIteration S). x.iteration_number ≡ n) same (ground arith)
    | inr later ↦ find-number n its it (ground arith)
  ]

  update-IsOnly :
      (k : ℕ) (its : List (LoopIteration S)) (new : LoopIteration S)
      → is_running new.status ≡ false
      → IsOnly k its
      → IsOnly k (update_iteration its new)
  unfolding update_iteration
  update-IsOnly k [] new e h = tt
  update-IsOnly k (it ∷ its) new e (h, hs) = (λ r. ground (arith, h), update-IsOnly k its new e hs)

  pub cancel_latest-IsOnly :
      (k : ℕ) (its : List (LoopIteration S)) → IsOnly k its → IsOnly k (cancel_latest its)
  unfolding cancel_latest
  cancel_latest-IsOnly k [] h = h
  cancel_latest-IsOnly k (it ∷ its) h = elim (Bool-cases (is_running it.status)) [
    | inl runs ↦
        rw (runs, cancel_latest)
          (update-IsOnly k (it ∷ its) (record it { status = IterationStatus.cancelled }) refl h)
    | inr done ↦ rw (done, cancel_latest) h
  ]

  update_old-IsIdle :
      (its : List (LoopIteration S)) (new : LoopIteration S)
      → is_running new.status ≡ false
      → IsIdle its
      → IsIdle (update_iteration its new)
  unfolding update_iteration
  update_old-IsIdle [] new e h = tt
  update_old-IsIdle (it ∷ its) new e (h, hs) = (ground arith, update_old-IsIdle its new e hs)

  pub cancel_iteration-IsOnly :
      (k n : ℕ) (its : List (LoopIteration S)) → IsOnly k its → IsOnly k (cancel_iteration its n)
  unfolding cancel_iteration
  cancel_iteration-IsOnly k n its h = elim (Option-cases (find_iteration its n)) [
    | inl e ↦ rw (e, cancel_iteration) h
    | inr (it, e) ↦
        rw (e, cancel_iteration)
          (update-IsOnly k its (record it { status = IterationStatus.cancelled }) refl h)
  ]

  pub cancel_iteration-IsIdle :
      (n : ℕ) (its : List (LoopIteration S)) → IsIdle its → IsIdle (cancel_iteration its n)
  unfolding cancel_iteration
  cancel_iteration-IsIdle n its h = elim (Option-cases (find_iteration its n)) [
    | inl e ↦ rw (e, cancel_iteration) h
    | inr (it, e) ↦
        rw (e, cancel_iteration)
          (update_old-IsIdle its (record it { status = IterationStatus.cancelled }) refl h)
  ]

  pub cancel_latest-IsIdle :
      (its : List (LoopIteration S)) → IsIdle its → IsIdle (cancel_latest its)
  unfolding cancel_latest
  cancel_latest-IsIdle [] h = h
  cancel_latest-IsIdle (it ∷ its) (e, h) = rw (e, cancel_latest) (e, h)

module _ {S : Type 0} (M F : ℕ) (0<M : 0 < M) (0<F : 0 < F) where
  -- The limits of the loop, and how far it has come: it is at rest for good, waits for its cooldown, or
  -- runs its last iteration.
  pub data Phase (loop : Loop S) (its : List (LoopIteration S)) (timer : Bool) : Type 0 where
    rests : IsIdle its → timer ≡ false → loop.current_iteration ≤ M + (F - 1) → Phase loop its timer
    waits :
        IsIdle its
        → loop.current_iteration < M + loop.consecutive_failures
        → loop.consecutive_failures < F
        → Phase loop its timer
    runs :
        IsOnly loop.current_iteration its
        → timer ≡ false
        → loop.current_iteration ≤ M + loop.consecutive_failures
        → loop.consecutive_failures < F
        → Phase loop its timer

  pub record IsWithin (s : LoopStore S) : Type 0 where
    pub iterations : s.loop.max_iterations ≡ M
    pub failures : s.loop.max_consecutive_failures ≡ F
    pub phase : Phase s.loop s.iterations s.cooldown_timer

  pub start-IsWithin :
      (a : Answers) (s : LoopStore S)
      → s.loop.max_iterations ≡ M
      → s.loop.max_consecutive_failures ≡ F
      → IsIdle s.iterations
      → s.cooldown_timer ≡ false
      → s.loop.current_iteration < M + s.loop.consecutive_failures
      → s.loop.consecutive_failures < F
      → IsWithin (start_next_iteration a s)
  unfolding start_next_iteration start_single_task_iteration
  start-IsWithin a s m f idle timer cur cf =
      elim (Bool-cases (a.counted && Loop.is_running s.loop.status)) [
        | inr stays ↦
            rw (stays, start_next_iteration)
              (record {
                iterations = m;
                failures = f;
                phase = rests idle timer (omega (arith, cur, cf));
              })
        | inl counts ↦ elim (Bool-cases a.saved) [
          | inr unsaved ↦
              rw (counts, unsaved, start_next_iteration, start_single_task_iteration)
                (record {
                  iterations = m;
                  failures = f;
                  phase = rests idle timer (omega (arith, cur, cf));
                })
          | inl saved ↦
              rw (counts, saved, start_next_iteration, start_single_task_iteration)
                (record {
                  iterations = m;
                  failures = f;
                  phase =
                      runs
                        (λ _. refl, IsIdle-IsOnly (suc s.loop.current_iteration) s.iterations idle)
                        timer (omega (arith, cur)) cf;
                })
        ]
      ]
