-- ===== src/Loops/Bounded.antt =====
-- Every operation on a loop keeps it within its limits.
use autobeat.Prelude.{
  ℕ, String, ◌+◌, ◌-◌, ◌≤◌, ◌<◌, true, false, Option, none, some, List, [], ◌∷◌, ltb, ◌==◌, ◌≡◌,
  arith, refl, sym, subst, Bool-cases, Option-cases, inl, inr,
}
use autobeat.Loops.Loop.{Loop, LoopStatus, Scores, is_paused}
use autobeat.Loops.Iteration.{LoopIteration, IterationStatus, is_running, find_iteration}
use autobeat.Loops.Handler.{
  loop_iteration_completed, LoopStore, Answers, finish_loop, complete_loop, schedule_next_iteration,
  ended_with,
}
use autobeat.Loops.Results.{termination, go_on}
use autobeat.Loops.Limits.{IsIdle, IsWithin, Phase, rests, waits, runs, start-IsWithin}

pub none_runs :
    {S : Type 0} (its : List (LoopIteration S))
    → IsIdle its
    → (n : ℕ) (it : LoopIteration S) → find_iteration its n ≡ some it
    → is_running it.status ≡ true
    → ⊥
unfolding find_iteration
none_runs [] h n it e r = cc
none_runs {S} (i ∷ its) (h, hs) n it e r = elim (Bool-cases (i.iteration_number == n)) [
  | inl here ↦
      let same : i ≡ it = ground arith in
      let r' = subst (λ (x : LoopIteration S). is_running x.status ≡ true) (sym same) r in cc
  | inr later ↦ none_runs its hs n it (ground arith) r
]

module _ {S : Type 0} (scores : Scores S) (lines : Option String → ℕ) (M F : ℕ) (0<M : 0 < M)
    (0<F : 0 < F) where
  abbrev Within : LoopStore S → Type 0
  Within = IsWithin M F 0<M 0<F

  -- The limits, with no iteration running and no cooldown.
  pub record IsDone (s : LoopStore S) : Type 0 where
    pub iterations : s.loop.max_iterations ≡ M
    pub failures : s.loop.max_consecutive_failures ≡ F
    pub idle : IsIdle s.iterations
    pub timer : s.cooldown_timer ≡ false
    pub bound : s.loop.current_iteration ≤ M + (F - 1)

  pub done-Within : (s : LoopStore S) → IsDone s → Within s
  done-Within s d = record {
    iterations = d.iterations;
    failures = d.failures;
    phase = rests d.idle d.timer d.bound;
  }

  pub IsDone-finish : (s : LoopStore S) → IsDone s → IsDone (finish_loop s)
  IsDone-finish s d = record {
    iterations = d.iterations;
    failures = d.failures;
    idle = d.idle;
    timer = refl;
    bound = d.bound;
  }

  pub schedule-Within :
      (a : Answers) (s : LoopStore S)
      → IsDone s
      → s.loop.current_iteration < M + s.loop.consecutive_failures
      → s.loop.consecutive_failures < F
      → Within (schedule_next_iteration a s s.loop)
  unfolding schedule_next_iteration
  schedule-Within a s d cur cf = elim (Bool-cases (is_paused s.loop.status)) [
    | inl paused ↦ rw (paused, schedule_next_iteration) (done-Within s d)
    | inr active ↦ elim (Bool-cases (ltb 0 s.loop.cooldown_ms)) [
      | inl cools ↦
          rw (active, cools, schedule_next_iteration)
            (record {
              iterations = d.iterations;
              failures = d.failures;
              phase = waits d.idle cur cf;
            })
      | inr at_once ↦
          rw (active, at_once, schedule_next_iteration)
            (start-IsWithin M F 0<M 0<F a s d.iterations d.failures d.idle d.timer cur cf)
    ]
  ]

  -- The end of a loop, whether or not an iteration is left running.
  pub complete-Within :
      (a : Answers) (s : LoopStore S) (status : LoopStatus)
      → Within s
      → s.cooldown_timer ≡ false
      → Within (complete_loop a s s.loop status)
  unfolding complete_loop
  complete-Within a s status w timer = elim (Bool-cases a.updated) [
    | inl written ↦
        rw (written, complete_loop)
          (record { iterations = w.iterations; failures = w.failures; phase = ended w.phase })
    | inr lost ↦
        rw (lost, complete_loop)
          (record { iterations = w.iterations; failures = w.failures; phase = stayed w.phase })
  ]
    where
      ended :
          Phase M F 0<M 0<F s.loop s.iterations s.cooldown_timer
          → Phase M F 0<M 0<F (record s.loop { status = status }) s.iterations false
      ended (rests idle _ bound) = rests idle refl bound
      ended (waits idle cur cf) = rests idle refl (omega (arith, cur, cf))
      ended (runs only _ cur cf) = runs only refl cur cf

      stayed :
          Phase M F 0<M 0<F s.loop s.iterations s.cooldown_timer
          → Phase M F 0<M 0<F s.loop s.iterations false
      stayed (rests idle _ bound) = rests idle refl bound
      stayed (waits idle cur cf) = rests idle refl (omega (arith, cur, cf))
      stayed (runs only _ cur cf) = runs only refl cur cf

  complete_failed-Within :
      (a : Answers) (s : LoopStore S) (final : LoopStatus) (n : ℕ)
      → IsDone s
      → Within (complete_loop a s (ended_with s.loop final n) final)
  unfolding complete_loop ended_with
  complete_failed-Within a s final n d = elim (Bool-cases a.updated) [
    | inr lost ↦ rw (lost, complete_loop) (done-Within (finish_loop s) (IsDone-finish s d))
    | inl written ↦ rw (written, complete_loop) (ends final)
  ]
    where
      ends :
          (status : LoopStatus)
          → Within (
              finish_loop
                (record s { loop = record (ended_with s.loop status n) { status = final } }))
      ends LoopStatus.running = record {
        iterations = d.iterations;
        failures = d.failures;
        phase = rests d.idle refl d.bound;
      }
      ends LoopStatus.paused = record {
        iterations = d.iterations;
        failures = d.failures;
        phase = rests d.idle refl d.bound;
      }
      ends LoopStatus.completed = record {
        iterations = d.iterations;
        failures = d.failures;
        phase = rests d.idle refl d.bound;
      }
      ends LoopStatus.failed = record {
        iterations = d.iterations;
        failures = d.failures;
        phase = rests d.idle refl d.bound;
      }
      ends LoopStatus.cancelled = record {
        iterations = d.iterations;
        failures = d.failures;
        phase = rests d.idle refl d.bound;
      }

  termination_none :
      (a : Answers) (s : LoopStore S) (loop : Loop S) (n : ℕ)
      → loop.max_iterations ≡ M
      → loop.max_consecutive_failures ≡ F
      → termination scores lines a s loop n ≡ none
      → (loop.current_iteration < M) × (n < F)
  unfolding termination
  termination_none a s loop n m f e = ground (arith, 0<M, 0<F)

  pub go_on-Within :
      (a : Answers) (s : LoopStore S) (it : LoopIteration S) (status : IterationStatus)
      → IsDone s
      → Within (go_on scores lines a s s.loop it status s.loop.consecutive_failures)
  unfolding go_on
  go_on-Within a s it status d =
      let n = s.loop.consecutive_failures in
      let s' : LoopStore S = record s {
        events = loop_iteration_completed it.iteration_number status ∷ s.events;
      } in
      let d' : IsDone s' = record {
        iterations = d.iterations;
        failures = d.failures;
        idle = d.idle;
        timer = d.timer;
        bound = d.bound;
      } in
      elim (Option-cases (termination scores lines a s' s.loop n)) [
        | inl on ↦
            let (cur, cf) = termination_none a s' s.loop n d.iterations d.failures on in
            rw (on, go_on) (schedule-Within a s' d' (omega (arith, cur)) cf)
        | inr (final, over) ↦ rw (over, go_on) (complete_failed-Within a s' final n d')
      ]
