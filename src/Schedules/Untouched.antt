-- ===== src/Schedules/Untouched.antt =====
-- What is done for one schedule leaves the others as they are.
use autobeat.Prelude.{ℕ, String, Option, List, [], ◌∷◌, if_both, ◌≡◌, ◌≢◌, refl, sym, ◌∙◌, arith}
use autobeat.Prelude.Dict
use autobeat.Schedules.Schedule.{Schedule, update_schedule}
use autobeat.Schedules.Cron.{CronParser}
use autobeat.Schedules.Store.{ScheduleStore, Answers, find_row, write_row}
use autobeat.Schedules.Triggers.{emit_schedule_executed}
use autobeat.Schedules.Executor.{execute_schedule, execute_all}
use autobeat.Schedules.Rows.{find-id}
use autobeat.Schedules.Stable.{Stable}
use autobeat.Schedules.Stable.Ticks.{AllTouched, execute-stable, execute_all-stable}

find-write_other :
    (rows : List Schedule) (new : Schedule) (k : String)
    → new.id ≢ k
    → find_row (write_row rows new) k ≡ find_row rows k
unfolding find_row write_row
find-write_other [] new k n = refl
find-write_other (r ∷ rows) new k n = ground (arith, find-write_other rows new k n)

-- None of the schedules has that id.
abbrev pub IsFree : String → List Schedule → Type 0
IsFree k [] = Unit
IsFree k (q ∷ qs) = (q.id ≢ k) × IsFree k qs

module _ (k : String) (row : Option Schedule) (running : Option String) where
  -- The row of that id, and the run that the executor remembers of it.
  pub record IsLeft (s : ScheduleStore) : Type 0 where
    pub kept : find_row s.rows k ≡ row
    pub remembered : Dict.get s.running k ≡ running

  IsLeft-Stable : (c : CronParser) → Stable c IsLeft (λ id. id ≢ k)
  unfolding emit_schedule_executed
  IsLeft-Stable c = record {
    emits = λ s e n h. record { kept = h.kept; remembered = h.remembered };
    others = λ s executions tasks b h. record { kept = h.kept; remembered = h.remembered };
    writes = λ s id r u other e w h. record {
      kept =
          find-write_other s.rows (update_schedule r u) k
            (λ f. other (sym (find-id s.rows id r e) ∙ f))
          ∙ h.kept;
      remembered = h.remembered;
    };
    executes = λ s id t other idle h.
        if_both IsLeft s.is_subscribed
          (λ _. record {
            kept = h.kept;
            remembered = ground (arith, Dict.get-set s.running id t k, h.remembered);
          })
          (λ _. record { kept = h.kept; remembered = h.remembered });
  }

  pub execute-IsLeft :
      (c : CronParser) (grace now : ℕ) (a : Answers) (s : ScheduleStore) (q : Schedule)
      → q.id ≢ k
      → IsLeft s
      → IsLeft (execute_schedule c grace a s q now)
  execute-IsLeft c grace now a s q other h =
      execute-stable c IsLeft (λ id. id ≢ k) (IsLeft-Stable c) grace a s q now other h

  pub execute_all-IsLeft :
      (c : CronParser) (grace now : ℕ) (a : Answers) (more : List Answers) (s : ScheduleStore)
      (due : List Schedule)
      → IsFree k due
      → IsLeft s
      → IsLeft (execute_all c grace a more s due now)
  execute_all-IsLeft c grace now a more s due free h =
      execute_all-stable c IsLeft (λ id. id ≢ k) (IsLeft-Stable c) grace a more s due now
        (others due free) h
    where
      others :
          (qs : List Schedule)
          → IsFree k qs
          → AllTouched c IsLeft (λ id. id ≢ k) (IsLeft-Stable c) qs
      others [] f = tt
      others (q ∷ qs) (n, f) = (n, others qs f)
