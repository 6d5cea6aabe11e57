-- ===== src/Schedules/Kept.antt =====
-- What holds of every row, and is kept by each write to a row, holds of the rows after any history.
use autobeat.Prelude.{ℕ, List, if_both, inl}
use autobeat.Schedules.Schedule.{Schedule, ScheduleUpdate, update_schedule}
use autobeat.Schedules.Cron.{CronParser}
use autobeat.Schedules.Store.{ScheduleStore}
use autobeat.Schedules.Triggers.{emit_schedule_executed}
use autobeat.Schedules.Handler.{clear_running_schedule_by_tracking_id}
use autobeat.Schedules.Executor.{stop}
use autobeat.Schedules.Rows.{All, find-All, write-All, save-All}
use autobeat.Schedules.Histories.{Step, steps, CreateAll}
use autobeat.Schedules.Stable.{IsWrite, Stable, Lasting}
use autobeat.Schedules.Stable.Steps.{steps-stable}

module _ (P : Schedule → Type 0) (c : CronParser) where
  -- Every write to a row keeps it.
  abbrev pub IsClosed : Type 0
  IsClosed = (r : Schedule) (u : ScheduleUpdate) → IsWrite c r u → P r → P (update_schedule r u)

  abbrev Held : ScheduleStore → Type 0
  Held s = All P s.rows

  rows-Stable : IsClosed → Stable c Held (λ id. Unit)
  unfolding emit_schedule_executed
  rows-Stable closed = record {
    emits = λ s e n h. h;
    others = λ s executions tasks b h. h;
    writes = λ s id r u touched e w h.
        write-All P s.rows (update_schedule r u) (closed r u w (find-All P s.rows id r e h)) h;
    executes = λ s id t touched idle h. if_both Held s.is_subscribed (λ _. h) (λ _. h);
  }

  rows-Lasting : IsClosed → Lasting c Held P
  unfolding clear_running_schedule_by_tracking_id
  rows-Lasting closed = record {
    stable = rows-Stable closed;
    cancels_loop = λ s t h. if_both Held s.is_subscribed (λ _. h) (λ _. h);
    ends = λ s t h. if_both Held s.is_subscribed (λ _. h) (λ _. h);
    saves = λ s new made h. save-All P s.rows new made h;
  }

  pub steps-All :
      (grace : ℕ) (s : ScheduleStore) (xs : List Step)
      → IsClosed
      → CreateAll P xs
      → Held s
      → Held (steps c grace s xs)
  unfolding stop
  steps-All grace s xs closed f h =
      steps-stable c Held P (rows-Lasting closed) grace s xs f (inl (λ t k. k)) h
