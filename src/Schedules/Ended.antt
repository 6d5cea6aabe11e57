-- ===== src/Schedules/Ended.antt =====
-- A schedule that has ended.
use autobeat.Prelude.{
  ℕ, String, Bool, true, false, some, List, [], ◌∷◌, ◌≡◌, ◌≢◌, refl, subst, arith,
}
use autobeat.Schedules.Schedule.{ScheduleStatus, Schedule, is_active, is_paused}
use autobeat.Schedules.Cron.{CronParser}
use autobeat.Schedules.Store.{ScheduleStore, find_row}
use autobeat.Schedules.Rows.{All, find-All, find-id}
use autobeat.Schedules.Histories.{Step, steps, requested_id, CreateAll, Creates-requested}
use autobeat.Schedules.Kept.{IsClosed, steps-All}
use autobeat.Schedules.Stable.{runs, cancels, pauses, resumes, completes, moves}

-- Completed, cancelled or expired.
abbrev pub is_ended : ScheduleStatus → Bool
is_ended ScheduleStatus.completed = true
is_ended ScheduleStatus.cancelled = true
is_ended ScheduleStatus.expired = true
is_ended _ = false

-- A row of that id has ended, after so many runs.
abbrev pub HasEnded : String → ℕ → Schedule → Type 0
HasEnded id n r = r.id ≡ id → (is_ended r.status ≡ true) × (r.run_count ≡ n)

abbrev pub IsFresh : String → List Step → Type 0
IsFresh id [] = Unit
IsFresh id (x ∷ xs) = (requested_id x ≢ some id) × IsFresh id xs

active_not_ended : (status : ScheduleStatus) → is_active status ≡ true → is_ended status ≡ true → ⊥
active_not_ended status e f = ground arith

paused_not_ended : (status : ScheduleStatus) → is_paused status ≡ true → is_ended status ≡ true → ⊥
paused_not_ended status e f = ground arith

HasEnded-closed : (id : String) (n : ℕ) (c : CronParser) → IsClosed (HasEnded id n) c
HasEnded-closed id n c r _ (runs t now on) h e = absurd (active_not_ended r.status on (h e).0)
HasEnded-closed id n c r _ cancels h e = (refl, (h e).1)
HasEnded-closed id n c r _ (pauses on) h e = absurd (active_not_ended r.status on (h e).0)
HasEnded-closed id n c r _ (resumes t on) h e = absurd (paused_not_ended r.status on (h e).0)
HasEnded-closed id n c r _ completes h e = (refl, (h e).1)
HasEnded-closed id n c r _ (moves t) h e = h e

fresh_create : (id : String) (n : ℕ) (xs : List Step) → IsFresh id xs → CreateAll (HasEnded id n) xs
fresh_create id n [] f = tt
fresh_create id n (x ∷ xs) (f, fs) = (
  Creates-requested (HasEnded id n) x (λ k e q timing pipeline is_loop t same.
      absurd (f (subst (λ (y : String). requested_id x ≡ some y) same e))),
  fresh_create id n xs fs,
)

-- A schedule that is completed, cancelled or expired never runs again and stays in one of these states,
-- whatever happens later, as long as no new schedule is given its id.
pub ended_stays :
    (c : CronParser) (grace : ℕ) (s : ScheduleStore) (xs : List Step) (id : String) (n : ℕ)
    (r : Schedule)
    → All (HasEnded id n) s.rows
    → IsFresh id xs
    → find_row (steps c grace s xs).rows id ≡ some r
    → (is_ended r.status ≡ true) × (r.run_count ≡ n)
ended_stays c grace s xs id n r h fresh e =
    find-All (HasEnded id n) (steps c grace s xs).rows id r e
      (steps-All (HasEnded id n) c grace s xs (HasEnded-closed id n c) (fresh_create id n xs fresh)
        h)
      (find-id (steps c grace s xs).rows id r e)
