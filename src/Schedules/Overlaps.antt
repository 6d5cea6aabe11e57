-- ===== src/Schedules/Overlaps.antt =====
-- The runs of one schedule never overlap.
use autobeat.Prelude.{ℕ, String, true, some, List, [], ◌≡◌, sym, subst, inr}
use autobeat.Schedules.Cron.{CronParser}
use autobeat.Schedules.Store.{ScheduleStore}
use autobeat.Schedules.Histories.{Step, steps, CreateAll-requests}
use autobeat.Schedules.Stable.{Stable, Lasting}
use autobeat.Schedules.Stable.Steps.{IsUnstopped, steps-stable}
use autobeat.Schedules.Tracking.{
  live, Alternates, IsTracked, neutral-IsTracked, executed-IsTracked, loop_cancelled-IsTracked,
  ended-IsTracked,
}

IsTracked-Stable : (c : CronParser) → Stable c IsTracked (λ id. Unit)
IsTracked-Stable c = record {
  emits = neutral-IsTracked;
  others = λ s executions tasks b h. record {
    hears = h.hears;
    remembers = h.remembers;
    alternates = h.alternates;
  };
  writes = λ s id r u touched e w h. record {
    hears = h.hears;
    remembers = h.remembers;
    alternates = h.alternates;
  };
  executes = λ s id t touched idle h. executed-IsTracked s id t idle h;
}

IsTracked-Lasting : (c : CronParser) → Lasting c IsTracked (λ r. Unit)
IsTracked-Lasting c = record {
  stable = IsTracked-Stable c;
  cancels_loop = loop_cancelled-IsTracked;
  ends = ended-IsTracked;
  saves = λ s new made h. record {
    hears = h.hears;
    remembers = h.remembers;
    alternates = h.alternates;
  };
}

-- As long as the executor is not stopped, a schedule is executed again only when the task or the loop of
-- its last execution has ended or been cancelled, whatever is requested and whatever the database
-- answers, from a start without events.
pub executions_alternate :
    (c : CronParser) (grace : ℕ) (s : ScheduleStore) (xs : List Step)
    → s.events ≡ []
    → s.is_subscribed ≡ true
    → IsUnstopped xs
    → Alternates (steps c grace s xs).events
unfolding Alternates live
executions_alternate c grace s xs empty on n =
    (steps-stable c IsTracked (λ r. Unit) (IsTracked-Lasting c) grace s xs
      (CreateAll-requests (λ r. Unit) xs (λ id q timing pipeline is_loop t. tt)) (inr n)
      (record {
        hears = on;
        remembers = λ k t l. absurd (nothing k t l);
        alternates = subst Alternates (sym empty) tt;
      })).alternates
  where
    nothing : (k t : String) → live s.events k ≡ some t → ⊥
    nothing k t l = let l' = subst (λ es. live es k ≡ some t) empty l in cc
