-- ===== src/Schedules/Tracking.antt =====
-- The runs of a schedule in the order of the events, and what the executor remembers of them.
use autobeat.Prelude.{
  String, true, Option, none, some, List, [], ◌∷◌, ite, if_both, ◌≡◌, ◌≢◌, refl, sym, ap, ◌∙◌,
  arith, inl, inr, String-discrete, Option-cases,
}
use autobeat.Prelude.Dict
use autobeat.Prelude.Dict.{Dict}
use autobeat.Schedules.Store.{
  ScheduleEvent, schedule_executed, loop_cancelled, task_cancellation_requested, task_delegated,
  loop_created, schedule_triggered, schedule_missed, ended, ScheduleStore,
}
use autobeat.Schedules.Triggers.{emit_schedule_executed}
use autobeat.Schedules.Handler.{take_first, clear_running_schedule_by_tracking_id}
use autobeat.Schedules.Stable.{is_neutral}

-- A run that waits for another task or loop than the one that has ended.
unfoldable pub without : String → Option String → Option String
unfolding String-discrete
without t none = none
without t (some u) = ite (String-discrete u t) none (some u)

-- The task or loop of the last run of a schedule, while it has not ended; the latest event is the first.
unfoldable pub live : List ScheduleEvent → String → Option String
unfolding String-discrete
live [] k = none
live (schedule_executed id t ∷ es) k =
    let rest = live es k in ite (String-discrete id k) (some t) rest
live (ended t ∷ es) k = without t (live es k)
live (loop_cancelled t ∷ es) k = without t (live es k)
live (_ ∷ es) k = live es k

-- A schedule runs only when its last run has ended.
unfoldable pub Alternates : List ScheduleEvent → Type 0
Alternates [] = Unit
Alternates (schedule_executed id t ∷ es) = (live es id ≡ none) × Alternates es
Alternates (_ ∷ es) = Alternates es

-- The executor hears the events and remembers every run that has not ended.
pub record IsTracked (s : ScheduleStore) : Type 0 where
  pub hears : s.is_subscribed ≡ true
  pub remembers : (k t : String) → live s.events k ≡ some t → Dict.get s.running k ≡ some t
  pub alternates : Alternates s.events

neutral-live :
    (e : ScheduleEvent) (es : List ScheduleEvent) (k : String)
    → is_neutral e ≡ true
    → live (e ∷ es) k ≡ live es k
unfolding live
neutral-live (schedule_executed _ _) es k n = absurd cc
neutral-live (ended _) es k n = absurd cc
neutral-live (loop_cancelled _) es k n = absurd cc
neutral-live (task_delegated _) es k n = refl
neutral-live (loop_created _) es k n = refl
neutral-live (task_cancellation_requested _) es k n = refl
neutral-live (schedule_triggered _) es k n = refl
neutral-live (schedule_missed _) es k n = refl

neutral-Alternates :
    (e : ScheduleEvent) (es : List ScheduleEvent)
    → is_neutral e ≡ true
    → Alternates es
    → Alternates (e ∷ es)
unfolding Alternates
neutral-Alternates (schedule_executed _ _) es n h = absurd cc
neutral-Alternates (ended _) es n h = absurd cc
neutral-Alternates (loop_cancelled _) es n h = absurd cc
neutral-Alternates (task_delegated _) es n h = h
neutral-Alternates (loop_created _) es n h = h
neutral-Alternates (task_cancellation_requested _) es n h = h
neutral-Alternates (schedule_triggered _) es n h = h
neutral-Alternates (schedule_missed _) es n h = h

-- Other events than the ends and the runs.
pub neutral-IsTracked :
    (s : ScheduleStore) (e : ScheduleEvent)
    → is_neutral e ≡ true
    → IsTracked s
    → IsTracked (record s { events = e ∷ s.events })
neutral-IsTracked s e n h = record {
  hears = h.hears;
  remembers = λ k t l. h.remembers k t (sym (neutral-live e s.events k n) ∙ l);
  alternates = neutral-Alternates e s.events n h.alternates;
}

pub executed-IsTracked :
    (s : ScheduleStore) (id t : String)
    → Dict.get s.running id ≡ none
    → IsTracked s
    → IsTracked (emit_schedule_executed s id t)
unfolding emit_schedule_executed live Alternates
executed-IsTracked s id t idle h =
    if_both IsTracked s.is_subscribed
      (λ on. record {
        hears = h.hears;
        remembers = remembers;
        alternates = (ended_before, h.alternates);
      })
      (λ off. absurd cc)
  where
    ended_before : live s.events id ≡ none
    ended_before = elim (Option-cases (live s.events id)) [
      | inl e ↦ e
      | inr (u, e) ↦ let runs = h.remembers id u e in absurd cc
    ]

    remembers :
        (k u : String)
        → live (schedule_executed id t ∷ s.events) k ≡ some u
        → Dict.get (Dict.set s.running id t) k ≡ some u
    remembers k u l = ground (arith, Dict.get-set s.running id t k, h.remembers k u)

get-take_first :
    (m : Dict String) (t k u : String)
    → Dict.get m k ≡ some u
    → u ≢ t
    → Dict.get (take_first m t) k ≡ some u
unfolding Dict.get take_first
get-take_first [] t k u e n = absurd cc
get-take_first ((j, w) ∷ m) t k u e n = ground (arith, get-take_first m t k u)

-- An end, by whichever event.
cleared-IsTracked :
    (s : ScheduleStore) (e : ScheduleEvent) (t : String)
    → ((k : String) → live (e ∷ s.events) k ≡ without t (live s.events k))
    → (Alternates s.events → Alternates (e ∷ s.events))
    → IsTracked s
    → IsTracked (clear_running_schedule_by_tracking_id (record s { events = e ∷ s.events }) t)
unfolding clear_running_schedule_by_tracking_id without
cleared-IsTracked s e t drops keeps h =
    if_both IsTracked s.is_subscribed
      (λ on. record { hears = h.hears; remembers = remembers; alternates = keeps h.alternates })
      (λ off. absurd cc)
  where
    kept :
        (k u : String) (o : Option String)
        → live s.events k ≡ o
        → without t o ≡ some u
        → Dict.get (take_first s.running t) k ≡ some u
    kept k u none l w = absurd cc
    kept k u (some v) l w = elim (String-discrete v t) [
      | yes same ↦ absurd (ground arith)
      | no other ↦
          let here : v ≡ u = ground arith in
          get-take_first s.running t k u (h.remembers k u (l ∙ ap some here))
            (λ f. other (here ∙ f))
    ]

    remembers :
        (k u : String)
        → live (e ∷ s.events) k ≡ some u
        → Dict.get (take_first s.running t) k ≡ some u
    remembers k u l = kept k u (live s.events k) refl (sym (drops k) ∙ l)

pub loop_cancelled-IsTracked :
    (s : ScheduleStore) (t : String)
    → IsTracked s
    → IsTracked (
        clear_running_schedule_by_tracking_id (record s { events = loop_cancelled t ∷ s.events }) t)
unfolding live Alternates
loop_cancelled-IsTracked s t h = cleared-IsTracked s (loop_cancelled t) t (λ k. refl) (λ a. a) h

pub ended-IsTracked :
    (s : ScheduleStore) (t : String)
    → IsTracked s
    → IsTracked (clear_running_schedule_by_tracking_id (record s { events = ended t ∷ s.events }) t)
unfolding live Alternates
ended-IsTracked s t h = cleared-IsTracked s (ended t) t (λ k. refl) (λ a. a) h
